-- ===== src/Base/Texts.antt =====
-- Python's texts as lists of character codes, on ASCII.
pub mod Replace
use soc_one.Base.Tests.{leb, ◌==◌, if◌then◌else◌}
use Prim.Native.Nat.{ℕ, zero, suc, ◌+◌, ◌-◌}
use Prim.Native.Char.{code}
use Prim.Native.String.{String}
use mathlib.Core.Bool.{Bool, true, false, ◌&&◌, ◌||◌, not}
use mathlib.Core.List.{List, [], ◌∷◌, ◌++◌}

abbrev pub codes : String → List ℕ
codes String.[] = []
codes (String.◌∷◌ c s) = code c ∷ codes s

abbrev pub is_upper : ℕ → Bool
is_upper c = leb b'A' c && leb c b'Z'

-- `str.lower()`
unfoldable pub lower : List ℕ → List ℕ
lower [] = []
lower (c ∷ cs) = (if is_upper c then c + 32 else c) ∷ lower cs

abbrev is_space : ℕ → Bool
is_space c = c == 32 || (leb 9 c && leb c 13) || (leb 28 c && leb c 31)

unfoldable pub strip_left : List ℕ → List ℕ
strip_left [] = []
strip_left (c ∷ cs) = if is_space c then strip_left cs else c ∷ cs

unfoldable pub strip_right : List ℕ → List ℕ
strip_right [] = []
strip_right (c ∷ cs) = elim (strip_right cs) [
  | [] ↦ if is_space c then [] else c ∷ []
  | d ∷ ds ↦ c ∷ d ∷ ds
]

-- `str.strip()`
unfoldable pub strip : List ℕ → List ℕ
unfolding strip_left strip_right
strip cs = strip_right (strip_left cs)

unfoldable pub same_codes : List ℕ → List ℕ → Bool
same_codes [] [] = true
same_codes [] (d ∷ ds) = false
same_codes (c ∷ cs) [] = false
same_codes (c ∷ cs) (d ∷ ds) = c == d && same_codes cs ds

abbrev pub is_blank : List ℕ → Bool
is_blank [] = true
is_blank (c ∷ cs) = false

-- `str.upper()`
unfoldable pub upper : List ℕ → List ℕ
upper [] = []
upper (c ∷ cs) = (if leb b'a' c && leb c b'z' then c - 32 else c) ∷ upper cs

-- `text.startswith(prefix)`
unfoldable pub has_prefix : List ℕ → List ℕ → Bool
has_prefix [] cs = true
has_prefix (d ∷ ds) [] = false
has_prefix (d ∷ ds) (c ∷ cs) = d == c && has_prefix ds cs

-- `part in text`
unfoldable pub is_part : List ℕ → List ℕ → Bool
unfolding has_prefix
is_part part [] = has_prefix part []
is_part part (c ∷ cs) = if has_prefix part (c ∷ cs) then true else is_part part cs

-- `text.endswith(suffix)`
unfoldable pub has_suffix : List ℕ → List ℕ → Bool
unfolding same_codes
has_suffix suffix [] = same_codes suffix []
has_suffix suffix (c ∷ cs) = if same_codes suffix (c ∷ cs) then true else has_suffix suffix cs

abbrev pub is_one_of : ℕ → List ℕ → Bool
is_one_of c [] = false
is_one_of c (d ∷ ds) = c == d || is_one_of c ds

-- `text.lstrip(chars)` and `text.rstrip(chars)`
unfoldable pub lstrip : List ℕ → List ℕ → List ℕ
lstrip chars [] = []
lstrip chars (c ∷ cs) = if is_one_of c chars then lstrip chars cs else c ∷ cs

unfoldable pub rstrip : List ℕ → List ℕ → List ℕ
rstrip chars [] = []
rstrip chars (c ∷ cs) = elim (rstrip chars cs) [
  | [] ↦ if is_one_of c chars then [] else c ∷ []
  | d ∷ ds ↦ c ∷ d ∷ ds
]

abbrev pub code_count : List ℕ → ℕ
code_count [] = 0
code_count (c ∷ cs) = suc (code_count cs)

-- `text.replace(needle, replacement)` for a needle of one character and its rest; the first argument is how
-- many characters of a needle are still to be passed over.
unfoldable pub replace_from : ℕ → ℕ → List ℕ → List ℕ → List ℕ → List ℕ
unfolding has_prefix
replace_from skip d ds replacement [] = []
replace_from (suc skip) d ds replacement (c ∷ cs) = replace_from skip d ds replacement cs
replace_from zero d ds replacement (c ∷ cs) =
    let hit = has_prefix (d ∷ ds) (c ∷ cs) in
    let rest = replace_from (if hit then code_count ds else 0) d ds replacement cs in
    if hit then replacement ++ rest else c ∷ rest

-- An empty needle is not asked for.
unfoldable pub replace : List ℕ → List ℕ → List ℕ → List ℕ
unfolding replace_from
replace [] replacement text = text
replace (d ∷ ds) replacement text = replace_from zero d ds replacement text

-- The order of texts.
unfoldable pub text_le : List ℕ → List ℕ → Bool
text_le [] ys = true
text_le (x ∷ xs) [] = false
text_le (x ∷ xs) (y ∷ ys) = let rest = text_le xs ys in if x == y then rest else leb x y

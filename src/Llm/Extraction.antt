-- ===== src/Llm/Extraction.antt =====
-- `_balanced_object` of backend/integrations/llm/extraction.py, on lists of character codes.
pub mod Balance
pub mod Finds
use soc_one.Base.{
  ℕ, suc, ◌-◌, ◌≡◌, refl, ap, Bool, true, false, ◌&&◌, not, Option, none, some, List, [], ◌∷◌, ◌++◌,
  ◌==◌, if◌then◌else◌, All, arith, Bool-cases, Option-cases, inl, inr,
}

abbrev pub Text : Type 0
Text = List ℕ

abbrev pub backslash : ℕ
backslash = 92

abbrev pub quote : ℕ
quote = 34

abbrev pub opening : ℕ
opening = 123

abbrev pub closing : ℕ
closing = 125

pub record Scan : Type 0 where
  pub depth : ℕ
  pub in_string : Bool
  pub escaped : Bool

abbrev pub start : Scan
start = record { depth = 0; in_string = false; escaped = false }

abbrev in_text : Scan → ℕ → Scan
in_text s c =
    if s.escaped
    then record s { escaped = false }
    else if c == backslash
    then record s { escaped = true }
    else if c == quote
    then record s { in_string = false }
    else s

abbrev outside : Scan → ℕ → Scan
outside s c =
    if c == quote
    then record s { in_string = true }
    else if c == opening
    then record s { depth = suc s.depth }
    else if c == closing
    then record s { depth = s.depth - 1 }
    else s

-- The loop's body on one character. The scan starts on an opening brace and ends where the depth falls
-- to 0, so the depth is positive at every closing brace that it meets.
unfoldable pub step : Scan → ℕ → Scan
step s c = if s.in_string then in_text s c else outside s c

-- The body returns at this character.
unfoldable pub closes : Scan → ℕ → Bool
unfolding step
closes s c = not s.in_string && c == closing && (step s c).depth == 0

unfoldable pub scan : Scan → Text → Option Text
unfolding closes step
scan s [] = none
scan s (c ∷ cs) =
    let rest = scan (step s c) cs in
    if closes s c then some (c ∷ []) else elim rest [ none ↦ none | some found ↦ some (c ∷ found) ]

-- `text.find("{")`, and the scan from there.
unfoldable pub balanced_object : Text → Option Text
unfolding scan
balanced_object [] = none
balanced_object (c ∷ cs) =
    let rest = balanced_object cs in if c == opening then scan start (c ∷ cs) else rest

-- ===== src/Base/Texts/Replace.antt =====
-- What `str.replace` leaves of a text.
use soc_one.Base.Tests.{Bool-cases}
use soc_one.Base.Lists.{All, take}
use soc_one.Base.Texts.{
  code_count, has_prefix, is_part, is_one_of, same_codes, replace, replace_from,
}
use Prim.Native.Nat.{ℕ, zero, suc}
use mathlib.Core.Path.{◌≡◌, refl}
use mathlib.Core.Logic.{inl, inr, ◌↔◌}
use mathlib.Core.Bool.{Bool, true, false, ◌&&◌, not}
use mathlib.Core.List.{List, [], ◌∷◌, ◌++◌}
use native.Mathlib.Omega.{arith}

pub same_codes_iff : (a b : List ℕ) → (same_codes a b ≡ true) ↔ (a ≡ b)
unfolding same_codes
same_codes_iff [] [] = (λ h. refl, λ h. refl)
same_codes_iff [] (d ∷ ds) = (λ h. cc, λ h. cc)
same_codes_iff (c ∷ cs) [] = (λ h. cc, λ h. cc)
same_codes_iff (c ∷ cs) (d ∷ ds) = (
  λ h. ground (arith, (same_codes_iff cs ds).0),
  λ h. ground (arith, h, (same_codes_iff cs ds).1),
)

-- No character of the first text stands in the second.
abbrev pub IsApart : List ℕ → List ℕ → Type 0
IsApart xs ds = All (λ c. is_one_of c ds ≡ false) xs

abbrev pub is_apart : List ℕ → List ℕ → Bool
is_apart [] ds = true
is_apart (x ∷ xs) ds = not (is_one_of x ds) && is_apart xs ds

pub is_apart-IsApart : (xs ds : List ℕ) → is_apart xs ds ≡ true → IsApart xs ds
is_apart-IsApart [] ds h = tt
is_apart-IsApart (x ∷ xs) ds h = ground (arith, h, is_apart-IsApart xs ds)

is_part-append_apart :
    (p : ℕ) (ps rep rest : List ℕ)
    → IsApart rep (p ∷ ps)
    → is_part (p ∷ ps) (rep ++ rest) ≡ is_part (p ∷ ps) rest
unfolding is_part has_prefix
is_part-append_apart p ps [] rest h = refl
is_part-append_apart p ps (r ∷ rep) rest h =
    ground (arith, h.0, is_part-append_apart p ps rep rest h.1)

module _ (d : ℕ) (ds : List ℕ) (r : ℕ) (rs : List ℕ) where
  abbrev replaced : ℕ → List ℕ → List ℕ
  replaced skip xs = replace_from skip d ds (r ∷ rs) xs

  has_prefix-replaced :
      (ps xs : List ℕ)
      → is_one_of r ps ≡ false
      → has_prefix ps (replaced 0 xs) ≡ true
      → has_prefix ps xs ≡ true
  unfolding has_prefix replace_from
  has_prefix-replaced [] xs a h = refl
  has_prefix-replaced (p ∷ ps) [] a h = h
  has_prefix-replaced (p ∷ ps) (c ∷ cs) a h = elim (Bool-cases (has_prefix (d ∷ ds) (c ∷ cs))) [
    | inl e ↦ absurd (ground (arith, e, h, a))
    | inr e ↦ ground (arith, e, h, a, has_prefix-replaced ps cs)
  ]

  -- Nothing of the replacement stands in a text: where the text is found afterwards it was there before.
  is_part-replaced :
      (p : ℕ) (ps : List ℕ) (skip : ℕ) (xs : List ℕ)
      → IsApart (r ∷ rs) (p ∷ ps)
      → is_part (p ∷ ps) (replaced skip xs) ≡ true
      → is_part (p ∷ ps) xs ≡ true
  unfolding has_prefix replace_from is_part
  is_part-replaced p ps zero [] a h = cc
  is_part-replaced p ps (suc skip) [] a h = cc
  is_part-replaced p ps (suc skip) (c ∷ cs) a h = ground (arith, h, is_part-replaced p ps skip cs a)
  is_part-replaced p ps zero (c ∷ cs) a h = elim (Bool-cases (has_prefix (d ∷ ds) (c ∷ cs))) [
    | inl e ↦
        let rest = replaced (code_count ds) cs in
        ground (
          arith,
          e,
          h,
          is_part-append_apart p ps (r ∷ rs) rest a,
          is_part-replaced p ps (code_count ds) cs a,
        )
    | inr e ↦ ground (arith, e, h, a, has_prefix-replaced ps cs, is_part-replaced p ps 0 cs a)
  ]

  -- The needle is gone.
  not_part-replaced :
      (skip : ℕ) (xs : List ℕ)
      → IsApart (r ∷ rs) (d ∷ ds)
      → is_part (d ∷ ds) (replaced skip xs) ≡ false
  unfolding has_prefix replace_from is_part
  not_part-replaced zero [] a = refl
  not_part-replaced (suc skip) [] a = refl
  not_part-replaced (suc skip) (c ∷ cs) a = not_part-replaced skip cs a
  not_part-replaced zero (c ∷ cs) a = elim (Bool-cases (has_prefix (d ∷ ds) (c ∷ cs))) [
    | inl e ↦
        let rest = replaced (code_count ds) cs in
        ground (
          arith,
          e,
          is_part-append_apart d ds (r ∷ rs) rest a,
          not_part-replaced (code_count ds) cs a,
        )
    | inr e ↦ ground (arith, e, a, has_prefix-replaced ds cs, not_part-replaced 0 cs a)
  ]

has_prefix-take :
    (ps : List ℕ) (n : ℕ) (xs : List ℕ) → has_prefix ps (take n xs) ≡ true → has_prefix ps xs ≡ true
unfolding has_prefix
has_prefix-take [] n xs h = refl
has_prefix-take (p ∷ ps) zero xs h = cc
has_prefix-take (p ∷ ps) (suc n) [] h = h
has_prefix-take (p ∷ ps) (suc n) (x ∷ xs) h = ground (arith, h, has_prefix-take ps n xs)

is_part-take :
    (p : ℕ) (ps : List ℕ) (n : ℕ) (xs : List ℕ)
    → is_part (p ∷ ps) (take n xs) ≡ true
    → is_part (p ∷ ps) xs ≡ true
unfolding is_part
is_part-take p ps zero xs h = absurd (unfold has_prefix in cc h)
is_part-take p ps (suc n) [] h = h
is_part-take p ps (suc n) (x ∷ xs) h =
    ground (arith, h, has_prefix-take (p ∷ ps) (suc n) (x ∷ xs), is_part-take p ps n xs)

-- Where a needle is replaced by a text that shares no character with it, it is gone.
pub not_part-replace :
    (d : ℕ) (ds : List ℕ) (r : ℕ) (rs xs : List ℕ)
    → IsApart (r ∷ rs) (d ∷ ds)
    → is_part (d ∷ ds) (replace (d ∷ ds) (r ∷ rs) xs) ≡ false
unfolding replace
not_part-replace d ds r rs xs a = not_part-replaced d ds r rs 0 xs a

-- A replacement that shares no character with a text brings it into no other text.
pub replace_keeps_out :
    (p : ℕ) (ps : List ℕ) (d : ℕ) (ds : List ℕ) (r : ℕ) (rs xs : List ℕ)
    → IsApart (r ∷ rs) (p ∷ ps)
    → is_part (p ∷ ps) xs ≡ false
    → is_part (p ∷ ps) (replace (d ∷ ds) (r ∷ rs) xs) ≡ false
unfolding replace
replace_keeps_out p ps d ds r rs xs a out =
    elim (Bool-cases (is_part (p ∷ ps) (replace (d ∷ ds) (r ∷ rs) xs))) [
      | inl e ↦ absurd (cc (is_part-replaced d ds r rs p ps 0 xs a e, out))
      | inr e ↦ e
    ]

pub take_keeps_out :
    (p : ℕ) (ps : List ℕ) (n : ℕ) (xs : List ℕ)
    → is_part (p ∷ ps) xs ≡ false
    → is_part (p ∷ ps) (take n xs) ≡ false
take_keeps_out p ps n xs out = elim (Bool-cases (is_part (p ∷ ps) (take n xs))) [
  | inl e ↦ absurd (cc (is_part-take p ps n xs e, out))
  | inr e ↦ e
]

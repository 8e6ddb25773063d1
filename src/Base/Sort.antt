-- ===== src/Base/Sort.antt =====
-- Python's `sorted`, and lists counted by a test.
use soc_one.Base.Tests.{if◌then◌else◌, Bool-cases}
use soc_one.Base.Lists.{In, keep, take}
use Prim.Native.Nat.{ℕ, zero, suc, ◌+◌, ◌≤◌}
use mathlib.Core.Path.{◌≡◌, refl}
use mathlib.Core.Logic.{◌⊎◌, ◌↔◌, inl, inr}
use mathlib.Core.Bool.{Bool, true}
use mathlib.Core.List.{List, [], ◌∷◌, ◌++◌}
use native.Mathlib.Omega.{arith}

-- `sorted`, stable, by a test that says whether the first may stand before the second.
unfoldable pub insert_by : {A : Type 0} → (A → A → Bool) → A → List A → List A
insert_by before x [] = x ∷ []
insert_by before x (y ∷ ys) = if before x y then x ∷ y ∷ ys else y ∷ insert_by before x ys

unfoldable pub sort_by : {A : Type 0} → (A → A → Bool) → List A → List A
unfolding insert_by
sort_by before [] = []
sort_by before (x ∷ xs) = insert_by before x (sort_by before xs)

module _ {A : Type 0} (before : A → A → Bool) where
  In-insert_by : (a x : A) (xs : List A) → In a (insert_by before x xs) ↔ ((a ≡ x) ⊎ In a xs)
  unfolding insert_by
  In-insert_by a x [] = (λ h. h, λ h. h)
  In-insert_by a x (y ∷ ys) = elim (Bool-cases (before x y)) [
    | inl e ↦ rw e (λ h. h, λ h. h)
    | inr e ↦ rw e (
        let h = In-insert_by a x ys in
        (
          λ m. elim m [
            | inl p ↦ inr (inl p)
            | inr p ↦ elim (h.0 p) [ inl q ↦ inl q | inr q ↦ inr (inr q) ]
          ],
          λ m. elim m [
            | inl p ↦ inr (h.1 (inl p))
            | inr (inl p) ↦ inl p
            | inr (inr p) ↦ inr (h.1 (inr p))
          ],
        ))
  ]

  -- Sorting keeps what is in the list.
  pub In-sort_by : (a : A) (xs : List A) → In a (sort_by before xs) ↔ In a xs
  unfolding sort_by
  In-sort_by a [] = (λ h. h, λ h. h)
  In-sort_by a (x ∷ xs) =
      let h = In-insert_by a x (sort_by before xs) in
      let t = In-sort_by a xs in
      (
        λ m. elim (h.0 m) [ inl p ↦ inl p | inr p ↦ inr (t.0 p) ],
        λ m. elim m [ inl p ↦ h.1 (inl p) | inr p ↦ h.1 (inr (t.1 p)) ],
      )

-- How many of the list's items pass the test.
abbrev pub count : {A : Type 0} → (A → Bool) → List A → ℕ
count p [] = 0
count p (x ∷ xs) = (if p x then 1 else 0) + count p xs

module _ {A : Type 0} (p : A → Bool) where
  pub count-append : (xs ys : List A) → count p (xs ++ ys) ≡ count p xs + count p ys
  count-append [] ys = omega arith
  count-append (x ∷ xs) ys = omega (arith, count-append xs ys)

  pub count-keep-le : (q : A → Bool) (xs : List A) → count p (keep q xs) ≤ count p xs
  count-keep-le q [] = omega arith
  count-keep-le q (x ∷ xs) = ground (arith, count-keep-le q xs)

  pub count-take-le : (n : ℕ) (xs : List A) → count p (take n xs) ≤ count p xs
  count-take-le zero xs = omega arith
  count-take-le (suc n) [] = omega arith
  count-take-le (suc n) (x ∷ xs) = omega (arith, count-take-le n xs)

  pub In-count : (a : A) (xs : List A) → In a xs → p a ≡ true → 1 ≤ count p xs
  In-count a [] i h = elim i [ ]
  In-count a (x ∷ xs) (inl e) h = rw (← e, h) (omega arith)
  In-count a (x ∷ xs) (inr i) h = omega (arith, In-count a xs i h)

  count-insert_by :
      (before : A → A → Bool) (x : A) (xs : List A)
      → count p (insert_by before x xs) ≡ count p (x ∷ xs)
  unfolding insert_by
  count-insert_by before x [] = refl
  count-insert_by before x (y ∷ ys) = ground (arith, count-insert_by before x ys)

  pub count-sort_by :
      (before : A → A → Bool) (xs : List A) → count p (sort_by before xs) ≡ count p xs
  unfolding sort_by
  count-sort_by before [] = refl
  count-sort_by before (x ∷ xs) =
      ground (arith, count-insert_by before x (sort_by before xs), count-sort_by before xs)

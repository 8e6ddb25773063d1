-- ===== src/Correlation/Scoring/Forest.antt =====
-- The union-find array of backend/apps/agentic/correlation/scoring.py against the function that sends
-- each index to its root.
use soc_one.Base.{
  ℕ, zero, suc, ◌≤◌, ◌<◌, ◌≡◌, ◌≢◌, inl, inr, refl, sym, ◌∙◌, ◌&&◌, List, [], ◌∷◌, arith, min, max,
  ◌==◌, ltb, if◌then◌else◌, length, length-set, get_or, set, Bool-cases, fun_ext,
}
use soc_one.Correlation.Scoring.{parent_of, find_from, find, union}

-- `root` is the root function of the array.
pub record IsForest (parents : List ℕ) (root : ℕ → ℕ) : Type 0 where
  pub down : (i : ℕ) → parent_of parents i ≤ i
  pub fixed : (i : ℕ) → parent_of parents i ≡ i → root i ≡ i
  pub along : (i : ℕ) → root (parent_of parents i) ≡ root i
  pub below : (i : ℕ) → root i ≤ i

get_or-set :
    (xs : List ℕ) (i j v d : ℕ)
    → get_or (set xs i v) j d ≡ (if (i == j) && ltb i (length xs) then v else get_or xs j d)
get_or-set [] i j v d = ground arith
get_or-set (x ∷ xs) zero zero v d = ground arith
get_or-set (x ∷ xs) zero (suc j) v d = ground arith
get_or-set (x ∷ xs) (suc i) zero v d = ground arith
get_or-set (x ∷ xs) (suc i) (suc j) v d = ground (arith, get_or-set xs i j v d)

get_or_beyond : (xs : List ℕ) (i d : ℕ) → length xs ≤ i → get_or xs i d ≡ d
get_or_beyond [] i d h = refl
get_or_beyond (x ∷ xs) zero d h = absurd (omega arith)
get_or_beyond (x ∷ xs) (suc i) d h = get_or_beyond xs i d (omega arith)

-- Only an index of the array can have a parent other than itself.
inside : (parents : List ℕ) (i : ℕ) → parent_of parents i ≢ i → i < length parents
inside parents i h = elim (Bool-cases (ltb i (length parents))) [
  | inl e ↦ ground arith
  | inr e ↦ absurd (h (get_or_beyond parents i i (ground arith)))
]

parent_of-set :
    (parents : List ℕ) (i j v : ℕ)
    → i < length parents
    → parent_of (set parents i v) j ≡ (if i == j then v else parent_of parents j)
parent_of-set parents i j v h = ground (arith, get_or-set parents i j v j)

halve-IsForest :
    {parents : List ℕ} {root : ℕ → ℕ} (i : ℕ)
    → IsForest parents root
    → parent_of parents i ≢ i
    → IsForest (set parents i (parent_of parents (parent_of parents i))) root
halve-IsForest {parents} {root} i f h =
    let up = parent_of parents i in
    let at = λ (j : ℕ). parent_of-set parents i j (parent_of parents up) (inside parents i h) in
    record {
      down = λ j. ground (arith, at j, f.down j, f.down up, f.down i);
      fixed = λ j e. ground (arith, at j, f.down i, f.down up, f.fixed j);
      along = λ j. ground (arith, at j, f.along i, f.along up, f.along j);
      below = f.below;
    }

-- `find` returns the root and changes no root.
pub find_from-root :
    (fuel : ℕ) (parents : List ℕ) (root : ℕ → ℕ) (i : ℕ)
    → IsForest parents root
    → i < fuel
    → IsForest (find_from fuel parents i).0 root
      × ((find_from fuel parents i).1 ≡ root i)
      × (length (find_from fuel parents i).0 ≡ length parents)
unfolding find_from
find_from-root zero parents root i f h = absurd (omega arith)
find_from-root (suc fuel) parents root i f h = elim (Bool-cases (parent_of parents i == i)) [
  | inl e ↦ rw e (f, sym (f.fixed i (ground arith)), refl)
  | inr e ↦
      let up = parent_of parents i in
      let v = parent_of parents up in
      let moved : up ≢ i = ground arith in
      let halved = halve-IsForest i f moved in
      let at = parent_of-set parents i i v (inside parents i moved) in
      let next : parent_of (set parents i v) i ≡ v = ground arith in
      let (g, r, l) =
        find_from-root fuel (set parents i v) root (parent_of (set parents i v) i) halved
          (ground (arith, f.down i, f.down up)) in
      rw e (g, r ∙ halved.along i, l ∙ length-set parents i v)
]

pub find-root :
    (parents : List ℕ) (root : ℕ → ℕ) (i : ℕ)
    → IsForest parents root
    → IsForest (find parents i).0 root
      × ((find parents i).1 ≡ root i)
      × (length (find parents i).0 ≡ length parents)
unfolding find
find-root parents root i f = find_from-root (suc i) parents root i f (omega arith)

-- The roots after the larger of two roots is hung under the smaller.
abbrev pub merge : (ℕ → ℕ) → ℕ → ℕ → ℕ → ℕ
merge root a b k = if root k == max (root a) (root b) then min (root a) (root b) else root k

root_stays :
    {parents : List ℕ} {root : ℕ → ℕ} (i : ℕ) → IsForest parents root → root (root i) ≡ root i
root_stays {parents} {root} i f = climb (suc i) i (omega arith)
  where
    climb : (fuel k : ℕ) → k < fuel → root (root k) ≡ root k
    climb zero k h = absurd (omega arith)
    climb (suc fuel) k h = elim (Bool-cases (parent_of parents k == k)) [
      | inl e ↦ let p : root k ≡ k = f.fixed k (ground arith) in rw p p
      | inr e ↦
          let up = climb fuel (parent_of parents k) (ground (arith, f.down k)) in
          rw (f.along k) at up
    ]

-- Hanging one root under a smaller one.
hang-IsForest :
    (parents : List ℕ) (root : ℕ → ℕ) (a b : ℕ)
    → IsForest parents root
    → a < length parents
    → b < length parents
    → root a ≢ root b
    → IsForest (set parents (max (root a) (root b)) (min (root a) (root b))) (merge root a b)
hang-IsForest parents root a b f ha hb d =
    let hi = max (root a) (root b) in
    let lo = min (root a) (root b) in
    let at = λ (j : ℕ). parent_of-set parents hi j lo (ground (arith, f.below a, f.below b)) in
    record {
      down = λ j. ground (arith, at j, f.down j);
      fixed = λ j e. ground (arith, at j, f.fixed j);
      along = λ j. ground (arith, at j, f.along j, root_stays a f, root_stays b f);
      below = λ j. ground (arith, f.below j);
    }

-- `union` leaves a forest of the same size in which the two roots are one, the smaller.
pub union-IsForest :
    (parents : List ℕ) (root : ℕ → ℕ) (a b : ℕ)
    → IsForest parents root
    → a < length parents
    → b < length parents
    → IsForest (union parents a b) (merge root a b) × (length (union parents a b) ≡ length parents)
unfolding union
union-IsForest parents root a b f ha hb =
    let (ga, ra, la) = find-root parents root a f in
    let after_a = (find parents a).0 in
    let (gb, rb, lb) = find-root after_a root b ga in
    let after_b = (find after_a b).0 in
    elim (Bool-cases (root a == root b)) [
      | inl e ↦
          let same : merge root a b ≡ root = fun_ext (λ k. ground arith) in
          rw (ra, rb, e, same) (gb, lb ∙ la)
      | inr e ↦
          rw (ra, rb, e)
            (
              hang-IsForest after_b root a b gb (ground arith) (ground arith) (ground arith),
              length-set after_b (max (root a) (root b)) (min (root a) (root b)) ∙ lb ∙ la,
            )
    ]

-- ===== src/Correlation/Scoring/Groups.antt =====
-- The grouping loop of backend/apps/agentic/correlation/scoring.py.
use soc_one.Base.{
  ℕ, zero, suc, ◌+◌, ◌<◌, ◌≡◌, ◌⊎◌, ◌↔◌, inl, inr, refl, Bool, true, false, List, [], ◌∷◌, ◌++◌,
  arith, ◌==◌, ltb, if◌then◌else◌, In, Bool-cases, any,
}
use soc_one.Correlation.Scoring.{Group, find, append_to, group_from}
use soc_one.Correlation.Scoring.Forest.{IsForest, find-root}

abbrev pub has_root : List Group → ℕ → Bool
has_root groups r = any (λ g. g.root == r) groups

abbrev pub Distinct : List Group → Type 0
Distinct [] = Unit
Distinct (g ∷ groups) = (has_root groups g.root ≡ false) × Distinct groups

-- A group holds exactly the indexes below `k` that have its root.
abbrev pub IsExact : ℕ → (ℕ → ℕ) → Group → Type 0
IsExact k root g = (i : ℕ) → In i g.members ↔ ((i < k) × (root i ≡ g.root))

abbrev pub Exact : ℕ → (ℕ → ℕ) → List Group → Type 0
Exact k root [] = Unit
Exact k root (g ∷ groups) = IsExact k root g × Exact k root groups

In-append : (i k : ℕ) (xs : List ℕ) → In i (xs ++ k ∷ []) ↔ (In i xs ⊎ (i ≡ k))
In-append i k [] = (λ h. ground arith, λ h. ground arith)
In-append i k (x ∷ xs) = let h = In-append i k xs in (λ m. ground arith, λ m. ground arith)

-- Groups of other roots do not see the next index.
others-Exact :
    (k : ℕ) (root : ℕ → ℕ) (groups : List Group)
    → has_root groups (root k) ≡ false
    → Exact k root groups
    → Exact (suc k) root groups
others-Exact k root [] h e = tt
others-Exact k root (g ∷ groups) h e = (
  λ i. (λ m. let (a, b) = (e.0 i).0 m in (omega arith, b), λ m. (e.0 i).1 (ground arith, m.1)),
  others-Exact k root groups (ground arith) e.1,
)

append_to-Exact :
    (k : ℕ) (root : ℕ → ℕ) (groups : List Group)
    → Distinct groups
    → Exact k root groups
    → ((i : ℕ) → i < k → root i ≡ root k → has_root groups (root k) ≡ true)
    → Exact (suc k) root (append_to (root k) k groups)
unfolding append_to
append_to-Exact k root [] d e c = (
  λ i. (
    λ m. elim m [ inl p ↦ rw p (omega arith, refl) | inr p ↦ elim p [ ] ],
    λ m. elim (Bool-cases (ltb i k)) [
      | inl p ↦ absurd (ground (arith, c i))
      | inr p ↦ inl (ground arith)
    ],
  ),
  tt,
)
append_to-Exact k root (g ∷ groups) d e c = elim (Bool-cases (g.root == root k)) [
  | inl h ↦
      let p : g.root ≡ root k = ground arith in
      rw h (
        λ i.
            let m = In-append i k g.members in
            (
              λ j. elim (m.0 j) [
                | inl q ↦ let (a, b) = (e.0 i).0 q in (omega arith, b)
                | inr q ↦ rw (q, p) (omega arith, refl)
              ],
              λ j. elim (Bool-cases (ltb i k)) [
                | inl q ↦ m.1 (inl ((e.0 i).1 (ground arith, j.1)))
                | inr q ↦ m.1 (inr (ground arith))
              ],
            ),
        others-Exact k root groups (rw p at d.0) e.1,
      )
  | inr h ↦ rw h (
    λ i. (λ m. let (a, b) = (e.0 i).0 m in (omega arith, b), λ m. (e.0 i).1 (ground arith, m.1)),
    append_to-Exact k root groups d.1 e.1 (λ i l q. let r = c i l q in ground arith),
  )
]

has_root-append_to :
    (root k : ℕ) (groups : List Group) (r : ℕ)
    → has_root (append_to root k groups) r ≡ (if root == r then true else has_root groups r)
unfolding append_to
has_root-append_to root k [] r = ground arith
has_root-append_to root k (g ∷ groups) r = ground (arith, has_root-append_to root k groups r)

append_to-Distinct :
    (root k : ℕ) (groups : List Group) → Distinct groups → Distinct (append_to root k groups)
unfolding append_to
append_to-Distinct root k [] d = (refl, tt)
append_to-Distinct root k (g ∷ groups) d =
    ground (arith, append_to-Distinct root k groups d.1, has_root-append_to root k groups g.root)

-- After the indexes below `k`, the groups are the classes of `root` among them.
pub record IsGrouped (k : ℕ) (root : ℕ → ℕ) (groups : List Group) : Type 0 where
  pub distinct : Distinct groups
  pub exact : Exact k root groups
  pub covered : (i : ℕ) → i < k → has_root groups (root i) ≡ true

append_to-IsGrouped :
    (k : ℕ) (root : ℕ → ℕ) (groups : List Group)
    → IsGrouped k root groups
    → IsGrouped (suc k) root (append_to (root k) k groups)
append_to-IsGrouped k root groups g = record {
  distinct = append_to-Distinct (root k) k groups g.distinct;
  exact = append_to-Exact k root groups g.distinct g.exact (λ i h e. rw (← e) (g.covered i h));
  covered = λ i h. rw (has_root-append_to (root k) k groups (root i)) (elim (Bool-cases (ltb i k)) [
    | inl p ↦ ground (arith, g.covered i)
    | inr p ↦ let q : i ≡ k = ground arith in rw q (ground arith)
  ]);
}

pub group_from-IsGrouped :
    (n k m : ℕ) (parents : List ℕ) (root : ℕ → ℕ) (groups : List Group)
    → k + n ≡ m
    → IsForest parents root
    → IsGrouped k root groups
    → IsGrouped m root (group_from n k parents groups)
unfolding group_from
group_from-IsGrouped zero k m parents root groups e f g = let p : k ≡ m = omega arith in rw (← p) g
group_from-IsGrouped (suc n) k m parents root groups e f g =
    let (f', r, _) = find-root parents root k f in
    rw r (
      group_from-IsGrouped n (suc k) m (find parents k).0 root (append_to (root k) k groups)
        (omega arith) f' (append_to-IsGrouped k root groups g))

pub empty-IsGrouped : (root : ℕ → ℕ) → IsGrouped 0 root []
empty-IsGrouped root = record { distinct = tt; exact = tt; covered = λ i h. absurd (omega arith) }

pub Exact-In :
    (k : ℕ) (root : ℕ → ℕ) (g : Group) (groups : List Group)
    → Exact k root groups
    → In g groups
    → IsExact k root g
Exact-In k root g [] e h = elim h [ ]
Exact-In k root g (x ∷ groups) e (inl p) = rw p e.0
Exact-In k root g (x ∷ groups) e (inr i) = Exact-In k root g groups e.1 i

pub has_root-In :
    (groups : List Group) (r : ℕ)
    → has_root groups r ≡ true
    → (g : Group) × In g groups × (g.root ≡ r)
has_root-In [] r h = cc
has_root-In (g ∷ groups) r h = elim (Bool-cases (g.root == r)) [
  | inl e ↦ (g, inl refl, ground arith)
  | inr e ↦ let (q, i, p) = has_root-In groups r (rw e at h) in (q, inr i, p)
]

-- ===== src/Cases/Relationships/Walk.antt =====
-- The loop of `_validate_parent_relationship` (backend/apps/cases/services.py): it ends, and in a
-- consistent table it refuses exactly the links that would close a cycle.
use soc_one.Base.{
  ℕ, zero, suc, ◌≤◌, ◌<◌, ◌≡◌, ◌≢◌, ◌⊎◌, inl, inr, refl, Option, none, some, List, [], ◌∷◌, arith,
  In, first, any, keep, length, Bool, true, false, not, ◌&&◌, ◌==◌, Bool-cases, Option-cases, ◌↔◌,
  ap, ◌∙◌,
}
use soc_one.Cases.Relationships.{Row, is_parent, parent_id, climb}
use soc_one.Cases.Relationships.Ancestry.{
  Above, parent, further, Above-trans, IsConsistent, parent_id-In, first-In,
}

abbrev seen : List ℕ → ℕ → Bool
seen visited c = any (λ v. v == c) visited

-- The rows whose target the climb has not visited yet.
abbrev left : List ℕ → List Row → ℕ
left visited rows = length (keep (λ r. not (seen visited r.target)) rows)

left-visit :
    (visited : List ℕ) (c : ℕ) (rows : List Row) → left (c ∷ visited) rows ≤ left visited rows
left-visit visited c [] = omega arith
left-visit visited c (r ∷ rows) = ground (arith, left-visit visited c rows)

-- Visiting a row's target leaves fewer rows.
left-visit-lt :
    (visited : List ℕ) (c : ℕ) (rows : List Row) (r : Row)
    → In r rows
    → r.target ≡ c
    → seen visited c ≡ false
    → left (c ∷ visited) rows < left visited rows
left-visit-lt visited c [] r i e s = elim i [ ]
left-visit-lt visited c (q ∷ rows) r (inl i) e s =
    rw (← i, e, s) (ground (arith, left-visit visited c rows))
left-visit-lt visited c (q ∷ rows) r (inr i) e s =
    ground (arith, left-visit-lt visited c rows r i e s)

-- What the climb's query returns comes from a parent link.
parent_id-some :
    (rows : List Row) (c p : ℕ)
    → parent_id rows c ≡ some p
    → (r : Row) × In r rows × (is_parent r ≡ true) × (r.source ≡ p) × (r.target ≡ c)
unfolding parent_id
parent_id-some rows c p h = go (first test rows) refl
  where
    test : Row → Bool
    test q = is_parent q && q.target == c

    go :
        (o : Option Row)
        → first test rows ≡ o
        → (r : Row) × In r rows × (is_parent r ≡ true) × (r.source ≡ p) × (r.target ≡ c)
    go none e = absurd (ground arith)
    go (some q) e =
        let (i, t) = first-In test rows q e in (q, i, ground arith, ground arith, ground arith)

left-le-length : (rows : List Row) → left [] rows < suc (length rows)
left-le-length [] = omega arith
left-le-length (r ∷ rows) = omega (arith, left-le-length rows)

climb_fuel :
    (fuel : ℕ) (rows : List Row) (target c : ℕ) (visited : List ℕ)
    → left visited rows < fuel
    → climb fuel rows target c visited ≢ none
unfolding climb
climb_fuel zero rows target c visited h = absurd (omega arith)
climb_fuel (suc fuel) rows target c visited h = elim (Bool-cases (seen visited c)) [
  | inl e ↦ rw e (λ p. cc)
  | inr e ↦ elim (Option-cases (parent_id rows c)) [
    | inl e' ↦ rw (e, e') (ground arith)
    | inr (p, e') ↦
        let (r, i, _, _, t) = parent_id-some rows c p e' in
        let rest = climb_fuel fuel rows target p (c ∷ visited) in
        rw (e, e') (ground (arith, rest, left-visit-lt visited c rows r i t e))
  ]
]

seen-In : (visited : List ℕ) (c : ℕ) → seen visited c ≡ true → In c visited
seen-In [] c h = cc
seen-In (v ∷ visited) c h = ground (arith, seen-In visited c)

-- In a consistent table the climb from `c` to its one parent.
parent_id-link :
    {rows : List Row} (r : Row) (p c : ℕ)
    → IsConsistent rows
    → In r rows
    → is_parent r ≡ true
    → r.source ≡ p
    → r.target ≡ c
    → parent_id rows c ≡ some p
parent_id-link r p c v i k s t = rw (← t, ← s) (parent_id-In r v i k)

below_parent :
    {rows : List Row} (r : Row) (p c : ℕ) (visited : List ℕ)
    → In r rows
    → is_parent r ≡ true
    → r.source ≡ p
    → r.target ≡ c
    → ((v : ℕ) → In v visited → Above rows c v)
    → (v : ℕ) → In v (c ∷ visited)
    → Above rows p v
below_parent r p c visited i k s t below v (inl e) = rw e (parent r i k s t)
below_parent r p c visited i k s t below v (inr m) = Above-trans (parent r i k s t) (below v m)

-- The last link of a chain, and what stands above it.
abbrev LastLink : List Row → ℕ → ℕ → Type 0
LastLink rows a c =
    (r : Row) × In r rows
    × (is_parent r ≡ true)
    × (r.target ≡ c)
    × ((r.source ≡ a) ⊎ Above rows a r.source)

last_link : {rows : List Row} {a c : ℕ} → Above rows a c → LastLink rows a c
last_link (parent r i k s t) = (r, i, k, t, inl s)
last_link {rows} {a} (further r q i k s t) = (r, i, k, t, inr (rw s q))

-- The climb is at `c`; everything visited so far stands below `c`.
climb_finds :
    (fuel : ℕ) (rows : List Row) (target c : ℕ) (visited : List ℕ)
    → IsConsistent rows
    → (c ≡ target) ⊎ Above rows target c
    → ((v : ℕ) → In v visited → Above rows c v)
    → climb fuel rows target c visited ≢ some false
unfolding climb
climb_finds zero rows target c visited v a below = λ p. cc
climb_finds (suc fuel) rows target c visited v a below = elim (Bool-cases (seen visited c)) [
  | inl e ↦ absurd (v.acyclic c (below c (seen-In visited c e)))
  | inr e ↦ elim a [
    | inl t ↦ rw e (ground arith)
    | inr q ↦
        let (r, i, k, t, rest) = last_link q in
        let next =
          climb_finds fuel rows target r.source (c ∷ visited) v rest
            (below_parent r r.source c visited i k refl t below) in
        rw (e, parent_id-link r r.source c v i k refl t) (ground (arith, next))
  ]
]

climb_honest :
    (fuel : ℕ) (rows : List Row) (target c : ℕ) (visited : List ℕ)
    → climb fuel rows target c visited ≡ some true
    → (c ≡ target) ⊎ Above rows target c
unfolding climb
climb_honest zero rows target c visited h = cc
climb_honest (suc fuel) rows target c visited h = elim (Bool-cases (c == target)) [
  | inl e ↦ inl (ground arith)
  | inr e ↦ elim (Option-cases (parent_id rows c)) [
    | inl n ↦ absurd (ground arith)
    | inr (p, e') ↦
        let (r, i, k, s, t) = parent_id-some rows c p e' in
        elim (climb_honest fuel rows target p (c ∷ visited) (ground arith)) [
          | inl q ↦ inr (parent r i k (s ∙ q) t)
          | inr q ↦ inr (further r q i k s t)
        ]
  ]
]

-- In a consistent table the loop always ends within one round more than the table has rows, and it
-- refuses exactly when the target is the source itself or already stands above it.
pub climb_decides :
    (rows : List Row) (target source : ℕ)
    → IsConsistent rows
    → (climb (suc (length rows)) rows target source [] ≢ none)
      × ((climb (suc (length rows)) rows target source [] ≡ some true)
          ↔ ((source ≡ target) ⊎ Above rows target source))
climb_decides rows target source v =
    let n = suc (length rows) in
    let total = climb_fuel n rows target source [] (left-le-length rows) in
    (
      total,
      (
        climb_honest n rows target source [],
        λ a. elim (Option-cases (climb n rows target source [])) [
          | inl e ↦ absurd (total e)
          | inr (b, e) ↦ elim (Bool-cases b) [
            | inl t ↦ rw e (ap some t)
            | inr f ↦
                absurd
                  (climb_finds n rows target source [] v a (λ w i. elim i [ ]) (rw e (ap some f)))
          ]
        ],
      ),
    )

-- The same loop whatever the table holds: it ends, and a refusal is never made up.
pub climb_total :
    (rows : List Row) (target source : ℕ) → climb (suc (length rows)) rows target source [] ≢ none
climb_total rows target source =
    climb_fuel (suc (length rows)) rows target source [] (left-le-length rows)

-- ===== src/Cases/Relationships/Requests.antt =====
-- The requests that write the link table (backend/apps/cases/serializers.py).
use soc_one.Base.{
  ℕ, suc, ◌≡◌, ◌≢◌, ◌↔◌, inl, inr, refl, sym, ◌∙◌, Option, none, some, List, [], ◌∷◌, arith, In,
  any, length, Bool, true, false, ◌&&◌, ◌==◌, Option-cases,
}
use soc_one.Cases.Relationships.{
  Row, Kind, parent_of, duplicate_of, related, is_parent, is_duplicate, same_pair, Result, ok, err,
  unfinished, conflict, validate_relationship, excluding, climb, refuse_cycle, validate_kind,
  create, update, replace,
}
use soc_one.Cases.Relationships.Ancestry.{Above, IsConsistent}
use soc_one.Cases.Relationships.Walk.{climb_decides, climb_total}
use soc_one.Cases.Relationships.Keeps.{
  IsAdmissible, validate-Queries, extend-IsConsistent, validate_relationship-IsAdmissible,
}
use soc_one.Cases.Relationships.Rows.{fewer-IsConsistent, In-excluding, In-replace, Queries-fit}

any-none :
    (p : Row → Bool) (rows : List Row) → ((r : Row) → In r rows → p r ≡ false) → any p rows ≡ false
any-none p [] h = refl
any-none p (r ∷ rows) h = rw (h r (inl refl)) (any-none p rows (λ q i. h q (inr i)))

kind_total : (rows : List Row) (s t : ℕ) (k : Kind) → validate_kind rows s t k ≢ unfinished
unfolding validate_kind refuse_cycle
kind_total rows s t parent_of = ground (arith, climb_total rows t s)
kind_total rows s t duplicate_of = ground arith
kind_total rows s t related = ground arith

kind_no_conflict : (rows : List Row) (s t : ℕ) (k : Kind) → validate_kind rows s t k ≢ err conflict
unfolding validate_kind refuse_cycle
kind_no_conflict rows s t parent_of = ground (arith, climb_total rows t s)
kind_no_conflict rows s t duplicate_of = ground arith
kind_no_conflict rows s t related = ground arith

-- The validation answers: its loop never runs out, and the constraint error is not one of its own.
validate_relationship_answers :
    (rows : List Row) (s t : ℕ) (k : Kind) (id : Option ℕ)
    → (validate_relationship rows s t k id ≢ unfinished)
      × (validate_relationship rows s t k id ≢ err conflict)
unfolding validate_relationship
validate_relationship_answers rows s t k id = (
  ground (arith, kind_total (excluding id rows) s t k),
  ground (arith, kind_no_conflict (excluding id rows) s t k),
)

create_accepts :
    (rows : List Row) (row : Row)
    → validate_relationship rows row.source row.target row.kind none ≡ ok tt
    → create rows row ≡ ok (row ∷ rows)
unfolding create
create_accepts rows row e =
    let fit =
      Queries-fit rows row
        (unfold excluding in validate-Queries rows row.source row.target row.kind none e) in
    rw (e, fit)

-- Whatever the table and the row, `create` answers, and never with the constraint error: the
-- validation has refused every row that the database would refuse.
pub create_answers :
    (rows : List Row) (row : Row)
    → (create rows row ≢ unfinished) × (create rows row ≢ err conflict)
unfolding create
create_answers rows row = go (validate_relationship rows row.source row.target row.kind none) refl
  where
    go :
        (v : Result (Unit {0}))
        → validate_relationship rows row.source row.target row.kind none ≡ v
        → (create rows row ≢ unfinished) × (create rows row ≢ err conflict)
    go (ok tt) e = rw (create_accepts rows row e) (λ p. cc, λ p. cc)
    go (err c) e =
        rw (e, create)
          (
            λ p. cc,
            λ p. (validate_relationship_answers rows row.source row.target row.kind none).1 (cc),
          )
    go unfinished e =
        absurd ((validate_relationship_answers rows row.source row.target row.kind none).0 e)

climb_clear :
    (rows : List Row) (t s : ℕ)
    → IsConsistent rows
    → s ≢ t
    → ¬ Above rows t s
    → climb (suc (length rows)) rows t s [] ≡ some false
climb_clear rows t s v d a =
    let c = climb_decides rows t s v in
    elim (Option-cases (climb (suc (length rows)) rows t s [])) [
      | inl e ↦ absurd (c.0 e)
      | inr (true, e) ↦ elim (c.1.0 e) [ inl p ↦ absurd (d p) | inr p ↦ absurd (a p) ]
      | inr (false, e) ↦ e
    ]

admissible-kind :
    (rows : List Row) (n : Row)
    → IsConsistent rows
    → IsAdmissible rows n
    → (k : Kind) → n.kind ≡ k
    → validate_kind rows n.source n.target k ≡ ok tt
unfolding validate_kind refuse_cycle is_parent is_duplicate
admissible-kind rows n v g related e = refl
admissible-kind rows n v g duplicate_of e = ground (
  arith,
  any-none (λ r. is_duplicate r && r.source == n.source) rows
      (λ r i. ground (arith, g.not_duplicate r i)),
  any-none (λ r. is_duplicate r && r.source == n.target) rows
      (λ r i. ground (arith, g.target_canonical r i)),
  any-none (λ r. is_duplicate r && r.target == n.source) rows
      (λ r i. ground (arith, g.not_canonical r i)),
)
admissible-kind rows n v g parent_of e = ground (
  arith,
  any-none (λ r. is_parent r && r.target == n.target) rows (λ r i. ground (arith, g.orphan r i)),
  climb_clear rows n.target n.source v g.not_self (g.no_cycle (ground arith)),
)

admissible-validates :
    (rows : List Row) (n : Row)
    → IsConsistent rows
    → IsAdmissible rows n
    → validate_relationship rows n.source n.target n.kind none ≡ ok tt
unfolding validate_relationship
admissible-validates rows n v g = ground (
  arith,
  g.not_self,
  any-none (λ r. same_pair r n.source n.target) rows g.new_pair,
  admissible-kind rows n v g n.kind refl,
)

create-validated :
    (rows : List Row) (row : Row) (after : List Row)
    → create rows row ≡ ok after
    → validate_relationship rows row.source row.target row.kind none ≡ ok tt
unfolding create
create-validated rows row after h = ground arith

-- `create` accepts exactly the admissible links: into a consistent table a row goes if and only if it
-- breaks none of the rules, and then it stands in front of the rows that were there.
pub create-iff-IsAdmissible :
    (rows : List Row) (row : Row)
    → IsConsistent rows
    → (create rows row ≡ ok (row ∷ rows)) ↔ IsAdmissible rows row
create-iff-IsAdmissible rows row v = (
  λ h.
      unfold excluding in
      validate_relationship-IsAdmissible rows row none v (create-validated rows row _ h),
  λ g. create_accepts rows row (admissible-validates rows row v g),
)

pub create-IsConsistent :
    (rows : List Row) (row : Row) (after : List Row)
    → IsConsistent rows
    → ((r : Row) → In r rows → r.id ≢ row.id)
    → create rows row ≡ ok after
    → IsConsistent after
create-IsConsistent rows row after v fresh h =
    let ok_row = create-validated rows row after h in
    let stored : ok (row ∷ rows) ≡ ok after = sym (create_accepts rows row ok_row) ∙ h in
    let g : IsAdmissible rows row =
      unfold excluding in validate_relationship-IsAdmissible rows row none v ok_row in
    let same : row ∷ rows ≡ after = cc in
    rw (← same) (extend-IsConsistent (row ∷ rows) rows row v g fresh (λ r i. i))

update-validated :
    (rows : List Row) (row : Row) (after : List Row)
    → update rows row ≡ ok after
    → (validate_relationship rows row.source row.target row.kind (some row.id) ≡ ok tt)
      × (replace rows row ≡ after)
unfolding update
update-validated rows row after h = (ground arith, ground arith)

pub update-IsConsistent :
    (rows : List Row) (row : Row) (after : List Row)
    → IsConsistent rows
    → update rows row ≡ ok after
    → IsConsistent after
update-IsConsistent rows row after v h =
    let (ok_row, same) = update-validated rows row after h in
    let others = excluding (some row.id) rows in
    let w = fewer-IsConsistent (λ r i. (In-excluding row.id rows r i).0) v in
    let g = validate_relationship-IsAdmissible rows row (some row.id) w ok_row in
    rw (← same) (
      extend-IsConsistent (replace rows row) others row w g
        (λ r i. (In-excluding row.id rows r i).1) (In-replace rows row))

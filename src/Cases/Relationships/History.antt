-- ===== src/Cases/Relationships/History.antt =====
-- Any sequence of requests to the link table (backend/apps/cases/serializers.py,
-- backend/apps/cases/views.py).
use soc_one.Base.{ℕ, ◌≡◌, ◌≢◌, Option, none, some, List, [], In}
use soc_one.Cases.Relationships.{
  Row, Kind, Result, ok, err, unfinished, ◌>>=◌, validate, post, put, destroy,
}
use soc_one.Cases.Relationships.Ancestry.{Above, parent, further, IsConsistent}
use soc_one.Cases.Relationships.Rows.{fewer-IsConsistent, In-excluding}
use soc_one.Cases.Relationships.Requests.{create-IsConsistent, update-IsConsistent}

-- A step that led to a value was passed.
passed {ℓ κ} :
    {R : Type ℓ} {S : Type κ} (step : Result R) (after : R → Result S) {s : S}
    → (step >>= after) ≡ ok s
    → (r : R) × (after r ≡ ok s)
passed (ok r) after h = (r, h)
passed (err reason) after h = cc
passed unfinished after h = cc

-- One request that the serializer accepts, or a deletion. An insertion comes with an id that no row
-- of the table has.
pub data Step (rows : List Row) : List Row → Type 0 where
  posted :
      {after : List Row} (id : ℕ) (source target : Option ℕ) (kind : Kind)
      → ((r : Row) → In r rows → r.id ≢ id)
      → post rows id source target kind ≡ ok after
      → Step rows after
  changed :
      {after : List Row} (old : Row) (source target : Option ℕ) (kind : Kind)
      → In old rows
      → put rows old source target kind ≡ ok after
      → Step rows after
  deleted : {after : List Row} (id : ℕ) → destroy rows id ≡ after → Step rows after

pub data Reach : List Row → Type 0 where
  start : Reach []
  next : {rows after : List Row} → Reach rows → Step rows after → Reach after

Step-IsConsistent :
    {rows after : List Row} → Step rows after → IsConsistent rows → IsConsistent after
unfolding post put destroy
Step-IsConsistent {rows} {after} (posted id s t k fresh h) v =
    let (ends, e) = passed (validate rows none s t k) _ h in
    create-IsConsistent rows _ after v fresh e
Step-IsConsistent {rows} {after} (changed old s t k i h) v =
    let (ends, e) = passed (validate rows (some old) _ _ k) _ h in
    update-IsConsistent rows _ after v e
Step-IsConsistent {rows} {after} (deleted id h) v =
    rw (← h) (fewer-IsConsistent (λ r i. (In-excluding id rows r i).0) v)

empty-IsConsistent : IsConsistent []
empty-IsConsistent = record {
  ids = λ r q i. elim i [ ];
  no_self = λ r i. elim i [ ];
  one_link = λ r q i. elim i [ ];
  one_parent = λ r q i. elim i [ ];
  acyclic = no_chain;
  one_canonical = λ r q i. elim i [ ];
  flat = λ r q i. elim i [ ];
}
  where
    no_chain : (c : ℕ) → ¬ Above [] c c
    no_chain c (parent r i k s t) = i
    no_chain c (further r q i k s t) = i

-- Whatever requests are made, in whatever order, the link table stays consistent: no Case is linked to
-- itself or twice to one other Case, no Case has two parents, no chain of parents closes, no Case has
-- two canonical Cases, and no canonical Case is itself a duplicate.
pub Reach-IsConsistent : {rows : List Row} → Reach rows → IsConsistent rows
Reach-IsConsistent start = empty-IsConsistent
Reach-IsConsistent (next r s) = Step-IsConsistent s (Reach-IsConsistent r)

-- ===== src/Cases/Relationships/Rows.antt =====
-- What `_excluding`, an update and the constraints see of the link table
-- (backend/apps/cases/services.py, backend/apps/cases/models.py).
use soc_one.Base.{
  ℕ, ◌≡◌, ◌≢◌, ◌⊎◌, inl, inr, refl, some, List, [], ◌∷◌, arith, In, false, ◌==◌, Bool-cases,
}
use soc_one.Cases.Relationships.{
  Row, Kind, parent_of, duplicate_of, related, excluding, violates, replace,
}
use soc_one.Cases.Relationships.Ancestry.{Above, parent, further, IsConsistent}
use soc_one.Cases.Relationships.Keeps.{Queries}

Above-mono :
    {rows all : List Row} {a c : ℕ}
    → ((r : Row) → In r rows → In r all)
    → Above rows a c
    → Above all a c
Above-mono m (parent r i k s t) = parent r (m r i) k s t
Above-mono m (further r q i k s t) = further r (Above-mono m q) (m r i) k s t

-- A table with fewer rows breaks no rule that the larger one keeps.
pub fewer-IsConsistent :
    {rows all : List Row}
    → ((r : Row) → In r rows → In r all)
    → IsConsistent all
    → IsConsistent rows
fewer-IsConsistent m v = record {
  ids = λ r q i j. v.ids r q (m r i) (m q j);
  no_self = λ r i. v.no_self r (m r i);
  one_link = λ r q i j. v.one_link r q (m r i) (m q j);
  one_parent = λ r q i j. v.one_parent r q (m r i) (m q j);
  acyclic = λ c a. v.acyclic c (Above-mono m a);
  one_canonical = λ r q i j. v.one_canonical r q (m r i) (m q j);
  flat = λ r q i j. v.flat r q (m r i) (m q j);
}

pub In-excluding :
    (id : ℕ) (rows : List Row) (r : Row) → In r (excluding (some id) rows) → In r rows × (r.id ≢ id)
unfolding excluding
In-excluding id [] r i = elim i [ ]
In-excluding id (q ∷ rows) r i = elim (Bool-cases (q.id == id)) [
  | inl e ↦ let (j, d) = In-excluding id rows r (rw e at i) in (inr j, d)
  | inr e ↦ elim (split i e) [
    | inl h ↦ (inl h, rw h (ground arith))
    | inr h ↦ let (j, d) = In-excluding id rows r h in (inr j, d)
  ]
]
  where
    split :
        In r (excluding (some id) (q ∷ rows))
        → (q.id == id) ≡ false
        → In r (q ∷ excluding (some id) rows)
    split i e = rw e at i

pub In-replace :
    (rows : List Row) (n r : Row)
    → In r (replace rows n)
    → (r ≡ n) ⊎ In r (excluding (some n.id) rows)
unfolding replace excluding
In-replace [] n r i = elim i [ ]
In-replace (q ∷ rows) n r i = ground (arith, In-replace rows n r)

-- The constraints of the table never fire behind the validation: what the queries found free is free.
pub Queries-fit :
    (rows : List Row) (n : Row) → Queries rows n.source n.target n.kind → violates rows n ≡ false
unfolding violates
Queries-fit rows n q = go n.kind refl
  where
    go : (k : Kind) → n.kind ≡ k → violates rows n ≡ false
    go related e = ground (arith, q.apart, q.pairs)
    go parent_of e = ground (arith, q.apart, q.pairs, q.orphan e)
    go duplicate_of e = ground (arith, q.apart, q.pairs, q.own e)

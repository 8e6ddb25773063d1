-- ===== src/Cases/Relationships/Ancestry.antt =====
-- The family tree of the Cases: who stands above whom, and the rules of the link table
-- (backend/apps/cases/services.py, backend/apps/cases/models.py).
use soc_one.Base.{
  ℕ, ◌≡◌, ◌≢◌, inl, inr, refl, Option, none, some, List, [], ◌∷◌, arith, In, first, Bool, true,
  false, ◌&&◌, ◌==◌,
}
use soc_one.Cases.Relationships.{Row, is_parent, is_duplicate, same_pair, parent_id}

-- `a` stands above `c`: a chain of parent links leads from `a` down to `c`.
pub data Above (rows : List Row) (a : ℕ) : ℕ → Type 0 where
  parent :
      {c : ℕ} (r : Row)
      → In r rows
      → is_parent r ≡ true
      → r.source ≡ a
      → r.target ≡ c
      → Above rows a c
  further :
      {b c : ℕ} (r : Row)
      → Above rows a b
      → In r rows
      → is_parent r ≡ true
      → r.source ≡ b
      → r.target ≡ c
      → Above rows a c

pub Above-trans : {rows : List Row} {a b c : ℕ} → Above rows a b → Above rows b c → Above rows a c
Above-trans p (parent r i k e f) = further r p i k e f
Above-trans p (further r q i k e f) = further r (Above-trans p q) i k e f

-- What the table keeps, whatever the order of its rows.
pub record IsConsistent (rows : List Row) : Type 0 where
  pub ids : (r q : Row) → In r rows → In q rows → r.id ≡ q.id → r ≡ q
  pub no_self : (r : Row) → In r rows → r.source ≢ r.target
  pub one_link :
      (r q : Row) → In r rows → In q rows → same_pair r q.source q.target ≡ true → r.id ≡ q.id
  pub one_parent :
      (r q : Row)
      → In r rows
      → In q rows
      → is_parent r ≡ true
      → is_parent q ≡ true
      → r.target ≡ q.target
      → r.id ≡ q.id
  pub acyclic : (c : ℕ) → ¬ Above rows c c
  pub one_canonical :
      (r q : Row)
      → In r rows
      → In q rows
      → is_duplicate r ≡ true
      → is_duplicate q ≡ true
      → r.source ≡ q.source
      → r.id ≡ q.id
  pub flat :
      (r q : Row)
      → In r rows
      → In q rows
      → is_duplicate r ≡ true
      → is_duplicate q ≡ true
      → r.target ≢ q.source

pub first-In :
    (p : Row → Bool) (rows : List Row) (r : Row) → first p rows ≡ some r → In r rows × (p r ≡ true)
first-In p [] r h = cc
first-In p (x ∷ xs) r h = ground (arith, first-In p xs r)

pub first-none :
    (p : Row → Bool) (rows : List Row) (r : Row) → first p rows ≡ none → In r rows → p r ≡ false
first-none p [] r h i = elim i [ ]
first-none p (x ∷ xs) r h (inl e) = rw e (ground arith)
first-none p (x ∷ xs) r h (inr i) = ground (arith, first-none p xs r)

-- In a consistent table the climb's query finds the one parent.
pub parent_id-In :
    {rows : List Row} (r : Row)
    → IsConsistent rows
    → In r rows
    → is_parent r ≡ true
    → parent_id rows r.target ≡ some r.source
unfolding parent_id
parent_id-In {rows} r v i k = go (first test rows) refl
  where
    test : Row → Bool
    test q = is_parent q && q.target == r.target

    go : (o : Option Row) → first test rows ≡ o → parent_id rows r.target ≡ some r.source
    go none e = ground (arith, first-none test rows r)
    go (some q) e =
        let (j, t) = first-In test rows q e in
        ground (arith, v.ids q r j i (v.one_parent q r j i (ground arith) k (ground arith)))

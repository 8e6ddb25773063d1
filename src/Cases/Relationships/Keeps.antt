-- ===== src/Cases/Relationships/Keeps.antt =====
-- One validated link added to a consistent table leaves it consistent
-- (backend/apps/cases/services.py, backend/apps/cases/serializers.py).
use soc_one.Base.{
  ℕ, suc, ◌≡◌, ◌≢◌, ◌⊎◌, inl, inr, sym, ◌∙◌, ap, subst, Option, List, [], ◌∷◌, arith, In, any,
  length, Bool, true, false, ◌&&◌, ◌==◌,
}
use soc_one.Cases.Relationships.{
  Row, Kind, parent_of, duplicate_of, related, is_parent, is_duplicate, same_pair, ok,
  validate_relationship, excluding, climb, refuse_cycle, validate_kind,
}
use soc_one.Cases.Relationships.Ancestry.{Above, parent, further, Above-trans, IsConsistent}
use soc_one.Cases.Relationships.Walk.{climb_decides}

-- What the validation has found out about the new link.
pub record IsAdmissible (rows : List Row) (n : Row) : Type 0 where
  pub not_self : n.source ≢ n.target
  pub new_pair : (r : Row) → In r rows → same_pair r n.source n.target ≡ false
  pub orphan : (r : Row) → In r rows → is_parent n ≡ true → is_parent r ≡ true → r.target ≢ n.target
  pub no_cycle : is_parent n ≡ true → ¬ Above rows n.target n.source
  pub not_duplicate :
      (r : Row) → In r rows → is_duplicate n ≡ true → is_duplicate r ≡ true → r.source ≢ n.source
  pub target_canonical :
      (r : Row) → In r rows → is_duplicate n ≡ true → is_duplicate r ≡ true → r.source ≢ n.target
  pub not_canonical :
      (r : Row) → In r rows → is_duplicate n ≡ true → is_duplicate r ≡ true → r.target ≢ n.source

pub any-false :
    (p : Row → Bool) (rows : List Row) (r : Row) → any p rows ≡ false → In r rows → p r ≡ false
any-false p [] r h i = elim i [ ]
any-false p (x ∷ xs) r h (inl e) = rw e (ground arith)
any-false p (x ∷ xs) r h (inr i) = any-false p xs r (ground arith) i

-- `rows` holds nothing but the new link and what was there.
abbrev pub Extends : List Row → List Row → Row → Type 0
Extends rows old n = (r : Row) → In r rows → (r ≡ n) ⊎ In r old

-- A chain in the new table is an old one, or it passes the new link.
abbrev Through : List Row → Row → ℕ → ℕ → Type 0
Through old n a c =
    (is_parent n ≡ true)
    × ((n.source ≡ a) ⊎ Above old a n.source)
    × ((n.target ≡ c) ⊎ Above old n.target c)

Above-split :
    {rows old : List Row} {n : Row} {a c : ℕ}
    → Extends rows old n
    → Above rows a c
    → Above old a c ⊎ Through old n a c
Above-split {n = n} x (parent r i k s t) = elim (x r i) [
  | inl e ↦ inr (rw (← e) k, inl (rw (← e) s), inl (rw (← e) t))
  | inr j ↦ inl (parent r j k s t)
]
Above-split {n = n} x (further r q i k s t) = elim (x r i) [
  | inl e ↦ elim (Above-split x q) [
    | inl p ↦ inr (rw (← e) k, inr (rw (← e, s) p), inl (rw (← e) t))
    | inr (m, up, _) ↦ inr (m, up, inl (rw (← e) t))
  ]
  | inr j ↦ elim (Above-split x q) [
    | inl p ↦ inl (further r p j k s t)
    | inr (m, up, inl d) ↦ inr (m, up, inr (parent r j k (s ∙ sym d) t))
    | inr (m, up, inr d) ↦ inr (m, up, inr (further r d j k s t))
  ]
]

-- Down from the new link and up to it again would be a chain that the climb has excluded.
no_round :
    {old : List Row} {n : Row}
    → IsConsistent old
    → IsAdmissible old n
    → (c : ℕ) → ¬ Through old n c c
no_round v g c (k, inl s, inl t) = g.not_self (s ∙ sym t)
no_round v g c (k, inl s, inr d) = g.no_cycle k (rw s d)
no_round v g c (k, inr u, inl t) = g.no_cycle k (rw t u)
no_round v g c (k, inr u, inr d) = g.no_cycle k (Above-trans d u)

same_pair_symm :
    (r q : Row) → same_pair r q.source q.target ≡ true → same_pair q r.source r.target ≡ true
unfolding same_pair
same_pair_symm r q h = ground arith

module _ (rows old : List Row) (n : Row) (v : IsConsistent old) (g : IsAdmissible old n)
    (fresh : (r : Row) → In r old → r.id ≢ n.id) (x : Extends rows old n) where
  ids' : (r q : Row) → In r rows → In q rows → r.id ≡ q.id → r ≡ q
  ids' r q i j e = elim (x r i) [
    | inl a ↦ elim (x q j) [
      | inl b ↦ a ∙ sym b
      | inr b ↦ absurd (fresh q b (sym e ∙ ap (λ (z : Row). z.id) a))
    ]
    | inr a ↦ elim (x q j) [
      | inl b ↦ absurd (fresh r a (e ∙ ap (λ (z : Row). z.id) b))
      | inr b ↦ v.ids r q a b e
    ]
  ]

  -- A rule that two different rows never break, read off the old rows and the new one.
  by_pairs :
      (P : Row → Row → Type 0)
      → ((r q : Row) → In r old → In q old → P r q → r.id ≡ q.id)
      → ((r : Row) → In r old → ¬ P r n)
      → ((r : Row) → In r old → ¬ P n r)
      → (r q : Row) → In r rows
      → In q rows
      → P r q
      → r.id ≡ q.id
  by_pairs P keeps left right r q i j h = elim (x r i) [
    | inl a ↦ elim (x q j) [
      | inl b ↦ ap (λ (z : Row). z.id) (a ∙ sym b)
      | inr b ↦ absurd (right q b (subst (λ z. P z q) a h))
    ]
    | inr a ↦ elim (x q j) [
      | inl b ↦ absurd (left r a (subst (λ z. P r z) b h))
      | inr b ↦ keeps r q a b h
    ]
  ]

  pub extend-IsConsistent : IsConsistent rows
  extend-IsConsistent = record {
    ids = ids';
    no_self = λ r i. elim (x r i) [ inl a ↦ rw a g.not_self | inr a ↦ v.no_self r a ];
    one_link =
        by_pairs (λ r q. same_pair r q.source q.target ≡ true) v.one_link
          (λ r i h. cc (g.new_pair r i)) (λ r i h. cc (g.new_pair r i, same_pair_symm n r h));
    one_parent = λ r q i j k l e.
        by_pairs (λ r q. (is_parent r ≡ true) × (is_parent q ≡ true) × (r.target ≡ q.target))
          (λ r q i j h. v.one_parent r q i j h.0 h.1 h.2) (λ r i h. g.orphan r i h.1 h.0 h.2)
          (λ r i h. g.orphan r i h.0 h.1 (sym h.2)) r q i j (k, l, e);
    acyclic = λ c a. elim (Above-split x a) [ inl p ↦ v.acyclic c p | inr t ↦ no_round v g c t ];
    one_canonical = λ r q i j k l e.
        by_pairs (λ r q. (is_duplicate r ≡ true) × (is_duplicate q ≡ true) × (r.source ≡ q.source))
          (λ r q i j h. v.one_canonical r q i j h.0 h.1 h.2)
          (λ r i h. g.not_duplicate r i h.1 h.0 h.2)
          (λ r i h. g.not_duplicate r i h.0 h.1 (sym h.2)) r q i j (k, l, e);
    flat = λ r q i j k l e. elim (x r i) [
      | inl a ↦ elim (x q j) [
        | inl b ↦ g.not_self (cc)
        | inr b ↦ g.target_canonical q b (rw (← a) k) l (cc)
      ]
      | inr a ↦ elim (x q j) [
        | inl b ↦ g.not_canonical r a (rw (← b) l) k (cc)
        | inr b ↦ v.flat r q a b k l e
      ]
    ];
  }

climb_false :
    {rows : List Row} {target source : ℕ}
    → IsConsistent rows
    → refuse_cycle (climb (suc (length rows)) rows target source []) ≡ ok tt
    → ¬ Above rows target source
unfolding refuse_cycle
climb_false {rows} {target} {source} v h a =
    let c = climb_decides rows target source v in ground (arith, c.1.1 (inr a))

-- The queries of one validation that came back empty.
pub record Queries (rows : List Row) (source target : ℕ) (kind : Kind) : Type 0 where
  pub apart : source ≢ target
  pub pairs : any (λ r. same_pair r source target) rows ≡ false
  pub orphan : kind ≡ parent_of → any (λ r. is_parent r && r.target == target) rows ≡ false
  pub climbed :
      kind ≡ parent_of → refuse_cycle (climb (suc (length rows)) rows target source []) ≡ ok tt
  pub own : kind ≡ duplicate_of → any (λ r. is_duplicate r && r.source == source) rows ≡ false
  pub theirs : kind ≡ duplicate_of → any (λ r. is_duplicate r && r.source == target) rows ≡ false
  pub used : kind ≡ duplicate_of → any (λ r. is_duplicate r && r.target == source) rows ≡ false

kind-Queries :
    (rows : List Row) (s t : ℕ) (k : Kind)
    → s ≢ t
    → any (λ r. same_pair r s t) rows ≡ false
    → validate_kind rows s t k ≡ ok tt
    → Queries rows s t k
unfolding validate_kind
kind-Queries rows s t parent_of d p h = record {
  apart = d;
  pairs = p;
  orphan = λ _. ground arith;
  climbed = λ _. ground arith;
  own = λ e. cc;
  theirs = λ e. cc;
  used = λ e. cc;
}
kind-Queries rows s t duplicate_of d p h = record {
  apart = d;
  pairs = p;
  orphan = λ e. cc;
  climbed = λ e. cc;
  own = λ _. ground arith;
  theirs = λ _. ground arith;
  used = λ _. ground arith;
}
kind-Queries rows s t related d p h = record {
  apart = d;
  pairs = p;
  orphan = λ e. cc;
  climbed = λ e. cc;
  own = λ e. cc;
  theirs = λ e. cc;
  used = λ e. cc;
}

pub validate-Queries :
    (rows : List Row) (s t : ℕ) (k : Kind) (id : Option ℕ)
    → validate_relationship rows s t k id ≡ ok tt
    → Queries (excluding id rows) s t k
unfolding validate_relationship
validate-Queries rows s t k id h =
    kind-Queries (excluding id rows) s t k (ground arith) (ground arith) (ground arith)

is_parent-kind : (r : Row) → is_parent r ≡ true → r.kind ≡ parent_of
unfolding is_parent
is_parent-kind r h = ground arith

is_duplicate-kind : (r : Row) → is_duplicate r ≡ true → r.kind ≡ duplicate_of
unfolding is_duplicate
is_duplicate-kind r h = ground arith

pub Queries-IsAdmissible :
    (rows : List Row) (n : Row)
    → IsConsistent rows
    → Queries rows n.source n.target n.kind
    → IsAdmissible rows n
Queries-IsAdmissible rows n v q = record {
  not_self = q.apart;
  new_pair = λ r i. any-false (λ r. same_pair r n.source n.target) rows r q.pairs i;
  orphan = λ r i m k e.
      let none_such =
        any-false (λ r. is_parent r && r.target == n.target) rows r (q.orphan (is_parent-kind n m))
          i in
      ground arith;
  no_cycle = λ m. climb_false v (q.climbed (is_parent-kind n m));
  not_duplicate = λ r i m k e.
      let none_such =
        any-false (λ r. is_duplicate r && r.source == n.source) rows r
          (q.own (is_duplicate-kind n m)) i in
      ground arith;
  target_canonical = λ r i m k e.
      let none_such =
        any-false (λ r. is_duplicate r && r.source == n.target) rows r
          (q.theirs (is_duplicate-kind n m)) i in
      ground arith;
  not_canonical = λ r i m k e.
      let none_such =
        any-false (λ r. is_duplicate r && r.target == n.source) rows r
          (q.used (is_duplicate-kind n m)) i in
      ground arith;
}

-- A link that passes the validation is admissible among the rows that it is checked against.
pub validate_relationship-IsAdmissible :
    (rows : List Row) (n : Row) (id : Option ℕ)
    → IsConsistent (excluding id rows)
    → validate_relationship rows n.source n.target n.kind id ≡ ok tt
    → IsAdmissible (excluding id rows) n
validate_relationship-IsAdmissible rows n id v h =
    Queries-IsAdmissible (excluding id rows) n v
      (validate-Queries rows n.source n.target n.kind id h)

-- ===== src/Correlation/Scoring/Recording.antt =====
-- Which edges the linking loops of backend/apps/agentic/correlation/scoring.py record.
use soc_one.Base.{
  ℕ, zero, suc, ◌+◌, ◌<◌, ◌≡◌, ◌⊎◌, ◌↔◌, inl, inr, refl, true, List, [], ◌∷◌, ◌++◌, some, arith,
  Bool-cases, get_elem?,
}
use soc_one.Base.Float.{Float}
use soc_one.Correlation.Signals.{Node, Settings, score_edge}
use soc_one.Correlation.Scoring.{Linked, link_one, link_rest, link_all}
use soc_one.Correlation.Scoring.Links.{
  Recorded, Accepts, In-append-last, In-append-old, In-append-new,
}

module _ (fl : Float) (cfg : Settings fl) where
  open fl use {F, at_most}

  -- The pair of positions that the program should link: two nodes whose score is accepted.
  abbrev pub Linkable : List Node → ℕ → ℕ → Type 0
  Linkable nodes i j =
      (x : Node) × (y : Node) × (get_elem? nodes i ≡ some x)
      × (get_elem? nodes j ≡ some y)
      × (i < j)
      × Accepts fl cfg x y

  link_one-old :
      (i : ℕ) (x : Node) (j : ℕ) (y : Node) (links : Linked F) (a b : ℕ)
      → Recorded links.edges a b
      → Recorded (link_one fl cfg i x j y links).edges a b
  unfolding link_one
  link_one-old i x j y links a b (e, m, p, q) = elim (Bool-cases (at_most cfg.threshold score)) [
    | inl t ↦
        rw t (e, In-append-old e (record { from = i; to = j; score = score }) links.edges m, p, q)
    | inr t ↦ rw t (e, m, p, q)
  ]
    where
      score : F
      score = (score_edge fl x y cfg.window_seconds cfg.min_shared_entities).0

  link_one-new :
      (i : ℕ) (x : Node) (j : ℕ) (y : Node) (links : Linked F)
      → Accepts fl cfg x y
      → Recorded (link_one fl cfg i x j y links).edges i j
  unfolding link_one
  link_one-new i x j y links t =
      rw t (record { from = i; to = j; score = _ }, In-append-new _ links.edges, refl, refl)

  link_one-back :
      (i : ℕ) (x : Node) (j : ℕ) (y : Node) (links : Linked F) (a b : ℕ)
      → Recorded (link_one fl cfg i x j y links).edges a b
      → Recorded links.edges a b ⊎ ((a ≡ i) × (b ≡ j) × Accepts fl cfg x y)
  unfolding link_one
  link_one-back i x j y links a b r = elim (Bool-cases (at_most cfg.threshold score)) [
    | inl t ↦ last t (rw t at r)
    | inr t ↦ inl (rw t at r)
  ]
    where
      score : F
      score = (score_edge fl x y cfg.window_seconds cfg.min_shared_entities).0

      last :
          at_most cfg.threshold score ≡ true
          → Recorded (links.edges ++ record { from = i; to = j; score = score } ∷ []) a b
          → Recorded links.edges a b ⊎ ((a ≡ i) × (b ≡ j) × Accepts fl cfg x y)
      last t (e, m, p, q) = elim (In-append-last e _ links.edges m) [
        | inl k ↦ inl (e, k, p, q)
        | inr k ↦ inr (cc, cc, t)
      ]

  link_rest-old :
      (i : ℕ) (x : Node) (j : ℕ) (ys : List Node) (links : Linked F) (a b : ℕ)
      → Recorded links.edges a b
      → Recorded (link_rest fl cfg i x j ys links).edges a b
  unfolding link_rest
  link_rest-old i x j [] links a b r = r
  link_rest-old i x j (y ∷ ys) links a b r =
      link_rest-old i x (suc j) ys (link_one fl cfg i x j y links) a b
        (link_one-old i x j y links a b r)

  link_rest-new :
      (i : ℕ) (x : Node) (j : ℕ) (ys : List Node) (links : Linked F) (k : ℕ) (y : Node)
      → get_elem? ys k ≡ some y
      → Accepts fl cfg x y
      → Recorded (link_rest fl cfg i x j ys links).edges i (j + k)
  unfolding link_rest
  link_rest-new i x j [] links k y e t = cc
  link_rest-new i x j (z ∷ ys) links zero y e t =
      let p : z ≡ y = cc in
      let q : j + 0 ≡ j = omega arith in
      rw q (
        link_rest-old i x (suc j) ys (link_one fl cfg i x j z links) i j
          (link_one-new i x j z links (rw p t)))
  link_rest-new i x j (z ∷ ys) links (suc k) y e t =
      let q : j + suc k ≡ suc j + k = omega arith in
      rw q (link_rest-new i x (suc j) ys (link_one fl cfg i x j z links) k y e t)

  -- What the inner loop adds.
  abbrev Added : ℕ → Node → ℕ → List Node → ℕ → ℕ → Type 0
  Added i x j ys a b =
      (a ≡ i)
      × ((k : ℕ) × (y : Node) × (get_elem? ys k ≡ some y) × (b ≡ j + k) × Accepts fl cfg x y)

  link_rest-back :
      (i : ℕ) (x : Node) (j : ℕ) (ys : List Node) (links : Linked F) (a b : ℕ)
      → Recorded (link_rest fl cfg i x j ys links).edges a b
      → Recorded links.edges a b ⊎ Added i x j ys a b
  unfolding link_rest
  link_rest-back i x j [] links a b r = inl r
  link_rest-back i x j (y ∷ ys) links a b r =
      elim (link_rest-back i x (suc j) ys (link_one fl cfg i x j y links) a b r) [
        | inl o ↦ elim (link_one-back i x j y links a b o) [
          | inl p ↦ inl p
          | inr (p, q, t) ↦ inr (p, (0, y, refl, omega arith, t))
        ]
        | inr (p, (k, z, e, q, t)) ↦ inr (p, (suc k, z, e, omega arith, t))
      ]

  link_all-old :
      (i : ℕ) (xs : List Node) (links : Linked F) (a b : ℕ)
      → Recorded links.edges a b
      → Recorded (link_all fl cfg i xs links).edges a b
  unfolding link_all
  link_all-old i [] links a b r = r
  link_all-old i (x ∷ xs) links a b r =
      link_all-old (suc i) xs (link_rest fl cfg i x (suc i) xs links) a b
        (link_rest-old i x (suc i) xs links a b r)

  link_all-new :
      (i : ℕ) (xs : List Node) (links : Linked F) (a b : ℕ)
      → Linkable xs a b
      → Recorded (link_all fl cfg i xs links).edges (i + a) (i + b)
  unfolding link_all
  link_all-new i [] links a b (x, y, p, q, h, t) = cc
  link_all-new i (z ∷ xs) links zero zero (x, y, p, q, h, t) = absurd (omega arith)
  link_all-new i (z ∷ xs) links zero (suc b) (x, y, p, q, h, t) =
      let first : z ≡ x = cc in
      let l : i + 0 ≡ i = omega arith in
      let r : i + suc b ≡ suc i + b = omega arith in
      rw (l, r)
        (link_all-old (suc i) xs (link_rest fl cfg i z (suc i) xs links) i (suc i + b)
          (link_rest-new i z (suc i) xs links b y q (rw first t)))
  link_all-new i (z ∷ xs) links (suc a) zero (x, y, p, q, h, t) = absurd (omega arith)
  link_all-new i (z ∷ xs) links (suc a) (suc b) (x, y, p, q, h, t) =
      let l : i + suc a ≡ suc i + a = omega arith in
      let r : i + suc b ≡ suc i + b = omega arith in
      rw (l, r)
        (link_all-new (suc i) xs (link_rest fl cfg i z (suc i) xs links) a b
          (x, y, p, q, omega arith, t))

  -- The same at shifted positions.
  abbrev Shifted : ℕ → List Node → ℕ → ℕ → Type 0
  Shifted i xs a b = (p : ℕ) × (q : ℕ) × (a ≡ i + p) × (b ≡ i + q) × Linkable xs p q

  link_all-back :
      (i : ℕ) (xs : List Node) (links : Linked F) (a b : ℕ)
      → Recorded (link_all fl cfg i xs links).edges a b
      → Recorded links.edges a b ⊎ Shifted i xs a b
  unfolding link_all
  link_all-back i [] links a b r = inl r
  link_all-back i (x ∷ xs) links a b r =
      elim (link_all-back (suc i) xs (link_rest fl cfg i x (suc i) xs links) a b r) [
        | inl o ↦ elim (link_rest-back i x (suc i) xs links a b o) [
          | inl p ↦ inl p
          | inr (p, (k, y, e, q, t)) ↦
              inr (0, suc k, omega arith, omega arith, (x, y, refl, e, omega arith, t))
        ]
        | inr (p, q, l, m, (y, z, e, f, h, t)) ↦
            inr (suc p, suc q, omega arith, omega arith, (y, z, e, f, omega arith, t))
      ]

  -- The loops record an edge between two positions exactly where the earlier and the later node's score
  -- reaches the threshold.
  pub link_all-Recorded :
      (nodes : List Node) (parents : List ℕ) (a b : ℕ)
      → Recorded (link_all fl cfg 0 nodes (record { parents = parents; edges = [] })).edges a b
        ↔ Linkable nodes a b
  link_all-Recorded nodes parents a b = (
    λ r. elim (link_all-back 0 nodes _ a b r) [
      | inl (e, m, p, q) ↦ elim m [ ]
      | inr (p, q, l, m, k) ↦
          let l' : a ≡ p = omega arith in let m' : b ≡ q = omega arith in rw (l', m') k
    ],
    λ k.
        let l : 0 + a ≡ a = omega arith in
        let m : 0 + b ≡ b = omega arith in
        let start : Linked F = record { parents = parents; edges = [] } in
        rw (l, m) at (link_all-new 0 nodes start a b k),
  )

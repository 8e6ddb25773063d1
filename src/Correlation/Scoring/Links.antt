-- ===== src/Correlation/Scoring/Links.antt =====
-- The linking loops of `connected_components` (backend/apps/agentic/correlation/scoring.py): which
-- edges they record, and that the array's roots are the classes of those edges.
use soc_one.Base.{
  ℕ, suc, ◌+◌, ◌≤◌, ◌<◌, ◌≡◌, ◌⊎◌, inl, inr, refl, sym, ◌∙◌, true, List, [], ◌∷◌, ◌++◌, arith, min,
  max, ◌==◌, leb, length, In, Bool-cases,
}
use soc_one.Base.Float.{Float}
use soc_one.Correlation.Signals.{Node, Settings, score_edge}
use soc_one.Correlation.Scoring.{Edge, Linked, union, link_one, link_rest, link_all}
use soc_one.Correlation.Scoring.Forest.{IsForest, merge, union-IsForest}

-- The least equivalence that holds the pairs of `E`.
pub data Connected (E : ℕ → ℕ → Type 0) : ℕ → ℕ → Type 0 where
  link : {i j : ℕ} → E i j → Connected E i j
  same : (i : ℕ) → Connected E i i
  back : {i j : ℕ} → Connected E i j → Connected E j i
  join : {i j k : ℕ} → Connected E i j → Connected E j k → Connected E i k

pub Connected-mono :
    {E G : ℕ → ℕ → Type 0} {i j : ℕ}
    → ((a b : ℕ) → E a b → G a b)
    → Connected E i j
    → Connected G i j
Connected-mono m (link e) = link (m _ _ e)
Connected-mono m (same i) = same i
Connected-mono m (back c) = back (Connected-mono m c)
Connected-mono m (join c d) = join (Connected-mono m c) (Connected-mono m d)

-- A function that is constant along every pair is constant on what they connect.
pub Connected-constant :
    {E : ℕ → ℕ → Type 0} {i j : ℕ} (root : ℕ → ℕ)
    → ((a b : ℕ) → E a b → root a ≡ root b)
    → Connected E i j
    → root i ≡ root j
Connected-constant root h (link e) = h _ _ e
Connected-constant root h (same i) = refl
Connected-constant root h (back c) = sym (Connected-constant root h c)
Connected-constant root h (join c d) = Connected-constant root h c ∙ Connected-constant root h d

module _ {F : Type 0} where
  -- A recorded edge joins the two indexes.
  abbrev pub Recorded : List (Edge F) → ℕ → ℕ → Type 0
  Recorded edges i j = (e : Edge F) × In e edges × (e.from ≡ i) × (e.to ≡ j)

  -- The array's classes are those of the recorded edges.
  pub record IsLinked (n : ℕ) (links : Linked F) (root : ℕ → ℕ) : Type 0 where
    pub forest : IsForest links.parents root
    pub size : length links.parents ≡ n
    pub joined : (i j : ℕ) → Recorded links.edges i j → root i ≡ root j
    pub reached : (i : ℕ) → Connected (Recorded links.edges) i (root i)

  pub In-append-last :
      (e d : Edge F) (edges : List (Edge F)) → In e (edges ++ d ∷ []) → In e edges ⊎ (e ≡ d)
  In-append-last e d [] (inl h) = inr h
  In-append-last e d [] (inr h) = elim h [ ]
  In-append-last e d (x ∷ edges) (inl h) = inl (inl h)
  In-append-last e d (x ∷ edges) (inr h) = elim (In-append-last e d edges h) [
    | inl i ↦ inl (inr i)
    | inr p ↦ inr p
  ]

  pub In-append-old : (e d : Edge F) (edges : List (Edge F)) → In e edges → In e (edges ++ d ∷ [])
  In-append-old e d [] h = elim h [ ]
  In-append-old e d (x ∷ edges) (inl h) = inl h
  In-append-old e d (x ∷ edges) (inr h) = inr (In-append-old e d edges h)

  pub In-append-new : (d : Edge F) (edges : List (Edge F)) → In d (edges ++ d ∷ [])
  In-append-new d [] = inl refl
  In-append-new d (x ∷ edges) = inr (In-append-new d edges)

  -- Recording one more edge, and merging its ends.
  pub union-IsLinked :
      (n : ℕ) (links : Linked F) (root : ℕ → ℕ) (d : Edge F)
      → IsLinked n links root
      → d.from < n
      → d.to < n
      → IsLinked n
          (record { parents = union links.parents d.from d.to; edges = links.edges ++ d ∷ [] })
          (merge root d.from d.to)
  union-IsLinked n links root d l hi hj =
      let (f, s) =
        union-IsForest links.parents root d.from d.to l.forest (rw l.size hi) (rw l.size hj) in
      record {
        forest = f;
        size = s ∙ l.size;
        joined = λ i j r. merged i j r;
        reached = λ i. reach i;
      }
    where
      old : (i j : ℕ) → Recorded links.edges i j → Recorded (links.edges ++ d ∷ []) i j
      old i j (e, m, p, q) = (e, In-append-old e d links.edges m, p, q)

      merged :
          (i j : ℕ)
          → Recorded (links.edges ++ d ∷ []) i j
          → merge root d.from d.to i ≡ merge root d.from d.to j
      merged i j (e, m, p, q) = elim (In-append-last e d links.edges m) [
        | inl k ↦ let h = l.joined i j (e, k, p, q) in rw h refl
        | inr k ↦ let a : d.from ≡ i = cc in let b : d.to ≡ j = cc in rw (← a, ← b) (ground arith)
      ]

      before :
          (i j : ℕ)
          → Connected (Recorded links.edges) i j
          → Connected (Recorded (links.edges ++ d ∷ [])) i j
      before i j = Connected-mono old

      bridge : Connected (Recorded (links.edges ++ d ∷ [])) (root d.from) (root d.to)
      bridge =
          join (back (before _ _ (l.reached d.from)))
            (join (link (d, In-append-new d links.edges, refl, refl)) (before _ _ (l.reached d.to)))

      across :
          Connected
            (Recorded (links.edges ++ d ∷ []))
            (max (root d.from) (root d.to))
            (min (root d.from) (root d.to))
      across = elim (Bool-cases (leb (root d.from) (root d.to))) [
        | inl e ↦
            let p : max (root d.from) (root d.to) ≡ root d.to = ground arith in
            let q : min (root d.from) (root d.to) ≡ root d.from = ground arith in
            rw (p, q) (back bridge)
        | inr e ↦
            let p : max (root d.from) (root d.to) ≡ root d.from = ground arith in
            let q : min (root d.from) (root d.to) ≡ root d.to = ground arith in rw (p, q) bridge
      ]

      reach : (i : ℕ) → Connected (Recorded (links.edges ++ d ∷ [])) i (merge root d.from d.to i)
      reach i = elim (Bool-cases (root i == max (root d.from) (root d.to))) [
        | inl e ↦
            let up : root i ≡ max (root d.from) (root d.to) = ground arith in
            let here = before i (root i) (l.reached i) in rw e (join (rw up at here) across)
        | inr e ↦ rw e (before i (root i) (l.reached i))
      ]

module _ (fl : Float) (cfg : Settings fl) where
  open fl use {F, at_most}

  -- The two nodes' score reaches the threshold.
  abbrev pub Accepts : Node → Node → Type 0
  Accepts x y =
      at_most cfg.threshold (score_edge fl x y cfg.window_seconds cfg.min_shared_entities).0 ≡ true

  module _ (n : ℕ) where
    -- The loops keep the array in step with the recorded edges, for some root function.
    abbrev pub Linkedness : Linked F → Type 0
    Linkedness links = (root : ℕ → ℕ) × IsLinked n links root

    link_one-Linkedness :
        (i : ℕ) (x : Node) (j : ℕ) (y : Node) (links : Linked F)
        → i < n
        → j < n
        → Linkedness links
        → Linkedness (link_one fl cfg i x j y links)
    unfolding link_one
    link_one-Linkedness i x j y links hi hj (root, l) =
        elim (Bool-cases (at_most cfg.threshold score)) [
          | inl e ↦ rw e (
            merge root i j,
            union-IsLinked n links root (record { from = i; to = j; score = score }) l hi hj,
          )
          | inr e ↦ rw e (root, l)
        ]
      where
        score : F
        score = (score_edge fl x y cfg.window_seconds cfg.min_shared_entities).0

    link_rest-Linkedness :
        (i : ℕ) (x : Node) (j : ℕ) (ys : List Node) (links : Linked F)
        → i < n
        → j + length ys ≤ n
        → Linkedness links
        → Linkedness (link_rest fl cfg i x j ys links)
    unfolding link_rest
    link_rest-Linkedness i x j [] links hi hj l = l
    link_rest-Linkedness i x j (y ∷ ys) links hi hj l =
        link_rest-Linkedness i x (suc j) ys (link_one fl cfg i x j y links) hi (omega arith)
          (link_one-Linkedness i x j y links hi (omega arith) l)

    pub link_all-Linkedness :
        (i : ℕ) (xs : List Node) (links : Linked F)
        → i + length xs ≤ n
        → Linkedness links
        → Linkedness (link_all fl cfg i xs links)
    unfolding link_all
    link_all-Linkedness i [] links h l = l
    link_all-Linkedness i (x ∷ xs) links h l =
        link_all-Linkedness (suc i) xs (link_rest fl cfg i x (suc i) xs links) (omega arith)
          (link_rest-Linkedness i x (suc i) xs links (omega arith) (omega arith) l)

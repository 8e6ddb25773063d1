-- ===== src/Correlation/Scoring/Components.antt =====
-- `connected_components` of backend/apps/agentic/correlation/scoring.py returns the classes of the
-- linked Cases.
use soc_one.Base.{
  ℕ, zero, suc, ◌+◌, ◌<◌, ◌≡◌, ◌≢◌, ◌↔◌, inl, inr, refl, sym, ◌∙◌, ap, true, not, List, [], ◌∷◌,
  arith, ltb, leb, if◌then◌else◌, length, In, keep, get_or, map, In-keep, In-map, map-In,
}
use soc_one.Base.Float.{Float}
use soc_one.Base.Sort.{In-sort_by}
use soc_one.Correlation.Signals.{Node, Settings}
use soc_one.Correlation.Scoring.{
  Group, Cluster, Linked, range, group_from, link_all, cluster_of, connected_components, list_le,
}
use soc_one.Correlation.Scoring.Forest.{IsForest}
use soc_one.Correlation.Scoring.Links.{
  Connected, same, join, back, Connected-mono, Connected-constant, IsLinked, link_all-Linkedness,
}
use soc_one.Correlation.Scoring.Recording.{Linkable, link_all-Recorded}
use soc_one.Correlation.Scoring.Groups.{
  IsGrouped, group_from-IsGrouped, empty-IsGrouped, Exact-In, has_root-In,
}

length-range : (s n : ℕ) → length (range s n) ≡ n
unfolding range
length-range s zero = refl
length-range s (suc n) = ap suc (length-range (suc s) n)

get_or-range : (s n i d : ℕ) → get_or (range s n) i d ≡ (if ltb i n then s + i else d)
unfolding range
get_or-range s zero i d = ground arith
get_or-range s (suc n) zero d = ground arith
get_or-range s (suc n) (suc i) d = ground (arith, get_or-range (suc s) n i d)

range-IsForest : (n : ℕ) → IsForest (range 0 n) (λ i. i)
range-IsForest n = record {
  down = λ i. ground (arith, get_or-range 0 n i i);
  fixed = λ i e. refl;
  along = λ i. ground (arith, get_or-range 0 n i i);
  below = λ i. omega arith;
}

two_members : (i j : ℕ) (xs : List ℕ) → In i xs → In j xs → i ≢ j → not (ltb (length xs) 2) ≡ true
two_members i j [] h m d = elim h [ ]
two_members i j (x ∷ []) (inl e) (inl f) d = absurd (d (e ∙ sym f))
two_members i j (x ∷ []) (inl e) (inr f) d = elim f [ ]
two_members i j (x ∷ []) (inr e) m d = elim e [ ]
two_members i j (x ∷ y ∷ xs) h m d = ground arith

module _ (fl : Float) (cfg : Settings fl) (nodes : List Node) where
  open fl use {F}

  start : Linked F
  start = record { parents = range 0 (length nodes); edges = [] }

  linked : Linked F
  linked = link_all fl cfg 0 nodes start

  groups : List Group
  groups = group_from (length nodes) 0 linked.parents []

  linked-IsLinked : (root : ℕ → ℕ) × IsLinked (length nodes) linked root
  unfolding linked start
  linked-IsLinked = link_all-Linkedness fl cfg (length nodes) 0 nodes start (omega arith) (
    λ i. i,
    record {
      forest = range-IsForest (length nodes);
      size = length-range 0 (length nodes);
      joined = λ i j r. elim r.1 [ ];
      reached = λ i. same i;
    },
  )

  -- Two indexes have one root exactly where a chain of linkable pairs leads from one to the other.
  root_iff :
      (root : ℕ → ℕ)
      → IsLinked (length nodes) linked root
      → (i j : ℕ) → (root i ≡ root j) ↔ Connected (Linkable fl cfg nodes) i j
  unfolding linked start
  root_iff root l i j = (
    λ e.
        let there = l.reached i in
        let here = back (l.reached j) in
        Connected-mono (λ a b. (link_all-Recorded fl cfg nodes (range 0 (length nodes)) a b).0)
          (join (rw e at there) here),
    λ c.
        Connected-constant root l.joined (
          Connected-mono (λ a b. (link_all-Recorded fl cfg nodes (range 0 (length nodes)) a b).1)
            c),
  )

  grouped :
      (root : ℕ → ℕ) → IsLinked (length nodes) linked root → IsGrouped (length nodes) root groups
  unfolding groups
  grouped root l =
      group_from-IsGrouped (length nodes) 0 (length nodes) linked.parents root [] (omega arith)
        l.forest (empty-IsGrouped root)

  -- The returned cluster `c` is the group `g`, sorted.
  abbrev Stems : Cluster F → Group → Type 0
  Stems c g =
      In g groups
      × (not (ltb (length g.members) 2) ≡ true)
      × ((i : ℕ) → In i c.indexes ↔ In i g.members)

  stem : (c : Cluster F) → In c (connected_components fl cfg nodes) → (g : Group) × Stems c g
  unfolding connected_components cluster_of groups linked start
  stem c h =
      let large = keep (λ g. not (ltb (length g.members) 2)) groups in
      let made = map (cluster_of fl linked.edges) large in
      let m = (In-sort_by (λ a b. list_le a.indexes b.indexes) c made).0 h in
      let (g, k, e) = map-In (cluster_of fl linked.edges) c large m in
      let (i, t) = (In-keep (λ g. not (ltb (length g.members) 2)) g groups).0 k in
      (g, (i, t, λ j. rw e (In-sort_by leb j g.members)))

  grow :
      (g : Group)
      → In g groups
      → not (ltb (length g.members) 2) ≡ true
      → (c : Cluster F) × In c (connected_components fl cfg nodes) × Stems c g
  unfolding connected_components cluster_of groups linked start
  grow g i t =
      let k = (In-keep (λ g. not (ltb (length g.members) 2)) g groups).1 (i, t) in
      let m = In-map (cluster_of fl linked.edges) g _ k in
      (
        cluster_of fl linked.edges g,
        (In-sort_by (λ a b. list_le a.indexes b.indexes) _ _).1 m,
        (i, t, λ j. In-sort_by leb j g.members),
      )

  -- Every returned cluster is a whole class: whoever stands in it, the indexes in it are those of the
  -- Cases that a chain of pairs over the threshold links to that one.
  pub connected_components-classes :
      (c : Cluster F) (i j : ℕ)
      → In c (connected_components fl cfg nodes)
      → In i c.indexes
      → In j c.indexes ↔ ((j < length nodes) × Connected (Linkable fl cfg nodes) i j)
  connected_components-classes c i j h m =
      let (root, l) = linked-IsLinked in
      let (g, (k, _, s)) = stem c h in
      let exact = Exact-In (length nodes) root g groups (grouped root l).exact k in
      let (_, p) = (exact i).0 ((s i).0 m) in
      (
        λ n. let (a, b) = (exact j).0 ((s j).0 n) in (a, (root_iff root l i j).0 (p ∙ sym b)),
        λ n. (s j).1 ((exact j).1 (n.0, sym ((root_iff root l i j).1 n.1) ∙ p)),
      )

  -- Two different Cases that a chain of pairs over the threshold links are returned in one cluster.
  pub connected_components-covers :
      (i j : ℕ)
      → i < length nodes
      → j < length nodes
      → i ≢ j
      → Connected (Linkable fl cfg nodes) i j
      → (c : Cluster F) × In c (connected_components fl cfg nodes) × In i c.indexes × In j c.indexes
  connected_components-covers i j hi hj d linked_up =
      let (root, l) = linked-IsLinked in
      let all = grouped root l in
      let (g, k, r) = has_root-In groups (root i) (all.covered i hi) in
      let exact = Exact-In (length nodes) root g groups all.exact k in
      let mi = (exact i).1 (hi, sym r) in
      let mj = (exact j).1 (hj, sym ((root_iff root l i j).1 linked_up) ∙ sym r) in
      let (c, h, (_, _, s)) = grow g k (two_members i j g.members mi mj d) in
      (c, h, (s i).1 mi, (s j).1 mj)

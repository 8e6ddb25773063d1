-- ===== src/Correlation/Scoring.antt =====
-- Connected components: `connected_components` of backend/apps/agentic/correlation/scoring.py.
pub mod Forest
pub mod Links
pub mod Recording
pub mod Groups
pub mod Components
pub mod Tests
use soc_one.Base.{
  ℕ, zero, suc, ◌+◌, ◌-◌, ◌*◌, Bool, true, false, ◌&&◌, ◌||◌, not, Option, none, some, List, [],
  ◌∷◌, ◌++◌, min, max, ◌==◌, ltb, leb, if◌then◌else◌, keep, any, length, map, get_or, set, String,
  str_eq,
}
use soc_one.Base.Float.{Float}
use soc_one.Base.Sort.{sort_by}
use soc_one.Correlation.Signals.{Node, Settings, score_edge}

-- The `parent` array. An index beyond its end is its own parent; the program asks for none.
abbrev pub parent_of : List ℕ → ℕ → ℕ
parent_of parents i = get_or parents i i

-- `find`, with path halving: the array that it leaves, and the root. Every round's index is smaller,
-- so the fuel `suc i` is enough.
unfoldable pub find_from : ℕ → List ℕ → ℕ → List ℕ × ℕ
find_from zero parents i = (parents, i)
find_from (suc fuel) parents i =
    let halved = set parents i (parent_of parents (parent_of parents i)) in
    let rest = find_from fuel halved (parent_of halved i) in
    if parent_of parents i == i then (parents, i) else rest

unfoldable pub find : List ℕ → ℕ → List ℕ × ℕ
unfolding find_from
find parents i = find_from (suc i) parents i

unfoldable pub union : List ℕ → ℕ → ℕ → List ℕ
union parents a b =
    let (after_a, root_a) = find parents a in
    let (after_b, root_b) = find after_a b in
    if root_a == root_b then after_b else set after_b (max root_a root_b) (min root_a root_b)

-- `list(range(start, start + n))`
unfoldable pub range : ℕ → ℕ → List ℕ
range start zero = []
range start (suc n) = start ∷ range (suc start) n

pub record Edge (F : Type 0) : Type 0 where
  pub from : ℕ
  pub to : ℕ
  pub score : F

pub record Linked (F : Type 0) : Type 0 where
  pub parents : List ℕ
  pub edges : List (Edge F)

pub record Group : Type 0 where
  pub root : ℕ
  pub members : List ℕ

-- `groups.setdefault(root, []).append(index)`
unfoldable pub append_to : ℕ → ℕ → List Group → List Group
append_to root index [] = record { root = root; members = index ∷ [] } ∷ []
append_to root index (g ∷ groups) =
    if g.root == root
    then record g { members = g.members ++ index ∷ [] } ∷ groups
    else g ∷ append_to root index groups

unfoldable pub group_from : ℕ → ℕ → List ℕ → List Group → List Group
unfolding append_to
group_from zero index parents groups = groups
group_from (suc n) index parents groups =
    let (after, root) = find parents index in
    group_from n (suc index) after (append_to root index groups)

pub record Cluster (F : Type 0) : Type 0 where
  pub indexes : List ℕ
  pub link_score : F

-- The order of Python's lists.
unfoldable pub list_le : List ℕ → List ℕ → Bool
list_le [] ys = true
list_le (x ∷ xs) [] = false
list_le (x ∷ xs) (y ∷ ys) = let rest = list_le xs ys in if x == y then rest else ltb x y

module _ (fl : Float) where
  open fl use {F, ratio, plus, over, round4, at_most}

  unfoldable pub link_one : Settings fl → ℕ → Node → ℕ → Node → Linked F → Linked F
  link_one cfg i x j y links =
      let score = (score_edge fl x y cfg.window_seconds cfg.min_shared_entities).0 in
      if at_most cfg.threshold score
      then record {
        parents = union links.parents i j;
        edges = links.edges ++ record { from = i; to = j; score = score } ∷ [];
      }
      else links

  -- `for j in range(i + 1, len(nodes))`
  unfoldable pub link_rest : Settings fl → ℕ → Node → ℕ → List Node → Linked F → Linked F
  link_rest cfg i x j [] links = links
  link_rest cfg i x j (y ∷ ys) links = link_rest cfg i x (suc j) ys (link_one cfg i x j y links)

  -- `for i in range(len(nodes))`
  unfoldable pub link_all : Settings fl → ℕ → List Node → Linked F → Linked F
  link_all cfg i [] links = links
  link_all cfg i (x ∷ xs) links = link_all cfg (suc i) xs (link_rest cfg i x (suc i) xs links)

  unfoldable pub sum_scores : F → List (Edge F) → F
  sum_scores total [] = total
  sum_scores total (e ∷ edges) = sum_scores (plus total e.score) edges

  abbrev pub holds : List ℕ → ℕ → Bool
  holds indexes i = any (λ k. k == i) indexes

  unfoldable pub cluster_of : List (Edge F) → Group → Cluster F
  unfolding sum_scores sort_by
  cluster_of edges g =
      let inside = keep (λ e. holds g.members e.from && holds g.members e.to) edges in
      record {
        indexes = sort_by leb g.members;
        link_score =
            if length inside == 0
            then ratio 0 1
            else round4 (over (sum_scores (ratio 0 1) inside) (ratio (length inside) 1));
      }

  unfoldable pub connected_components : Settings fl → List Node → List (Cluster F)
  connected_components cfg nodes =
      let start : Linked F = record { parents = range 0 (length nodes); edges = [] } in
      let links = link_all cfg 0 nodes start in
      let groups = group_from (length nodes) 0 links.parents [] in
      sort_by (λ a b. list_le a.indexes b.indexes)
        (map (cluster_of links.edges) (keep (λ g. not (ltb (length g.members) 2)) groups))

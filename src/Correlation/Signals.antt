-- ===== src/Correlation/Signals.antt =====
-- Edge scores: `score_edge` and its signals, backend/apps/agentic/correlation/scoring.py, with the
-- weights of backend/apps/agentic/correlation/entities.py. Sets are lists without repetition.
-- `kind:value` pairs are pairs, since no kind has a colon. Times are microseconds.
use soc_one.Base.{
  ℕ, ◌+◌, ◌-◌, Bool, true, false, ◌&&◌, ◌||◌, not, List, [], ◌∷◌, min, max, ◌==◌, ltb,
  if◌then◌else◌, keep, any, length, String, str_eq,
}
use soc_one.Base.Float.{Float, fmin}

pub data EntityKind : Type 0 where
  hostname username hash process ip : EntityKind

unfoldable pub same_kind : EntityKind → EntityKind → Bool
same_kind hostname b = elim b [ hostname ↦ true | _ ↦ false ]
same_kind username b = elim b [ username ↦ true | _ ↦ false ]
same_kind hash b = elim b [ hash ↦ true | _ ↦ false ]
same_kind process b = elim b [ process ↦ true | _ ↦ false ]
same_kind ip b = elim b [ ip ↦ true | _ ↦ false ]

pub record Entity : Type 0 where
  pub kind : EntityKind
  pub value : String

unfoldable pub same_entity : Entity → Entity → Bool
unfolding same_kind
same_entity a b = same_kind a.kind b.kind && str_eq a.value b.value

pub record Node : Type 0 where
  pub case : ℕ
  pub pairs : List Entity
  pub tactics : List String
  pub timestamp : ℕ

unfoldable pub shared_pairs : Node → Node → List Entity
unfolding same_entity
shared_pairs left right = keep (λ e. any (same_entity e) right.pairs) left.pairs

module _ (fl : Float) where
  open fl use {F, ratio, plus, minus, times, over, round4, at_most}

  pub record Settings : Type 0 where
    pub window_seconds : ℕ
    pub min_shared_entities : ℕ
    pub threshold : F

  -- `ENTITY_WEIGHTS`
  unfoldable pub entity_weight : EntityKind → F
  entity_weight hostname = ratio 10 10
  entity_weight username = ratio 10 10
  entity_weight hash = ratio 9 10
  entity_weight process = ratio 5 10
  entity_weight ip = ratio 4 10

  unfoldable pub total_weight : F → List Entity → F
  unfolding entity_weight
  total_weight total [] = total
  total_weight total (e ∷ shared) = total_weight (plus total (entity_weight e.kind)) shared

  unfoldable pub entity_signal : List Entity → F
  unfolding total_weight
  entity_signal [] = ratio 0 1
  entity_signal (e ∷ shared) = fmin fl (ratio 1 1) (total_weight (ratio 0 1) (e ∷ shared))

  -- `delta.total_seconds()` of the two times
  abbrev delta_seconds : Node → Node → F
  delta_seconds left right =
      ratio (max left.timestamp right.timestamp - min left.timestamp right.timestamp) 1000000

  unfoldable pub time_signal : Node → Node → ℕ → F
  time_signal left right window_seconds =
      if window_seconds == 0
      then ratio 0 1
      else if at_most (ratio window_seconds 1) (delta_seconds left right)
      then ratio 0 1
      else minus (ratio 1 1) (over (delta_seconds left right) (ratio window_seconds 1))

  abbrev common_tactics : Node → Node → List String
  common_tactics left right = keep (λ t. any (str_eq t) right.tactics) left.tactics

  -- The size of `left | right`
  abbrev all_tactics : Node → Node → ℕ
  all_tactics left right =
      length left.tactics + length (keep (λ t. not (any (str_eq t) left.tactics)) right.tactics)

  unfoldable pub tactic_signal : Node → Node → F
  tactic_signal left right =
      if length left.tactics == 0 || length right.tactics == 0
      then ratio 0 1
      else if length (common_tactics left right) == 0
      then ratio 0 1
      else over (ratio (length (common_tactics left right)) 1) (ratio (all_tactics left right) 1)

  unfoldable pub score_edge : Node → Node → ℕ → ℕ → F × List Entity
  unfolding shared_pairs entity_signal time_signal tactic_signal
  score_edge left right window_seconds min_shared_entities =
      let shared = shared_pairs left right in
      let score =
        plus
          (plus (times (ratio 70 100) (entity_signal shared))
            (times (ratio 15 100) (time_signal left right window_seconds)))
          (times (ratio 15 100) (tactic_signal left right)) in
      if ltb (length shared) (max 1 min_shared_entities)
      then (ratio 0 1, shared)
      else (round4 (fmin fl (ratio 1 1) score), shared)

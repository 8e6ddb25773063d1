-- ===== src/Hunting/Loop/Searches.antt =====
-- The searches of `run_plan` in backend/apps/agentic/hunting/service.py, counted against the plan's queries.
use soc_one.Base.{
  ℕ, suc, ◌+◌, ◌≤◌, ◌≡◌, refl, ◌∙◌, inl, inr, Bool, true, false, ◌&&◌, List, [], ◌∷◌, ◌==◌, leb,
  keep, length, All, arith, Bool-cases,
}
use soc_one.Base.Sort.{count, count-sort_by, count-keep-le}
use soc_one.Hunting.Plan.{Text, Target, HuntQuery, Config, Queries, create_query, of_hypothesis}
use soc_one.Hunting.Execute.{
  SearchAnswer, Run, execute_query, execute_query-IsGuarded, IsSettled, search_in_slot,
  record_answer,
}
use soc_one.Hunting.Loop.{
  World, Progress, is_pending, queries_of, saved, execute_one, execute_pending,
}

abbrev pub has_id : ℕ → HuntQuery → Bool
has_id i q = q.id == i

abbrev pub waits : ℕ → HuntQuery → Bool
waits i q = has_id i q && is_pending q

-- A query's id, and whether it still waits, after `execute_query`.
execute_query-id :
    (config : Config) (ask : Target → Text → SearchAnswer) (run : Run)
    → (execute_query config ask run).query.id ≡ run.query.id
unfolding execute_query search_in_slot record_answer
execute_query-id config ask run = ground (arith)

settled_waits : (q : HuntQuery) → IsSettled q → is_pending q ≡ false
unfolding is_pending
settled_waits _ (IsSettled.found q e) = rw e refl
settled_waits _ (IsSettled.refused q e r) = rw e refl
settled_waits _ (IsSettled.broken q e) = rw e refl
settled_waits _ (IsSettled.left q e) = rw e refl

saved-has_id :
    (q : HuntQuery) (i : ℕ) (rows : List HuntQuery)
    → count (has_id i) (saved q rows) ≡ count (has_id i) rows
unfolding saved
saved-has_id q i [] = refl
saved-has_id q i (r ∷ rows) = ground (arith, saved-has_id q i rows)

saved-waits :
    (q : HuntQuery) (i : ℕ) (rows : List HuntQuery)
    → (q.id == i) ≡ false
    → count (waits i) (saved q rows) ≡ count (waits i) rows
unfolding saved
saved-waits q i [] h = refl
saved-waits q i (r ∷ rows) h = ground (arith, saved-waits q i rows h)

-- A settled query no longer counts.
saved-is_pending :
    (q : HuntQuery) (i : ℕ) (rows : List HuntQuery)
    → q.id ≡ i
    → is_pending q ≡ false
    → count is_pending (saved q rows) + count (waits i) rows ≡ count is_pending rows
unfolding saved
saved-is_pending q i [] e h = refl
saved-is_pending q i (r ∷ rows) e h = ground (arith, saved-is_pending q i rows e h)

saved-length : (q : HuntQuery) (rows : List HuntQuery) → length (saved q rows) ≡ length rows
unfolding saved
saved-length q [] = refl
saved-length q (r ∷ rows) = omega (arith, saved-length q rows)

waits-le : (i : ℕ) (rows : List HuntQuery) → count (waits i) rows ≤ count (has_id i) rows
waits-le i [] = omega arith
waits-le i (r ∷ rows) = ground (arith, waits-le i rows)

pub pending-le : (rows : List HuntQuery) → count is_pending rows ≤ length rows
pending-le [] = omega arith
pending-le (r ∷ rows) = ground (arith, pending-le rows)

-- Ids stand once and below the next one; what was spent and the queries that wait are not more than all
-- queries.
pub record IsSound (spent : ℕ) (table : Queries) : Type 0 where
  pub unique : (i : ℕ) → count (has_id i) table.rows ≤ 1
  pub below : (i : ℕ) → table.next_id ≤ i → count (has_id i) table.rows ≡ 0
  pub covered : spent + count is_pending table.rows ≤ length table.rows

pub create_query-IsSound :
    (spent hypothesis : ℕ) (target : Target) (text : Text) (position : ℕ) (table : Queries)
    → IsSound spent table
    → IsSound spent (create_query hypothesis target text position table)
unfolding create_query is_pending
create_query-IsSound spent hypothesis target text position table s = record {
  unique = λ i. ground (arith, s.unique i, s.below i);
  below = λ i h. ground (arith, s.below i (omega (arith, h)), h);
  covered = omega (arith, s.covered);
}

-- One search more at most.
pub execute_query-searches :
    (config : Config) (ask : Target → Text → SearchAnswer) (run : Run)
    → length (execute_query config ask run).searches ≤ suc (length run.searches)
execute_query-searches config ask run = elim (execute_query-IsGuarded config ask run).0 [
  | inl e ↦ rw e (omega arith)
  | inr (_, e, _) ↦ rw e (omega arith)
]

abbrev pub IsKept : Progress → Type 0
IsKept p = IsSound (length p.searches) p.table

-- The queries stand among the rows, each as often as in the list, and wait.
abbrev pub AreWaiting : List HuntQuery → List HuntQuery → Type 0
AreWaiting queries rows =
    All (λ q. is_pending q ≡ true) queries
    × ((i : ℕ) → count (waits i) queries ≤ count (waits i) rows)

keep-pending : (queries : List HuntQuery) → All (λ q. is_pending q ≡ true) (keep is_pending queries)
keep-pending [] = tt
keep-pending (q ∷ queries) = elim (Bool-cases (is_pending q)) [
  | inl e ↦ rw e (e, keep-pending queries)
  | inr e ↦ rw e (keep-pending queries)
]

module _ (config : Config) (world : World) where
  abbrev pub run_of : HuntQuery → Progress → Run
  run_of q p =
      execute_query config (world.ask (length p.searches))
        record { query = q; slots = p.slots; searches = p.searches }

  pub run_of-id : (q : HuntQuery) (p : Progress) → (run_of q p).query.id ≡ q.id
  run_of-id q p =
      execute_query-id config (world.ask (length p.searches))
        record { query = q; slots = p.slots; searches = p.searches }

  pub run_of-settled : (q : HuntQuery) (p : Progress) → is_pending (run_of q p).query ≡ false
  run_of-settled q p =
      settled_waits (run_of q p).query
        (execute_query-IsGuarded config (world.ask (length p.searches))
          record { query = q; slots = p.slots; searches = p.searches }).2

  execute_one-IsKept :
      (q : HuntQuery) (p : Progress)
      → IsKept p
      → 1 ≤ count (waits q.id) p.table.rows
      → IsKept (execute_one config world q p)
  unfolding execute_one
  execute_one-IsKept q p s w =
      let rows = p.table.rows in
      let after = (run_of q p).query in
      let one =
        execute_query-searches config (world.ask (length p.searches))
          record { query = q; slots = p.slots; searches = p.searches } in
      let gone : count is_pending (saved after rows) + count (waits q.id) rows
          ≡ count is_pending rows =
        saved-is_pending after q.id rows (run_of-id q p) (run_of-settled q p) in
      record {
        unique = λ i. rw (saved-has_id after i rows) (s.unique i);
        below = λ i h. saved-has_id after i rows ∙ s.below i h;
        covered = omega (arith, saved-length after rows, gone, one, w, s.covered);
      }

  execute_one-AreWaiting :
      (q : HuntQuery) (queries : List HuntQuery) (p : Progress)
      → IsKept p
      → AreWaiting (q ∷ queries) p.table.rows
      → AreWaiting queries (execute_one config world q p).table.rows
  unfolding execute_one
  execute_one-AreWaiting q queries p s (pend, listed) = (
    pend.1,
    λ i. elim (Bool-cases (q.id == i)) [
      | inl e ↦ ground (arith, listed i, s.unique i, waits-le i p.table.rows, pend.0, e)
      | inr e ↦
          rw (saved-waits (run_of q p).query i p.table.rows (rw (run_of-id q p) e))
            (ground (arith, listed i, e))
    ],
  )

  execute_one-length :
      (q : HuntQuery) (p : Progress)
      → length (execute_one config world q p).table.rows ≡ length p.table.rows
  unfolding execute_one
  execute_one-length q p = saved-length (run_of q p).query p.table.rows

  pub execute_pending-IsKept :
      (queries : List HuntQuery) (p : Progress)
      → IsKept p
      → AreWaiting queries p.table.rows
      → IsKept (execute_pending config world queries p).0
        × (length (execute_pending config world queries p).0.table.rows ≡ length p.table.rows)
  unfolding execute_pending
  execute_pending-IsKept [] p s w = (s, refl)
  execute_pending-IsKept (q ∷ queries) p s w =
      let here : 1 ≤ count (waits q.id) p.table.rows = ground (arith, w.1 q.id, w.0.0) in
      let after = execute_one config world q p in
      let rest =
        execute_pending-IsKept queries after (execute_one-IsKept q p s here)
          (execute_one-AreWaiting q queries p s w) in
      elim (Bool-cases (leb config.max_tokens_per_plan p.tokens_used)) [
        | inl e ↦ rw e (s, refl)
        | inr e ↦ rw e (rest.0, rest.1 ∙ execute_one-length q p)
      ]

  -- The queries that a round executes.
  pub pending_of-AreWaiting :
      (h : ℕ) (rows : List HuntQuery) → AreWaiting (keep is_pending (queries_of h rows)) rows
  unfolding queries_of
  pending_of-AreWaiting h rows = (
    keep-pending (queries_of h rows),
    λ i. omega (
      arith,
      count-keep-le (waits i) is_pending (queries_of h rows),
      count-sort_by (waits i) (λ q r. leb q.position r.position) (keep (of_hypothesis h) rows),
      count-keep-le (waits i) (of_hypothesis h) rows,
    ),
  )

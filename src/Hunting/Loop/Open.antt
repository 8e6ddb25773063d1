-- ===== src/Hunting/Loop/Open.antt =====
-- Which queries a run of a plan leaves unexecuted, in backend/apps/agentic/hunting/service.py.
use soc_one.Base.{
  ℕ, ◌+◌, ◌≤◌, ◌≡◌, refl, ◌∙◌, inl, inr, Bool, true, false, ◌&&◌, not, List, [], ◌∷◌, ◌==◌, leb,
  any, keep, All, In, arith, Bool-cases,
}
use soc_one.Base.Sort.{count, In-count, count-sort_by}
use soc_one.Hunting.Plan.{
  HuntQuery, QueryOutput, Queries, Config, of_hypothesis, create_query, Proposing, accept_query,
  propose_one, propose_all, start_proposing, propose_followup_queries, pending,
}
use soc_one.Hunting.Loop.{
  World, Progress, HuntHypothesis, is_pending, queries_of, saved, execute_one, execute_pending,
  pending_of,
}
use soc_one.Hunting.Loop.Searches.{has_id, waits, run_of, run_of-id, run_of-settled}

-- A hypothesis's query that is still to be executed.
abbrev pub is_open : ℕ → HuntQuery → Bool
is_open t q = q.hypothesis == t && elim q.status [ pending ↦ true | _ ↦ false ]

abbrev pub IsClosed : ℕ → Progress → Type 0
IsClosed t p = count (is_open t) p.table.rows ≡ 0

saved-open :
    (t : ℕ) (q : HuntQuery) (rows : List HuntQuery)
    → is_pending q ≡ false
    → count (is_open t) (saved q rows) ≤ count (is_open t) rows
unfolding saved is_pending
saved-open t q [] h = omega arith
saved-open t q (r ∷ rows) h = ground (arith, saved-open t q rows h)

-- The open queries have their ids among the queries of the list.
abbrev AreListed : ℕ → List HuntQuery → List HuntQuery → Type 0
AreListed t queries rows = All (λ r. (is_open t r && not (any (has_id r.id) queries)) ≡ false) rows

saved-AreListed :
    (t : ℕ) (q now : HuntQuery) (queries rows : List HuntQuery)
    → now.id ≡ q.id
    → is_pending now ≡ false
    → AreListed t (q ∷ queries) rows
    → AreListed t queries (saved now rows)
unfolding saved is_pending
saved-AreListed t q now queries [] e h l = tt
saved-AreListed t q now queries (r ∷ rows) e h l =
    let rest = saved-AreListed t q now queries rows e h l.1 in
    elim (Bool-cases (r.id == now.id)) [
      | inl s ↦ rw s (ground (arith, h), rest)
      | inr s ↦ rw s (ground (arith, l.0, s, e), rest)
    ]

nothing_listed : (t : ℕ) (rows : List HuntQuery) → AreListed t [] rows → count (is_open t) rows ≡ 0
nothing_listed t [] l = refl
nothing_listed t (r ∷ rows) l = ground (arith, l.0, nothing_listed t rows l.1)

any-count :
    (i : ℕ) (queries : List HuntQuery)
    → 1 ≤ count (has_id i) queries
    → any (has_id i) queries ≡ true
any-count i [] h = absurd (omega (arith, h))
any-count i (q ∷ queries) h = ground (arith, h, any-count i queries)

count-keep_pending :
    (i : ℕ) (queries : List HuntQuery)
    → count (has_id i) (keep is_pending queries) ≡ count (waits i) queries
count-keep_pending i [] = refl
count-keep_pending i (q ∷ queries) = ground (arith, count-keep_pending i queries)

count-keep-of_hypothesis :
    (t i : ℕ) (rows : List HuntQuery)
    → count (waits i) (keep (of_hypothesis t) rows) ≡ count (λ q. is_open t q && has_id i q) rows
unfolding is_pending
count-keep-of_hypothesis t i [] = refl
count-keep-of_hypothesis t i (q ∷ rows) = ground (arith, count-keep-of_hypothesis t i rows)

queries_of-count :
    (t i : ℕ) (rows : List HuntQuery)
    → count (waits i) (queries_of t rows) ≡ count (λ q. is_open t q && has_id i q) rows
unfolding queries_of is_pending
queries_of-count t i rows =
    count-sort_by (waits i) (λ q r. leb q.position r.position) (keep (of_hypothesis t) rows)
    ∙ count-keep-of_hypothesis t i rows

open_listed :
    (t : ℕ) (r : HuntQuery) (rows : List HuntQuery)
    → In r rows
    → is_open t r ≡ true
    → any (has_id r.id) (keep is_pending (queries_of t rows)) ≡ true
open_listed t r rows i o = any-count r.id (keep is_pending (queries_of t rows)) (
    omega (
      arith,
      count-keep_pending r.id (queries_of t rows),
      queries_of-count t r.id rows,
      In-count (λ q. is_open t q && has_id r.id q) r rows i (ground (arith, o)),
    ))

open-AreListed :
    (t : ℕ) (rows some_rows : List HuntQuery)
    → ((r : HuntQuery) → In r some_rows → In r rows)
    → AreListed t (keep is_pending (queries_of t rows)) some_rows
open-AreListed t rows [] f = tt
open-AreListed t rows (r ∷ some_rows) f = (
  elim (Bool-cases (is_open t r)) [
    | inl o ↦ rw (o, open_listed t r rows (f r (inl refl)) o) refl
    | inr o ↦ rw o refl
  ],
  open-AreListed t rows some_rows (λ q i. f q (inr i)),
)

module _ (config : Config) (world : World) where
  execute_one-AreListed :
      (t : ℕ) (q : HuntQuery) (queries : List HuntQuery) (p : Progress)
      → AreListed t (q ∷ queries) p.table.rows
      → AreListed t queries (execute_one config world q p).table.rows
  unfolding execute_one
  execute_one-AreListed t q queries p l =
      saved-AreListed t q (run_of config world q p).query queries p.table.rows
        (run_of-id config world q p) (run_of-settled config world q p) l

  execute_one-open :
      (t : ℕ) (q : HuntQuery) (p : Progress)
      → count (is_open t) (execute_one config world q p).table.rows ≤ count (is_open t) p.table.rows
  unfolding execute_one
  execute_one-open t q p =
      saved-open t (run_of config world q p).query p.table.rows (run_of-settled config world q p)

  -- Searches that the ceiling does not stop leave nothing of their list.
  pub execute_pending-IsClosed :
      (t : ℕ) (queries : List HuntQuery) (p : Progress)
      → AreListed t queries p.table.rows
      → (execute_pending config world queries p).1 ≡ false
      → IsClosed t (execute_pending config world queries p).0
  unfolding execute_pending
  execute_pending-IsClosed t [] p l h = nothing_listed t p.table.rows l
  execute_pending-IsClosed t (q ∷ queries) p l h =
      let next =
        execute_pending-IsClosed t queries (execute_one config world q p)
          (execute_one-AreListed t q queries p l) in
      elim (Bool-cases (leb config.max_tokens_per_plan p.tokens_used)) [
        | inl e ↦ absurd (ground (arith, h, e))
        | inr e ↦ rw e (next (rw e at h))
      ]

  pub execute_pending-open :
      (t : ℕ) (queries : List HuntQuery) (p : Progress)
      → IsClosed t p
      → IsClosed t (execute_pending config world queries p).0
  unfolding execute_pending
  execute_pending-open t [] p z = z
  execute_pending-open t (q ∷ queries) p z =
      let next =
        execute_pending-open t queries (execute_one config world q p)
          (omega (arith, z, execute_one-open t q p)) in
      elim (Bool-cases (leb config.max_tokens_per_plan p.tokens_used)) [
        | inl e ↦ rw e z
        | inr e ↦ rw e next
      ]

  pub pending_of-IsClosed :
      (h : HuntHypothesis) (p : Progress)
      → let searched = execute_pending config world (pending_of config world h p) p in
        searched.1 ≡ false → IsClosed h.id searched.0
  pending_of-IsClosed h p e =
      execute_pending-IsClosed h.id (pending_of config world h p) p
        (open-AreListed h.id p.table.rows p.table.rows (λ r i. i)) e

-- A follow-up is open, and counted as created.
propose_one-open :
    (t hypothesis : ℕ) (q : QueryOutput) (state : Proposing)
    → let after = propose_one hypothesis q state in
      (count (is_open t) after.table.rows + state.created
        ≤ count (is_open t) state.table.rows + after.created)
      × ((hypothesis == t) ≡ false
          → count (is_open t) after.table.rows ≡ count (is_open t) state.table.rows)
unfolding propose_one accept_query create_query is_pending
propose_one-open t hypothesis q state = (ground arith, λ e. ground (arith, e))

propose_all-open :
    (t hypothesis : ℕ) (output : List QueryOutput) (state : Proposing)
    → let after = propose_all hypothesis output state in
      (count (is_open t) after.table.rows + state.created
        ≤ count (is_open t) state.table.rows + after.created)
      × ((hypothesis == t) ≡ false
          → count (is_open t) after.table.rows ≡ count (is_open t) state.table.rows)
unfolding propose_all
propose_all-open t hypothesis [] state = (omega arith, λ e. refl)
propose_all-open t hypothesis (q ∷ output) state =
    let one = propose_one-open t hypothesis q state in
    let rest = propose_all-open t hypothesis output (propose_one hypothesis q state) in
    elim (Bool-cases (state.remaining == 0)) [
      | inl e ↦ rw e (omega arith, λ f. refl)
      | inr e ↦ rw e (omega (arith, one.0, rest.0), λ f. rest.1 f ∙ one.1 f)
    ]

pub propose_followup_queries-open :
    (config : Config) (t hypothesis : ℕ) (output : List QueryOutput) (table : Queries)
    → let after = propose_followup_queries config hypothesis output table in
      (count (is_open t) after.table.rows ≤ count (is_open t) table.rows + after.created)
      × ((hypothesis == t) ≡ false
          → count (is_open t) after.table.rows ≡ count (is_open t) table.rows)
unfolding propose_followup_queries start_proposing
propose_followup_queries-open config t hypothesis output table =
    let all = propose_all-open t hypothesis output (start_proposing config hypothesis table) in
    (omega (arith, all.0), all.1)

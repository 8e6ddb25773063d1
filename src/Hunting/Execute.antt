-- ===== src/Hunting/Execute.antt =====
-- `execute_query` of backend/apps/agentic/hunting/service.py. The two search backends behind their guards
-- are an argument; the slots are the keys that stand in the shared cache. The sample rows are left out,
-- and so is the number of slots in the message for busy ones.
use soc_one.Base.{
  ℕ, zero, suc, ◌+◌, ◌<◌, ◌≡◌, refl, ◌⊎◌, inl, inr, Bool, true, false, not, Option, none, some,
  List, [], ◌∷◌, String, str_eq, ◌==◌, if◌then◌else◌, any, keep, max, arith, Bool-cases,
  Option-cases,
}
use soc_one.Hunting.Plan.{
  Text, Target, rejected, running, succeeded, failed, skipped, HuntQuery, Config,
}

pub data SearchAnswer : Type 0 where
  rows_found : ℕ → Text → SearchAnswer
  guard_refused : String → SearchAnswer
  search_failed : String → SearchAnswer

-- A query, the taken slots, and the searches made, latest first.
pub record Run : Type 0 where
  pub query : HuntQuery
  pub slots : List ℕ
  pub searches : List (Target × Text)

abbrev pub is_taken : List ℕ → ℕ → Bool
is_taken slots i = any (λ j. j == i) slots

-- The first index of the range whose key `cache.add` can set.
unfoldable pub free_slot : ℕ → ℕ → List ℕ → Option ℕ
free_slot index zero slots = none
free_slot index (suc n) slots =
    let rest = free_slot (suc index) n slots in if is_taken slots index then rest else some index

unfoldable pub acquire : Config → List ℕ → Option ℕ
unfolding free_slot
acquire config slots = free_slot 0 (max 1 config.max_concurrent_searches) slots

-- `cache.delete(acquired)`
unfoldable pub release : ℕ → List ℕ → List ℕ
release index slots = keep (λ j. not (j == index)) slots

abbrev or_text : String → String → String
or_text a b = if str_eq a "" then b else a

-- What the answer makes of the query.
unfoldable pub record_answer : SearchAnswer → HuntQuery → HuntQuery
record_answer (rows_found count text) query = record query {
  status = succeeded;
  row_count = some count;
  query_text = text;
}
record_answer (guard_refused reason) query = record query {
  status = rejected;
  guard_rejection_reason = or_text reason "Rejected by the read-only guard.";
}
record_answer (search_failed error) query = record query { status = failed; error = error }

unfoldable pub search_in_slot : (Target → Text → SearchAnswer) → ℕ → Run → Run
unfolding record_answer release
search_in_slot ask slot run = record {
  query = record_answer (ask run.query.target run.query.query_text) run.query;
  slots = release slot (slot ∷ run.slots);
  searches = (run.query.target, run.query.query_text) ∷ run.searches;
}

unfoldable pub execute_query : Config → (Target → Text → SearchAnswer) → Run → Run
unfolding acquire search_in_slot
execute_query config ask run =
    if not config.allow_auto_mode
    then record run {
      query = record run.query {
        status = skipped;
        guard_rejection_reason = "Execution is disabled in runtime configuration.";
      };
    }
    else elim (acquire config run.slots) [
      | none ↦ record run {
        query = record run.query {
          status = skipped;
          error = "All concurrent search slots are busy.";
        };
      }
      | some slot ↦
          search_in_slot ask slot (record run { query = record run.query { status = running } })
    ]

-- Nothing was searched; or execution is allowed and the one search made is that of the query, in a slot
-- that was free.
abbrev pub IsGuarded : Config → Run → Run → Type 0
IsGuarded config run after =
    (after.searches ≡ run.searches)
    ⊎ ((config.allow_auto_mode ≡ true)
        × (after.searches ≡ (run.query.target, run.query.query_text) ∷ run.searches)
        × ((slot : ℕ) × (is_taken run.slots slot ≡ false)
            × (slot < max 1 config.max_concurrent_searches)))

-- The query is settled: found, refused with a reason, failed, or skipped.
pub data IsSettled : HuntQuery → Type 0 where
  found : (q : HuntQuery) → q.status ≡ succeeded → IsSettled q
  refused :
      (q : HuntQuery)
      → q.status ≡ rejected
      → str_eq q.guard_rejection_reason "" ≡ false
      → IsSettled q
  broken : (q : HuntQuery) → q.status ≡ failed → IsSettled q
  left : (q : HuntQuery) → q.status ≡ skipped → IsSettled q

free_slot-free :
    (index n : ℕ) (slots : List ℕ) (slot : ℕ)
    → free_slot index n slots ≡ some slot
    → (is_taken slots slot ≡ false) × (slot < index + n)
unfolding free_slot
free_slot-free index zero slots slot h = cc
free_slot-free index (suc n) slots slot h = elim (Bool-cases (is_taken slots index)) [
  | inl e ↦ ground (arith, free_slot-free (suc index) n slots slot)
  | inr e ↦ let same : index ≡ slot = ground arith in (rw (← same) e, ground arith)
]

acquire-free :
    (config : Config) (slots : List ℕ) (slot : ℕ)
    → acquire config slots ≡ some slot
    → (is_taken slots slot ≡ false) × (slot < max 1 config.max_concurrent_searches)
unfolding acquire
acquire-free config slots slot h =
    let free = free_slot-free 0 (max 1 config.max_concurrent_searches) slots slot h in
    (free.0, omega (arith, free.1))

release-others :
    (slot : ℕ) (slots : List ℕ) → is_taken slots slot ≡ false → release slot slots ≡ slots
unfolding release
release-others slot [] h = refl
release-others slot (j ∷ slots) h = ground (arith, release-others slot slots)

release-taken :
    (slot : ℕ) (slots : List ℕ) → is_taken slots slot ≡ false → release slot (slot ∷ slots) ≡ slots
unfolding release
release-taken slot slots h = ground (arith, release-others slot slots h)

record_answer-IsSettled :
    (answer : SearchAnswer) (q : HuntQuery) → IsSettled (record_answer answer q)
unfolding record_answer
record_answer-IsSettled (rows_found count text) q = found _ refl
record_answer-IsSettled (guard_refused reason) q = elim (Bool-cases (str_eq reason "")) [
  | inl e ↦ refused _ refl (rw e refl)
  | inr e ↦ refused _ refl (rw e e)
]
record_answer-IsSettled (search_failed error) q = broken _ refl

-- Nothing is searched unless execution is allowed, and then at most the query itself, in a slot that was
-- free and below the limit; the slots are afterwards as before, and the query is settled: succeeded,
-- refused by the guard with a reason, failed or skipped.
pub execute_query-IsGuarded :
    (config : Config) (ask : Target → Text → SearchAnswer) (run : Run)
    → let after = execute_query config ask run in
      IsGuarded config run after × (after.slots ≡ run.slots) × IsSettled after.query
unfolding execute_query search_in_slot
execute_query-IsGuarded config ask run = elim (Bool-cases config.allow_auto_mode) [
  | inr off ↦ rw off (inl refl, refl, left _ refl)
  | inl on ↦ elim (Option-cases (acquire config run.slots)) [
    | inl e ↦ rw (on, e) (inl refl, refl, left _ refl)
    | inr (slot, e) ↦
        let free = acquire-free config run.slots slot e in
        rw (on, e)
          (
            inr (refl, refl, (slot, free.0, free.1)),
            release-taken slot run.slots free.0,
            record_answer-IsSettled (ask run.query.target run.query.query_text)
                (record run.query { status = running }),
          )
  ]
]

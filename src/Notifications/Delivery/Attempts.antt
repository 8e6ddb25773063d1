-- ===== src/Notifications/Delivery/Attempts.antt =====
-- Every claimed row has one attempt in an iteration of backend/apps/notifications/delivery.py.
use soc_one.Base.{
  ℕ, zero, suc, ◌+◌, ◌^◌, ◌≤◌, ◌<◌, ◌≡◌, refl, ◌⊎◌, inl, inr, Option, none, some, List, String, leb,
  arith, Bool-cases, In,
}
use soc_one.Base.Sort.{count}
use soc_one.Notifications.Outbox.{pending, sent, failed, Row}
use soc_one.Notifications.Delivery.{
  Outcome, accepted, rate_limited, refused, sent_row, copy_sent, backoff, failed_row, copy_failed,
  mark_sent, mark_failure, pause_of, answer,
}
use soc_one.Notifications.Delivery.Settling.{has_id, row_at, IsCopy, mark-other, mark-same}

-- What an attempt makes of a pending row: sent, or given up, or to be sent again later.
pub data IsAttempted (limit later : ℕ) (r q : Row) : Type 0 where
  went_out : q.attempts ≡ suc r.attempts → q.status ≡ sent → IsAttempted limit later r q
  given_up :
      q.attempts ≡ suc r.attempts
      → q.status ≡ failed
      → (r.destination ≡ none) ⊎ (limit ≤ suc r.attempts)
      → IsAttempted limit later r q
  put_off :
      q.attempts ≡ suc r.attempts
      → q.status ≡ pending
      → suc r.attempts < limit
      → (t : ℕ) × (q.scheduled_for ≡ some t) × (later < t)
      → IsAttempted limit later r q

power_pos : (n : ℕ) → 0 < 2 ^ n
power_pos zero = omega arith
power_pos (suc n) = omega (arith, power_pos n)

backoff_pos : (pause : Option ℕ) (attempts : ℕ) → 0 < backoff pause attempts
unfolding backoff
backoff_pos none attempts = ground (arith, power_pos attempts)
backoff_pos (some pause) attempts = ground (arith, power_pos attempts)

failed_row-IsAttempted :
    (error : String) (limit : ℕ) (pause : Option ℕ) (later : ℕ) (r : Row)
    → r.status ≡ pending
    → IsAttempted limit later r (copy_failed (failed_row error limit pause later r) r)
unfolding failed_row
failed_row-IsAttempted error limit pause later r p =
    elim (Bool-cases (leb limit (suc r.attempts))) [
      | inl e ↦ rw e (given_up refl refl (inr (ground arith)))
      | inr e ↦ rw e (
          put_off refl p (ground arith) (
            later + backoff pause (suc r.attempts),
            refl,
            omega (arith, backoff_pos pause (suc r.attempts)),
          ))
    ]

pub deleted-IsAttempted :
    (error : String) (limit later : ℕ) (r : Row)
    → r.destination ≡ none
    → IsAttempted limit later r (copy_failed (failed_row error 1 none later r) r)
unfolding failed_row
deleted-IsAttempted error limit later r d = elim (Bool-cases (leb 1 (suc r.attempts))) [
  | inl e ↦ rw e (given_up refl refl (inl d))
  | inr e ↦ absurd (ground arith)
]

sent-IsCopy : (later : ℕ) (text : String) → IsCopy copy_sent (sent_row later text)
unfolding sent_row
sent-IsCopy later text = (λ row r. refl, λ r. refl)

pub failed-IsCopy :
    (error : String) (limit : ℕ) (pause : Option ℕ) (later : ℕ)
    → IsCopy copy_failed (failed_row error limit pause later)
unfolding failed_row
failed-IsCopy error limit pause later = (λ row r. refl, λ r. ground arith)

sent_row-IsAttempted :
    (limit later : ℕ) (text : String) (r : Row)
    → IsAttempted limit later r (copy_sent (sent_row later text r) r)
unfolding sent_row
sent_row-IsAttempted limit later text r = went_out refl refl

module _ (limit later : ℕ) (text : String) (id : ℕ) where
  pub answer-other :
      (outcome : Outcome) (bucket rows : List Row)
      → count (has_id id) bucket ≡ 0
      → row_at id (answer limit later text outcome bucket rows).0 ≡ row_at id rows
  unfolding answer mark_sent mark_failure
  answer-other accepted bucket rows n =
      mark-other copy_sent (sent_row later text) (sent-IsCopy later text) id bucket rows n
  answer-other (rate_limited pause error) bucket rows n =
      mark-other copy_failed (failed_row error limit (pause_of pause) later)
        (failed-IsCopy error limit (pause_of pause) later) id bucket rows n
  answer-other (refused error) bucket rows n =
      mark-other copy_failed (failed_row error limit none later)
        (failed-IsCopy error limit none later) id bucket rows n

  pub answer-same :
      (outcome : Outcome) (bucket rows : List Row) (r : Row)
      → count (has_id id) bucket ≡ 1
      → In r bucket
      → r.id ≡ id
      → r.status ≡ pending
      → row_at id rows ≡ some r
      → (q : Row) × (row_at id (answer limit later text outcome bucket rows).0 ≡ some q)
        × IsAttempted limit later r q
  unfolding answer mark_sent mark_failure
  answer-same accepted bucket rows r c i e p h = (
    copy_sent (sent_row later text r) r,
    mark-same copy_sent (sent_row later text) (sent-IsCopy later text) id bucket rows r c i e h,
    sent_row-IsAttempted limit later text r,
  )
  answer-same (rate_limited pause error) bucket rows r c i e p h = (
    copy_failed (failed_row error limit (pause_of pause) later r) r,
    mark-same copy_failed (failed_row error limit (pause_of pause) later)
        (failed-IsCopy error limit (pause_of pause) later) id bucket rows r c i e h,
    failed_row-IsAttempted error limit (pause_of pause) later r p,
  )
  answer-same (refused error) bucket rows r c i e p h = (
    copy_failed (failed_row error limit none later r) r,
    mark-same copy_failed (failed_row error limit none later) (failed-IsCopy error limit none later)
        id bucket rows r c i e h,
    failed_row-IsAttempted error limit none later r p,
  )

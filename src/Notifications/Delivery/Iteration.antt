-- ===== src/Notifications/Delivery/Iteration.antt =====
-- A whole iteration of backend/apps/notifications/delivery.py.
use soc_one.Base.{
  In-append, ℕ, zero, suc, ◌+◌, ◌≤◌, ◌≡◌, refl, sym, ◌∙◌, ap, inl, inr, Bool, true, false, none,
  some, List, [], ◌∷◌, ◌++◌, String, str_eq, leb, if◌then◌else◌, arith, Option-cases, In, In-keep,
  All, keep, take, length,
}
use soc_one.Base.Sort.{
  count, count-append, count-keep-le, count-take-le, count-sort_by, In-count, sort_by, In-sort_by,
}
use soc_one.Notifications.Outbox.{pending, Row, Config}
use soc_one.Notifications.Delivery.{
  Outcome, is_due, claim_batch, same_destination, same_key, mark, failed_row, copy_failed,
  mark_failure, answer, send, send_all, singletons, work_of, deliver_batch, deliver_once,
  group_for_aggregation,
}
use soc_one.Notifications.Delivery.Grouping.{
  flat, count-work_of, IsUniform, IsMessage, group_for_aggregation-IsMessage,
}
use soc_one.Notifications.Delivery.Members.{work_of-In}
use soc_one.Notifications.Delivery.Settling.{has_id, row_at, mark-other, mark-same}
use soc_one.Notifications.Delivery.Attempts.{
  IsAttempted, answer-other, answer-same, deleted-IsAttempted, failed-IsCopy,
}

-- An id that stands once in the list stands for one row.
once-row_at :
    (id : ℕ) (rows : List Row) (r : Row)
    → count (has_id id) rows ≤ 1
    → In r rows
    → r.id ≡ id
    → row_at id rows ≡ some r
once-row_at id [] r c i e = elim i [ ]
once-row_at id (x ∷ rows) r c (inl q) e =
    let s : r.id ≡ x.id = ap (λ (z : Row). z.id) q in
    let same : has_id id x ≡ true = ground arith in rw same (ap some (sym q))
once-row_at id (x ∷ rows) r c (inr i) e =
    ground (
      arith,
      In-count (has_id id) r rows i (ground arith),
      once-row_at id rows r (ground arith) i e,
    )

no_destination :
    (b r : Row) (bucket : List Row)
    → IsUniform (b ∷ bucket)
    → In r (b ∷ bucket)
    → b.destination ≡ none
    → r.destination ≡ none
unfolding same_key same_destination
no_destination b r bucket u (inl e) n = ap (λ (z : Row). z.destination) e ∙ n
no_destination b r [] u (inr i) n = elim i [ ]
no_destination b r (x ∷ bucket) u (inr (inl e)) n =
    let s : r.destination ≡ x.destination = ap (λ (z : Row). z.destination) e in
    elim (Option-cases x.destination) [ inl h ↦ s ∙ h | inr (d, h) ↦ absurd (ground (arith, u.0)) ]
no_destination b r (x ∷ bucket) u (inr (inr i)) n = no_destination b r bucket u.1 (inr i) n

module _ (cfg : Config) (later : ℕ) (text : List Row → String) (outcome : List Row → Outcome)
    (id : ℕ) where
  send-deleted :
      (b : Row) (bucket rows : List Row)
      → b.destination ≡ none
      → send cfg later text outcome (b ∷ bucket) rows ≡ (
        mark copy_failed (failed_row "Destination was deleted." 1 none later) (b ∷ bucket) rows,
        false,
      )
  unfolding send mark_failure
  send-deleted b bucket rows e = ground arith

  send-answer :
      (b : Row) (bucket rows : List Row) (d : ℕ)
      → b.destination ≡ some d
      → send cfg later text outcome (b ∷ bucket) rows
        ≡ answer cfg.retry_limit later (text (b ∷ bucket)) (outcome (b ∷ bucket)) (b ∷ bucket) rows
  unfolding send
  send-answer b bucket rows d e = ground arith

  send-other :
      (bucket rows : List Row)
      → count (has_id id) bucket ≡ 0
      → row_at id (send cfg later text outcome bucket rows).0 ≡ row_at id rows
  unfolding send
  send-other [] rows n = refl
  send-other (b ∷ bucket) rows n = elim (Option-cases b.destination) [
    | inl e ↦ rw (send-deleted b bucket rows e) (
        mark-other copy_failed (failed_row "Destination was deleted." 1 none later)
          (failed-IsCopy "Destination was deleted." 1 none later) id (b ∷ bucket) rows n)
    | inr (d, e) ↦ rw (send-answer b bucket rows d e) (
        answer-other cfg.retry_limit later (text (b ∷ bucket)) id (outcome (b ∷ bucket))
          (b ∷ bucket) rows n)
  ]

  send-same :
      (bucket rows : List Row) (r : Row)
      → IsUniform bucket
      → count (has_id id) bucket ≡ 1
      → In r bucket
      → r.id ≡ id
      → r.status ≡ pending
      → row_at id rows ≡ some r
      → (q : Row) × (row_at id (send cfg later text outcome bucket rows).0 ≡ some q)
        × IsAttempted cfg.retry_limit later r q
  send-same [] rows r u c i e p h = elim i [ ]
  send-same (b ∷ bucket) rows r u c i e p h = elim (Option-cases b.destination) [
    | inl n ↦ rw (send-deleted b bucket rows n) (
      copy_failed (failed_row "Destination was deleted." 1 none later r) r,
      mark-same copy_failed (failed_row "Destination was deleted." 1 none later)
          (failed-IsCopy "Destination was deleted." 1 none later) id (b ∷ bucket) rows r c i e h,
      deleted-IsAttempted "Destination was deleted." cfg.retry_limit later r
          (no_destination b r bucket u i n),
    )
    | inr (d, n) ↦ rw (send-answer b bucket rows d n) (
        answer-same cfg.retry_limit later (text (b ∷ bucket)) id (outcome (b ∷ bucket)) (b ∷ bucket)
          rows r c i e p h)
  ]

  send_all-other :
      (work : List (List Row)) (rows : List Row) (n : ℕ)
      → count (has_id id) (flat work) ≡ 0
      → row_at id (send_all cfg later text outcome work (rows, n)).0 ≡ row_at id rows
  unfolding send_all
  send_all-other [] rows n c = refl
  send_all-other (b ∷ work) rows n c =
      let next = send cfg later text outcome b rows in
      let sum = count-append (has_id id) b (flat work) in
      send_all-other work next.0 (if next.1 then n + length b else n) (omega (arith, sum, c))
      ∙ send-other b rows (omega (arith, sum, c))

  send_all-same :
      (work : List (List Row)) (rows : List Row) (n : ℕ) (r : Row)
      → All IsUniform work
      → count (has_id id) (flat work) ≡ 1
      → In r (flat work)
      → r.id ≡ id
      → r.status ≡ pending
      → row_at id rows ≡ some r
      → (q : Row) × (row_at id (send_all cfg later text outcome work (rows, n)).0 ≡ some q)
        × IsAttempted cfg.retry_limit later r q
  unfolding send_all
  send_all-same [] rows n r u c i e p h = elim i [ ]
  send_all-same (b ∷ work) rows n r u c i e p h =
      let next = send cfg later text outcome b rows in
      let m = if next.1 then n + length b else n in
      let sum = count-append (has_id id) b (flat work) in
      let hit : has_id id r ≡ true = ground arith in
      elim ((In-append r b (flat work)).0 i) [
        | inl j ↦
            let one = In-count (has_id id) r b j hit in
            let (q, at, done) = send-same b rows r u.0 (omega (arith, sum, c, one)) j e p h in
            (q, send_all-other work next.0 m (omega (arith, sum, c, one)) ∙ at, done)
        | inr j ↦
            let one = In-count (has_id id) r (flat work) j hit in
            send_all-same work next.0 m r u.1 (omega (arith, sum, c, one)) j e p
              (send-other b rows (omega (arith, sum, c, one)) ∙ h)
      ]

singletons-IsUniform : (rows : List Row) → All IsUniform (singletons rows)
singletons-IsUniform [] = tt
singletons-IsUniform (r ∷ rows) = (tt, singletons-IsUniform rows)

work-IsUniform :
    (threshold : ℕ) (cs bs : List (List Row))
    → All (IsMessage threshold) cs
    → All IsUniform bs
    → All IsUniform (cs ++ bs)
work-IsUniform threshold [] bs h u = u
work-IsUniform threshold (c ∷ cs) bs h u = (h.0.0, work-IsUniform threshold cs bs h.1 u)

work_of-IsUniform : (batch : List Row) (threshold : ℕ) → All IsUniform (work_of batch threshold)
unfolding work_of
work_of-IsUniform batch threshold =
    let grouped = group_for_aggregation batch threshold in
    work-IsUniform threshold grouped.1 (singletons grouped.0)
      (group_for_aggregation-IsMessage batch threshold) (singletons-IsUniform grouped.0)

take-In : (n : ℕ) (r : Row) (xs : List Row) → In r (take n xs) → In r xs
take-In zero r xs i = elim i [ ]
take-In (suc n) r [] i = elim i [ ]
take-In (suc n) r (x ∷ xs) (inl e) = inl e
take-In (suc n) r (x ∷ xs) (inr i) = inr (take-In n r xs i)

-- A claimed row stands in the table and is due.
claim_batch-In :
    (limit now : ℕ) (rows : List Row) (r : Row)
    → In r (claim_batch limit now rows)
    → In r rows × (is_due now r ≡ true)
unfolding claim_batch
claim_batch-In limit now rows r i =
    let before : Row → Row → Bool = λ a b. leb a.created_at b.created_at in
    let due = keep (is_due now) rows in
    (In-keep (is_due now) r rows).0
      ((In-sort_by before r due).0 (take-In limit r (sort_by before due) i))

claim_batch-count :
    (p : Row → Bool) (limit now : ℕ) (rows : List Row)
    → count p (claim_batch limit now rows) ≤ count p rows
unfolding claim_batch
claim_batch-count p limit now rows =
    let before : Row → Row → Bool = λ a b. leb a.created_at b.created_at in
    let due = keep (is_due now) rows in
    omega (
      arith,
      count-take-le p limit (sort_by before due),
      count-sort_by p before due,
      count-keep-le p (is_due now) rows,
    )

is_due-pending : (now : ℕ) (r : Row) → is_due now r ≡ true → r.status ≡ pending
unfolding is_due
is_due-pending now r h = ground arith

module _ (cfg : Config) (limit now later : ℕ) (text : List Row → String)
    (outcome : List Row → Outcome) where
  deliver_batch-attempts :
      (batch rows : List Row) (r : Row)
      → count (has_id r.id) batch ≡ 1
      → In r batch
      → r.status ≡ pending
      → row_at r.id rows ≡ some r
      → (q : Row) × (row_at r.id (deliver_batch cfg later text outcome batch rows).0 ≡ some q)
        × IsAttempted cfg.retry_limit later r q
  unfolding deliver_batch
  deliver_batch-attempts [] rows r c i p h = elim i [ ]
  deliver_batch-attempts (b ∷ batch) rows r c i p h =
      let threshold = cfg.aggregation_threshold in
      send_all-same cfg later text outcome r.id (work_of (b ∷ batch) threshold) rows 0 r
        (work_of-IsUniform (b ∷ batch) threshold)
        (count-work_of (has_id r.id) (b ∷ batch) threshold ∙ c)
        (work_of-In r (b ∷ batch) threshold i) refl p h

  deliver_once_enabled :
      (rows : List Row)
      → cfg.enabled ≡ true
      → str_eq cfg.bot_token "" ≡ false
      → deliver_once cfg limit now later text outcome rows
        ≡ deliver_batch cfg later text outcome (claim_batch limit now rows) rows
  unfolding deliver_once
  deliver_once_enabled rows on bot = ground arith

  -- With notifications enabled and a bot configured, a row that the iteration claims is attempted exactly
  -- once, where its id stands once in the table: its stored row then counts one attempt more and is sent;
  -- or it is failed, its destination gone or its attempts used up; or it stays pending, with attempts
  -- left and due again later than the clock.
  pub deliver_once-attempts :
      (rows : List Row) (r : Row)
      → count (has_id r.id) rows ≤ 1
      → In r (claim_batch limit now rows)
      → cfg.enabled ≡ true
      → str_eq cfg.bot_token "" ≡ false
      → (q : Row) × (row_at r.id (deliver_once cfg limit now later text outcome rows).0 ≡ some q)
        × IsAttempted cfg.retry_limit later r q
  deliver_once-attempts rows r c i on bot =
      let hit : has_id r.id r ≡ true = ground arith in
      let (here, due) = claim_batch-In limit now rows r i in
      let batch = claim_batch limit now rows in
      let one : count (has_id r.id) batch ≡ 1 = omega (
        arith,
        In-count (has_id r.id) r batch i hit,
        claim_batch-count (has_id r.id) limit now rows,
        c,
      ) in
      rw (deliver_once_enabled rows on bot) (
        deliver_batch-attempts batch rows r one i (is_due-pending now r due)
          (once-row_at r.id rows r c here refl))

  deliver_batch-other :
      (batch rows : List Row) (id : ℕ)
      → count (has_id id) batch ≡ 0
      → row_at id (deliver_batch cfg later text outcome batch rows).0 ≡ row_at id rows
  unfolding deliver_batch
  deliver_batch-other [] rows id c = refl
  deliver_batch-other (b ∷ batch) rows id c =
      send_all-other cfg later text outcome id (work_of (b ∷ batch) cfg.aggregation_threshold) rows
        0 (count-work_of (has_id id) (b ∷ batch) cfg.aggregation_threshold ∙ c)

  -- A row that the iteration does not claim keeps its stored state, whatever is sent.
  pub deliver_once-other :
      (rows : List Row) (id : ℕ)
      → count (has_id id) (claim_batch limit now rows) ≡ 0
      → row_at id (deliver_once cfg limit now later text outcome rows).0 ≡ row_at id rows
  unfolding deliver_once
  deliver_once-other rows id c =
      ground (arith, deliver_batch-other (claim_batch limit now rows) rows id c)

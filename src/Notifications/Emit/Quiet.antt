-- ===== src/Notifications/Emit/Quiet.antt =====
-- Quiet hours, and repeats within the window (backend/apps/notifications/service.py).
use soc_one.Base.{
  ℕ, suc, ◌+◌, ◌-◌, ◌≤◌, ◌≡◌, ◌↔◌, refl, ap, map, str_eq, ◌==◌, if◌then◌else◌, Option-cases, ◌∙◌,
  inl, inr, Bool, true, false, some, List, [], ◌∷◌, String, first, arith, Bool-cases, In,
}
use soc_one.Notifications.Outbox.{
  Event, Payload, Destination, pending, Row, Outbox, Config, is_critical, build_dedup_key,
  valid_event,
}
use soc_one.Notifications.Filters.{in_quiet_hours, passes_filters}
use soc_one.Notifications.Emit.Counting.{held_back, emit_enabled}
use soc_one.Notifications.Emit.{
  bump, is_failed, Queue, duplicates, count_again, insert, emit_to, emit_all, emit,
}

-- The rows to be sent.
pub waiting : List Row → ℕ
waiting [] = 0
waiting (r ∷ rows) = elim r.status [ pending ↦ suc (waiting rows) | _ ↦ waiting rows ]

waiting-count_again : (id : ℕ) (rows : List Row) → waiting (count_again id rows) ≡ waiting rows
unfolding waiting count_again
waiting-count_again id [] = refl
waiting-count_again id (r ∷ rows) = ground (arith, waiting-count_again id rows)

emit_to_held :
    (event : Event) (p : Payload) (key : String) (window now : ℕ) (d : Destination) (q : Queue)
    → waiting (emit_to event p key true window now d q).0.rows ≡ waiting q.0.rows
unfolding emit_to insert waiting
emit_to_held event p key window now d (box, created) = ground arith

emit_all_held :
    (event : Event) (p : Payload) (key : String) (window now : ℕ) (targets : List Destination)
    (q : Queue)
    → waiting (emit_all event p key true window now targets q).0.rows ≡ waiting q.0.rows
unfolding emit_all
emit_all_held event p key window now [] q = refl
emit_all_held event p key window now (d ∷ targets) q =
    emit_all_held event p key window now targets (emit_to event p key true window now d q)
    ∙ emit_to_held event p key window now d q

-- In quiet hours an event that is not critical gives nobody anything to send, whatever the outbox and
-- the destinations.
pub emit_quiet :
    (digest : String → String) (cfg : Config) (name : String) (event : Event) (p : Payload)
    (targets : List Destination) (hour now : ℕ) (box : Outbox)
    → valid_event name ≡ some event
    → is_critical event ≡ false
    → in_quiet_hours cfg.quiet_hours_start cfg.quiet_hours_end hour ≡ true
    → waiting (emit digest cfg name p targets hour now box).0.rows ≡ waiting box.rows
unfolding emit
emit_quiet digest cfg name event p targets hour now box v c h = elim (Bool-cases cfg.enabled) [
  | inl e ↦
      let held : held_back cfg event hour ≡ true = ground arith in
      rw (emit_enabled digest cfg targets name event p hour now box v e, held)
        (emit_all_held event p (build_dedup_key digest event p) cfg.aggregation_window_seconds now
          targets (box, []))
  | inr e ↦ ground arith
]

-- Quiet hours do not hold a critical event back: it is queued as at any other hour.
pub emit_critical :
    (digest : String → String) (cfg : Config) (name : String) (event : Event) (p : Payload)
    (targets : List Destination) (hour later now : ℕ) (box : Outbox)
    → valid_event name ≡ some event
    → is_critical event ≡ true
    → emit digest cfg name p targets hour now box ≡ emit digest cfg name p targets later now box
unfolding emit
emit_critical digest cfg name event p targets hour later now box v c = ground arith

hit-first :
    (p : Row → Bool) (rows : List Row) (r : Row)
    → In r rows
    → p r ≡ true
    → (q : Row) × In q rows × (p q ≡ true) × (first p rows ≡ some q)
hit-first p [] r i t = elim i [ ]
hit-first p (x ∷ rows) r i t = elim (Bool-cases (p x)) [
  | inl e ↦ (x, inl refl, e, rw e)
  | inr e ↦ elim i [
    | inl s ↦ absurd (cc (e, t, s))
    | inr j ↦ let (q, k, g, h) = hit-first p rows r j t in (q, inr k, g, rw e h)
  ]
]

-- A row that stands for a message of the key to the destination: not older than the window, and not failed.
abbrev pub StandsFor : Destination → String → ℕ → ℕ → Row → Type 0
StandsFor d key window now r =
    (r.destination ≡ some d.id)
    × (str_eq r.dedup_key key ≡ true)
    × (now ≤ r.created_at + window)
    × (is_failed r.status ≡ false)

StandsFor-iff-duplicates :
    (d : Destination) (key : String) (window now : ℕ) (r : Row)
    → StandsFor d key window now r ↔ (duplicates d.id key (now - window) r ≡ true)
unfolding duplicates
StandsFor-iff-duplicates d key window now r = (
  λ h. rw h.0 (ground (arith, h)),
  λ h. elim (Option-cases r.destination) [
    | inl e ↦ absurd (ground (arith, h, e))
    | inr (id, e) ↦ (ground (arith, h, e), ground (arith, h), ground (arith, h), ground (arith, h))
  ],
)

-- The row with the id counted once more.
abbrev pub recount : ℕ → List Row → List Row
recount id =
    map (λ x. if x.id == id then record x { aggregated_count = suc x.aggregated_count } else x)

count_again-recount : (id : ℕ) (rows : List Row) → count_again id rows ≡ recount id rows
unfolding count_again bump
count_again-recount id [] = refl
count_again-recount id (r ∷ rows) = rw (count_again-recount id rows) refl

-- Where a row of the same key to the same destination is not older than the window and not failed,
-- suppressed by quiet hours as well as sent or pending, an event that passes the destination's filters
-- outside quiet hours creates nothing and leaves no more to send than before: it only adds one to the
-- count of such a row.
pub repeat_not_sent :
    (event : Event) (p : Payload) (key : String) (window now : ℕ) (d : Destination) (box : Outbox)
    (r : Row)
    → In r box.rows
    → StandsFor d key window now r
    → passes_filters d event p ≡ true
    → let after = emit_to event p key false window now d (box, []) in
      (after.1 ≡ [])
      × (waiting after.0.rows ≡ waiting box.rows)
      × ((q : Row) × In q box.rows
          × StandsFor d key window now q
          × (after.0 ≡ record box { rows = recount q.id box.rows }))
unfolding emit_to
repeat_not_sent event p key window now d box r i t pass =
    let same = duplicates d.id key (now - window) in
    let (q, j, g, e) =
      hit-first same box.rows r i ((StandsFor-iff-duplicates d key window now r).0 t) in
    let after : emit_to event p key false window now d (box, [])
        ≡ (record box { rows = count_again q.id box.rows }, []) =
      rw (pass, e) refl in
    (
      ap (λ (a : Queue). a.1) after,
      ap (λ (a : Queue). waiting a.0.rows) after ∙ waiting-count_again q.id box.rows,
      (
        q,
        j,
        (StandsFor-iff-duplicates d key window now q).1 g,
        ap (λ (a : Queue). a.0) after
            ∙ ap (λ (rows : List Row). record box { rows = rows })
                (count_again-recount q.id box.rows),
      ),
    )

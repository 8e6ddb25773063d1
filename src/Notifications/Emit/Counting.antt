-- ===== src/Notifications/Emit/Counting.antt =====
-- Deduplication of backend/apps/notifications/service.py: an event that is not sent again is counted.
use soc_one.Base.{
  ℕ, suc, ◌+◌, ◌-◌, ◌≤◌, ◌<◌, ◌≡◌, refl, ap, inl, inr, Bool, true, ◌&&◌, not, some, List, [], ◌∷◌,
  String, if◌then◌else◌, first, arith, Option-cases, In, keep, length,
}
use soc_one.Notifications.Outbox.{
  Event, Payload, Destination, Row, Outbox, Config, valid_event, build_dedup_key, is_critical,
}
use soc_one.Notifications.Filters.{passes_filters, in_quiet_hours}
use soc_one.Notifications.Emit.{Queue, duplicates, count_again, insert, emit_to, emit_all, emit}

-- How often the outbox has counted events in all.
pub total : List Row → ℕ
total [] = 0
total (r ∷ rows) = r.aggregated_count + total rows

-- The rows' ids are different, and below the next one.
abbrev pub IsFresh : ℕ → List Row → Type 0
IsFresh n [] = Unit
IsFresh n (r ∷ rows) = (r.id < n) × IsFresh r.id rows

abbrev pub IsNumbered : Outbox → Type 0
IsNumbered box = IsFresh box.next_id box.rows

count_again-above :
    (id n : ℕ) (rows : List Row)
    → IsFresh n rows
    → n ≤ id
    → total (count_again id rows) ≡ total rows
unfolding total count_again
count_again-above id n [] f h = refl
count_again-above id n (r ∷ rows) f h = ground (arith, count_again-above id r.id rows f.1)

fresh-lt : (n : ℕ) (r : Row) (rows : List Row) → IsFresh n rows → In r rows → r.id < n
fresh-lt n r [] f i = elim i [ ]
fresh-lt n r (q ∷ rows) f (inl e) = rw e f.0
fresh-lt n r (q ∷ rows) f (inr i) = ground (arith, fresh-lt q.id r rows f.1 i)

count_again-counts :
    (n : ℕ) (r : Row) (rows : List Row)
    → IsFresh n rows
    → In r rows
    → total (count_again r.id rows) ≡ suc (total rows)
unfolding total count_again
count_again-counts n r [] f i = elim i [ ]
count_again-counts n r (q ∷ rows) f (inl e) =
    let same : r.id ≡ q.id = ap (λ (z : Row). z.id) e in
    ground (arith, count_again-above r.id q.id rows f.1)
count_again-counts n r (q ∷ rows) f (inr i) =
    ground (arith, fresh-lt q.id r rows f.1 i, count_again-counts q.id r rows f.1 i)

count_again-IsFresh :
    (id n : ℕ) (rows : List Row) → IsFresh n rows → IsFresh n (count_again id rows)
unfolding count_again
count_again-IsFresh id n [] f = tt
count_again-IsFresh id n (r ∷ rows) f = ground (arith, count_again-IsFresh id r.id rows f.1)

first-In : (p : Row → Bool) (rows : List Row) (r : Row) → first p rows ≡ some r → In r rows
first-In p [] r h = cc
first-In p (x ∷ xs) r h = ground (arith, first-In p xs r)

-- The destinations that pass the filters.
abbrev pub passing : Event → Payload → List Destination → List Destination
passing event p = keep (λ d. passes_filters d event p)

emit_to-counts :
    (event : Event) (p : Payload) (key : String) (held : Bool) (window now : ℕ) (d : Destination)
    (q : Queue)
    → IsNumbered q.0
    → let after = emit_to event p key held window now d q in
      IsNumbered after.0
      × (total after.0.rows ≡ total q.0.rows + (if passes_filters d event p then 1 else 0))
unfolding emit_to insert total
emit_to-counts event p key held window now d (box, created) f =
    elim (Option-cases (first (duplicates d.id key (now - window)) box.rows)) [
      | inl e ↦ rw e (ground arith)
      | inr (r, e) ↦
          let i = first-In (duplicates d.id key (now - window)) box.rows r e in
          rw e (
            ground (
              arith,
              count_again-counts box.next_id r box.rows f i,
              count_again-IsFresh r.id box.next_id box.rows f,
            ))
    ]

emit_all-counts :
    (event : Event) (p : Payload) (key : String) (held : Bool) (window now : ℕ)
    (targets : List Destination) (q : Queue)
    → IsNumbered q.0
    → let after = emit_all event p key held window now targets q in
      IsNumbered after.0 × (total after.0.rows ≡ total q.0.rows + length (passing event p targets))
unfolding emit_all
emit_all-counts event p key held window now [] q f = (f, omega arith)
emit_all-counts event p key held window now (d ∷ targets) q f =
    let next = emit_to event p key held window now d q in
    let (g, t) = emit_to-counts event p key held window now d q f in
    let (g', t') = emit_all-counts event p key held window now targets next g in (g', ground arith)

abbrev pub held_back : Config → Event → ℕ → Bool
held_back cfg event hour =
    in_quiet_hours cfg.quiet_hours_start cfg.quiet_hours_end hour && not (is_critical event)

-- What `emit` comes to for a registered event while notifications are enabled.
pub emit_enabled :
    (digest : String → String) (cfg : Config) (targets : List Destination) (name : String)
    (event : Event) (p : Payload) (hour now : ℕ) (box : Outbox)
    → valid_event name ≡ some event
    → cfg.enabled ≡ true
    → emit digest cfg name p targets hour now box
      ≡ emit_all event p
          (build_dedup_key digest event p)
          (held_back cfg event hour)
          cfg.aggregation_window_seconds
          now
          targets
          (box, [])
unfolding emit
emit_enabled digest cfg targets name event p hour now box v on = ground arith

module _ (digest : String → String) (cfg : Config) (targets : List Destination) where
  -- Every event that the configuration lets through is counted once for each destination that wants it:
  -- by a new row, or by the count of the row that it repeats. Ids stay different.
  pub emit-counts :
      (name : String) (event : Event) (p : Payload) (hour now : ℕ) (box : Outbox)
      → IsNumbered box
      → valid_event name ≡ some event
      → cfg.enabled ≡ true
      → let after = (emit digest cfg name p targets hour now box).0 in
        IsNumbered after × (total after.rows ≡ total box.rows + length (passing event p targets))
  emit-counts name event p hour now box f v on =
      rw (emit_enabled digest cfg targets name event p hour now box v on) (
        emit_all-counts event p (build_dedup_key digest event p) (held_back cfg event hour)
          cfg.aggregation_window_seconds now targets (box, []) f)

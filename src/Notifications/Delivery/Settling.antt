-- ===== src/Notifications/Delivery/Settling.antt =====
-- What one iteration of backend/apps/notifications/delivery.py does to the rows of the table.
use soc_one.Base.{
  ℕ, ◌≤◌, ◌≡◌, ◌≢◌, refl, ◌∙◌, ap, inl, inr, Bool, Option, some, List, [], ◌∷◌, ◌==◌, first, arith,
  In,
}
use soc_one.Base.Sort.{count, In-count}
use soc_one.Notifications.Outbox.{Row}
use soc_one.Notifications.Delivery.{save, mark}

abbrev pub has_id : ℕ → Row → Bool
has_id id r = r.id == id

-- The stored row of an id.
abbrev pub row_at : ℕ → List Row → Option Row
row_at id = first (has_id id)

-- The loop body changes fields of the row with the same id only, and not the id.
abbrev pub IsCopy : (Row → Row → Row) → (Row → Row) → Type 0
IsCopy copy change = ((row r : Row) → (copy row r).id ≡ r.id) × ((r : Row) → (change r).id ≡ r.id)

module _ (copy : Row → Row → Row) (change : Row → Row) (keeps : IsCopy copy change) (id : ℕ) where
  save-other :
      (row : Row) (rows : List Row) → row.id ≢ id → row_at id (save copy row rows) ≡ row_at id rows
  unfolding save
  save-other row [] n = refl
  save-other row (r ∷ rows) n = ground (arith, save-other row rows n, keeps.0 row r)

  save-same :
      (row r : Row) (rows : List Row)
      → row.id ≡ id
      → row_at id rows ≡ some r
      → row_at id (save copy row rows) ≡ some (copy row r)
  unfolding save
  save-same row r [] e h = cc
  save-same row r (q ∷ rows) e h = ground (arith, save-same row r rows e, keeps.0 row q)

  pub mark-other :
      (bucket rows : List Row)
      → count (has_id id) bucket ≡ 0
      → row_at id (mark copy change bucket rows) ≡ row_at id rows
  unfolding mark
  mark-other [] rows n = refl
  mark-other (b ∷ bucket) rows n =
      mark-other bucket (save copy (change b) rows) (ground arith)
      ∙ save-other (change b) rows (ground (arith, keeps.1 b))

  pub mark-same :
      (bucket rows : List Row) (r : Row)
      → count (has_id id) bucket ≡ 1
      → In r bucket
      → r.id ≡ id
      → row_at id rows ≡ some r
      → row_at id (mark copy change bucket rows) ≡ some (copy (change r) r)
  unfolding mark
  mark-same [] rows r c i e h = elim i [ ]
  mark-same (b ∷ bucket) rows r c (inl q) e h =
      let s : r.id ≡ b.id = ap (λ (z : Row). z.id) q in
      rw (← q) (
        mark-other bucket (save copy (change r) rows) (ground arith)
        ∙ save-same (change r) r rows (keeps.1 r ∙ e) h)
  mark-same (b ∷ bucket) rows r c (inr i) e h =
      let one : 1 ≤ count (has_id id) bucket = In-count (has_id id) r bucket i (ground arith) in
      mark-same bucket (save copy (change b) rows) r (ground arith) i e
        (save-other (change b) rows (ground (arith, keeps.1 b)) ∙ h)

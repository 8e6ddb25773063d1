-- ===== src/Notifications/Delivery/Grouping.antt =====
-- `_group_for_aggregation` of backend/apps/notifications/delivery.py loses and repeats no row.
use soc_one.Base.{
  ℕ, ◌+◌, ◌≤◌, ◌≡◌, refl, Bool, true, List, [], ◌∷◌, ◌++◌, leb, length, arith, Bool-cases, All, inl,
  inr,
}
use soc_one.Base.Sort.{count, count-append}
use soc_one.Notifications.Outbox.{Row}
use soc_one.Notifications.Delivery.{
  same_key, has_key, add_to_bucket, fill_buckets, split_buckets, group_for_aggregation, work_of,
  singletons,
}

abbrev pub flat : List (List Row) → List Row
flat [] = []
flat (b ∷ bs) = b ++ flat bs

module _ (p : Row → Bool) where
  count-add_to_bucket :
      (row : Row) (bs : List (List Row))
      → count p (flat (add_to_bucket row bs)) ≡ count p (row ∷ flat bs)
  unfolding add_to_bucket
  count-add_to_bucket row [] = refl
  count-add_to_bucket row (b ∷ bs) = elim (Bool-cases (has_key row b)) [
    | inl e ↦ rw e (
        omega (
          arith,
          count-append p (b ++ row ∷ []) (flat bs),
          count-append p b (row ∷ []),
          count-append p b (flat bs),
        ))
    | inr e ↦ rw e (
        omega (
          arith,
          count-append p b (flat (add_to_bucket row bs)),
          count-append p b (flat bs),
          count-add_to_bucket row bs,
        ))
  ]

  count-fill_buckets :
      (rows : List Row) (bs : List (List Row))
      → count p (flat (fill_buckets rows bs)) ≡ count p rows + count p (flat bs)
  unfolding fill_buckets
  count-fill_buckets [] bs = omega arith
  count-fill_buckets (r ∷ rows) bs =
      omega (arith, count-fill_buckets rows (add_to_bucket r bs), count-add_to_bucket r bs)

  count-split_buckets :
      (threshold : ℕ) (bs : List (List Row))
      → let s = split_buckets threshold bs in count p s.0 + count p (flat s.1) ≡ count p (flat bs)
  unfolding split_buckets
  count-split_buckets threshold [] = omega arith
  count-split_buckets threshold (b ∷ bs) =
      let s = split_buckets threshold bs in
      elim (Bool-cases (leb threshold (length b))) [
        | inl e ↦ rw e (
            omega (
              arith,
              count-append p b (flat s.1),
              count-append p b (flat bs),
              count-split_buckets threshold bs,
            ))
        | inr e ↦ rw e (
            omega (
              arith,
              count-append p b s.0,
              count-append p b (flat bs),
              count-split_buckets threshold bs,
            ))
      ]

  flat-append :
      (cs bs : List (List Row)) → count p (flat (cs ++ bs)) ≡ count p (flat cs) + count p (flat bs)
  flat-append [] bs = omega arith
  flat-append (a ∷ cs) bs =
      omega
        (arith, count-append p a (flat (cs ++ bs)), count-append p a (flat cs), flat-append cs bs)

  flat-singletons : (rows : List Row) → count p (flat (singletons rows)) ≡ count p rows
  flat-singletons [] = refl
  flat-singletons (r ∷ rows) = omega (arith, flat-singletons rows)

  -- Whatever one counts, the messages of an iteration carry the claimed rows, each as often as it was
  -- claimed.
  pub count-work_of :
      (batch : List Row) (threshold : ℕ) → count p (flat (work_of batch threshold)) ≡ count p batch
  unfolding work_of
  count-work_of batch threshold =
      let bs = fill_buckets batch [] in
      let s = split_buckets threshold bs in
      omega (
        arith,
        flat-append s.1 (singletons s.0),
        flat-singletons s.0,
        count-split_buckets threshold bs,
        count-fill_buckets batch [],
      )

-- All rows of a bucket have the key of its first.
abbrev pub IsUniform : List Row → Type 0
IsUniform [] = Unit
IsUniform (r ∷ bucket) = All (λ q. same_key r q ≡ true) bucket

All-last : (P : Row → Type 0) (xs : List Row) (r : Row) → All P xs → P r → All P (xs ++ r ∷ [])
All-last P [] r h p = (p, tt)
All-last P (x ∷ xs) r h p = (h.0, All-last P xs r h.1 p)

add_to_bucket-IsUniform :
    (row : Row) (bs : List (List Row)) → All IsUniform bs → All IsUniform (add_to_bucket row bs)
unfolding add_to_bucket
add_to_bucket-IsUniform row [] h = (tt, tt)
add_to_bucket-IsUniform row ([] ∷ bs) h = (tt, add_to_bucket-IsUniform row bs h.1)
add_to_bucket-IsUniform row ((r ∷ b) ∷ bs) h = elim (Bool-cases (same_key r row)) [
  | inl e ↦ rw e (All-last (λ q. same_key r q ≡ true) b row h.0 e, h.1)
  | inr e ↦ rw e (h.0, add_to_bucket-IsUniform row bs h.1)
]

fill_buckets-IsUniform :
    (rows : List Row) (bs : List (List Row))
    → All IsUniform bs
    → All IsUniform (fill_buckets rows bs)
unfolding fill_buckets
fill_buckets-IsUniform [] bs h = h
fill_buckets-IsUniform (r ∷ rows) bs h =
    fill_buckets-IsUniform rows (add_to_bucket r bs) (add_to_bucket-IsUniform r bs h)

-- A message of several rows is an aggregate of one destination and one event, and reaches the threshold.
abbrev pub IsMessage : ℕ → List Row → Type 0
IsMessage threshold bucket = IsUniform bucket × (threshold ≤ length bucket)

split_buckets-IsMessage :
    (threshold : ℕ) (bs : List (List Row))
    → All IsUniform bs
    → All (IsMessage threshold) (split_buckets threshold bs).1
unfolding split_buckets
split_buckets-IsMessage threshold [] h = tt
split_buckets-IsMessage threshold (b ∷ bs) h = elim (Bool-cases (leb threshold (length b))) [
  | inl e ↦ rw e ((h.0, ground arith), split_buckets-IsMessage threshold bs h.1)
  | inr e ↦ rw e (split_buckets-IsMessage threshold bs h.1)
]

-- An aggregate holds rows of one destination and one event only, and as many as the threshold asks for.
pub group_for_aggregation-IsMessage :
    (rows : List Row) (threshold : ℕ)
    → All (IsMessage threshold) (group_for_aggregation rows threshold).1
unfolding group_for_aggregation
group_for_aggregation-IsMessage rows threshold =
    split_buckets-IsMessage threshold (fill_buckets rows []) (fill_buckets-IsUniform rows [] tt)

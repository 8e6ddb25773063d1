-- ===== src/Notifications/Delivery/Members.antt =====
-- The grouping of backend/apps/notifications/delivery.py keeps the rows themselves.
use soc_one.Base.{
  In-append, ℕ, ◌≡◌, ◌⊎◌, inl, inr, List, [], ◌∷◌, ◌++◌, leb, length, Bool-cases, In,
}
use soc_one.Notifications.Outbox.{Row}
use soc_one.Notifications.Delivery.{
  has_key, add_to_bucket, fill_buckets, split_buckets, group_for_aggregation, work_of, singletons,
}
use soc_one.Notifications.Delivery.Grouping.{flat}

append-In : (r : Row) (xs ys : List Row) → In r xs ⊎ In r ys → In r (xs ++ ys)
append-In r [] ys (inl i) = elim i [ ]
append-In r [] ys (inr i) = i
append-In r (x ∷ xs) ys (inl (inl e)) = inl e
append-In r (x ∷ xs) ys (inl (inr i)) = inr (append-In r xs ys (inl i))
append-In r (x ∷ xs) ys (inr i) = inr (append-In r xs ys (inr i))

module _ (r : Row) where
  add_to_bucket-In :
      (row : Row) (bs : List (List Row))
      → (r ≡ row) ⊎ In r (flat bs)
      → In r (flat (add_to_bucket row bs))
  unfolding add_to_bucket
  add_to_bucket-In row [] i = i
  add_to_bucket-In row (b ∷ bs) i = elim (Bool-cases (has_key row b)) [
    | inl e ↦ rw e (
        append-In r (b ++ row ∷ []) (flat bs) (elim i [
          | inl s ↦ inl (append-In r b (row ∷ []) (inr (inl s)))
          | inr j ↦ elim ((In-append r b (flat bs)).0 j) [
            | inl k ↦ inl (append-In r b (row ∷ []) (inl k))
            | inr k ↦ inr k
          ]
        ]))
    | inr e ↦ rw e (
        append-In r b (flat (add_to_bucket row bs)) (elim i [
          | inl s ↦ inr (add_to_bucket-In row bs (inl s))
          | inr j ↦ elim ((In-append r b (flat bs)).0 j) [
            | inl k ↦ inl k
            | inr k ↦ inr (add_to_bucket-In row bs (inr k))
          ]
        ]))
  ]

  fill_buckets-In :
      (rows : List Row) (bs : List (List Row))
      → In r rows ⊎ In r (flat bs)
      → In r (flat (fill_buckets rows bs))
  unfolding fill_buckets
  fill_buckets-In [] bs (inl i) = elim i [ ]
  fill_buckets-In [] bs (inr i) = i
  fill_buckets-In (q ∷ rows) bs (inl (inl e)) =
      fill_buckets-In rows (add_to_bucket q bs) (inr (add_to_bucket-In q bs (inl e)))
  fill_buckets-In (q ∷ rows) bs (inl (inr i)) = fill_buckets-In rows (add_to_bucket q bs) (inl i)
  fill_buckets-In (q ∷ rows) bs (inr i) =
      fill_buckets-In rows (add_to_bucket q bs) (inr (add_to_bucket-In q bs (inr i)))

  split_buckets-In :
      (threshold : ℕ) (bs : List (List Row))
      → In r (flat bs)
      → let s = split_buckets threshold bs in In r s.0 ⊎ In r (flat s.1)
  unfolding split_buckets
  split_buckets-In threshold [] i = elim i [ ]
  split_buckets-In threshold (b ∷ bs) i =
      let s = split_buckets threshold bs in
      elim (Bool-cases (leb threshold (length b))) [
        | inl e ↦ rw e (elim ((In-append r b (flat bs)).0 i) [
          | inl j ↦ inr (append-In r b (flat s.1) (inl j))
          | inr j ↦ elim (split_buckets-In threshold bs j) [
            | inl k ↦ inl k
            | inr k ↦ inr (append-In r b (flat s.1) (inr k))
          ]
        ])
        | inr e ↦ rw e (elim ((In-append r b (flat bs)).0 i) [
          | inl j ↦ inl (append-In r b s.0 (inl j))
          | inr j ↦ elim (split_buckets-In threshold bs j) [
            | inl k ↦ inl (append-In r b s.0 (inr k))
            | inr k ↦ inr k
          ]
        ])
      ]

  singletons-In : (rows : List Row) → In r rows → In r (flat (singletons rows))
  singletons-In [] i = i
  singletons-In (x ∷ rows) (inl e) = inl e
  singletons-In (x ∷ rows) (inr i) = inr (singletons-In rows i)

  flat-In : (cs bs : List (List Row)) → In r (flat cs) ⊎ In r (flat bs) → In r (flat (cs ++ bs))
  flat-In [] bs (inl i) = elim i [ ]
  flat-In [] bs (inr i) = i
  flat-In (c ∷ cs) bs (inl i) =
      append-In r c (flat (cs ++ bs)) (elim ((In-append r c (flat cs)).0 i) [
        | inl j ↦ inl j
        | inr j ↦ inr (flat-In cs bs (inl j))
      ])
  flat-In (c ∷ cs) bs (inr i) = append-In r c (flat (cs ++ bs)) (inr (flat-In cs bs (inr i)))

  -- Every claimed row stands in a message of the iteration.
  pub work_of-In :
      (batch : List Row) (threshold : ℕ) → In r batch → In r (flat (work_of batch threshold))
  unfolding work_of group_for_aggregation
  work_of-In batch threshold i =
      let grouped = group_for_aggregation batch threshold in
      flat-In grouped.1 (singletons grouped.0)
        (elim (split_buckets-In threshold (fill_buckets batch [])
          (fill_buckets-In batch [] (inl i))) [
            | inl j ↦ inr (singletons-In grouped.0 j)
            | inr j ↦ inl j
          ])

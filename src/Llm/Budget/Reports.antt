-- ===== src/Llm/Budget/Reports.antt =====
-- What backend/integrations/llm/budget.py tells of each tier.
use soc_one.Base.{
  ℕ, ◌+◌, ◌-◌, ◌/◌, ◌≤◌, ◌<◌, ◌≡◌, refl, sym, ◌∙◌, ap, inl, inr, Bool, true, false, none, some,
  List, [], ◌∷◌, ◌++◌, String, str_eq, leb, length, take, Bool-cases, Option-cases, In, arith,
  str_eq_iff,
}
use soc_one.Base.Sort.{count, count-sort_by, In-count, In-sort_by}
use soc_one.Llm.Budget.{
  Value, list, PayloadTier, BudgetResult, Notice, truncated, dropped, put, get, shorten_value,
  estimate_tokens, place, place_all, ordered, nothing, apply_budget,
}
use soc_one.Llm.Budget.Fits.{shorten_value-fits}

module _ {A : Type 0} (name : String) where
  abbrev pub has_name : PayloadTier A → Bool
  has_name t = str_eq t.name name

  get-put-same :
      (v : Value A) (payload : List (String × Value A)) → get name (put name v payload) ≡ some v
  unfolding get put
  get-put-same v [] = ground (arith, (str_eq_iff name name).1 refl)
  get-put-same v (e ∷ payload) =
      ground (arith, get-put-same v payload, (str_eq_iff name name).1 refl)

  get-put-other :
      (other_name : String) (v : Value A) (payload : List (String × Value A))
      → str_eq other_name name ≡ false
      → get name (put other_name v payload) ≡ get name payload
  unfolding get put
  get-put-other n v [] h = ground arith
  get-put-other n v (e ∷ payload) h = elim (Bool-cases (str_eq e.0 n)) [
    | inl q ↦
        let same : str_eq e.0 name ≡ false =
          ap (λ (z : String). str_eq z name) ((str_eq_iff e.0 n).0 q) ∙ h in
        ground arith
    | inr q ↦ ground (arith, get-put-other n v payload h)
  ]

In-append-left : {B : Type 0} (x : B) (xs ys : List B) → In x xs → In x (xs ++ ys)
In-append-left x [] ys i = elim i [ ]
In-append-left x (y ∷ xs) ys (inl e) = inl e
In-append-left x (y ∷ xs) ys (inr i) = inr (In-append-left x xs ys i)

In-append-last : {B : Type 0} (x : B) (xs : List B) → In x (xs ++ x ∷ [])
In-append-last x [] = inl refl
In-append-last x (y ∷ xs) = inr (In-append-last x xs)

-- How a tier comes out: whole; or a list cut to at most half, with a notice of both lengths; or left out,
-- with a notice.
pub data IsPlaced {A : Type 0} (t : PayloadTier A) (r : BudgetResult A) : Type 0 where
  whole : get t.name r.payload ≡ some t.value → IsPlaced t r
  shortened :
      (keep : ℕ) (items : List A)
      → t.value ≡ list items
      → get t.name r.payload ≡ some (list (take keep items))
      → 0 < keep
      → keep ≤ length items / 2
      → In (truncated t.name keep (length items)) r.trimmed_tiers
      → IsPlaced t r
  left_out : get t.name r.payload ≡ none → In (dropped t.name) r.trimmed_tiers → IsPlaced t r

module _ {A : Type 0} (dump_length : Value A → ℕ) (chars_per_token available : ℕ) where
  abbrev after : PayloadTier A → BudgetResult A → BudgetResult A
  after t state = place dump_length chars_per_token available t state

  place-IsPlaced :
      (t : PayloadTier A) (state : BudgetResult A)
      → get t.name state.payload ≡ none
      → IsPlaced t (after t state)
  unfolding place
  place-IsPlaced t state absent =
      elim (Bool-cases (
        leb (state.estimated_tokens + estimate_tokens dump_length chars_per_token t.value)
          available)) [
            | inl e ↦ rw e (whole (get-put-same t.name t.value state.payload))
            | inr e ↦
                rw e
                  (elim (Option-cases (
                    shorten_value dump_length chars_per_token t.truncatable t.value
                      state.estimated_tokens available)) [
                        | inl n ↦
                            rw n (
                              left_out absent (In-append-last (dropped t.name) state.trimmed_tiers))
                        | inr (s, n) ↦
                            let (is_list, _, pos, half) =
                              shorten_value-fits dump_length chars_per_token t.truncatable t.value
                                state.estimated_tokens available s n in
                            rw n (
                              shortened s.0 s.1 is_list
                                (get-put-same t.name (list (take s.0 s.1)) state.payload) pos half
                                (In-append-last (truncated t.name s.0 (length s.1))
                                  state.trimmed_tiers))
                      ])
          ]

  get-place-other :
      (t : PayloadTier A) (name : String) (state : BudgetResult A)
      → str_eq t.name name ≡ false
      → get name (after t state).payload ≡ get name state.payload
  unfolding place
  get-place-other t name state n =
      elim (Bool-cases (
        leb (state.estimated_tokens + estimate_tokens dump_length chars_per_token t.value)
          available)) [
            | inl e ↦ rw e (get-put-other name t.name t.value state.payload n)
            | inr e ↦
                rw e
                  (elim (Option-cases (
                    shorten_value dump_length chars_per_token t.truncatable t.value
                      state.estimated_tokens available)) [
                        | inl m ↦ rw m refl
                        | inr (s, m) ↦
                            rw m (get-put-other name t.name (list (take s.0 s.1)) state.payload n)
                      ])
          ]

  In-place :
      (t : PayloadTier A) (notice : Notice) (state : BudgetResult A)
      → In notice state.trimmed_tiers
      → In notice (after t state).trimmed_tiers
  unfolding place
  In-place t notice state i =
      elim (Bool-cases (
        leb (state.estimated_tokens + estimate_tokens dump_length chars_per_token t.value)
          available)) [
            | inl e ↦ rw e i
            | inr e ↦
                rw e
                  (elim (Option-cases (
                    shorten_value dump_length chars_per_token t.truncatable t.value
                      state.estimated_tokens available)) [
                        | inl m ↦
                            rw m (In-append-left notice state.trimmed_tiers (dropped t.name ∷ []) i)
                        | inr (s, m) ↦ rw m (
                            In-append-left notice state.trimmed_tiers
                              (truncated t.name s.0 (length s.1) ∷ []) i)
                      ])
          ]

  place-keeps :
      (u t : PayloadTier A) (state : BudgetResult A)
      → str_eq u.name t.name ≡ false
      → IsPlaced t state
      → IsPlaced t (after u state)
  place-keeps u t state n (whole h) = whole (get-place-other u t.name state n ∙ h)
  place-keeps u t state n (shortened keep items is_list h pos half i) =
      shortened keep items is_list (get-place-other u t.name state n ∙ h) pos half
        (In-place u (truncated t.name keep (length items)) state i)
  place-keeps u t state n (left_out h i) =
      left_out (get-place-other u t.name state n ∙ h) (In-place u (dropped t.name) state i)

  abbrev all : List (PayloadTier A) → BudgetResult A → BudgetResult A
  all tiers state = place_all dump_length chars_per_token available tiers state

  place_all-keeps :
      (tiers : List (PayloadTier A)) (t : PayloadTier A) (state : BudgetResult A)
      → count (has_name t.name) tiers ≡ 0
      → IsPlaced t state
      → IsPlaced t (all tiers state)
  unfolding place_all
  place_all-keeps [] t state n p = p
  place_all-keeps (u ∷ tiers) t state n p =
      place_all-keeps tiers t (after u state) (ground arith)
        (place-keeps u t state (ground arith) p)

  pub place_all-IsPlaced :
      (tiers : List (PayloadTier A)) (t : PayloadTier A) (state : BudgetResult A)
      → count (has_name t.name) tiers ≤ 1
      → In t tiers
      → get t.name state.payload ≡ none
      → IsPlaced t (all tiers state)
  unfolding place_all
  place_all-IsPlaced [] t state c i absent = elim i [ ]
  place_all-IsPlaced (u ∷ tiers) t state c (inl e) absent =
      let same : has_name t.name u ≡ true =
        (str_eq_iff u.name t.name).1 (sym (ap (λ (z : PayloadTier A). z.name) e)) in
      rw (← e)
        (place_all-keeps tiers t (after t state) (ground arith) (place-IsPlaced t state absent))
  place_all-IsPlaced (u ∷ tiers) t state c (inr i) absent =
      let hit : has_name t.name t ≡ true = (str_eq_iff t.name t.name).1 refl in
      let one = In-count (has_name t.name) t tiers i hit in
      place_all-IsPlaced tiers t (after u state) (ground arith) i
        (get-place-other u t.name state (ground arith) ∙ absent)

module _ {A : Type 0} (dump_length : Value A → ℕ) (chars_per_token : ℕ) where
  apply_budget-some :
      (tiers : List (PayloadTier A)) (window output : ℕ) (r : BudgetResult A)
      → apply_budget dump_length chars_per_token tiers window output ≡ some r
      → place_all dump_length chars_per_token
          (window - output - 1500)
          (ordered dump_length chars_per_token tiers)
          (nothing dump_length chars_per_token)
        ≡ r
  unfolding apply_budget
  apply_budget-some tiers window output r h = ground arith

  -- Nothing is lost silently: where no two tiers share a name, each tier is in the payload whole, or is a
  -- list cut to at most half, not empty, with a notice of both lengths, or is left out with a notice.
  pub apply_budget-IsPlaced :
      (tiers : List (PayloadTier A)) (context_window_tokens max_output_tokens : ℕ)
      (r : BudgetResult A) (t : PayloadTier A)
      → apply_budget dump_length chars_per_token tiers context_window_tokens max_output_tokens
        ≡ some r
      → In t tiers
      → count (has_name t.name) tiers ≤ 1
      → IsPlaced t r
  unfolding get
  apply_budget-IsPlaced tiers window output r t h i c =
      let before : PayloadTier A → PayloadTier A → Bool = λ a b. leb a.order b.order in
      let placed =
        place_all-IsPlaced dump_length chars_per_token (window - output - 1500)
          (ordered dump_length chars_per_token tiers) t (nothing dump_length chars_per_token)
          (omega (arith, count-sort_by (has_name t.name) before tiers, c))
          ((In-sort_by before t tiers).1 i) refl in
      rw (← apply_budget-some tiers window output r h) placed

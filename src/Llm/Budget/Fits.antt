-- ===== src/Llm/Budget/Fits.antt =====
-- The payload of backend/integrations/llm/budget.py fits the model's window.
use soc_one.Base.{
  ℕ, zero, suc, ◌+◌, ◌-◌, ◌/◌, ◌≤◌, ◌<◌, ◌≡◌, refl, Bool, true, false, some, List, [], ◌∷◌, String,
  leb, length, take, inl, inr, Bool-cases, Option-cases, arith,
}
use soc_one.Base.Sort.{sort_by, insert_by}
use soc_one.Llm.Budget.{
  Value, text, list, other, PayloadTier, BudgetResult, put, estimate_tokens, shorten, shorten_value,
  place, place_all, ordered, nothing, apply_budget,
}

module _ {A : Type 0} (dump_length : Value A → ℕ) (chars_per_token : ℕ) where
  abbrev pub cost : Value A → ℕ
  cost v = estimate_tokens dump_length chars_per_token v

  -- The estimate of all that a payload holds.
  abbrev pub payload_cost : List (String × Value A) → ℕ
  payload_cost [] = 0
  payload_cost (e ∷ payload) = cost e.1 + payload_cost payload

  put-cost :
      (name : String) (v : Value A) (payload : List (String × Value A))
      → payload_cost (put name v payload) ≤ payload_cost payload + cost v
  unfolding put
  put-cost name v [] = omega arith
  put-cost name v (e ∷ payload) = ground (arith, put-cost name v payload)

  pub shorten-fits :
      (fuel keep : ℕ) (items : List A) (used available k : ℕ)
      → shorten dump_length chars_per_token fuel keep items used available ≡ some k
      → (used + cost (list (take k items)) ≤ available) × (0 < k) × (k ≤ keep)
  unfolding shorten
  shorten-fits zero keep items used available k h = cc
  shorten-fits (suc fuel) keep items used available k h =
      ground (arith, shorten-fits fuel (keep / 2) items used available k)

  pub shorten_value-fits :
      (truncatable : Bool) (v : Value A) (used available : ℕ) (s : ℕ × List A)
      → shorten_value dump_length chars_per_token truncatable v used available ≡ some s
      → (v ≡ list s.1)
        × (used + cost (list (take s.0 s.1)) ≤ available)
        × (0 < s.0)
        × (s.0 ≤ length s.1 / 2)
  unfolding shorten_value
  shorten_value-fits truncatable (text t) used available s h = cc
  shorten_value-fits truncatable (other a) used available s h = cc
  shorten_value-fits false (list items) used available s h = cc
  shorten_value-fits true (list items) used available (k, xs) h =
      ground (arith, shorten-fits (length items / 2) (length items / 2) items used available k)

  abbrev Fits : ℕ → BudgetResult A → Type 0
  Fits available state =
      (payload_cost state.payload ≤ state.estimated_tokens) × (state.estimated_tokens ≤ available)

  place-Fits :
      (available : ℕ) (tier : PayloadTier A) (state : BudgetResult A)
      → Fits available state
      → Fits available (place dump_length chars_per_token available tier state)
  unfolding place
  place-Fits available tier state f =
      elim (Bool-cases (leb (state.estimated_tokens + cost tier.value) available)) [
        | inl e ↦ rw e (ground (arith, put-cost tier.name tier.value state.payload))
        | inr e ↦
            rw e
              (elim (Option-cases (
                shorten_value dump_length chars_per_token tier.truncatable tier.value
                  state.estimated_tokens available)) [
                    | inl n ↦ rw n f
                    | inr (s, n) ↦
                        let fits =
                          shorten_value-fits tier.truncatable tier.value state.estimated_tokens
                            available s n in
                        rw n (
                          omega
                              (arith, put-cost tier.name (list (take s.0 s.1)) state.payload, f.0),
                          fits.1,
                        )
                  ])
      ]

  place_all-Fits :
      (available : ℕ) (tiers : List (PayloadTier A)) (state : BudgetResult A)
      → Fits available state
      → Fits available (place_all dump_length chars_per_token available tiers state)
  unfolding place_all
  place_all-Fits available [] state f = f
  place_all-Fits available (t ∷ tiers) state f =
      place_all-Fits available tiers (place dump_length chars_per_token available t state)
        (place-Fits available t state f)

  -- What the budget hands on fits: the estimate of the payload, the output tokens and the 1500 tokens of
  -- the prompt stay within the context window.
  pub apply_budget-fits :
      (tiers : List (PayloadTier A)) (context_window_tokens max_output_tokens : ℕ)
      (r : BudgetResult A)
      → apply_budget dump_length chars_per_token tiers context_window_tokens max_output_tokens
        ≡ some r
      → (payload_cost r.payload ≤ r.estimated_tokens)
        × (r.estimated_tokens + max_output_tokens + 1500 ≤ context_window_tokens)
  unfolding apply_budget
  apply_budget-fits tiers window output r h = ground (
    arith,
    place_all-Fits (window - output - 1500) (ordered dump_length chars_per_token tiers)
        (nothing dump_length chars_per_token) (omega arith, omega arith),
  )

  abbrev pub total_cost : List (PayloadTier A) → ℕ
  total_cost [] = 0
  total_cost (t ∷ tiers) = cost t.value + total_cost tiers

  total_cost-insert :
      (before : PayloadTier A → PayloadTier A → Bool) (t : PayloadTier A)
      (tiers : List (PayloadTier A))
      → total_cost (insert_by before t tiers) ≡ cost t.value + total_cost tiers
  unfolding insert_by
  total_cost-insert before t [] = refl
  total_cost-insert before t (u ∷ tiers) = ground (arith, total_cost-insert before t tiers)

  total_cost-sort :
      (before : PayloadTier A → PayloadTier A → Bool) (tiers : List (PayloadTier A))
      → total_cost (sort_by before tiers) ≡ total_cost tiers
  unfolding sort_by
  total_cost-sort before [] = refl
  total_cost-sort before (t ∷ tiers) =
      omega (arith, total_cost-insert before t (sort_by before tiers), total_cost-sort before tiers)

  place_whole :
      (available : ℕ) (t : PayloadTier A) (state : BudgetResult A)
      → state.estimated_tokens + cost t.value ≤ available
      → place dump_length chars_per_token available t state ≡ record state {
        payload = put t.name t.value state.payload;
        estimated_tokens = state.estimated_tokens + cost t.value;
      }
  unfolding place
  place_whole available t state h = ground arith

  place_all-untrimmed :
      (available : ℕ) (tiers : List (PayloadTier A)) (state : BudgetResult A)
      → state.estimated_tokens + total_cost tiers ≤ available
      → let after = place_all dump_length chars_per_token available tiers state in
        (after.trimmed_tiers ≡ state.trimmed_tiers)
        × (after.estimated_tokens ≡ state.estimated_tokens + total_cost tiers)
  unfolding place_all
  place_all-untrimmed available [] state h = (refl, omega arith)
  place_all-untrimmed available (t ∷ tiers) state h =
      let step = place_whole available t state (omega (arith, h)) in
      let next : BudgetResult A = record state {
        payload = put t.name t.value state.payload;
        estimated_tokens = state.estimated_tokens + cost t.value;
      } in
      let (same, sum) = place_all-untrimmed available tiers next (omega (arith, h)) in
      rw (place_all, step) (same, omega (arith, sum))

  -- Where all tiers together fit, nothing is trimmed and the estimate is the sum of theirs.
  pub apply_budget-untrimmed :
      (tiers : List (PayloadTier A)) (context_window_tokens max_output_tokens : ℕ)
      → max_output_tokens + 1500 < context_window_tokens
      → total_cost tiers + max_output_tokens + 1500 ≤ context_window_tokens
      → (r : BudgetResult A) × (apply_budget dump_length chars_per_token tiers context_window_tokens
            max_output_tokens
          ≡ some r)
        × (r.trimmed_tiers ≡ [])
        × (r.estimated_tokens ≡ total_cost tiers)
  unfolding apply_budget
  apply_budget-untrimmed tiers window output h fits =
      let available = window - output - 1500 in
      let sorted = ordered dump_length chars_per_token tiers in
      let before : PayloadTier A → PayloadTier A → Bool = λ a b. leb a.order b.order in
      let sum = total_cost-sort before tiers in
      let (same, used) =
        place_all-untrimmed available sorted (nothing dump_length chars_per_token)
          (omega (arith, sum, fits, h)) in
      let open_window : leb window (output + 1500) ≡ false = ground arith in
      (
        place_all dump_length chars_per_token available sorted
            (nothing dump_length chars_per_token),
        rw open_window refl,
        same,
        omega (arith, used, sum),
      )

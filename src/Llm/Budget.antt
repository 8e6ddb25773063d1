-- ===== src/Llm/Budget.antt =====
-- The input budget of backend/integrations/llm/budget.py. `dump_length` is how long `json.dumps` writes
-- a value that is no text; characters per token are given in tenths.
pub mod Fits
pub mod Reports
use soc_one.Base.{
  ℕ, zero, suc, ◌+◌, ◌-◌, ◌*◌, ◌/◌, ◌≤◌, ◌<◌, Bool, true, false, not, Option, none, some, List, [],
  ◌∷◌, ◌++◌, String, str_eq, ◌==◌, leb, ltb, if◌then◌else◌, length, take,
}
use soc_one.Base.Sort.{sort_by}

-- A tier's value: a text, a list of JSON values, or another JSON value.
pub data Value (A : Type 0) : Type 0 where
  text : String → Value A
  list : List A → Value A
  other : A → Value A

pub record PayloadTier (A : Type 0) : Type 0 where
  pub name : String
  pub order : ℕ
  pub value : Value A
  pub truncatable : Bool

pub data Notice : Type 0 where
  truncated : String → ℕ → ℕ → Notice
  dropped : String → Notice

pub record BudgetResult (A : Type 0) : Type 0 where
  pub payload : List (String × Value A)
  pub trimmed_tiers : List Notice
  pub estimated_tokens : ℕ

abbrev text_length : String → ℕ
text_length String.[] = 0
text_length (String.◌∷◌ c s) = suc (text_length s)

module _ {A : Type 0} where
  -- `payload[name] = value`
  unfoldable pub put : String → Value A → List (String × Value A) → List (String × Value A)
  put name v [] = (name, v) ∷ []
  put name v (e ∷ payload) = if str_eq e.0 name then (name, v) ∷ payload else e ∷ put name v payload

  unfoldable pub get : String → List (String × Value A) → Option (Value A)
  get name [] = none
  get name (e ∷ payload) = if str_eq e.0 name then some e.1 else get name payload

module _ {A : Type 0} (dump_length : Value A → ℕ) (chars_per_token : ℕ) where
  -- `int(len(text) / chars_per_token) + 1`
  unfoldable pub estimate_tokens : Value A → ℕ
  estimate_tokens (text s) = 10 * text_length s / chars_per_token + 1
  estimate_tokens (list xs) = 10 * dump_length (list xs) / chars_per_token + 1
  estimate_tokens (other a) = 10 * dump_length (other a) / chars_per_token + 1

  -- The `while keep > 0` loop: the first of the halved lengths that fits.
  unfoldable pub shorten : ℕ → ℕ → List A → ℕ → ℕ → Option ℕ
  shorten zero keep items used available = none
  shorten (suc fuel) keep items used available =
      let rest = shorten fuel (keep / 2) items used available in
      if keep == 0
      then none
      else if leb (used + estimate_tokens (list (take keep items))) available
      then some keep
      else rest

  unfoldable pub shorten_value : Bool → Value A → ℕ → ℕ → Option (ℕ × List A)
  unfolding shorten
  shorten_value truncatable (text s) used available = none
  shorten_value truncatable (other a) used available = none
  shorten_value truncatable (list items) used available =
      if truncatable
      then elim (shorten (length items / 2) (length items / 2) items used available) [
        | none ↦ none
        | some keep ↦ some (keep, items)
      ]
      else none

  -- One round of the loop over the tiers.
  unfoldable pub place : ℕ → PayloadTier A → BudgetResult A → BudgetResult A
  unfolding shorten_value put estimate_tokens
  place available tier state =
      if leb (state.estimated_tokens + estimate_tokens tier.value) available
      then record state {
        payload = put tier.name tier.value state.payload;
        estimated_tokens = state.estimated_tokens + estimate_tokens tier.value;
      }
      else elim (shorten_value tier.truncatable tier.value state.estimated_tokens available) [
        | none ↦ record state { trimmed_tiers = state.trimmed_tiers ++ dropped tier.name ∷ [] }
        | some (keep, items) ↦ record {
          payload = put tier.name (list (take keep items)) state.payload;
          trimmed_tiers = state.trimmed_tiers ++ truncated tier.name keep (length items) ∷ [];
          estimated_tokens = state.estimated_tokens + estimate_tokens (list (take keep items));
        }
      ]

  unfoldable pub place_all : ℕ → List (PayloadTier A) → BudgetResult A → BudgetResult A
  place_all available [] state = state
  place_all available (tier ∷ tiers) state = place_all available tiers (place available tier state)

  abbrev pub ordered : List (PayloadTier A) → List (PayloadTier A)
  ordered tiers = sort_by (λ a b. leb a.order b.order) tiers

  abbrev pub nothing : BudgetResult A
  nothing = record { payload = []; trimmed_tiers = []; estimated_tokens = 0 }

  -- `none` is the `ValueError` for a window that the output and the prompt fill.
  unfoldable pub apply_budget : List (PayloadTier A) → ℕ → ℕ → Option (BudgetResult A)
  apply_budget tiers context_window_tokens max_output_tokens =
      if leb context_window_tokens (max_output_tokens + 1500)
      then none
      else some
          (place_all (context_window_tokens - max_output_tokens - 1500) (ordered tiers) nothing)

-- ===== src/Llm/Tests.antt =====
-- Runs of the budget and of the failover at small inputs.
use soc_one.Base.{
  ℕ, ◌+◌, ◌*◌, ◌≤◌, ◌≡◌, ◌↔◌, inl, refl, Bool, true, some, List, [], ◌∷◌, String, str_eq,
  str_eq_iff, ◌==◌, none, arith, In, length, any, if◌then◌else◌,
}
use soc_one.Base.Texts.{lower, is_part, has_prefix}
use soc_one.Base.Sort.{sort_by, insert_by}
use soc_one.Llm.Budget.{
  Value, text, list, other, PayloadTier, BudgetResult, truncated, put, estimate_tokens, shorten,
  shorten_value, place, place_all, apply_budget,
}
use soc_one.Llm.Budget.Fits.{apply_budget-fits, payload_cost, total_cost}
use soc_one.Llm.Budget.Reports.{IsPlaced, apply_budget-IsPlaced}
use soc_one.Llm.Extraction.{balanced_object}
use soc_one.Llm.Extraction.Finds.{IsFirst, balanced_object-iff-IsFirst}
use soc_one.Llm.Structured.{
  Message, system, human, Response, Checked, valid, invalid, invoke_structured, IsExplained,
  invoke_structured-IsExplained,
}
use soc_one.Llm.Failover.{
  Config, Pair, Answer, answered, failed, returned, candidates, try_all, to_try, awake, invoke,
  cooldown_key, is_quota_error,
}
use soc_one.Llm.Failover.Priority.{ProviderAnswers, is_tried, any_awake, invoke-ProviderAnswers}
use soc_one.Llm.Failover.Cooldown.{IsCache, Reached, at_head, invoke-skips}

-- Seven characters for each item.
abbrev dump_length : Value ℕ → ℕ
dump_length (text s) = 0
dump_length (list xs) = 7 * length xs
dump_length (other n) = 7

abbrev facts : PayloadTier ℕ
facts = record { name = "facts"; order = 1; value = list (1 ∷ 2 ∷ 3 ∷ 4 ∷ []); truncatable = true }

abbrev logs : PayloadTier ℕ
logs = record { name = "logs"; order = 2; value = list (5 ∷ 6 ∷ 7 ∷ 8 ∷ []); truncatable = true }

abbrev tiers : List (PayloadTier ℕ)
tiers = logs ∷ facts ∷ []

abbrev cut_result : BudgetResult ℕ
cut_result = record {
  payload = ("facts", list (1 ∷ 2 ∷ 3 ∷ 4 ∷ [])) ∷ ("logs", list (5 ∷ 6 ∷ [])) ∷ [];
  trimmed_tiers = truncated "logs" 2 4 ∷ [];
  estimated_tokens = 14;
}

budget_run : apply_budget dump_length 35 tiers 1616 100 ≡ some cut_result
unfolding apply_budget place_all place put estimate_tokens shorten_value shorten sort_by insert_by
budget_run = refl

apply_budget-fits_example :
    (payload_cost dump_length 35 cut_result.payload ≤ 14) × (14 + 100 + 1500 ≤ 1616)
apply_budget-fits_example = apply_budget-fits dump_length 35 tiers 1616 100 cut_result budget_run

tiers-cost : total_cost dump_length 35 tiers ≡ 18
unfolding estimate_tokens
tiers-cost = refl

apply_budget-IsPlaced_example : IsPlaced logs cut_result
apply_budget-IsPlaced_example =
    apply_budget-IsPlaced dump_length 35 tiers 1616 100 cut_result logs budget_run (inl refl)
      (omega arith)

abbrev cached : List String → String → Bool
cached keys k = any (λ j. str_eq j k) keys

abbrev store : List String → String → List String
store keys k = k ∷ keys

cached-IsCache : IsCache cached store
cached-IsCache = record {
  found = λ c k. rw ((str_eq_iff k k).1 refl) refl;
  stays = λ c j k h. ground arith;
}

abbrev gateway : Config
gateway = record { name = "gateway"; model = "large"; models = "large" ∷ "small" ∷ []; tags = [] }

abbrev call : Pair → Answer ℕ
call (config, model_name) =
    if str_eq model_name "small" then answered 7 else failed "Error code: 429 - usage limit"

invoke_run : (invoke cached store call (gateway ∷ []) []).1 ≡ returned 7
unfolding invoke to_try try_all candidates
invoke_run = refl

invoke-ProviderAnswers_example :
    ((invoke cached store call (gateway ∷ []) []).1 ≡ returned 7)
    ↔ ProviderAnswers cached store call
        (is_tried cached store call [] (any_awake cached store call [] (gateway ∷ [])))
        7
        (gateway ∷ [])
invoke-ProviderAnswers_example = invoke-ProviderAnswers cached store call [] (gateway ∷ []) 7

abbrev no_model : Config
no_model = record { name = "gateway"; model = ""; models = []; tags = [] }

abbrev only_large : Config
only_large = record { name = "gateway"; model = "large"; models = []; tags = [] }

large-Reached :
    Reached cached store call (to_try cached store call (only_large ∷ []) []) (only_large, "large")
unfolding to_try candidates
large-Reached = at_head (only_large, "large") []

large-quota : is_quota_error "Error code: 429 - usage limit" ≡ true
unfolding is_quota_error is_part has_prefix lower
large-quota = refl

large-again :
    In
      (only_large, "large")
      (to_try cached store call (only_large ∷ []) (invoke cached store call (only_large ∷ []) []).0)
unfolding to_try candidates invoke try_all is_quota_error is_part has_prefix lower cooldown_key
large-again = inl refl

invoke-skips_example :
    awake cached store call
      (invoke cached store call (only_large ∷ []) []).0
      (candidates (only_large ∷ []))
    ≡ []
invoke-skips_example =
    invoke-skips cached store call cached-IsCache (only_large ∷ []) [] (only_large, "large")
      "Error code: 429 - usage limit" large-Reached refl large-quota large-again

-- `a{"}"}b`
abbrev chatty : List ℕ
chatty = 97 ∷ 123 ∷ 34 ∷ 125 ∷ 34 ∷ 125 ∷ 98 ∷ []

abbrev object : List ℕ
object = 123 ∷ 34 ∷ 125 ∷ 34 ∷ 125 ∷ []

balanced_object-iff-IsFirst_example : (balanced_object chatty ≡ some object) ↔ IsFirst chatty object
balanced_object-iff-IsFirst_example = balanced_object-iff-IsFirst chatty object

abbrev respond : List Message → Answer Response
respond messages = answered record {
  text = if length messages == 2 then "sorry" else "{}";
  tokens_in = none;
  tokens_out = none;
}

abbrev check : String → Checked ℕ
check s = if str_eq s "{}" then valid 1 else invalid "no object"

invoke_structured-IsExplained_example :
    IsExplained respond check 2
      (system "system" ∷ human "payload" ∷ [])
      (invoke_structured respond check (some 1) "system" "payload")
invoke_structured-IsExplained_example =
    invoke_structured-IsExplained respond check (some 1) "system" "payload"

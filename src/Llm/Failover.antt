-- ===== src/Llm/Failover.antt =====
-- The failover between language models of backend/integrations/llm/llmapi.py. The shared cache with its
-- two calls and the call of a model are arguments; a configuration's other fields are of no use here.
pub mod Order
pub mod Priority
pub mod Cooldown
use Prim.Native.String.{◌++◌ as str_append}
use soc_one.Base.Texts.{codes, lower, is_part}
use soc_one.Base.{
  ℕ, suc, ◌+◌, ◌≤◌, Bool, true, false, ◌&&◌, not, Option, none, some, List, [], ◌∷◌, ◌++◌, String,
  str_eq, ◌==◌, leb, if◌then◌else◌, keep, any, map, length,
}

-- An empty text or list stands for a missing one.
pub record Config : Type 0 where
  pub name : String
  pub model : String
  pub models : List String
  pub tags : List String

abbrev pub Pair : Type 0
Pair = Config × String

abbrev or_text : String → String → String
or_text a b = if str_eq a "" then b else a

abbrev pub quota_markers : List String
quota_markers =
    "error code: 429" ∷ "http/1.1 429" ∷ "[429]" ∷ "too many requests" ∷ "rate limit" ∷ "rate_limit"
    ∷ "usage limit" ∷ "quota" ∷ "insufficient_quota" ∷ "overloaded" ∷ "error code: 500"
    ∷ "error code: 502" ∷ "error code: 503" ∷ "service unavailable" ∷ "connection error"
    ∷ "timed out" ∷ "timeout" ∷ []

unfoldable pub is_quota_error : String → Bool
unfolding is_part lower
is_quota_error error = any (λ marker. is_part (codes marker) (lower (codes error))) quota_markers

unfoldable pub cooldown_key : Pair → String
cooldown_key (config, model_name) = str_append "asp:llm:cooldown:" (
    str_append (or_text config.name "?")
      (str_append ":" (or_text model_name (or_text config.model "?"))))

-- `config.get("models") or [config.get("model")]`
abbrev pub models_of : Config → List String
models_of config = elim config.models [ [] ↦ config.model ∷ [] | m ∷ ms ↦ m ∷ ms ]

abbrev pub pairs_of : Config → List String → List Pair
pairs_of config [] = []
pairs_of config (m ∷ ms) =
    let rest = pairs_of config ms in if str_eq m "" then rest else (config, m) ∷ rest

-- `_candidates`: every model of every provider, in order of priority.
unfoldable pub candidates : List Config → List Pair
candidates [] = []
candidates (config ∷ configs) = pairs_of config (models_of config) ++ candidates configs

pub data Answer (R : Type 0) : Type 0 where
  answered : R → Answer R
  failed : String → Answer R

-- How `invoke` ends; `no_candidate` is `raise None`, where no provider has a model.
pub data Ending (R : Type 0) : Type 0 where
  returned : R → Ending R
  raised : String → Ending R
  no_candidate : Ending R

abbrev pub ending : {R : Type 0} → Option String → Ending R
ending none = no_candidate
ending (some error) = raised error

module _ {R Cache : Type 0} (cached : Cache → String → Bool) (store : Cache → String → Cache)
    (call : Pair → Answer R) where
  unfoldable pub start_cooldown : String → Pair → Cache → Cache
  start_cooldown error pair cache =
      if is_quota_error error then store cache (cooldown_key pair) else cache

  -- The loop over the candidates.
  unfoldable pub try_all : List Pair → Option String → Cache → Cache × Ending R
  unfolding start_cooldown
  try_all [] last_error cache = (cache, ending last_error)
  try_all (pair ∷ pairs) last_error cache = elim (call pair) [
    | answered result ↦ (cache, returned result)
    | failed error ↦ try_all pairs (some error) (start_cooldown error pair cache)
  ]

  abbrev pub awake : Cache → List Pair → List Pair
  awake cache pairs = keep (λ p. not (cached cache (cooldown_key p))) pairs

  -- The candidates that are not cooling down, or all where every one is.
  unfoldable pub to_try : List Config → Cache → List Pair
  to_try configs cache = elim (awake cache (candidates configs)) [
    | [] ↦ candidates configs
    | p ∷ ps ↦ p ∷ ps
  ]

  unfoldable pub invoke : List Config → Cache → Cache × Ending R
  unfolding to_try try_all
  invoke configs cache = try_all (to_try configs cache) none cache

unfoldable pub is_subset : List String → List String → Bool
is_subset [] tags = true
is_subset (t ∷ required) tags = any (λ u. str_eq u t) tags && is_subset required tags

-- `select_configs`; `none` for the tag is `None`, `none` for the answer is the `ValueError`.
unfoldable pub select_configs : List Config → Option (List String) → Option (List Config)
unfolding is_subset
select_configs configs none = some configs
select_configs configs (some required) = elim (keep (λ c. is_subset required c.tags) configs) [
  | [] ↦ none
  | c ∷ matched ↦ some (c ∷ matched)
]

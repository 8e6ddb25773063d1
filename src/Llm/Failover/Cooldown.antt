-- ===== src/Llm/Failover/Cooldown.antt =====
-- The cooldown of backend/integrations/llm/llmapi.py.
use soc_one.Base.{
  ◌≡◌, refl, inl, inr, Bool, true, not, Option, none, some, List, [], ◌∷◌, String, In, In-keep,
  Bool-cases, arith,
}
use soc_one.Llm.Failover.{
  Config, Pair, candidates, Answer, failed, is_quota_error, start_cooldown, try_all, to_try, awake,
  invoke, cooldown_key,
}
use soc_one.Llm.Failover.Order.{Fails, answer_cases, try_all_failed, try_all_answered}

-- What the failover relies on in the shared cache: a stored key is found, and storing another one does not
-- take it away.
pub record IsCache {Cache : Type 0} (cached : Cache → String → Bool)
    (store : Cache → String → Cache) : Type 0 where
  pub found : (c : Cache) (k : String) → cached (store c k) k ≡ true
  pub stays : (c : Cache) (j k : String) → cached c k ≡ true → cached (store c j) k ≡ true

module _ {R Cache : Type 0} (cached : Cache → String → Bool) (store : Cache → String → Cache)
    (call : Pair → Answer R) where
  -- The loop comes to the pair: all that stand before it have failed.
  pub data Reached : List Pair → Pair → Type 0 where
    at_head : (p : Pair) (ps : List Pair) → Reached (p ∷ ps) p
    behind :
        (q : Pair) (ps : List Pair) (p : Pair)
        → Fails cached store call q
        → Reached ps p
        → Reached (q ∷ ps) p

  abbrev cache_after : List Pair → Option String → Cache → Cache
  cache_after pairs last_error cache = (try_all cached store call pairs last_error cache).0

  module _ (law : IsCache cached store) where
    start_cooldown-stays :
        (error k : String) (p : Pair) (cache : Cache)
        → cached cache k ≡ true
        → cached (start_cooldown cached store call error p cache) k ≡ true
    unfolding start_cooldown
    start_cooldown-stays error k p cache h = elim (Bool-cases (is_quota_error error)) [
      | inl e ↦ rw e (law.stays cache (cooldown_key p) k h)
      | inr e ↦ rw e h
    ]

    start_cooldown-found :
        (error : String) (p : Pair) (cache : Cache)
        → is_quota_error error ≡ true
        → cached (start_cooldown cached store call error p cache) (cooldown_key p) ≡ true
    unfolding start_cooldown
    start_cooldown-found error p cache e = rw e (law.found cache (cooldown_key p))

    cache_after-stays :
        (pairs : List Pair) (last_error : Option String) (cache : Cache) (k : String)
        → cached cache k ≡ true
        → cached (cache_after pairs last_error cache) k ≡ true
    unfolding try_all
    cache_after-stays [] last_error cache k h = h
    cache_after-stays (p ∷ ps) last_error cache k h =
        elim (answer_cases cached store call (call p)) [
          | inl (r, e) ↦
              rw (cache_after, try_all_answered cached store call p ps r last_error cache e) h
          | inr (error, e) ↦
              rw (cache_after, try_all_failed cached store call p ps error last_error cache e)
                (cache_after-stays ps (some error) (start_cooldown cached store call error p cache)
                  k (start_cooldown-stays error k p cache h))
        ]

    cache_after-found :
        (pairs : List Pair) (p : Pair) (error : String) (last_error : Option String) (cache : Cache)
        → Reached pairs p
        → call p ≡ failed error
        → is_quota_error error ≡ true
        → cached (cache_after pairs last_error cache) (cooldown_key p) ≡ true
    cache_after-found _ _ error last_error cache (at_head p ps) h q =
        rw (cache_after, try_all_failed cached store call p ps error last_error cache h)
          (cache_after-stays ps (some error) (start_cooldown cached store call error p cache)
            (cooldown_key p) (start_cooldown-found error p cache q))
    cache_after-found _ _ error last_error cache (behind o ps p (first_error, f) reached) h q =
        rw (cache_after, try_all_failed cached store call o ps first_error last_error cache f)
          (cache_after-found ps p error (some first_error)
            (start_cooldown cached store call first_error o cache) reached h q)

    to_try-cooling :
        (configs : List Config) (cache : Cache) (p : Pair)
        → In p (to_try cached store call configs cache)
        → cached cache (cooldown_key p) ≡ true
        → awake cached store call cache (candidates configs) ≡ []
    unfolding to_try
    to_try-cooling configs cache p i h =
        go (awake cached store call cache (candidates configs)) refl i
      where
        go :
            (rest : List Pair)
            → awake cached store call cache (candidates configs) ≡ rest
            → In p (elim rest as (λ _. List Pair) [ [] ↦ candidates configs | q ∷ qs ↦ q ∷ qs ])
            → rest ≡ []
        go [] e j = refl
        go (q ∷ qs) e j =
            let k : In p (awake cached store call cache (candidates configs)) = rw e j in
            let (_, off) =
              (In-keep (λ o. not (cached cache (cooldown_key o))) p (candidates configs)).0 k in
            absurd (ground (arith, off, h))

    -- A model that a call found out of quota or unavailable is tried in the next call only where every
    -- candidate is cooling down.
    pub invoke-skips :
        (configs : List Config) (cache : Cache) (p : Pair) (error : String)
        → Reached (to_try cached store call configs cache) p
        → call p ≡ failed error
        → is_quota_error error ≡ true
        → let next = (invoke cached store call configs cache).0 in
          In p (to_try cached store call configs next)
          → awake cached store call next (candidates configs) ≡ []
    unfolding invoke
    invoke-skips configs cache p error reached h q i =
        let pairs = to_try cached store call configs cache in
        to_try-cooling configs (cache_after pairs none cache) p i
          (cache_after-found pairs p error none cache reached h q)

-- ===== src/Llm/Failover/Order.antt =====
-- Which candidate of backend/integrations/llm/llmapi.py answers.
use soc_one.Base.{
  ◌≡◌, ◌≢◌, refl, sym, ◌∙◌, ap, ◌↔◌, ◌⊎◌, inl, inr, Bool, Option, none, some, List, [], ◌∷◌, String,
  arith,
}
use soc_one.Llm.Failover.{
  Config, Pair, Answer, answered, failed, Ending, returned, ending, start_cooldown, try_all, to_try,
  invoke,
}

module _ {R Cache : Type 0} (cached : Cache → String → Bool) (store : Cache → String → Cache)
    (call : Pair → Answer R) where
  abbrev pub Fails : Pair → Type 0
  Fails p = (error : String) × (call p ≡ failed error)

  -- The first of the pairs that answers, with its answer.
  pub data FirstAnswer : List Pair → R → Type 0 where
    here : (p : Pair) (ps : List Pair) (r : R) → call p ≡ answered r → FirstAnswer (p ∷ ps) r
    later :
        (p : Pair) (ps : List Pair) (r : R) → Fails p → FirstAnswer ps r → FirstAnswer (p ∷ ps) r

  abbrev trying : List Pair → Option String → Cache → Ending R
  trying pairs last_error cache = (try_all cached store call pairs last_error cache).1

  pub answer_cases : (a : Answer R) → ((r : R) × (a ≡ answered r)) ⊎ ((e : String) × (a ≡ failed e))
  answer_cases (answered r) = inl (r, refl)
  answer_cases (failed e) = inr (e, refl)

  ending-not_returned : (last_error : Option String) (r : R) → ending last_error ≢ returned r
  ending-not_returned none r h = cc
  ending-not_returned (some e) r h = cc

  pub try_all_failed :
      (p : Pair) (ps : List Pair) (error : String) (last_error : Option String) (cache : Cache)
      → call p ≡ failed error
      → try_all cached store call (p ∷ ps) last_error cache
        ≡ try_all cached store call ps (some error) (start_cooldown cached store call error p cache)
  unfolding try_all
  try_all_failed p ps error last_error cache h = ground arith

  pub try_all_answered :
      (p : Pair) (ps : List Pair) (r : R) (last_error : Option String) (cache : Cache)
      → call p ≡ answered r
      → try_all cached store call (p ∷ ps) last_error cache ≡ (cache, returned r)
  unfolding try_all
  try_all_answered p ps r last_error cache h = ground arith

  trying-FirstAnswer :
      (pairs : List Pair) (last_error : Option String) (cache : Cache) (r : R)
      → trying pairs last_error cache ≡ returned r
      → FirstAnswer pairs r
  unfolding try_all
  trying-FirstAnswer [] last_error cache r h = absurd (ending-not_returned last_error r h)
  trying-FirstAnswer (p ∷ ps) last_error cache r h = elim (answer_cases (call p)) [
    | inl (q, e) ↦ here p ps r (
        e
        ∙ ap answered (
            cc
              (h, ap (λ (z : Cache × Ending R). z.1) (try_all_answered p ps q last_error cache e))))
    | inr (error, e) ↦
        let shifted =
          ap (λ (z : Cache × Ending R). z.1) (try_all_failed p ps error last_error cache e) in
        later p ps r (error, e)
          (trying-FirstAnswer ps (some error) (start_cooldown cached store call error p cache) r
            (sym shifted ∙ h))
  ]

  FirstAnswer-trying :
      (pairs : List Pair) (last_error : Option String) (cache : Cache) (r : R)
      → FirstAnswer pairs r
      → trying pairs last_error cache ≡ returned r
  FirstAnswer-trying _ last_error cache _ (here p ps r e) =
      ap (λ (z : Cache × Ending R). z.1) (try_all_answered p ps r last_error cache e)
  FirstAnswer-trying _ last_error cache _ (later p ps r (error, e) f) =
      ap (λ (z : Cache × Ending R). z.1) (try_all_failed p ps error last_error cache e)
      ∙ FirstAnswer-trying ps (some error) (start_cooldown cached store call error p cache) r f

  -- `invoke` returns the answer of the first pair, in order of priority among those to be tried, that
  -- answers; and it returns none but that.
  pub invoke-FirstAnswer :
      (configs : List Config) (cache : Cache) (r : R)
      → ((invoke cached store call configs cache).1 ≡ returned r)
        ↔ FirstAnswer (to_try cached store call configs cache) r
  unfolding invoke
  invoke-FirstAnswer configs cache r =
      let pairs = to_try cached store call configs cache in
      (λ h. trying-FirstAnswer pairs none cache r h, λ h. FirstAnswer-trying pairs none cache r h)

-- ===== src/Llm/Failover/Priority.antt =====
-- In which order `invoke` of backend/integrations/llm/llmapi.py asks the providers' models.
use soc_one.Base.{
  ◌≡◌, refl, sym, subst, ◌∙◌, ap, ◌↔◌, ◌⊎◌, inl, inr, Bool, true, false, ◌&&◌, ◌||◌, not, List, [],
  ◌∷◌, ◌++◌, String, str_eq, if◌then◌else◌, any, keep, arith, Bool-cases,
}
use soc_one.Llm.Failover.{
  Config, Pair, pairs_of, candidates, Answer, answered, failed, returned, cooldown_key, to_try,
  invoke,
}
use soc_one.Llm.Failover.Order.{FirstAnswer, here, later, invoke-FirstAnswer}

-- A provider's models, or its only one.
abbrev pub offered : Config → List String
offered config = elim config.models [ [] ↦ config.model ∷ [] | m ∷ ms ↦ m ∷ ms ]

module _ {R Cache : Type 0} (cached : Cache → String → Bool) (store : Cache → String → Cache)
    (call : Pair → Answer R) where
  module _ (cache : Cache) where
    -- A named model that is not cooling down.
    abbrev pub is_awake : Pair → Bool
    is_awake (config, m) = not (str_eq m "") && not (cached cache (cooldown_key (config, m)))

    abbrev pub any_awake : List Config → Bool
    any_awake configs = any (λ config. any (λ m. is_awake (config, m)) (offered config)) configs

    -- Whether a model is asked where it is reached: a named one, awake unless all of them are cooling down.
    abbrev pub is_tried : Bool → Pair → Bool
    is_tried anyone (config, m) =
        not (str_eq m "") && (if anyone then is_awake (config, m) else true)

  module _ (tried : Pair → Bool) (r : R) where
    -- Reading a provider's models in order, one that is tried answers and each before it is not tried or
    -- fails; or all are so, and what is left to read answers.
    abbrev pub ModelAnswers : Config → List String → Type 0 → Type 0
    ModelAnswers config [] further = further
    ModelAnswers config (m ∷ ms) further =
        ((tried (config, m) ≡ true) × (call (config, m) ≡ answered r))
        ⊎ (((tried (config, m) ≡ false) ⊎ ((error : String) × (call (config, m) ≡ failed error)))
            × ModelAnswers config ms further)

    -- Reading the providers in order.
    abbrev pub ProviderAnswers : List Config → Type 0
    ProviderAnswers [] = ⊥
    ProviderAnswers (config ∷ configs) =
        ModelAnswers config (offered config) (ProviderAnswers configs)

    cons-cases :
        (p : Pair) (ps : List Pair)
        → FirstAnswer cached store call (p ∷ ps) r
        → (call p ≡ answered r)
          ⊎ (((error : String) × (call p ≡ failed error)) × FirstAnswer cached store call ps r)
    cons-cases _ _ (here p ps _ e) = inl e
    cons-cases _ _ (later p ps _ e f) = inr (e, f)

    module _ (f : Pair → Bool)
        (blank : (c : Config) (m : String) → str_eq m "" ≡ true → tried (c, m) ≡ false)
        (named : (c : Config) (m : String) → str_eq m "" ≡ false → tried (c, m) ≡ f (c, m)) where
      -- A model that is not tried is passed over.
      passed_iff :
          (config : Config) (m : String) (ms : List String) (further rest : Type 0)
          → tried (config, m) ≡ false
          → (rest ↔ ModelAnswers config ms further)
          → (rest ↔ ModelAnswers config (m ∷ ms) further)
      passed_iff config m ms further rest t (to, from) = (
        λ a. inr (inl t, to a),
        λ h. elim h [ inl (u, _) ↦ absurd (cc (t, u)) | inr (_, g) ↦ from g ],
      )

      models_iff :
          (config : Config) (ms : List String) (rest : List Pair) (further : Type 0)
          → (FirstAnswer cached store call rest r ↔ further)
          → (FirstAnswer cached store call (keep f (pairs_of config ms) ++ rest) r
              ↔ ModelAnswers config ms further)
      models_iff config [] rest further h = h
      models_iff config (m ∷ ms) rest further h =
          let p : Pair = (config, m) in
          let next = models_iff config ms rest further h in
          let left = keep f (pairs_of config ms) ++ rest in
          elim (Bool-cases (str_eq m "")) [
            | inl e ↦ rw e (
                passed_iff config m ms further (FirstAnswer cached store call left r)
                  (blank config m e) next)
            | inr e ↦ elim (Bool-cases (tried p)) [
              | inr t ↦
                  rw (e, sym (named config m e) ∙ t)
                    (passed_iff config m ms further (FirstAnswer cached store call left r) t next)
              | inl t ↦
                  rw (e, sym (named config m e) ∙ t)
                    (
                      λ a. elim (cons-cases p left a) [
                        | inl q ↦ inl (t, q)
                        | inr (q, g) ↦ inr (inr q, next.0 g)
                      ],
                      λ a. elim a [
                        | inl (_, q) ↦ here p left r q
                        | inr (inl u, _) ↦ absurd (cc (t, u))
                        | inr (inr q, g) ↦ later p left r q (next.1 g)
                      ],
                    )
            ]
          ]

      keep-append : (xs ys : List Pair) → keep f (xs ++ ys) ≡ keep f xs ++ keep f ys
      keep-append [] ys = refl
      keep-append (x ∷ xs) ys = elim (Bool-cases (f x)) [
        | inl e ↦ rw e (ap (λ z. x ∷ z) (keep-append xs ys))
        | inr e ↦ rw e (keep-append xs ys)
      ]

      no_answer : FirstAnswer cached store call [] r → ⊥
      no_answer h = elim h [ ]

      providers_iff :
          (configs : List Config)
          → FirstAnswer cached store call (keep f (candidates configs)) r ↔ ProviderAnswers configs
      unfolding candidates
      providers_iff [] = (λ h. no_answer h, λ h. absurd h)
      providers_iff (config ∷ configs) =
          rw (keep-append (pairs_of config (offered config)) (candidates configs)) (
            models_iff config (offered config) (keep f (candidates configs))
              (ProviderAnswers configs) (providers_iff configs))

  any-append : (g : Pair → Bool) (xs ys : List Pair) → any g (xs ++ ys) ≡ (any g xs || any g ys)
  any-append g [] ys = refl
  any-append g (x ∷ xs) ys = ground (arith, any-append g xs ys)

  any-pairs_of :
      (g : Pair → Bool) (config : Config) (ms : List String)
      → any g (pairs_of config ms) ≡ any (λ m. not (str_eq m "") && g (config, m)) ms
  any-pairs_of g config [] = refl
  any-pairs_of g config (m ∷ ms) = ground (arith, any-pairs_of g config ms)

  any-none : (g : Pair → Bool) (xs : List Pair) → any g xs ≡ false → keep g xs ≡ []
  any-none g [] h = refl
  any-none g (x ∷ xs) h = ground (arith, any-none g xs)

  any-some :
      (g : Pair → Bool) (xs : List Pair)
      → any g xs ≡ true
      → (y : Pair) × (ys : List Pair) × (keep g xs ≡ y ∷ ys)
  any-some g [] h = cc
  any-some g (x ∷ xs) h = elim (Bool-cases (g x)) [
    | inl e ↦ (x, keep g xs, rw e refl)
    | inr e ↦ let (y, ys, same) = any-some g xs (ground (arith, h, e)) in (y, ys, rw e same)
  ]

  keep-all : (xs : List Pair) → keep (λ p. true) xs ≡ xs
  keep-all [] = refl
  keep-all (x ∷ xs) = ap (λ z. x ∷ z) (keep-all xs)

  module _ (cache : Cache) where
    abbrev uncached : Pair → Bool
    uncached p = not (cached cache (cooldown_key p))

    any-candidates :
        (configs : List Config) → any uncached (candidates configs) ≡ any_awake cache configs
    unfolding candidates
    any-candidates [] = refl
    any-candidates (config ∷ configs) =
        let here_any = any-pairs_of uncached config (offered config) in
        let later_any = any-candidates configs in
        let split = any-append uncached (pairs_of config (offered config)) (candidates configs) in
        split
        ∙ rw (here_any, later_any)
            (either (any (λ m. is_awake cache (config, m)) (offered config))
              (any_awake cache configs))
      where
        either : (a b : Bool) → (a || b) ≡ (if a then true else b)
        either true b = refl
        either false b = refl

    to_try_some :
        (configs : List Config) (y : Pair) (ys : List Pair)
        → keep uncached (candidates configs) ≡ y ∷ ys
        → to_try cached store call configs cache ≡ y ∷ ys
    unfolding to_try
    to_try_some configs y ys h = ground (arith, h)

    to_try_none :
        (configs : List Config)
        → keep uncached (candidates configs) ≡ []
        → to_try cached store call configs cache ≡ candidates configs
    unfolding to_try
    to_try_none configs h = ground (arith, h)

    to_try-keep :
        (configs : List Config)
        → to_try cached store call configs cache
          ≡ keep (λ p. if any_awake cache configs then uncached p else true) (candidates configs)
    to_try-keep configs =
        let same = any-candidates configs in
        elim (Bool-cases (any_awake cache configs)) [
          | inl e ↦
              let (y, ys, k) = any-some uncached (candidates configs) (same ∙ e) in
              rw (e, k) (to_try_some configs y ys k)
          | inr e ↦
              let k = any-none uncached (candidates configs) (same ∙ e) in
              rw e (to_try_none configs k ∙ sym (keep-all (candidates configs)))
        ]

    -- `invoke` returns an answer just where, the providers read in their order and each one's models in
    -- theirs, the model that is reached first and answers gives it: each before it is nameless, is cooling
    -- down while some model is not, or fails. Where every named model is cooling down, all are asked.
    pub invoke-ProviderAnswers :
        (configs : List Config) (r : R)
        → ((invoke cached store call configs cache).1 ≡ returned r)
          ↔ ProviderAnswers (is_tried cache (any_awake cache configs)) r configs
    invoke-ProviderAnswers configs r =
        let anyone = any_awake cache configs in
        let f : Pair → Bool = λ p. if anyone then uncached p else true in
        let whole = invoke-FirstAnswer cached store call configs cache r in
        let (to, from) =
          providers_iff (is_tried cache anyone) r f (λ c m e. ground (arith, e))
            (λ c m e. ground (arith, e)) configs in
        let same = to_try-keep configs in
        (
          λ h. to (subst (λ ps. FirstAnswer cached store call ps r) same (whole.0 h)),
          λ h. whole.1 (subst (λ ps. FirstAnswer cached store call ps r) (sym same) (from h)),
        )

-- ===== src/Ioc/Verify/Safety.antt =====
-- What `verify_indicator` of backend/apps/agentic/ioc/service.py lets out.
use soc_one.Base.{
  ℕ, suc, ◌<◌, ◌≡◌, refl, sym, ap, ◌∙◌, ◌⊎◌, inl, inr, Bool, true, false, ◌||◌, not, Option, none,
  some, List, [], ◌∷◌, ◌==◌, ltb, if◌then◌else◌, arith, Bool-cases, if-cases, subst, take,
}
use soc_one.Base.Texts.{is_blank}
use soc_one.Ioc.Normalize.{Text, IocType, unknown, classify, is_internal}
use soc_one.Ioc.Injection.{Block, Flag}
use soc_one.Ioc.References.{IntelItem}
use soc_one.Ioc.Sources.{
  IocVerification, Config, Services, Synthesis, answered, not_structured, no_prompt, Asked, intel,
  model, State, WebEvidence, ttl_for, collect_web_evidence,
}
use soc_one.Ioc.Verify.{
  type_code, store, Answered, conclude, synthesise_from, ask_web, look_up, get_cached, cached_or,
  verify_classified, undetermined, internal_only, verify_indicator, settle_found, web_evidence,
  no_sources, nothing_found, refused,
}
use soc_one.Ioc.Verify.Requests.{Grew, Grew-trans, Grew-same, Grew-one, collect_web_evidence-Grew}

module _ (services : Services) (config : Config) (now : ℕ) (kind : IocType) (value : Text) where
  store-asked :
      (t : IocType) (v : Text) (ttl : ℕ) (change : IocVerification → IocVerification)
      (state : State)
      → (store now t v ttl change state).1.asked ≡ state.asked
  unfolding store
  store-asked t v ttl change state = refl

  conclude-asked :
      (candidates sources : List Text) (flags : List Flag) (s : Synthesis) (state : State)
      → (conclude services config now kind value candidates sources flags s state).1.asked
        ≡ state.asked
  unfolding conclude
  conclude-asked candidates sources flags (answered output) state = unfold store in refl
  conclude-asked candidates sources flags (not_structured error) state = unfold store in refl
  conclude-asked candidates sources flags (no_prompt error) state = unfold store in refl

  synthesise_from-Grew :
      (structured : List IntelItem) (blocks : List Block) (state : State)
      → Grew value state.asked
          (synthesise_from services config now kind value structured blocks state).1.asked
  unfolding synthesise_from
  synthesise_from-Grew structured blocks state =
      (model value ∷ [], conclude-asked _ _ _ _ _, (refl, tt))

  settle_found-Grew :
      (structured : List IntelItem) (found : WebEvidence) (state : State)
      → Grew value found.1
          (settle_found services config now kind value structured found state).1.asked
  unfolding settle_found
  settle_found-Grew structured (blocks, asked) state =
      let after : State = record state { asked = asked } in
      elim (Bool-cases (nothing_found services config now structured blocks)) [
        | inl e ↦
            rw e (Grew-same value (store-asked kind value (ttl_for kind config) no_sources after))
        | inr e ↦ rw e (synthesise_from-Grew structured blocks after)
      ]

  web_evidence-Grew :
      (asked : List Asked) → Grew value asked (web_evidence services config now value asked).1
  web_evidence-Grew asked =
      let found = collect_web_evidence services value config asked in
      elim (if-cases config.internal_sources_only ([], asked) found) [
        | inl (_, e) ↦ Grew-same value (ap (λ (z : WebEvidence). z.1) e)
        | inr (_, e) ↦
            subst (λ (z : WebEvidence). Grew value asked z.1) (sym e)
              (collect_web_evidence-Grew value services config asked)
      ]

  ask_web-Grew :
      (structured : List IntelItem) (state : State)
      → Grew value state.asked (ask_web services config now kind value structured state).1.asked
  unfolding ask_web
  ask_web-Grew structured state =
      let found = web_evidence services config now value state.asked in
      Grew-trans value state.asked found.1
        (settle_found services config now kind value structured found state).1.asked
        (web_evidence-Grew state.asked) (settle_found-Grew structured found state)

  -- Nothing is asked; or the indicator is not internal, the verification is enabled, the minute's limit is
  -- not yet reached, and each request names this indicator as a term and nothing else.
  abbrev pub IsGuarded : State → State → Type 0
  IsGuarded before after =
      (after.asked ≡ before.asked)
      ⊎ ((is_internal services.book kind value config.internal_networks config.internal_domains
            ≡ false)
          × (config.enabled ≡ true)
          × (before.minute_count < config.rate_limit_per_minute)
          × Grew value before.asked after.asked)

  -- The part of it behind the scope check.
  abbrev IsAllowed : State → State → Type 0
  IsAllowed before after =
      (after.asked ≡ before.asked)
      ⊎ ((config.enabled ≡ true)
          × (before.minute_count < config.rate_limit_per_minute)
          × Grew value before.asked after.asked)

  look_up-IsAllowed :
      (state : State) → IsAllowed state (look_up services config now kind value state).1
  unfolding look_up
  look_up-IsAllowed state =
      let counted : State = record state { minute_count = suc state.minute_count } in
      let asking : State = record counted { asked = intel kind value ∷ counted.asked } in
      let structured = services.structured kind value in
      let off = store now kind value 1 (refused "IOC verification is disabled.") state in
      let limited =
        store now kind value 1 (refused "Rate limit reached for IOC verification.") counted in
      let asked = ask_web services config now kind value structured asking in
      let over = ltb config.rate_limit_per_minute (suc state.minute_count) in
      elim (if-cases (not config.enabled) off (if over then limited else asked)) [
        | inl (_, e) ↦ inl (
            ap (λ (z : Answered). z.1.asked) e
            ∙ store-asked kind value 1 (refused "IOC verification is disabled.") state)
        | inr (on, e) ↦ elim (if-cases over limited asked) [
          | inl (_, f) ↦ inl (
              ap (λ (z : Answered). z.1.asked) (e ∙ f)
              ∙ store-asked kind value 1 (refused "Rate limit reached for IOC verification.")
                  counted)
          | inr (below, f) ↦
              let first_one = Grew-one value (intel kind value) state.asked refl in
              let grew =
                Grew-trans value state.asked asking.asked asked.1.asked first_one
                  (ask_web-Grew structured asking) in
              inr (
                ground (arith, on),
                ground (arith, below),
                subst (λ (z : Answered). Grew value state.asked z.1.asked) (sym (e ∙ f)) grew,
              )
        ]
      ]

  cached_or-IsAllowed :
      (r : Option IocVerification) (state : State)
      → IsAllowed state (cached_or services config now r kind value state).1
  cached_or-IsAllowed none state = look_up-IsAllowed state
  cached_or-IsAllowed (some r) state = inl refl

  verify_classified-IsGuarded :
      (raw : Text) (force : Bool) (state : State)
      → IsGuarded state (verify_classified services config now kind value raw force state).1
  unfolding verify_classified
  verify_classified-IsGuarded raw force state =
      let inside =
        is_internal services.book kind value config.internal_networks config.internal_domains in
      let cached = if force then none else get_cached services config now kind value state.table in
      let looked = cached_or services config now cached kind value state in
      let kept = store now kind value (ttl_for kind config) internal_only state in
      let odd = store now unknown (take 1000 raw) 1 undetermined state in
      elim (if-cases (type_code kind == 7 || is_blank value) odd
        (if inside then kept else looked)) [
          | inl (_, e) ↦ inl (
              ap (λ (z : Answered). z.1.asked) e
              ∙ store-asked unknown (take 1000 raw) 1 undetermined state)
          | inr (_, e) ↦ elim (if-cases inside kept looked) [
            | inl (_, f) ↦ inl (
                ap (λ (z : Answered). z.1.asked) (e ∙ f)
                ∙ store-asked kind value (ttl_for kind config) internal_only state)
            | inr (outside, f) ↦ elim (cached_or-IsAllowed cached state) [
              | inl same ↦ inl (ap (λ (z : Answered). z.1.asked) (e ∙ f) ∙ same)
              | inr (on, below, grew) ↦ inr (
                outside,
                on,
                below,
                subst (λ (z : Answered). Grew value state.asked z.1.asked) (sym (e ∙ f)) grew,
              )
            ]
          ]
        ]

-- Whatever leaves the organisation while an indicator is verified is a request with the indicator as its
-- term: to the providers, to an MCP server in one of two fixed queries, or to the model. It leaves only if
-- the classified indicator is not internal, the verification is enabled, and the minute's limit is not yet
-- reached. Nothing else is asked.
pub verify_indicator-IsGuarded :
    (services : Services) (config : Config) (now : ℕ) (raw : Text) (force : Bool) (state : State)
    → let (kind, value) = classify services.book raw in
      IsGuarded services config now kind value state
        (verify_indicator services config now raw force state).1
unfolding verify_indicator
verify_indicator-IsGuarded services config now raw force state =
    let (kind, value) = classify services.book raw in
    verify_classified-IsGuarded services config now kind value raw force state

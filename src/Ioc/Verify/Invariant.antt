-- ===== src/Ioc/Verify/Invariant.antt =====
-- What holds of the table of backend/apps/agentic/ioc/service.py after any calls.
use soc_one.Base.{
  ℕ, suc, ◌+◌, ◌*◌, ◌≡◌, refl, sym, ◌∙◌, ◌⊎◌, inl, inr, Bool, true, false, ◌||◌, not, Option, none,
  some, List, [], ◌∷◌, ◌++◌, In, ◌==◌, ltb, leb, if◌then◌else◌, All, arith, Bool-cases, if-cases,
  subst, first, take, min, Option-cases,
}
use soc_one.Base.Texts.{is_blank, strip}
use soc_one.Ioc.Normalize.{Text, IocType, unknown, classify, is_internal}
use soc_one.Ioc.Injection.{Flag, wrap_untrusted}
use soc_one.Ioc.References.{
  Citation, IntelItem, extract_candidate_urls, validate_references, listed,
  validate_references-IsRetrieved,
}
use soc_one.Ioc.Sources.{
  Verdict, malicious, suspicious, benign, no_verdict, IocVerification, Config, Services, Synthesis,
  answered, not_structured, no_prompt, State, intel, model, WebEvidence, ttl_for,
}
use soc_one.Ioc.Verify.{
  type_code, is_of, blank_row, upsert, store, Answered, undetermined, internal_only, refused,
  no_sources, failed_synthesis, needs_evidence, read_verdict, settle_verdict, concluded, conclude,
  synthesise_from, settle_found, ask_web, look_up, get_cached, cached_or, verify_classified,
  verify_indicator, web_evidence, nothing_found, sources_of,
}

abbrev pub cited : List Citation → Bool
cited [] = false
cited (c ∷ cs) = true

-- No accusation without a reference, a confidence of at most one, and no reference but to one of the URLs.
abbrev pub IsSupported : List Text → IocVerification → Type 0
IsSupported urls r =
    ((needs_evidence r.verdict ≡ false) ⊎ (cited r.references ≡ true))
    × (leb r.confidence 100 ≡ true)
    × All (λ c. listed urls (strip c.url) ≡ true) r.references

listed-append :
    (new urls : List Text) (text : Text)
    → ((listed new text ≡ true) → listed (new ++ urls) text ≡ true)
      × ((listed urls text ≡ true) → listed (new ++ urls) text ≡ true)
listed-append [] urls text = (λ h. cc, λ h. h)
listed-append (u ∷ new) urls text =
    let (here, there) = listed-append new urls text in
    (λ h. ground (arith, here, h), λ h. ground (arith, there, h))

module _ (urls more : List Text)
    (wider : (text : Text) → listed urls text ≡ true → listed more text ≡ true) where
  references_wider :
      (references : List Citation)
      → All (λ c. listed urls (strip c.url) ≡ true) references
      → All (λ c. listed more (strip c.url) ≡ true) references
  references_wider [] h = tt
  references_wider (c ∷ references) h = (wider (strip c.url) h.0, references_wider references h.1)

  All-IsSupported_wider :
      (table : List IocVerification) → All (IsSupported urls) table → All (IsSupported more) table
  All-IsSupported_wider [] h = tt
  All-IsSupported_wider (r ∷ table) h =
      ((h.0.0, h.0.1, references_wider r.references h.0.2), All-IsSupported_wider table h.1)

-- A change that makes a supported row of a supported one.
abbrev Supports : List Text → (IocVerification → IocVerification) → Type 0
Supports urls change = (r : IocVerification) → IsSupported urls r → IsSupported urls (change r)

module _ (kind : IocType) (value : Text) (change : IocVerification → IocVerification)
    (urls : List Text) (s : Supports urls change) where
  upsert-IsSupported :
      (table : List IocVerification)
      → All (IsSupported urls) table
      → IsSupported urls (upsert kind value change table).0
        × All (IsSupported urls) (upsert kind value change table).1
  unfolding upsert
  upsert-IsSupported [] h =
      let new = s (blank_row kind value) (inl refl, refl, tt) in (new, (new, tt))
  upsert-IsSupported (r ∷ table) h = elim (Bool-cases (is_of kind value r)) [
    | inl e ↦ rw e (s r h.0, (s r h.0, h.1))
    | inr e ↦ let (row, rest) = upsert-IsSupported table h.1 in rw e (row, (h.0, rest))
  ]

-- A supported answer in a supported table.
abbrev pub IsSound : List Text → Answered → Type 0
IsSound urls a = IsSupported urls a.0 × All (IsSupported urls) a.1.table

store-IsSound :
    (now : ℕ) (kind : IocType) (value : Text) (ttl : ℕ) (change : IocVerification → IocVerification)
    (urls : List Text) (state : State)
    → Supports urls change
    → All (IsSupported urls) state.table
    → IsSound urls (store now kind value ttl change state)
unfolding store
store-IsSound now kind value ttl change urls state s h =
    upsert-IsSupported kind value (λ r. record (change r) { expires_at = now + 3600 * ttl }) urls
      (λ r p. s r p) state.table h

settle_verdict-cited :
    (v : Verdict) (kept : List Citation)
    → (needs_evidence (settle_verdict v kept).0 ≡ false) ⊎ (cited kept ≡ true)
unfolding settle_verdict
settle_verdict-cited malicious [] = inl refl
settle_verdict-cited suspicious [] = inl refl
settle_verdict-cited benign [] = inl refl
settle_verdict-cited no_verdict [] = inl refl
settle_verdict-cited v (c ∷ cs) = inr refl

min_capped : (n : ℕ) → leb (min n 100) 100 ≡ true
min_capped n = ground arith

module _ (services : Services) (config : Config) (now : ℕ) (kind : IocType) (value : Text)
    (urls : List Text) where
  kept_listed :
      (candidates : List Text) (references : List Citation)
      → ((text : Text) → listed candidates text ≡ true → listed urls text ≡ true)
      → ((c : Citation) → In c references → listed candidates (strip c.url) ≡ true)
      → All (λ c. listed urls (strip c.url) ≡ true) references
  kept_listed candidates [] within h = tt
  kept_listed candidates (c ∷ references) within h = (
    within (strip c.url) (h c (inl refl)),
    kept_listed candidates references within (λ d i. h d (inr i)),
  )

  conclude-IsSound :
      (candidates sources : List Text) (flags : List Flag) (s : Synthesis) (state : State)
      → ((text : Text) → listed candidates text ≡ true → listed urls text ≡ true)
      → All (IsSupported urls) state.table
      → IsSound urls (conclude services config now kind value candidates sources flags s state)
  unfolding conclude
  conclude-IsSound candidates sources flags (answered output) state within h =
      let found =
        validate_references services.hostname output.references candidates
          config.reputable_domains in
      store-IsSound now kind value (ttl_for kind config) (concluded output found sources flags) urls
        state
        (λ r p. (
          settle_verdict-cited (read_verdict output.verdict) found.0,
          min_capped output.confidence,
          kept_listed candidates found.0 within (λ c i.
              validate_references-IsRetrieved services.hostname candidates config.reputable_domains
                output.references c i),
        ))
        h
  conclude-IsSound candidates sources flags (not_structured error) state within h =
      store-IsSound now kind value 1 (failed_synthesis error sources flags) urls state
        (λ r p. (inl refl, p.1, p.2)) h
  conclude-IsSound candidates sources flags (no_prompt error) state within h =
      store-IsSound now kind value 1 (refused error) urls state (λ r p. (inl refl, p.1, p.2)) h

  settle_found-IsSound :
      (structured : List IntelItem) (found : WebEvidence) (state : State)
      → ((text : Text)
          → listed (extract_candidate_urls found.0 structured) text ≡ true
          → listed urls text ≡ true)
      → All (IsSupported urls) state.table
      → IsSound urls (settle_found services config now kind value structured found state)
  unfolding settle_found synthesise_from
  settle_found-IsSound structured (blocks, asked) state within h =
      let after : State = record state { asked = asked } in
      let (text, flags) = wrap_untrusted services.scan blocks in
      let candidates = extract_candidate_urls blocks structured in
      elim (Bool-cases (nothing_found services config now structured blocks)) [
        | inl e ↦ rw e (
            store-IsSound now kind value (ttl_for kind config) no_sources urls after
              (λ r p. (inl refl, refl, p.2)) h)
        | inr e ↦ rw e (
            conclude-IsSound candidates (sources_of services config now structured blocks) flags
              (services.synthesise kind value structured candidates text)
              (record after { asked = model value ∷ asked }) within h)
      ]

  look_up-IsSound :
      (state : State)
      → ((text : Text)
          → listed
              (extract_candidate_urls
                (web_evidence services config now value (intel kind value ∷ state.asked)).0
                (services.structured kind value))
              text
            ≡ true
          → listed urls text ≡ true)
      → All (IsSupported urls) state.table
      → IsSound urls (look_up services config now kind value state)
  unfolding look_up ask_web
  look_up-IsSound state within h =
      let counted : State = record state { minute_count = suc state.minute_count } in
      let asking : State = record counted { asked = intel kind value ∷ counted.asked } in
      let structured = services.structured kind value in
      let off = store now kind value 1 (refused "IOC verification is disabled.") state in
      let limited =
        store now kind value 1 (refused "Rate limit reached for IOC verification.") counted in
      let found = web_evidence services config now value asking.asked in
      let asked = settle_found services config now kind value structured found asking in
      let over = ltb config.rate_limit_per_minute (suc state.minute_count) in
      elim (if-cases (not config.enabled) off (if over then limited else asked)) [
        | inl (_, e) ↦ subst (IsSound urls) (sym e) (
            store-IsSound now kind value 1 (refused "IOC verification is disabled.") urls state
              (λ r p. (inl refl, p.1, p.2)) h)
        | inr (_, e) ↦ elim (if-cases over limited asked) [
          | inl (_, f) ↦ subst (IsSound urls) (sym (e ∙ f)) (
              store-IsSound now kind value 1 (refused "Rate limit reached for IOC verification.")
                urls counted (λ r p. (inl refl, p.1, p.2)) h)
          | inr (_, f) ↦
              subst (IsSound urls) (sym (e ∙ f))
                (settle_found-IsSound structured found asking within h)
        ]
      ]

  first-All :
      (p : IocVerification → Bool) (table : List IocVerification) (r : IocVerification)
      → All (IsSupported urls) table
      → first p table ≡ some r
      → IsSupported urls r
  first-All p [] r h e = cc
  first-All p (x ∷ table) r h e = elim (Bool-cases (p x)) [
    | inl t ↦ let same : x ≡ r = ground (arith, e, t) in subst (IsSupported urls) same h.0
    | inr t ↦ first-All p table r h.1 (ground (arith, e, t))
  ]

  get_cached-IsSupported :
      (table : List IocVerification) (r : IocVerification)
      → All (IsSupported urls) table
      → get_cached services config now kind value table ≡ some r
      → IsSupported urls r
  unfolding get_cached
  get_cached-IsSupported table r h e = elim (Option-cases (first (is_of kind value) table)) [
    | inl n ↦ absurd (ground (arith, e, n))
    | inr (q, n) ↦
        let same : q ≡ r = ground (arith, e, n) in
        subst (IsSupported urls) same (first-All (is_of kind value) table q h n)
  ]

  cached_or-IsSound :
      (found : Option IocVerification) (state : State)
      → ((text : Text)
          → listed
              (extract_candidate_urls
                (web_evidence services config now value (intel kind value ∷ state.asked)).0
                (services.structured kind value))
              text
            ≡ true
          → listed urls text ≡ true)
      → All (IsSupported urls) state.table
      → ((r : IocVerification) → found ≡ some r → IsSupported urls r)
      → IsSound urls (cached_or services config now found kind value state)
  cached_or-IsSound none state within h good = look_up-IsSound state within h
  cached_or-IsSound (some r) state within h good = (good r refl, h)

  verify_classified-IsSound :
      (raw : Text) (force : Bool) (state : State)
      → ((text : Text)
          → listed
              (extract_candidate_urls
                (web_evidence services config now value (intel kind value ∷ state.asked)).0
                (services.structured kind value))
              text
            ≡ true
          → listed urls text ≡ true)
      → All (IsSupported urls) state.table
      → IsSound urls (verify_classified services config now kind value raw force state)
  unfolding verify_classified
  verify_classified-IsSound raw force state within h =
      let inside =
        is_internal services.book kind value config.internal_networks config.internal_domains in
      let fresh = get_cached services config now kind value state.table in
      let found = if force then none else fresh in
      let looked = cached_or services config now found kind value state in
      let kept = store now kind value (ttl_for kind config) internal_only state in
      let odd = store now unknown (take 1000 raw) 1 undetermined state in
      let good : (r : IocVerification) → found ≡ some r → IsSupported urls r =
        λ r e. get_cached-IsSupported state.table r h (ground (arith, e)) in
      elim (if-cases (type_code kind == 7 || is_blank value) odd
        (if inside then kept else looked)) [
          | inl (_, e) ↦ subst (IsSound urls) (sym e) (
              store-IsSound now unknown (take 1000 raw) 1 undetermined urls state
                (λ r p. (inl refl, refl, p.2)) h)
          | inr (_, e) ↦ elim (if-cases inside kept looked) [
            | inl (_, f) ↦ subst (IsSound urls) (sym (e ∙ f)) (
                store-IsSound now kind value (ttl_for kind config) internal_only urls state
                  (λ r p. (inl refl, refl, p.2)) h)
            | inr (_, f) ↦
                subst (IsSound urls) (sym (e ∙ f)) (cached_or-IsSound found state within h good)
          ]
        ]

-- The URLs that a call may cite: those of the pages and results that a look-up in it retrieves.
abbrev pub retrieved : Services → Config → ℕ → Text → State → List Text
retrieved services config now raw state =
    let (kind, value) = classify services.book raw in
    extract_candidate_urls
      (web_evidence services config now value (intel kind value ∷ state.asked)).0
      (services.structured kind value)

-- The tables that calls of `verify_indicator` lead to, with the URLs that the calls retrieve, whatever the
-- world, the configuration, the clock and the minute's counter are at each call.
pub data Reach : List Text → List IocVerification → Type 1 where
  empty : Reach [] []
  verified :
      (urls : List Text) (services : Services) (config : Config) (now : ℕ) (raw : Text)
      (force : Bool) (state : State)
      → Reach urls state.table
      → Reach
          (retrieved services config now raw state ++ urls)
          (verify_indicator services config now raw force state).1.table

-- No accusation without evidence: in every table that calls of `verify_indicator` lead to, a malicious or
-- suspicious verdict stands beside a reference, every reference stored has a URL among those that one of the
-- calls retrieved, and no confidence is above one.
pub Reach-IsSupported :
    (urls : List Text) (table : List IocVerification)
    → Reach urls table
    → All (IsSupported urls) table
unfolding verify_indicator
Reach-IsSupported _ _ empty = tt
Reach-IsSupported _ _ (verified urls services config now raw force state reached) =
    let (kind, value) = classify services.book raw in
    let new = retrieved services config now raw state in
    let earlier =
      All-IsSupported_wider urls (new ++ urls) (λ text. (listed-append new urls text).1) state.table
        (Reach-IsSupported urls state.table reached) in
    (verify_classified-IsSound services config now kind value (new ++ urls) raw force state
      (λ text. (listed-append new urls text).0) earlier).1

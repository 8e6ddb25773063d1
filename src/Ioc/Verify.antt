-- ===== src/Ioc/Verify.antt =====
-- `verify_indicator` of backend/apps/agentic/ioc/service.py; `now` is the clock.
pub mod Requests
pub mod Safety
pub mod Invariant
use soc_one.Base.{
  ℕ, zero, suc, ◌+◌, ◌*◌, ◌≡◌, Bool, true, false, ◌&&◌, ◌||◌, not, Option, none, some, List, [],
  ◌∷◌, ◌++◌, String, ◌==◌, leb, ltb, min, if◌then◌else◌, first, take, length, map, any,
}
use soc_one.Base.Sort.{sort_by}
use soc_one.Base.Texts.{codes, same_codes, is_blank, text_le}
use soc_one.Ioc.Normalize.{
  Text, IocType, ip, domain, url, md5, sha1, sha256, email, unknown, classify, is_internal,
}
use soc_one.Ioc.Injection.{Block, Flag, wrap_untrusted}
use soc_one.Ioc.References.{
  IntelItem, Citation, append_new, extract_candidate_urls, validate_references,
}
use soc_one.Ioc.Sources.{
  Verdict, malicious, suspicious, benign, no_verdict, IocVerification, Config, Services, Output,
  Synthesis, answered, not_structured, no_prompt, Asked, intel, web, model, State, ttl_for,
  WebEvidence, collect_web_evidence,
}

unfoldable pub type_code : IocType → ℕ
type_code ip = 0
type_code domain = 1
type_code url = 2
type_code md5 = 3
type_code sha1 = 4
type_code sha256 = 5
type_code email = 6
type_code unknown = 7

abbrev pub is_of : IocType → Text → IocVerification → Bool
is_of kind value r =
    type_code r.indicator_type == type_code kind && same_codes r.indicator_value value

abbrev pub blank_row : IocType → Text → IocVerification
blank_row kind value = record {
  indicator_type = kind;
  indicator_value = value;
  verdict = no_verdict;
  confidence = 0;
  is_internal = false;
  references = [];
  rejected_references = [];
  sources_used = [];
  injection_flags = [];
  error = "";
  expires_at = 0;
}

-- `update_or_create`: the fields that the call names go into the row of the indicator, or into a new one.
-- The row, and the table.
unfoldable pub upsert :
    IocType
    → Text
    → (IocVerification → IocVerification)
    → List IocVerification
    → IocVerification × List IocVerification
unfolding type_code same_codes
upsert kind value change [] = let row = change (blank_row kind value) in (row, row ∷ [])
upsert kind value change (r ∷ table) =
    let rest = upsert kind value change table in
    if is_of kind value r then (change r, change r ∷ table) else (rest.0, r ∷ rest.1)

abbrev pub Answered : Type 0
Answered = IocVerification × State

-- `_store`
unfoldable pub store :
    ℕ → IocType → Text → ℕ → (IocVerification → IocVerification) → State → Answered
unfolding upsert
store now kind value ttl_hours change state =
    let expires = now + 3600 * ttl_hours in
    let done = upsert kind value (λ r. record (change r) { expires_at = expires }) state.table in
    (done.0, record state { table = done.1 })

-- What the branches of `verify_indicator` name.
abbrev pub undetermined : IocVerification → IocVerification
undetermined r = record r {
  verdict = no_verdict;
  confidence = 0;
  error = "Indicator type could not be determined.";
}

abbrev pub internal_only : IocVerification → IocVerification
internal_only r = record r {
  verdict = no_verdict;
  confidence = 0;
  is_internal = true;
  sources_used = codes "internal-scope-check" ∷ [];
}

abbrev pub refused : String → IocVerification → IocVerification
refused error r = record r { verdict = no_verdict; error = error }

abbrev pub no_sources : IocVerification → IocVerification
no_sources r = record r { verdict = no_verdict; confidence = 0; sources_used = [] }

abbrev pub failed_synthesis : String → List Text → List Flag → IocVerification → IocVerification
failed_synthesis error sources flags r = record r {
  verdict = no_verdict;
  error = error;
  sources_used = sources;
  injection_flags = flags;
}

abbrev pub needs_evidence : Verdict → Bool
needs_evidence malicious = true
needs_evidence suspicious = true
needs_evidence _ = false

abbrev pub read_verdict : Option Verdict → Verdict
read_verdict none = no_verdict
read_verdict (some v) = v

-- No source, no accusation.
unfoldable pub settle_verdict : Verdict → List Citation → Verdict × String
settle_verdict verdict [] =
    if needs_evidence verdict
    then (no_verdict, "Verdict downgraded to unknown: no retrievable reference supported it.")
    else (verdict, "")
settle_verdict verdict (kept ∷ more) = (verdict, "")

abbrev pub concluded :
    Output
    → List Citation × List Citation
    → List Text
    → List Flag
    → IocVerification
    → IocVerification
concluded output (kept, rejected) sources flags r =
    let (verdict, error) = settle_verdict (read_verdict output.verdict) kept in
    record r {
      verdict = verdict;
      confidence = min output.confidence 100;
      references = kept;
      rejected_references = rejected;
      sources_used = sources;
      injection_flags = flags;
      error = error;
    }

module _ (services : Services) (config : Config) (now : ℕ) where
  -- After the call of the model.
  unfoldable pub conclude :
      IocType → Text → List Text → List Text → List Flag → Synthesis → State → Answered
  unfolding store validate_references settle_verdict ttl_for
  conclude kind value candidates sources flags (answered output) state =
      store now kind value (ttl_for kind config)
        (concluded output
          (validate_references services.hostname output.references candidates
            config.reputable_domains)
          sources flags)
        state
  conclude kind value candidates sources flags (not_structured error) state =
      store now kind value 1 (failed_synthesis error sources flags) state
  conclude kind value candidates sources flags (no_prompt error) state =
      store now kind value 1 (refused error) state

  abbrev names_of : List Block → List Text → List Text
  names_of [] names = names
  names_of (block ∷ blocks) names = names_of blocks (append_new block.source names)

  abbrev pub sources_of : List IntelItem → List Block → List Text
  sources_of structured blocks =
      let names = sort_by text_le (names_of blocks []) in
      elim structured [ [] ↦ names | item ∷ items ↦ codes "threat_intel" ∷ names ]

  unfoldable pub synthesise_from : IocType → Text → List IntelItem → List Block → State → Answered
  unfolding conclude wrap_untrusted extract_candidate_urls append_new sort_by
  synthesise_from kind value structured blocks state =
      let (text, flags) = wrap_untrusted services.scan blocks in
      let candidates = extract_candidate_urls blocks structured in
      let synthesis = services.synthesise kind value structured candidates text in
      conclude kind value candidates (sources_of structured blocks) flags synthesis
        (record state { asked = model value ∷ state.asked })

  abbrev pub nothing_found : List IntelItem → List Block → Bool
  nothing_found [] [] = true
  nothing_found [] (block ∷ blocks) = false
  nothing_found (item ∷ items) blocks = false

  -- With all that was found.
  unfoldable pub settle_found : IocType → Text → List IntelItem → WebEvidence → State → Answered
  unfolding synthesise_from store ttl_for
  settle_found kind value structured (blocks, asked) state =
      let after = record state { asked = asked } in
      if nothing_found structured blocks
      then store now kind value (ttl_for kind config) no_sources after
      else synthesise_from kind value structured blocks after

  abbrev pub web_evidence : Text → List Asked → WebEvidence
  web_evidence value asked =
      if config.internal_sources_only
      then ([], asked)
      else collect_web_evidence services value config asked

  -- With the structured results at hand.
  unfoldable pub ask_web : IocType → Text → List IntelItem → State → Answered
  unfolding settle_found collect_web_evidence
  ask_web kind value structured state =
      settle_found kind value structured (web_evidence value state.asked) state

  -- Behind the scope check and the cache.
  unfoldable pub look_up : IocType → Text → State → Answered
  unfolding ask_web store
  look_up kind value state =
      let counted = record state { minute_count = suc state.minute_count } in
      if not config.enabled
      then store now kind value 1 (refused "IOC verification is disabled.") state
      else if ltb config.rate_limit_per_minute counted.minute_count
      then store now kind value 1 (refused "Rate limit reached for IOC verification.") counted
      else ask_web kind value (services.structured kind value)
          (record counted { asked = intel kind value ∷ counted.asked })

  unfoldable pub get_cached : IocType → Text → List IocVerification → Option IocVerification
  unfolding type_code same_codes
  get_cached kind value table = elim (first (is_of kind value) table) [
    | none ↦ none
    | some r ↦ if ltb now r.expires_at then some r else none
  ]

  abbrev pub cached_or : Option IocVerification → IocType → Text → State → Answered
  cached_or none kind value state = look_up kind value state
  cached_or (some r) kind value state = (r, state)

  unfoldable pub verify_classified : IocType → Text → Text → Bool → State → Answered
  unfolding is_internal store get_cached look_up ttl_for type_code
  verify_classified kind value raw force state =
      if type_code kind == 7 || is_blank value
      then store now unknown (take 1000 raw) 1 undetermined state
      else if is_internal services.book kind value config.internal_networks config.internal_domains
      then store now kind value (ttl_for kind config) internal_only state
      else cached_or (if force then none else get_cached kind value state.table) kind value state

  unfoldable pub verify_indicator : Text → Bool → State → Answered
  unfolding classify verify_classified
  verify_indicator raw force state =
      let (kind, value) = classify services.book raw in verify_classified kind value raw force state

-- ===== src/Ioc/Sources.antt =====
-- The sources of `verify_indicator` in backend/apps/agentic/ioc/service.py, and its data. The providers, the
-- MCP servers, the model and the packages are arguments; confidences are hundredths, times seconds. The
-- notes and the model's other remarks on an indicator are only passed on and left out.
use soc_one.Base.{
  ℕ, Bool, Option, none, some, List, [], ◌∷◌, ◌++◌, String, leb, if◌then◌else◌, first, length, any,
}
use soc_one.Base.Sort.{sort_by}
use soc_one.Base.Texts.{is_blank, codes, lower, is_part, text_le}
use soc_one.Ioc.Normalize.{Text, IocType, ip, domain, url, email, is_hash, AddressBook}
use soc_one.Ioc.Injection.{Block, Flag}
use soc_one.Ioc.References.{IntelItem, Citation}

pub data Verdict : Type 0 where
  malicious suspicious benign no_verdict : Verdict

pub record IocVerification : Type 0 where
  pub indicator_type : IocType
  pub indicator_value : Text
  pub verdict : Verdict
  pub confidence : ℕ
  pub is_internal : Bool
  pub references : List Citation
  pub rejected_references : List Citation
  pub sources_used : List Text
  pub injection_flags : List Flag
  pub error : String
  pub expires_at : ℕ

pub record Config : Type 0 where
  pub enabled : Bool
  pub internal_networks : List Text
  pub internal_domains : List Text
  pub internal_sources_only : Bool
  pub max_web_results : ℕ
  pub rate_limit_per_minute : ℕ
  pub reputable_domains : List Text
  pub ttl_hash_hours : ℕ
  pub ttl_ip_hours : ℕ
  pub ttl_domain_hours : ℕ
  pub ttl_url_hours : ℕ
  pub ttl_email_hours : ℕ

-- An MCP server, its tools in the order in which the set runs; `none` is an `McpError`.
pub record Client : Type 0 where
  pub name : Text
  pub allowed_tools : List Text
  pub call_tool : Text → Text → Option (List Text)

-- What the model says; `none` stands for a verdict that is no `IocVerdict`.
pub record Output : Type 0 where
  pub verdict : Option Verdict
  pub confidence : ℕ
  pub references : List Citation

pub data Synthesis : Type 0 where
  answered : Output → Synthesis
  not_structured : String → Synthesis
  no_prompt : String → Synthesis

-- The world around; a provider that fails returns no result.
pub record Services : Type 1 where
  pub book : AddressBook
  pub structured : IocType → Text → List IntelItem
  pub clients : List Client
  pub scan : Text → List Text
  pub hostname : Text → Text
  pub synthesise : IocType → Text → List IntelItem → List Text → Text → Synthesis

-- What leaves the organisation: a look-up by the providers, a query to an MCP server, a call of the model.
pub data Asked : Type 0 where
  intel : IocType → Text → Asked
  web : Text → Text → Asked
  model : Text → Asked

-- The table, the minute's counter, and what has been asked, latest first.
pub record State : Type 0 where
  pub table : List IocVerification
  pub minute_count : ℕ
  pub asked : List Asked

unfoldable pub ttl_for : IocType → Config → ℕ
unfolding is_hash
ttl_for kind config = if is_hash kind then config.ttl_hash_hours else elim kind [
  | ip ↦ config.ttl_ip_hours
  | domain ↦ config.ttl_domain_hours
  | url ↦ config.ttl_url_hours
  | email ↦ config.ttl_email_hours
  | _ ↦ config.ttl_domain_hours
]

abbrev search_tool_hints : List Text
search_tool_hints =
    codes "search"
    ∷ codes "web_search"
    ∷ codes "brave_web_search"
    ∷ codes "tavily_search"
    ∷ codes "fetch_search"
    ∷ []

abbrev is_search_tool : Text → Bool
is_search_tool tool = any (λ hint. is_part hint (lower tool)) search_tool_hints

-- An empty name counts as none.
abbrev first_of : List Text → Option Text
first_of [] = none
first_of (t ∷ ts) = if is_blank t then none else some t

unfoldable pub search_tool_for : Client → Option Text
unfolding is_part lower sort_by text_le
search_tool_for client = elim (first is_search_tool client.allowed_tools) [
  | some tool ↦ some tool
  | none ↦ first_of (sort_by text_le client.allowed_tools)
]

abbrev pub queries_for : Text → List Text
queries_for value =
    (value ++ codes " malicious indicator analysis")
    ∷ (value ++ codes " threat intelligence report")
    ∷ []

-- The innermost loop.
unfoldable pub add_results : Text → ℕ → List Text → List Block → List Block
add_results name most [] blocks = blocks
add_results name most (item ∷ items) blocks =
    let more = blocks ++ record { source = name; content = item } ∷ [] in
    let rest = add_results name most items more in if leb most (length more) then more else rest

-- What a call adds: nothing where it fails.
abbrev pub gathered : Text → ℕ → Option (List Text) → List Block → List Block
gathered name most none blocks = blocks
gathered name most (some items) blocks = add_results name most items blocks

-- What is collected, and what was asked, latest first.
abbrev pub WebEvidence : Type 0
WebEvidence = List Block × List Asked

unfoldable pub ask_queries : Client → Text → ℕ → List Text → WebEvidence → WebEvidence
unfolding add_results
ask_queries client tool most [] (blocks, asked) = (blocks, asked)
ask_queries client tool most (query ∷ queries) (blocks, asked) =
    let results = client.call_tool tool query in
    let now_asked = web client.name query ∷ asked in
    let added = gathered client.name most results blocks in
    let rest = ask_queries client tool most queries (added, now_asked) in
    if leb most (length blocks)
    then (blocks, asked)
    else elim results [ none ↦ (blocks, now_asked) | some items ↦ rest ]

unfoldable pub ask_clients : List Client → List Text → ℕ → WebEvidence → WebEvidence
unfolding search_tool_for ask_queries
ask_clients [] queries most found = found
ask_clients (client ∷ clients) queries most found = elim (search_tool_for client) [
  | none ↦ ask_clients clients queries most found
  | some tool ↦ ask_clients clients queries most (ask_queries client tool most queries found)
]

unfoldable pub collect_web_evidence : Services → Text → Config → List Asked → WebEvidence
unfolding ask_clients
collect_web_evidence services value config asked =
    ask_clients services.clients (queries_for value) config.max_web_results ([], asked)

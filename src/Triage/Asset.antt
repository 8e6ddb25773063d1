-- ===== src/Triage/Asset.antt =====
-- `resolve_asset_context` of backend/apps/agentic/triage/asset.py. The answers of the CMDB and of the directory
-- and the search for a naming rule's pattern are arguments; an empty text stands for a missing one.
pub mod Record
pub mod Sourced
use soc_one.Base.{
  ℕ, ◌≡◌, refl, sym, subst, ap, ◌∙◌, ◌⊎◌, inl, inr, Bool, true, false, ◌&&◌, ◌||◌, not, Option,
  none, some, List, [], ◌∷◌, if◌then◌else◌, any, In, arith, Bool-cases, if-cases, Option-cases,
}
use soc_one.Base.Texts.{codes, lower, strip, same_codes, is_blank, is_part}
use soc_one.Triage.Suppression.{Text}

pub data Source : Type 0 where
  cmdb directory naming_rule os_reported no_source : Source

pub record AssetContext : Type 0 where
  pub device_type : Text
  pub environment : Text
  pub criticality : Text
  pub owner : Text
  pub business_service : Text
  pub location : Text
  pub network_zone : Text
  pub os : Text
  pub cmdb_matched : Bool
  pub asset_context_source : Source
  pub provider : Text
  pub matched_rule : Text

abbrev pub unknown : Text
unknown = codes "unknown"

abbrev pub empty_context : AssetContext
empty_context = record {
  device_type = unknown;
  environment = unknown;
  criticality = unknown;
  owner = unknown;
  business_service = unknown;
  location = unknown;
  network_zone = unknown;
  os = unknown;
  cmdb_matched = false;
  asset_context_source = no_source;
  provider = [];
  matched_rule = [];
}

-- `a or b`
abbrev pub or_text : Text → Text → Text
or_text [] b = b
or_text (c ∷ cs) b = c ∷ cs

unfoldable pub clean : Text → Text
unfolding strip
clean value = or_text (strip value) unknown

-- One of the CMDB's results; `none` for one without an asset, or without a business part.
pub record Asset : Type 0 where
  pub asset_type : Text
  pub environment : Text
  pub location : Text
  pub network_zone : Text
  pub os : Text

pub record Business : Type 0 where
  pub criticality : Text
  pub business_criticality : Text
  pub owner : Text
  pub owner_team : Text
  pub service_name : Text
  pub service_id : Text

pub record CmdbResult : Type 0 where
  pub provider : Text
  pub asset : Option Asset
  pub business : Option Business

abbrev pub no_asset : Asset
no_asset = record { asset_type = []; environment = []; location = []; network_zone = []; os = [] }

abbrev pub no_business : Business
no_business = record {
  criticality = [];
  business_criticality = [];
  owner = [];
  owner_team = [];
  service_name = [];
  service_id = [];
}

abbrev pub part_or : {A : Type 0} → A → Option A → A
part_or a none = a
part_or a (some b) = b

abbrev pub non_authoritative_providers : List Text
non_authoritative_providers = codes "MockCMDBProvider" ∷ codes "Mock" ∷ codes "MockTIProvider" ∷ []

abbrev is_empty : Option Asset → Option Business → Bool
is_empty none none = true
is_empty _ _ = false

-- A result that the look-up passes over.
unfoldable pub is_ignored : CmdbResult → Bool
unfolding same_codes
is_ignored r =
    any (λ name. same_codes name r.provider) non_authoritative_providers
    || is_empty r.asset r.business

unfoldable pub context_of : CmdbResult → AssetContext
unfolding clean
context_of r =
    let asset = part_or no_asset r.asset in
    let business = part_or no_business r.business in
    record {
      device_type = clean asset.asset_type;
      environment = clean asset.environment;
      criticality = clean (or_text business.criticality business.business_criticality);
      owner = clean (or_text business.owner business.owner_team);
      business_service = clean (or_text business.service_name business.service_id);
      location = clean asset.location;
      network_zone = clean asset.network_zone;
      os = clean asset.os;
      cmdb_matched = true;
      asset_context_source = cmdb;
      provider = r.provider;
      matched_rule = [];
    }

unfoldable pub from_cmdb : List CmdbResult → Option AssetContext
unfolding is_ignored context_of
from_cmdb [] = none
from_cmdb (r ∷ results) =
    let rest = from_cmdb results in if is_ignored r then rest else some (context_of r)

unfoldable pub device_type_from_os : Text → Text
unfolding lower is_part
device_type_from_os os_text =
    let text = lower os_text in
    let mentions : List Text → Bool = any (λ token. is_part token text) in
    if is_part (codes "server") text
    then codes "server"
    else if mentions
        (codes "windows 10" ∷ codes "windows 11" ∷ codes "windows 7" ∷ codes "windows 8" ∷ [])
    then codes "workstation"
    else if mentions (codes "mac" ∷ codes "ubuntu desktop" ∷ [])
    then codes "workstation"
    else unknown

-- An AD computer object.
pub record Computer : Type 0 where
  pub operating_system : Text
  pub managed_by : Text
  pub ou : Text
  pub location : Text

abbrev pub context_from_directory : Computer → AssetContext
context_from_directory computer = record empty_context {
  device_type = device_type_from_os computer.operating_system;
  os = clean computer.operating_system;
  owner = clean (or_text computer.managed_by computer.ou);
  location = clean computer.location;
  asset_context_source = directory;
}

unfoldable pub from_directory : Option Computer → Option AssetContext
unfolding clean device_type_from_os
from_directory none = none
from_directory (some computer) = some (context_from_directory computer)

pub record NamingRule : Type 0 where
  pub pattern : Text
  pub device_type : Text
  pub environment : Text
  pub owner : Text
  pub criticality : Text

abbrev pub context_from : NamingRule → AssetContext
context_from rule = record empty_context {
  device_type = clean rule.device_type;
  environment = clean rule.environment;
  owner = clean rule.owner;
  criticality = clean rule.criticality;
  asset_context_source = naming_rule;
  matched_rule = strip rule.pattern;
}

-- The search is false for an invalid pattern.
unfoldable pub from_naming_rules :
    (Text → Text → Bool) → Text → List NamingRule → Option AssetContext
unfolding strip clean
from_naming_rules search_for name [] = none
from_naming_rules search_for name (rule ∷ rules) =
    let rest = from_naming_rules search_for name rules in
    if is_blank (strip rule.pattern) || not (search_for (strip rule.pattern) (strip name))
    then rest
    else some (context_from rule)

abbrev pub is_unknown : Text → Bool
is_unknown text = same_codes text unknown

-- The hint fills an unknown operating system and device type.
unfoldable pub hinted : Text → AssetContext → AssetContext
unfolding same_codes clean device_type_from_os
hinted os_hint context = record context {
  os =
      if (is_unknown context.os || is_blank context.os) && not (is_blank os_hint)
      then clean os_hint
      else context.os;
  device_type =
      if is_unknown context.device_type && not (is_blank os_hint)
      then device_type_from_os os_hint
      else context.device_type;
}

-- Without a record, what the agent reported.
unfoldable pub from_hint : Text → AssetContext
unfolding same_codes clean device_type_from_os
from_hint os_hint = if is_blank os_hint then empty_context else record empty_context {
  os = clean os_hint;
  device_type = device_type_from_os os_hint;
  asset_context_source =
      if is_unknown (device_type_from_os os_hint) then no_source else os_reported;
}

-- What the systems of record answer about a host; a look-up that fails finds nothing.
pub record Records : Type 0 where
  pub look_up : Text → List CmdbResult
  pub fetch_computer_object : Text → Option Computer
  pub search_for : Text → Text → Bool
  pub naming_rules : List NamingRule

abbrev pub first_of : Option AssetContext → Option AssetContext → Option AssetContext
first_of none other = other
first_of (some context) other = some context

abbrev pub resolved : Text → Option AssetContext → AssetContext
resolved os_hint none = from_hint os_hint
resolved os_hint (some context) = hinted os_hint context

unfoldable pub resolve_asset_context : Records → Text → Text → AssetContext
unfolding strip from_cmdb from_directory from_naming_rules hinted from_hint
resolve_asset_context records hostname os_hint =
    let found = first_of (from_cmdb (records.look_up hostname)) (
      first_of (from_directory (records.fetch_computer_object hostname))
        (from_naming_rules records.search_for hostname records.naming_rules)) in
    if is_blank (strip hostname) then empty_context else resolved os_hint found

-- ===== src/Triage/Tests.antt =====
-- A run of the suppression.
use soc_one.Base.{◌≡◌, refl, Bool, true, none, some, [], ◌∷◌}
use soc_one.Base.Texts.{
  codes, lower, strip, strip_left, strip_right, same_codes, is_part, has_prefix,
}
use soc_one.Triage.Suppression.{
  Text, CasePayload, TriageSuppression, rule, find_matching_suppression, active_suppressions,
  is_active, matches, matches_rule, name_matches,
}

abbrev in_network : Text → Text → Bool
in_network address network = same_codes address network

abbrev scanner : TriageSuppression
scanner = record {
  id = 1;
  match_type = rule;
  pattern = codes "Scan";
  reason = codes "planned";
  expires_at = 50;
  enabled = true;
}

abbrev payload : CasePayload
payload = record {
  alerts = record { rule_name = codes "Port scan"; analytic_name = []; artifacts = [] } ∷ [];
  artifacts = [];
}

scan_run : find_matching_suppression in_network 40 (scanner ∷ []) payload ≡ some scanner
unfolding find_matching_suppression active_suppressions is_active matches matches_rule name_matches
    is_part has_prefix lower strip strip_left strip_right same_codes
scan_run = refl

abbrev quiet : CasePayload
quiet = record { alerts = []; artifacts = [] }

quiet_run : find_matching_suppression in_network 40 (scanner ∷ []) quiet ≡ none
unfolding find_matching_suppression active_suppressions is_active matches matches_rule
quiet_run = refl

-- ===== src/Hunting/EdrGuard.antt =====
-- `guard_edr_search` of backend/integrations/edr/trellix_guard.py, on texts of ASCII character codes and
-- whole hours; a window that is not positive is 0.
pub mod Writes
use soc_one.Base.{
  ℕ, ◌≤◌, ◌<◌, ◌≡◌, Bool, true, false, ◌&&◌, ◌||◌, not, Option, none, some, List, [], ◌∷◌, ◌++◌,
  ◌==◌, leb, ltb, min, if◌then◌else◌, any, keep, length, arith,
}
use soc_one.Base.Texts.{codes, lower, strip, same_codes, is_upper}

abbrev pub Text : Type 0
Text = List ℕ

pub data Reason : Type 0 where
  empty_query unbounded_wildcard write_operation : Reason
  time_window_missing time_window_too_wide too_many_hosts : Reason

pub record Search : Type 0 where
  pub query : Text
  pub hours : ℕ
  pub limit : ℕ
  pub host_ids : List Text

pub data GuardResult : Type 0 where
  allowed : Search → GuardResult
  refused : Reason → GuardResult

pub record Config : Type 0 where
  pub max_window_hours : ℕ
  pub max_rows : ℕ

-- `\w`
abbrev pub is_word : ℕ → Bool
is_word c = is_upper c || (leb b'a' c && leb c b'z') || (leb b'0' c && leb c b'9') || c == b'_'

-- The maximal runs of word characters, the first one after the letters that are already read.
unfoldable pub words_from : Text → Text → List Text
words_from word [] = word ∷ []
words_from word (c ∷ cs) =
    let rest = words_from (if is_word c then word ++ c ∷ [] else []) cs in
    if is_word c then rest else word ∷ rest

unfoldable pub is_write_verb : Text → Bool
unfolding lower same_codes
is_write_verb word =
    let w = lower word in
    same_codes w (codes "delete")
    || same_codes w (codes "remove")
    || same_codes w (codes "terminate")

-- `\bdelete\b|\bremove\b|\bterminate\b` without regard to case
unfoldable pub writes : Text → Bool
unfolding words_from is_write_verb
writes text = any is_write_verb (words_from [] text)

abbrev pub is_blank : Text → Bool
is_blank [] = true
is_blank (c ∷ cs) = false

-- `\s*\*\s*` on a text without spaces at its ends
abbrev pub is_wildcard : Text → Bool
is_wildcard text = same_codes text (codes "*")

unfoldable pub named_hosts : List Text → List Text
unfolding strip
named_hosts hosts = keep (λ h. not (is_blank (strip h))) hosts

abbrev pub window_of : Config → Option ℕ → ℕ
window_of config none = config.max_window_hours
window_of config (some hours) = hours

-- `min(limit or max_rows, max_rows)`; 0 and a missing limit are the same.
abbrev pub limit_of : ℕ → Config → ℕ
limit_of limit config = min (if limit == 0 then config.max_rows else limit) config.max_rows

unfoldable pub guard_edr_search : Text → Option ℕ → ℕ → List Text → Config → ℕ → GuardResult
unfolding strip writes named_hosts same_codes
guard_edr_search query hours limit host_ids config max_hosts =
    let text = strip query in
    let window = window_of config hours in
    let hosts = named_hosts host_ids in
    if is_blank text
    then refused empty_query
    else if is_wildcard text
    then refused unbounded_wildcard
    else if writes text
    then refused write_operation
    else if window == 0
    then refused time_window_missing
    else if ltb config.max_window_hours window
    then refused time_window_too_wide
    else if ltb max_hosts (length hosts)
    then refused too_many_hosts
    else allowed
        record { query = text; hours = window; limit = limit_of limit config; host_ids = hosts }

-- ===== src/Ioc/Normalize.antt =====
-- backend/apps/agentic/ioc/normalize.py on texts of ASCII character codes. The `ipaddress` package is an
-- argument.
use soc_one.Base.{
  ℕ, Bool, true, false, ◌&&◌, ◌||◌, not, Option, none, some, List, [], ◌∷◌, ◌++◌, ◌==◌, leb,
  if◌then◌else◌, any, length,
}
use soc_one.Base.Texts.{
  codes, lower, upper, strip, same_codes, is_blank, has_prefix, has_suffix, lstrip, rstrip, replace,
  is_upper, is_one_of,
}

abbrev pub Text : Type 0
Text = List ℕ

pub data IocType : Type 0 where
  ip domain url md5 sha1 sha256 email unknown : IocType

unfoldable pub is_hash : IocType → Bool
is_hash md5 = true
is_hash sha1 = true
is_hash sha256 = true
is_hash _ = false

-- `ipaddress`: an address if the text is one, its text, whether it is private, loopback, link-local or
-- reserved, and whether it lies in a network, which is false for a network that does not parse.
pub record AddressBook : Type 1 where
  pub Address : Type 0
  pub ip_address : Text → Option Address
  pub written : Address → Text
  pub is_special : Address → Bool
  pub in_network : Address → Text → Bool

abbrev pub defang_replacements : List (Text × Text)
defang_replacements =
    (codes "[.]", codes ".")
    ∷ (codes "(.)", codes ".")
    ∷ (codes "{.}", codes ".")
    ∷ (codes "[dot]", codes ".")
    ∷ (codes " dot ", codes ".")
    ∷ (codes "[:]", codes ":")
    ∷ (codes "[@]", codes "@")
    ∷ (codes "[at]", codes "@")
    ∷ (codes "hxxps", codes "https")
    ∷ (codes "hxxp", codes "http")
    ∷ (codes "hxxps://", codes "https://")
    ∷ (codes "fxp", codes "ftp")
    ∷ (codes "[//]", codes "//")
    ∷ []

unfoldable pub replace_all : List (Text × Text) → Text → Text
unfolding replace upper
replace_all [] text = text
replace_all (pair ∷ pairs) text =
    replace_all pairs (replace (upper pair.0) pair.1 (replace pair.0 pair.1 text))

unfoldable pub refang : Text → Text
unfolding replace_all strip lstrip rstrip
refang value =
    let cleaned = strip (replace_all defang_replacements (strip value)) in
    rstrip (codes ".,;") (lstrip (codes ".,;") cleaned)

abbrev is_letter : ℕ → Bool
is_letter c = is_upper c || (leb b'a' c && leb c b'z')

abbrev is_digit : ℕ → Bool
is_digit c = leb b'0' c && leb c b'9'

abbrev all_of : (ℕ → Bool) → Text → Bool
all_of p [] = true
all_of p (c ∷ cs) = p c && all_of p cs

-- The text behind the longest beginning of such characters.
unfoldable pub behind : (ℕ → Bool) → Text → Text
behind p [] = []
behind p (c ∷ cs) = if p c then behind p cs else c ∷ cs

abbrev is_scheme : ℕ → Bool
is_scheme c = is_letter c || is_digit c || is_one_of c (codes "+.-")

-- `^[a-z][a-z0-9+.-]*://`; a scheme has no colon.
unfoldable pub is_url : Text → Bool
unfolding behind has_prefix
is_url [] = false
is_url (c ∷ cs) = is_letter c && has_prefix (codes "://") (behind is_scheme cs)

abbrev is_hex : ℕ → Bool
is_hex c = is_digit c || (leb b'a' c && leb c b'f') || (leb b'A' c && leb c b'F')

abbrev is_digest : ℕ → Text → Bool
is_digest n text = length text == n && all_of is_hex text

abbrev is_word : ℕ → Bool
is_word c = is_letter c || is_digit c || c == b'_'

abbrev and_then : Option Text → (Text → Option Text) → Option Text
and_then none next = none
and_then (some text) next = next text

-- One or more such characters, as many as there are, and what is left.
abbrev run_of : (ℕ → Bool) → Text → Option Text
run_of p [] = none
run_of p (c ∷ cs) = if p c then some (behind p cs) else none

abbrev char_of : ℕ → Text → Option Text
char_of d [] = none
char_of d (c ∷ cs) = if c == d then some cs else none

abbrev at_end : Option Text → Bool
at_end none = false
at_end (some text) = is_blank text

-- `^[\w.+-]+@[\w-]+\.[\w.-]+$`: neither part before the point can run over its end.
unfoldable pub is_email : Text → Bool
unfolding behind
is_email text =
    let name = run_of (λ c. is_word c || is_one_of c (codes ".+-")) text in
    let host = and_then (and_then name (char_of b'@')) (run_of (λ c. is_word c || c == b'-')) in
    at_end (
      and_then (and_then host (char_of b'.')) (run_of (λ c. is_word c || is_one_of c (codes ".-"))))

-- `text.split(c)`: the first part, and the others.
unfoldable pub split_on : ℕ → Text → Text × List Text
split_on d [] = ([], [])
split_on d (c ∷ cs) =
    let rest = split_on d cs in if c == d then ([], rest.0 ∷ rest.1) else (c ∷ rest.0, rest.1)

abbrev is_label : Text → Bool
is_label label =
    leb 1 (length label)
    && leb (length label) 63
    && all_of (λ c. is_letter c || is_digit c || c == b'-') label

abbrev all_labels : List Text → Bool
all_labels [] = true
all_labels (label ∷ labels) = is_label label && all_labels labels

abbrev no_labels : List Text → Bool
no_labels [] = true
no_labels (label ∷ labels) = false

-- `DOMAIN_RE`: no label holds a point, so the labels are the parts between the points.
unfoldable pub is_domain : Text → Bool
unfolding split_on has_prefix has_suffix
is_domain text =
    let labels = split_on b'.' text in
    leb 1 (length text)
    && leb (length text) 253
    && is_label labels.0
    && not (has_prefix (codes "-") labels.0)
    && not (has_suffix (codes "-") labels.0)
    && not (no_labels labels.1)
    && all_labels labels.1

abbrev last_or : Text → List Text → Text
last_or text [] = text
last_or text (part ∷ parts) = last_or part parts

-- The URL without its scheme, where it has one.
abbrev without_scheme : Text → Text
without_scheme text = if is_url text then drop_three (behind is_scheme text) else text
  where
    drop_three : Text → Text
    drop_three (a ∷ b ∷ c ∷ rest) = rest
    drop_three rest = rest

unfoldable pub host_of : IocType → Text → Text
unfolding is_url split_on lower behind
host_of url value = lower (split_on b':' (split_on b'/' (without_scheme value)).0).0
host_of email value = let parts = split_on b'@' value in lower (last_or parts.0 parts.1)
host_of _ value = lower value

module _ (book : AddressBook) where
  open book use {Address, ip_address, written, is_special, in_network}

  abbrev classify_address : Text → Option Address → IocType × Text
  classify_address text (some address) = (ip, written address)
  classify_address text none = if is_domain text then (domain, lower text) else (unknown, text)

  unfoldable pub classify : Text → IocType × Text
  unfolding refang is_url is_email is_domain lower
  classify value =
      let text = refang value in
      if is_blank text
      then (unknown, [])
      else if is_url text
      then (url, text)
      else if is_email text
      then (email, lower text)
      else if is_digest 32 text
      then (md5, lower text)
      else if is_digest 40 text
      then (sha1, lower text)
      else if is_digest 64 text
      then (sha256, lower text)
      else classify_address text (ip_address text)

  abbrev suffixes_of : List Text → List Text
  suffixes_of [] =
      codes "local" ∷ codes "internal" ∷ codes "corp" ∷ codes "lan" ∷ codes "intranet" ∷ []
  suffixes_of (item ∷ items) =
      let rest = suffixes_of items in
      if is_blank (strip item) then rest else lstrip (codes ".") (lower (strip item)) ∷ rest

  abbrev host_is_internal : Text → List Text → List Text → Option Address → Bool
  host_is_internal host networks domains (some address) =
      is_special address || any (in_network address) networks
  host_is_internal host networks domains none =
      any (λ suffix. same_codes host suffix || has_suffix (codes "." ++ suffix) host)
        (suffixes_of domains)

  unfoldable pub is_internal : IocType → Text → List Text → List Text → Bool
  unfolding is_hash host_of same_codes has_suffix lstrip lower strip
  is_internal kind value internal_networks internal_domains =
      let host = host_of kind value in
      not (is_hash kind)
      && host_is_internal host internal_networks internal_domains (ip_address host)

-- ===== src/Ioc/References.antt =====
-- The references of an indicator's verdict: `extract_candidate_urls` and `validate_references` of
-- backend/apps/agentic/ioc/service.py. The host that `urlparse` finds in a URL is an argument.
use soc_one.Base.{
  ℕ, zero, suc, ◌-◌, ◌≡◌, ap, Bool, true, false, ◌&&◌, ◌||◌, not, List, [], ◌∷◌, ◌++◌, ◌==◌, leb,
  if◌then◌else◌, any, In, ◌⊎◌, length, inl, inr, Bool-cases, arith,
}
use soc_one.Base.Texts.{
  codes, lower, strip, same_codes, is_blank, has_prefix, has_suffix, rstrip, is_one_of,
}
use soc_one.Ioc.Normalize.{Text}
use soc_one.Ioc.Injection.{Block}

-- The fields of a structured result that may hold a URL; an empty text stands for one that is no text.
pub record IntelItem : Type 0 where
  pub reference : Text
  pub url : Text
  pub permalink : Text
  pub link : Text

pub record Citation : Type 0 where
  pub url : Text
  pub title : Text
  pub reputable : Bool

abbrev pub listed : List Text → Text → Bool
listed texts text = any (λ t. same_codes t text) texts

-- `if text not in texts: texts.append(text)`
unfoldable pub append_new : Text → List Text → List Text
unfolding same_codes
append_new text texts = if listed texts text then texts else texts ++ text ∷ []

abbrev is_space : ℕ → Bool
is_space c = c == 32 || (leb 9 c && leb c 13) || (leb 28 c && leb c 31)

-- `[^\s"'<>)\]]`
abbrev is_url_char : ℕ → Bool
is_url_char c = not (is_space c || is_one_of c (34 ∷ 39 ∷ codes "<>)]"))

abbrev scheme_length : Text → ℕ
scheme_length text =
    if has_prefix (codes "http://") text
    then 7
    else if has_prefix (codes "https://") text
    then 8
    else 0

abbrev drop : ℕ → Text → Text
drop zero text = text
drop (suc n) [] = []
drop (suc n) (c ∷ cs) = drop n cs

abbrev head_is_url_char : Text → Bool
head_is_url_char [] = false
head_is_url_char (c ∷ cs) = is_url_char c

-- `https?://[^\s"'<>)\]]+` at the beginning of the text
abbrev starts_url : Text → Bool
starts_url text =
    let n = scheme_length text in if n == 0 then false else head_is_url_char (drop n text)

unfoldable pub url_run : Text → Text
url_run [] = []
url_run (c ∷ cs) = if is_url_char c then c ∷ url_run cs else []

-- `url_re.findall(text)`; the first argument is how much of a match is still to be passed over. No
-- character of a scheme ends a match.
unfoldable pub find_urls : ℕ → Text → List Text
unfolding url_run has_prefix
find_urls skip [] = []
find_urls (suc skip) (c ∷ cs) = find_urls skip cs
find_urls zero (c ∷ cs) =
    let hit = starts_url (c ∷ cs) in
    let match = url_run (c ∷ cs) in
    let rest = find_urls (if hit then length match - 1 else 0) cs in
    if hit then match ∷ rest else rest

unfoldable pub add_matches : List Text → List Text → List Text
unfolding append_new rstrip
add_matches [] candidates = candidates
add_matches (match ∷ matches) candidates =
    add_matches matches (append_new (rstrip (codes ".,;") match) candidates)

unfoldable pub add_blocks : List Block → List Text → List Text
unfolding find_urls add_matches
add_blocks [] candidates = candidates
add_blocks (block ∷ blocks) candidates =
    add_blocks blocks (add_matches (find_urls 0 block.content) candidates)

unfoldable pub add_link : Text → List Text → List Text
unfolding append_new has_prefix
add_link value candidates =
    if has_prefix (codes "http://") value || has_prefix (codes "https://") value
    then append_new value candidates
    else candidates

unfoldable pub add_items : List IntelItem → List Text → List Text
unfolding add_link
add_items [] candidates = candidates
add_items (item ∷ items) candidates = add_items items (
    add_link item.link
      (add_link item.permalink (add_link item.url (add_link item.reference candidates))))

unfoldable pub extract_candidate_urls : List Block → List IntelItem → List Text
unfolding add_blocks add_items
extract_candidate_urls blocks structured = add_items structured (add_blocks blocks [])

abbrev reputable_of : List Text → List Text
reputable_of [] = []
reputable_of (item ∷ items) =
    let rest = reputable_of items in
    if is_blank (strip item) then rest else lower (strip item) ∷ rest

module _ (hostname : Text → Text) where
  unfoldable pub domain_of : Text → Text
  unfolding lower
  domain_of url = lower (hostname url)

  unfoldable pub is_reputable : List Text → Text → Bool
  unfolding domain_of same_codes has_suffix lower strip
  is_reputable domains url =
      any
        (λ item. same_codes (domain_of url) item || has_suffix (codes "." ++ item) (domain_of url))
        (reputable_of domains)

  -- The kept and the rejected references.
  unfoldable pub validate_references :
      List Citation → List Text → List Text → List Citation × List Citation
  unfolding is_reputable strip same_codes
  validate_references [] candidates domains = ([], [])
  validate_references (reference ∷ references) candidates domains =
      let rest = validate_references references candidates domains in
      let url = strip reference.url in
      if is_blank url || not (listed candidates url)
      then (rest.0, reference ∷ rest.1)
      else (record reference { reputable = is_reputable domains url } ∷ rest.0, rest.1)

-- A kept reference's URL is one of the candidates, and no reference is lost.
abbrev pub IsRetrieved : List Text → Citation → Type 0
IsRetrieved candidates c = listed candidates (strip c.url) ≡ true

module _ (hostname : Text → Text) (candidates domains : List Text) where
  pub validate_references-IsRetrieved :
      (references : List Citation) (c : Citation)
      → In c (validate_references hostname references candidates domains).0
      → IsRetrieved candidates c
  unfolding validate_references
  validate_references-IsRetrieved [] c i = elim i [ ]
  validate_references-IsRetrieved (r ∷ references) c i =
      let rest = validate_references hostname references candidates domains in
      let out = is_blank (strip r.url) || not (listed candidates (strip r.url)) in
      elim (Bool-cases out) [
        | inl e ↦ validate_references-IsRetrieved references c (rw e at i)
        | inr e ↦
            let kept = record r { reputable = is_reputable hostname domains (strip r.url) } in
            let j : (c ≡ kept) ⊎ In c rest.0 = rw e at i in
            elim j [
              | inl same ↦
                  let url : c.url ≡ r.url = ap (λ (z : Citation). z.url) same in
                  rw url (ground (arith, e))
              | inr k ↦ validate_references-IsRetrieved references c k
            ]
      ]

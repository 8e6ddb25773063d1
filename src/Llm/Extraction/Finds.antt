-- ===== src/Llm/Extraction/Finds.antt =====
-- `_balanced_object` of backend/integrations/llm/extraction.py finds the first object and no other.
use soc_one.Base.{
  ℕ, suc, ◌≡◌, ◌↔◌, refl, sym, ap, subst, ◌∙◌, true, false, some, [], ◌∷◌, ◌++◌, ◌==◌, All, arith,
  Bool-cases, Option-cases, inl, inr, append_assoc,
}
use soc_one.Llm.Extraction.{
  Text, backslash, quote, opening, closing, Scan, start, step, closes, scan, balanced_object,
}
use soc_one.Llm.Extraction.Balance.{
  IsBody, ended, plain, escape, IsContent, nothing, other, string, nested, IsObject, scan-IsObject,
  step-closing, join, outside_at, inside_at,
}

scan-takes :
    (s : Scan) (c : ℕ) (cs found : Text)
    → closes s c ≡ false
    → scan (step s c) cs ≡ some found
    → scan s (c ∷ cs) ≡ some (c ∷ found)
unfolding scan
scan-takes s c cs found e h = ground (arith, e, h)

-- A string's text is passed over.
scan-body :
    (d : ℕ) (body : Text)
    → IsBody body
    → (t found : Text) → scan (inside_at d false) t ≡ some found
    → scan (inside_at d false) (body ++ t) ≡ some (body ++ found)
unfolding closes step
scan-body d _ ended t found h = h
scan-body d _ (plain c body q b k) t found h =
    scan-takes (inside_at d false) c (body ++ t) (body ++ found) refl
      (rw (b, q) (scan-body d body k t found h))
scan-body d _ (escape c body k) t found h =
    scan-takes (inside_at d false) backslash (c ∷ body ++ t) (c ∷ body ++ found) refl (
      scan-takes (inside_at d true) c (body ++ t) (body ++ found) refl
        (scan-body d body k t found h))

-- So is what stands between two braces.
scan-content :
    (inner : Text)
    → IsContent inner
    → (d : ℕ) (t found : Text) → scan (outside_at d) t ≡ some found
    → scan (outside_at d) (inner ++ t) ≡ some (inner ++ found)
unfolding closes step
scan-content _ nothing d t found h = h
scan-content _ (other c rest q o e k) d t found h =
    scan-takes (outside_at d) c (rest ++ t) (rest ++ found) (rw e refl)
      (rw (q, o, e) (scan-content rest k d t found h))
scan-content _ (string body rest b k) d t found h =
    let after = scan-content rest k d t found h in
    let ending = scan-takes (inside_at d false) quote (rest ++ t) (rest ++ found) refl after in
    let whole = scan-body d body b (quote ∷ rest ++ t) (quote ∷ rest ++ found) ending in
    scan-takes (outside_at d) quote ((body ++ quote ∷ rest) ++ t) ((body ++ quote ∷ rest) ++ found)
      refl (rw (append_assoc body (quote ∷ rest) t, append_assoc body (quote ∷ rest) found) whole)
scan-content _ (nested inner rest k m) d t found h =
    let after = scan-content rest m d t found h in
    let closed : scan (step (outside_at (suc d)) closing) (rest ++ t) ≡ some (rest ++ found) =
      subst (λ s. scan s (rest ++ t) ≡ some (rest ++ found)) (sym (step-closing d)) after in
    let ending =
      scan-takes (outside_at (suc d)) closing (rest ++ t) (rest ++ found) (ground arith) closed in
    let whole =
      scan-content inner k (suc d) (closing ∷ rest ++ t) (closing ∷ rest ++ found) ending in
    scan-takes (outside_at d) opening ((inner ++ closing ∷ rest) ++ t)
      ((inner ++ closing ∷ rest) ++ found) refl
      (rw (append_assoc inner (closing ∷ rest) t, append_assoc inner (closing ∷ rest) found) whole)

scan-object :
    (inner post : Text)
    → IsContent inner
    → scan start (opening ∷ inner ++ closing ∷ post) ≡ some (opening ∷ inner ++ closing ∷ [])
unfolding closes step scan
scan-object inner post k =
    scan-takes start opening (inner ++ closing ∷ post) (inner ++ closing ∷ []) refl
      (scan-content inner k 0 (closing ∷ post) (closing ∷ []) refl)

scan-prefix :
    (s : Scan) (cs found : Text) → scan s cs ≡ some found → (post : Text) × (cs ≡ found ++ post)
unfolding scan
scan-prefix s [] found h = cc
scan-prefix s (c ∷ cs) found h = elim (Bool-cases (closes s c)) [
  | inl e ↦ let same : found ≡ c ∷ [] = ground (arith, h, e) in rw same (cs, refl)
  | inr e ↦ elim (Option-cases (scan (step s c) cs)) [
    | inl n ↦ absurd (ground (arith, h, e, n))
    | inr (inner, n) ↦
        let same : found ≡ c ∷ inner = ground (arith, h, e, n) in
        let (post, split) = scan-prefix (step s c) cs inner n in
        rw same (post, ap (λ (z : Text). c ∷ z) split)
  ]
]

-- The text splits behind characters that open nothing into an object and the rest.
abbrev pub IsFirst : Text → Text → Type 0
IsFirst text found =
    (before : Text) × (post : Text) × (text ≡ before ++ (found ++ post))
    × All (λ c. (c == opening) ≡ false) before
    × IsObject found

balanced_object-IsFirst :
    (text found : Text) → balanced_object text ≡ some found → IsFirst text found
unfolding balanced_object
balanced_object-IsFirst [] found h = cc
balanced_object-IsFirst (c ∷ cs) found h = elim (Bool-cases (c == opening)) [
  | inl e ↦
      let scanned : scan start (c ∷ cs) ≡ some found = ground (arith, h, e) in
      let is : c ≡ opening = ground (arith, e) in
      let (post, split) = scan-prefix start (c ∷ cs) found scanned in
      (
        [],
        post,
        split,
        tt,
        scan-IsObject cs found (subst (λ z. scan start (z ∷ cs) ≡ some found) is scanned),
      )
  | inr e ↦
      let later : balanced_object cs ≡ some found = ground (arith, h, e) in
      let (before, post, split, unopened, is) = balanced_object-IsFirst cs found later in
      (c ∷ before, post, ap (λ (z : Text). c ∷ z) split, (e, unopened), is)
]

IsFirst-balanced_object :
    (before post inner : Text)
    → All (λ c. (c == opening) ≡ false) before
    → IsContent inner
    → balanced_object (before ++ (opening ∷ inner ++ closing ∷ post))
      ≡ some (opening ∷ inner ++ closing ∷ [])
unfolding balanced_object
IsFirst-balanced_object [] post inner h k = scan-object inner post k
IsFirst-balanced_object (c ∷ before) post inner h k =
    rw h.0 (IsFirst-balanced_object before post inner h.1 k)

-- `_balanced_object` finds just the first object of the text: what it returns starts at the first opening
-- brace and ends at the brace that closes it, braces in strings and escaped characters there passed over;
-- and where such an object starts at the first opening brace, it is returned.
pub balanced_object-iff-IsFirst :
    (text found : Text) → (balanced_object text ≡ some found) ↔ IsFirst text found
balanced_object-iff-IsFirst text found = (
  balanced_object-IsFirst text found,
  λ (before, post, split, unopened, (inner, k, is)).
      let whole : text ≡ before ++ (opening ∷ inner ++ closing ∷ post) =
        split
        ∙ ap (λ (z : Text). before ++ (z ++ post)) is
        ∙ ap (λ (z : Text). before ++ (opening ∷ z)) (join inner closing post) in
      ap balanced_object whole
      ∙ IsFirst-balanced_object before post inner unopened k
      ∙ ap some (sym is),
)

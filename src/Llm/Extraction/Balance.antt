-- ===== src/Llm/Extraction/Balance.antt =====
-- What `_balanced_object` of backend/integrations/llm/extraction.py finds: braces that pair up outside the
-- strings.
use soc_one.Base.{
  ℕ, zero, suc, ◌-◌, ◌≡◌, refl, sym, ap, subst, ◌∙◌, Bool, true, false, some, [], ◌∷◌, ◌++◌, ◌==◌,
  arith, Bool-cases, Option-cases, inl, inr, append_assoc,
}
use soc_one.Llm.Extraction.{
  Text, backslash, quote, opening, closing, Scan, start, step, closes, scan,
}

-- What a string holds: characters that neither end it nor escape, and escapes of any character.
pub data IsBody : Text → Type 0 where
  ended : IsBody []
  plain :
      (c : ℕ) (body : Text)
      → (c == quote) ≡ false
      → (c == backslash) ≡ false
      → IsBody body
      → IsBody (c ∷ body)
  escape : (c : ℕ) (body : Text) → IsBody body → IsBody (backslash ∷ c ∷ body)

-- What stands between two braces: characters that are neither a quote nor a brace, strings, and further
-- pairs of braces.
pub data IsContent : Text → Type 0 where
  nothing : IsContent []
  other :
      (c : ℕ) (rest : Text)
      → (c == quote) ≡ false
      → (c == opening) ≡ false
      → (c == closing) ≡ false
      → IsContent rest
      → IsContent (c ∷ rest)
  string :
      (body rest : Text) → IsBody body → IsContent rest → IsContent (quote ∷ body ++ quote ∷ rest)
  nested :
      (inner rest : Text)
      → IsContent inner
      → IsContent rest
      → IsContent (opening ∷ inner ++ closing ∷ rest)

abbrev pub IsObject : Text → Type 0
IsObject found = (inner : Text) × IsContent inner × (found ≡ opening ∷ inner ++ closing ∷ [])

-- What ends so many pairs of braces, and the one around them.
abbrev IsRest : ℕ → Text → Type 0
IsRest zero t = (inner : Text) × IsContent inner × (t ≡ inner ++ closing ∷ [])
IsRest (suc d) t =
    (inner : Text) × (rest : Text) × IsContent inner × (t ≡ inner ++ closing ∷ rest) × IsRest d rest

-- The same from within a string.
abbrev IsStringRest : ℕ → Text → Type 0
IsStringRest d t =
    (body : Text) × (rest : Text) × IsBody body × (t ≡ body ++ quote ∷ rest) × IsRest d rest

pub join : (u : Text) (c : ℕ) (t : Text) → (u ++ c ∷ []) ++ t ≡ u ++ c ∷ t
join u c t = append_assoc u (c ∷ []) t

IsRest-append :
    (first : Text) (d : ℕ) (t : Text)
    → ((rest : Text) → IsContent rest → IsContent (first ++ rest))
    → IsRest d t
    → IsRest d (first ++ t)
IsRest-append first zero t f (inner, k, e) = (
  first ++ inner,
  f inner k,
  ap (λ z. first ++ z) e ∙ sym (append_assoc first inner (closing ∷ [])),
)
IsRest-append first (suc d) t f (inner, rest, k, e, more) = (
  first ++ inner,
  rest,
  f inner k,
  ap (λ z. first ++ z) e ∙ sym (append_assoc first inner (closing ∷ rest)),
  more,
)

IsStringRest-IsRest : (d : ℕ) (t : Text) → IsStringRest d t → IsRest d (quote ∷ t)
IsStringRest-IsRest d t (body, rest, b, e, more) =
    let first = quote ∷ body ++ quote ∷ [] in
    let same : first ++ rest ≡ quote ∷ t = ap (λ z. quote ∷ z) (join body quote rest ∙ sym e) in
    subst (IsRest d) same (
      IsRest-append first d rest
        (λ more_text k.
          subst IsContent (sym (ap (λ z. quote ∷ z) (join body quote more_text)))
            (string body more_text b k))
        more)

nested-IsRest : (d : ℕ) (t : Text) → IsRest (suc d) t → IsRest d (opening ∷ t)
nested-IsRest d t (inner, rest, k, e, more) =
    let first = opening ∷ inner ++ closing ∷ [] in
    let same : first ++ rest ≡ opening ∷ t =
      ap (λ z. opening ∷ z) (join inner closing rest ∙ sym e) in
    subst (IsRest d) same (
      IsRest-append first d rest
        (λ more_text m.
          subst IsContent (sym (ap (λ z. opening ∷ z) (join inner closing more_text)))
            (nested inner more_text k m))
        more)

scan-next :
    (s : Scan) (c : ℕ) (cs found : Text)
    → closes s c ≡ false
    → scan s (c ∷ cs) ≡ some found
    → (inner : Text) × (scan (step s c) cs ≡ some inner) × (c ∷ inner ≡ found)
unfolding scan
scan-next s c cs found e h = elim (Option-cases (scan (step s c) cs)) [
  | inl n ↦ absurd (ground (arith, h, e, n))
  | inr (inner, n) ↦ (inner, n, ground (arith, h, e, n))
]

scan-last :
    (s : Scan) (c : ℕ) (cs found : Text)
    → closes s c ≡ true
    → scan s (c ∷ cs) ≡ some found
    → c ∷ [] ≡ found
unfolding scan
scan-last s c cs found e h = ground (arith, h, e)

abbrev pub outside_at : ℕ → Scan
outside_at d = record { depth = suc d; in_string = false; escaped = false }

abbrev pub inside_at : ℕ → Bool → Scan
inside_at d escaped = record { depth = suc d; in_string = true; escaped = escaped }

pub step-closing : (d : ℕ) → step (outside_at (suc d)) closing ≡ outside_at d
unfolding step
step-closing d =
    let less : suc (suc d) - 1 ≡ suc d = omega arith in
    ap (λ (n : ℕ). record { depth = n; in_string = false; escaped = false }) less

-- What a scan that begins at a depth finds.
abbrev IsSound : ℕ → Text → Type 0
IsSound d cs =
    ((found : Text) → scan (outside_at d) cs ≡ some found → IsRest d found)
    × ((found : Text) → scan (inside_at d false) cs ≡ some found → IsStringRest d found)
    × ((found : Text)
        → scan (inside_at d true) cs ≡ some found
        → (c : ℕ) × (rest : Text) × (c ∷ rest ≡ found) × IsStringRest d rest)

module _ (c : ℕ) (cs : Text) (d : ℕ) (found : Text) where
  scan-escaped :
      IsSound d cs
      → scan (inside_at d true) (c ∷ cs) ≡ some found
      → (e : ℕ) × (rest : Text) × (e ∷ rest ≡ found) × IsStringRest d rest
  unfolding closes step
  scan-escaped further h =
      let (rest, n, same) = scan-next (inside_at d true) c cs found refl h in
      (c, rest, same, further.1 rest n)

  scan-inside : IsSound d cs → scan (inside_at d false) (c ∷ cs) ≡ some found → IsStringRest d found
  unfolding closes step
  scan-inside further h =
      let (rest, n, same) = scan-next (inside_at d false) c cs found refl h in
      elim (Bool-cases (c == backslash)) [
        | inl b ↦
            let is : c ≡ backslash = ground (arith, b) in
            let (e, more, split, (body, tail, k, f, r)) = further.2 rest (rw b at n) in
            let whole : found ≡ backslash ∷ e ∷ body ++ quote ∷ tail =
              sym same
              ∙ ap (λ z. z ∷ rest) is
              ∙ ap (λ z. backslash ∷ z) (sym split ∙ ap (λ z. e ∷ z) f) in
            (backslash ∷ e ∷ body, tail, escape e body k, whole, r)
        | inr b ↦ elim (Bool-cases (c == quote)) [
          | inl q ↦
              let is : c ≡ quote = ground (arith, q) in
              let r = further.0 rest (rw (b, q) at n) in
              ([], rest, ended, sym same ∙ ap (λ z. z ∷ rest) is, r)
          | inr q ↦
              let (body, tail, k, f, r) = further.1 rest (rw (b, q) at n) in
              (c ∷ body, tail, plain c body q b k, sym same ∙ ap (λ z. c ∷ z) f, r)
        ]
      ]

module _ (c : ℕ) (cs : Text) (further : (d : ℕ) → IsSound d cs) where
  scan-closing :
      (d : ℕ) (found : Text)
      → (c == closing) ≡ true
      → scan (outside_at d) (c ∷ cs) ≡ some found
      → IsRest d found
  unfolding closes step
  scan-closing zero found e h =
      let is : c ≡ closing = ground (arith, e) in
      let same = scan-last (outside_at 0) c cs found (ground (arith, e)) h in
      ([], nothing, sym same ∙ ap (λ z. z ∷ []) is)
  scan-closing (suc d) found e h =
      let is : c ≡ closing = ground (arith, e) in
      let (rest, n, same) = scan-next (outside_at (suc d)) c cs found (ground (arith, e)) h in
      let after : step (outside_at (suc d)) c ≡ outside_at d = rw is (step-closing d) in
      ([], rest, nothing, sym same ∙ ap (λ z. z ∷ rest) is, (further d).0 rest (rw after at n))

  scan-outside : (d : ℕ) (found : Text) → scan (outside_at d) (c ∷ cs) ≡ some found → IsRest d found
  unfolding closes step
  scan-outside d found h = elim (Bool-cases (c == closing)) [
    | inl e ↦ scan-closing d found e h
    | inr e ↦
        let (rest, n, same) = scan-next (outside_at d) c cs found (ground (arith, e)) h in
        elim (Bool-cases (c == quote)) [
          | inl q ↦
              let is : c ≡ quote = ground (arith, q) in
              let r = (further d).1 rest (rw q at n) in
              subst (IsRest d) (ap (λ z. z ∷ rest) (sym is) ∙ same) (IsStringRest-IsRest d rest r)
          | inr q ↦ elim (Bool-cases (c == opening)) [
            | inl o ↦
                let is : c ≡ opening = ground (arith, o) in
                let r = (further (suc d)).0 rest (rw (q, o) at n) in
                subst (IsRest d) (ap (λ z. z ∷ rest) (sym is) ∙ same) (nested-IsRest d rest r)
            | inr o ↦
                let r = (further d).0 rest (rw (q, o, e) at n) in
                subst (IsRest d) same
                  (IsRest-append (c ∷ []) d rest (λ more k. other c more q o e k) r)
          ]
        ]
  ]

scan-IsSound : (cs : Text) (d : ℕ) → IsSound d cs
unfolding scan
scan-IsSound [] d = (λ found h. cc, λ found h. cc, λ found h. cc)
scan-IsSound (c ∷ cs) d =
    let further = scan-IsSound cs in
    (
      λ found h. scan-outside c cs further d found h,
      λ found h. scan-inside c cs d found (further d) h,
      λ found h. scan-escaped c cs d found (further d) h,
    )

pub scan-IsObject : (cs found : Text) → scan start (opening ∷ cs) ≡ some found → IsObject found
unfolding closes step
scan-IsObject cs found h =
    let (rest, n, same) = scan-next start opening cs found refl h in
    let (inner, k, e) = (scan-IsSound cs 0).0 rest n in
    (inner, k, sym same ∙ ap (λ z. opening ∷ z) e)

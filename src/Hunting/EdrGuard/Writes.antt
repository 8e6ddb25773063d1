-- ===== src/Hunting/EdrGuard/Writes.antt =====
-- Which searches `guard_edr_search` of backend/integrations/edr/trellix_guard.py refuses as write operations.
use soc_one.Base.{
  ℕ, ◌≡◌, refl, sym, ap, subst, ◌∙◌, ◌↔◌, ◌⊎◌, inl, inr, Bool, true, false, ◌&&◌, Option, List, [],
  ◌∷◌, ◌++◌, leb, any, In, All, arith, Bool-cases, append_assoc,
}
use soc_one.Base.Texts.{codes, lower, strip, same_codes}
use soc_one.Hunting.EdrGuard.{
  Text, write_operation, refused, Config, is_word, words_from, is_write_verb, writes, is_blank,
  is_wildcard, guard_edr_search,
}

-- Whether a text begins, and whether it ends, with a word character.
abbrev pub starts_word : Text → Bool
starts_word [] = false
starts_word (c ∷ cs) = is_word c

abbrev last_is_word : Bool → Text → Bool
last_is_word b [] = b
last_is_word b (c ∷ cs) = last_is_word (is_word c) cs

abbrev pub ends_word : Text → Bool
ends_word text = last_is_word false text

-- The text has one of the verbs, in whatever case, with no word character right before or behind it.
abbrev pub HasVerb : Text → Type 0
HasVerb text =
    (before : Text) × (verb : Text) × (after : Text) × (text ≡ before ++ (verb ++ after))
    × In (lower verb) (codes "delete" ∷ codes "remove" ∷ codes "terminate" ∷ [])
    × (ends_word before ≡ false)
    × (starts_word after ≡ false)

last_is_word-append :
    (b : Bool) (xs ys : Text) → last_is_word b (xs ++ ys) ≡ last_is_word (last_is_word b xs) ys
last_is_word-append b [] ys = refl
last_is_word-append b (x ∷ xs) ys = last_is_word-append (is_word x) xs ys

join : (u : Text) (c : ℕ) (t : Text) → (u ++ c ∷ []) ++ t ≡ u ++ (c ∷ t)
join u c t = append_assoc u (c ∷ []) t

append_nil : (u : Text) → u ++ [] ≡ u
append_nil [] = refl
append_nil (c ∷ u) = ap (λ z. c ∷ z) (append_nil u)

-- A run of word characters stands apart in the text.
abbrev StandsApart : Text → Text → Type 0
StandsApart text w =
    (before : Text) × (after : Text) × (text ≡ before ++ (w ++ after))
    × (ends_word before ≡ false)
    × (starts_word after ≡ false)

words_from-StandsApart : (word cs w : Text) → In w (words_from word cs) → StandsApart (word ++ cs) w
unfolding words_from
words_from-StandsApart word [] w (inl e) = ([], [], ap (λ z. z ++ []) (sym e), refl, refl)
words_from-StandsApart word [] w (inr i) = elim i [ ]
words_from-StandsApart word (c ∷ cs) w i = elim (Bool-cases (is_word c)) [
  | inl e ↦
      let (before, after, split, b, a) = words_from-StandsApart (word ++ c ∷ []) cs w (rw e at i) in
      (before, after, sym (join word c cs) ∙ split, b, a)
  | inr e ↦
      let j : (w ≡ word) ⊎ In w (words_from [] cs) = rw e at i in
      elim j [
        | inl same ↦ ([], c ∷ cs, ap (λ z. z ++ (c ∷ cs)) (sym same), refl, e)
        | inr k ↦
            let (before, after, split, b, a) = words_from-StandsApart [] cs w k in
            (
              word ++ (c ∷ before),
              after,
              ap (λ z. word ++ (c ∷ z)) split ∙ sym (append_assoc word (c ∷ before) (w ++ after)),
              last_is_word-append false word (c ∷ before) ∙ ap (λ z. last_is_word z before) e ∙ b,
              a,
            )
      ]
]

-- And one that stands apart is found.
run_found :
    (v word after : Text)
    → All (λ c. is_word c ≡ true) v
    → starts_word after ≡ false
    → In (word ++ v) (words_from word (v ++ after))
unfolding words_from
run_found [] word [] h a = inl (append_nil word)
run_found [] word (c ∷ after) h a = rw a (inl (append_nil word))
run_found (c ∷ v) word after h a = rw h.0 (
    subst (λ z. In z (words_from (word ++ c ∷ []) (v ++ after))) (join word c v)
      (run_found v (word ++ c ∷ []) after h.1 a))

abbrev some_word : Text → Bool
some_word [] = false
some_word (c ∷ cs) = true

some_word-append : (word : Text) (c : ℕ) → some_word (word ++ c ∷ []) ≡ true
some_word-append [] c = refl
some_word-append (d ∷ word) c = refl

word_found :
    (before word v after : Text)
    → All (λ c. is_word c ≡ true) v
    → last_is_word (some_word word) before ≡ false
    → starts_word after ≡ false
    → In v (words_from word (before ++ (v ++ after)))
unfolding words_from
word_found [] [] v after h b a = run_found v [] after h a
word_found [] (d ∷ word) v after h b a = cc
word_found (c ∷ before) word v after h b a = elim (Bool-cases (is_word c)) [
  | inl e ↦
      let still : last_is_word (some_word (word ++ c ∷ [])) before ≡ false =
        rw (some_word-append word c) (rw e at b) in
      rw e (word_found before (word ++ c ∷ []) v after h still a)
  | inr e ↦ rw e (inr (word_found before [] v after h (rw e at b) a))
]

same_codes_refl : (cs : Text) → same_codes cs cs ≡ true
unfolding same_codes
same_codes_refl [] = refl
same_codes_refl (c ∷ cs) = ground (arith, same_codes_refl cs)

same_codes_sound : (cs ds : Text) → same_codes cs ds ≡ true → cs ≡ ds
unfolding same_codes
same_codes_sound [] [] h = refl
same_codes_sound [] (d ∷ ds) h = cc
same_codes_sound (c ∷ cs) [] h = cc
same_codes_sound (c ∷ cs) (d ∷ ds) h =
    let head : c ≡ d = ground (arith, h) in
    let tail = same_codes_sound cs ds (ground (arith, h)) in
    ap (λ z. z ∷ cs) head ∙ ap (λ z. d ∷ z) tail

same_codes_same : (cs ds : Text) → cs ≡ ds → same_codes cs ds ≡ true
same_codes_same cs ds e = subst (λ z. same_codes cs z ≡ true) e (same_codes_refl cs)

abbrev write_verbs : List Text
write_verbs = codes "delete" ∷ codes "remove" ∷ codes "terminate" ∷ []

is_write_verb-iff-In : (w : Text) → (is_write_verb w ≡ true) ↔ In (lower w) write_verbs
unfolding is_write_verb
is_write_verb-iff-In w = (
  λ h. elim (Bool-cases (same_codes (lower w) (codes "delete"))) [
    | inl d ↦ inl (same_codes_sound (lower w) (codes "delete") d)
    | inr d ↦ elim (Bool-cases (same_codes (lower w) (codes "remove"))) [
      | inl r ↦ inr (inl (same_codes_sound (lower w) (codes "remove") r))
      | inr r ↦
          inr (inr (inl (same_codes_sound (lower w) (codes "terminate") (ground (arith, h, d, r)))))
    ]
  ],
  λ i. elim i [
    | inl e ↦ ground (arith, same_codes_same (lower w) (codes "delete") e)
    | inr (inl e) ↦ ground (arith, same_codes_same (lower w) (codes "remove") e)
    | inr (inr (inl e)) ↦ ground (arith, same_codes_same (lower w) (codes "terminate") e)
    | inr (inr (inr j)) ↦ elim j [ ]
  ],
)

abbrev is_small : ℕ → Bool
is_small c = leb b'a' c && leb c b'z'

lower-word : (v : Text) → All (λ c. is_small c ≡ true) (lower v) → All (λ c. is_word c ≡ true) v
unfolding lower
lower-word [] h = tt
lower-word (c ∷ v) h = (ground (arith, h.0), lower-word v h.1)

verb-small : (w : Text) → In w write_verbs → All (λ c. is_small c ≡ true) w
verb-small w (inl e) =
    subst (All (λ c. is_small c ≡ true)) (sym e) (refl, (refl, (refl, (refl, (refl, (refl, tt))))))
verb-small w (inr (inl e)) =
    subst (All (λ c. is_small c ≡ true)) (sym e) (refl, (refl, (refl, (refl, (refl, (refl, tt))))))
verb-small w (inr (inr (inl e))) =
    subst (All (λ c. is_small c ≡ true)) (sym e)
      (refl, (refl, (refl, (refl, (refl, (refl, (refl, (refl, (refl, tt)))))))))
verb-small w (inr (inr (inr i))) = elim i [ ]

any-In : (p : Text → Bool) (ws : List Text) (w : Text) → In w ws → p w ≡ true → any p ws ≡ true
any-In p [] w i h = elim i [ ]
any-In p (x ∷ ws) w (inl e) h = rw (ap p (sym e) ∙ h) refl
any-In p (x ∷ ws) w (inr i) h = ground (arith, any-In p ws w i h)

In-any : (p : Text → Bool) (ws : List Text) → any p ws ≡ true → (w : Text) × In w ws × (p w ≡ true)
In-any p [] h = cc
In-any p (x ∷ ws) h = elim (Bool-cases (p x)) [
  | inl e ↦ (x, inl refl, e)
  | inr e ↦ let (w, i, t) = In-any p ws (ground (arith, h, e)) in (w, inr i, t)
]

writes-iff-HasVerb : (text : Text) → (writes text ≡ true) ↔ HasVerb text
unfolding writes
writes-iff-HasVerb text = (
  λ h.
      let (w, i, t) = In-any is_write_verb (words_from [] text) h in
      let (before, after, split, b, a) = words_from-StandsApart [] text w i in
      (before, w, after, split, (is_write_verb-iff-In w).0 t, b, a),
  λ (before, verb, after, split, i, b, a).
      let small = lower-word verb (verb-small (lower verb) i) in
      let found = word_found before [] verb after small b a in
      any-In is_write_verb (words_from [] text) verb
        (subst (λ z. In verb (words_from [] z)) (sym split) found)
        ((is_write_verb-iff-In verb).1 i),
)

blank-writes : (text : Text) → is_blank text ≡ true → writes text ≡ false
unfolding writes words_from is_write_verb lower same_codes
blank-writes [] h = refl
blank-writes (c ∷ cs) h = cc

wildcard-writes : writes (codes "*") ≡ false
unfolding writes words_from is_write_verb lower same_codes
wildcard-writes = refl

-- A search is refused as a write operation just where its text has one of the verbs "delete", "remove" and
-- "terminate", in whatever case, that no letter, digit or underscore adjoins, whatever its window, its limit
-- and its hosts are.
pub guard_edr_search-iff-HasVerb :
    (query : Text) (hours : Option ℕ) (limit : ℕ) (host_ids : List Text) (config : Config)
    (max_hosts : ℕ)
    → (guard_edr_search query hours limit host_ids config max_hosts ≡ refused write_operation)
      ↔ HasVerb (strip query)
unfolding guard_edr_search
guard_edr_search-iff-HasVerb query hours limit host_ids config max_hosts =
    let (to, from) = writes-iff-HasVerb (strip query) in
    (
      λ h. to (ground (arith, h)),
      λ v.
          let w = from v in
          elim (Bool-cases (is_blank (strip query))) [
            | inl e ↦ absurd (cc (w, blank-writes (strip query) e))
            | inr e ↦ elim (Bool-cases (is_wildcard (strip query))) [
              | inl s ↦
                  let same = same_codes_sound (strip query) (codes "*") s in
                  absurd (cc (w, ap writes same, wildcard-writes))
              | inr s ↦ ground (arith, e, s, w)
            ]
          ],
    )

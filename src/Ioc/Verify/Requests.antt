-- ===== src/Ioc/Verify/Requests.antt =====
-- The requests of the sources in backend/apps/agentic/ioc/service.py.
use soc_one.Base.{
  All-append, append_assoc, ℕ, ◌≡◌, refl, sym, ap, ◌∙◌, inl, inr, true, false, none, some, List, [],
  ◌∷◌, ◌++◌, leb, length, All, In, arith, Bool-cases, Option-cases,
}
use soc_one.Ioc.Normalize.{Text}
use soc_one.Ioc.Sources.{
  Config, Services, Client, Asked, intel, web, model, WebEvidence, queries_for, search_tool_for,
  gathered, ask_queries, ask_clients, collect_web_evidence,
}

-- A request that names the indicator as a term and nothing else.
abbrev pub IsAbout : Text → Asked → Type 0
IsAbout value (intel kind v) = v ≡ value
IsAbout value (web client query) = In query (queries_for value)
IsAbout value (model v) = v ≡ value

-- What has been asked has grown by requests about the indicator.
abbrev pub Grew : Text → List Asked → List Asked → Type 0
Grew value before after = (new : List Asked) × (after ≡ new ++ before) × All (IsAbout value) new

module _ (value : Text) where
  pub Grew-refl : (asked : List Asked) → Grew value asked asked
  Grew-refl asked = ([], refl, tt)

  pub Grew-trans : (a b c : List Asked) → Grew value a b → Grew value b c → Grew value a c
  Grew-trans a b c (new, e, h) (newer, f, g) = (
    newer ++ new,
    f ∙ ap (λ (l : List Asked). newer ++ l) e ∙ sym (append_assoc newer new a),
    All-append (IsAbout value) newer new g h,
  )

  pub Grew-same : {a b : List Asked} → b ≡ a → Grew value a b
  Grew-same e = ([], e, tt)

  pub Grew-one : (a : Asked) (asked : List Asked) → IsAbout value a → Grew value asked (a ∷ asked)
  Grew-one a asked h = (a ∷ [], refl, (h, tt))

  module _ (client : Client) (tool : Text) (most : ℕ) (q : Text) (queries : List Text)
      (found : WebEvidence) where
    abbrev asked_one : List Asked
    asked_one = web client.name q ∷ found.1

    ask_queries_full :
        leb most (length found.0) ≡ true → ask_queries client tool most (q ∷ queries) found ≡ found
    unfolding ask_queries
    ask_queries_full e = ground (arith, e)

    ask_queries_broken :
        leb most (length found.0) ≡ false
        → client.call_tool tool q ≡ none
        → ask_queries client tool most (q ∷ queries) found ≡ (found.0, asked_one)
    unfolding ask_queries
    ask_queries_broken e n = ground (arith, e, n)

    ask_queries_next :
        (items : List Text)
        → leb most (length found.0) ≡ false
        → client.call_tool tool q ≡ some items
        → ask_queries client tool most (q ∷ queries) found
          ≡ ask_queries client tool most queries
              (gathered client.name most (client.call_tool tool q) found.0, asked_one)
    unfolding ask_queries
    ask_queries_next items e n = ground (arith, e, n)

  ask_queries-Grew :
      (client : Client) (tool : Text) (most : ℕ) (queries : List Text) (found : WebEvidence)
      → All (λ q. In q (queries_for value)) queries
      → Grew value found.1 (ask_queries client tool most queries found).1
  unfolding ask_queries
  ask_queries-Grew client tool most [] (blocks, asked) h = Grew-refl asked
  ask_queries-Grew client tool most (q ∷ queries) found h =
      let now = web client.name q ∷ found.1 in
      let one = Grew-one (web client.name q) found.1 h.0 in
      elim (Bool-cases (leb most (length found.0))) [
        | inl e ↦ rw (ask_queries_full client tool most q queries found e) (Grew-refl found.1)
        | inr e ↦ elim (Option-cases (client.call_tool tool q)) [
          | inl n ↦ rw (ask_queries_broken client tool most q queries found e n) one
          | inr (items, n) ↦
              let next : WebEvidence =
                (gathered client.name most (client.call_tool tool q) found.0, now) in
              let after = (ask_queries client tool most queries next).1 in
              rw (ask_queries_next client tool most q queries found items e n) (
                Grew-trans found.1 now after one
                  (ask_queries-Grew client tool most queries next h.1))
        ]
      ]

  ask_clients_skip :
      (client : Client) (clients : List Client) (queries : List Text) (most : ℕ)
      (found : WebEvidence)
      → search_tool_for client ≡ none
      → ask_clients (client ∷ clients) queries most found ≡ ask_clients clients queries most found
  unfolding ask_clients
  ask_clients_skip client clients queries most found n = rw (ask_clients, n) refl

  ask_clients_next :
      (client : Client) (clients : List Client) (queries : List Text) (most : ℕ)
      (found : WebEvidence) (tool : Text)
      → search_tool_for client ≡ some tool
      → ask_clients (client ∷ clients) queries most found
        ≡ ask_clients clients queries most (ask_queries client tool most queries found)
  unfolding ask_clients
  ask_clients_next client clients queries most found tool n = rw (ask_clients, n) refl

  ask_clients-Grew :
      (clients : List Client) (queries : List Text) (most : ℕ) (found : WebEvidence)
      → All (λ q. In q (queries_for value)) queries
      → Grew value found.1 (ask_clients clients queries most found).1
  unfolding ask_clients
  ask_clients-Grew [] queries most found h = Grew-refl found.1
  ask_clients-Grew (client ∷ clients) queries most found h =
      elim (Option-cases (search_tool_for client)) [
        | inl n ↦
            rw (ask_clients_skip client clients queries most found n)
              (ask_clients-Grew clients queries most found h)
        | inr (tool, n) ↦
            let next = ask_queries client tool most queries found in
            let after = (ask_clients clients queries most next).1 in
            rw (ask_clients_next client clients queries most found tool n) (
              Grew-trans found.1 next.1 after (ask_queries-Grew client tool most queries found h)
                (ask_clients-Grew clients queries most next h))
      ]

  pub collect_web_evidence-Grew :
      (services : Services) (config : Config) (asked : List Asked)
      → Grew value asked (collect_web_evidence services value config asked).1
  unfolding collect_web_evidence
  collect_web_evidence-Grew services config asked =
      ask_clients-Grew services.clients (queries_for value) config.max_web_results ([], asked)
        (inl refl, (inr (inl refl), tt))

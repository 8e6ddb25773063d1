-- ===== src/Llm/Structured.antt =====
-- `invoke_structured` of backend/integrations/llm/structured.py. The call of the model, with what it tells
-- of the tokens, and the extraction with the validation of the schema are arguments.
use soc_one.Base.{
  ℕ, zero, suc, ◌+◌, ◌-◌, ◌≤◌, ◌<◌, ◌≡◌, refl, ◌⊎◌, inl, inr, Option, none, some, List, [], ◌∷◌,
  ◌++◌, subst, String, max, arith,
}
use soc_one.Llm.Failover.{Answer, answered, failed}

pub data Message : Type 0 where
  system human assistant : String → Message
  repair : String → Message

-- What a response tells: its text and its tokens, where it tells them.
pub record Response : Type 0 where
  pub text : String
  pub tokens_in : Option ℕ
  pub tokens_out : Option ℕ

pub data Checked (A : Type 0) : Type 0 where
  valid : A → Checked A
  invalid : String → Checked A

pub record StructuredCall : Type 0 where
  pub attempts : ℕ
  pub raw_response : String
  pub tokens_in : Option ℕ
  pub tokens_out : Option ℕ

-- How a call ends: an instance, the `StructuredOutputError`, or the error that the model's call raised.
pub data Ending (A : Type 0) : Type 0 where
  accepted : A → StructuredCall → Ending A
  gave_up : ℕ → String → String → Ending A
  raised : String → Ending A

-- `int(provider.get("max_retries", 2))`, no negative number, and one more.
unfoldable pub max_attempts_of : Option ℕ → ℕ
max_attempts_of none = 3
max_attempts_of (some retries) = max 1 (retries + 1)

abbrev or_before : Option ℕ → Option ℕ → Option ℕ
or_before none before = before
or_before (some n) before = some n

abbrev pub repaired : List Message → String → String → List Message
repaired messages text error = messages ++ assistant text ∷ repair error ∷ []

module _ {A : Type 0} (respond : List Message → Answer Response) (check : String → Checked A) where
  -- What one attempt comes to: the end, or another attempt with the error as an answer.
  pub data Judged : Type 0 where
    ended : Ending A → Judged
    again : String → Response → Option ℕ → Option ℕ → Judged

  abbrev judge_text : Checked A → ℕ → Response → Option ℕ → Option ℕ → Judged
  judge_text (valid instance_of) number response now_in now_out = ended (
      accepted instance_of record {
        attempts = number;
        raw_response = response.text;
        tokens_in = now_in;
        tokens_out = now_out;
      })
  judge_text (invalid error) number response now_in now_out = again error response now_in now_out

  abbrev judge_answer : Answer Response → ℕ → Option ℕ → Option ℕ → Judged
  judge_answer (failed error) number tokens_in tokens_out = ended (raised error)
  judge_answer (answered response) number tokens_in tokens_out =
      judge_text (check response.text) number response (or_before response.tokens_in tokens_in)
        (or_before response.tokens_out tokens_out)

  -- The loop, with the attempts that are left behind this one.
  unfoldable pub attempt : ℕ → ℕ → List Message → Option ℕ → Option ℕ → Ending A
  attempt zero number messages tokens_in tokens_out =
      elim (judge_answer (respond messages) number tokens_in tokens_out) [
        | ended e ↦ e
        | again error response now_in now_out ↦ gave_up number error response.text
      ]
  attempt (suc left) number messages tokens_in tokens_out =
      elim (judge_answer (respond messages) number tokens_in tokens_out) [
        | ended e ↦ e
        | again error response now_in now_out ↦
            attempt left (suc number) (repaired messages response.text error) now_in now_out
      ]

  abbrev pub first_messages : String → String → List Message
  first_messages system_content payload = system system_content ∷ human payload ∷ []

  unfoldable pub invoke_structured : Option ℕ → String → String → Ending A
  unfolding attempt max_attempts_of
  invoke_structured max_retries system_content payload =
      attempt (max_attempts_of max_retries - 1) 1 (first_messages system_content payload) none none

  -- Conversations of so many rejected answers, each followed by its error.
  pub data Conversation (first_ones : List Message) : ℕ → List Message → Type 0 where
    begin : Conversation first_ones 0 first_ones
    rejected :
        (n : ℕ) (messages : List Message) (response : Response) (error : String)
        → Conversation first_ones n messages
        → respond messages ≡ answered response
        → check response.text ≡ invalid error
        → Conversation first_ones (suc n) (messages ++ assistant response.text ∷ repair error ∷ [])

  -- How an ending of a loop with the ceiling comes about.
  abbrev pub IsExplained : ℕ → List Message → Ending A → Type 0
  IsExplained ceiling first_ones (accepted a call) =
      (n : ℕ) × (messages : List Message) × (response : Response) × Conversation first_ones n
        messages
      × (respond messages ≡ answered response)
      × (check response.text ≡ valid a)
      × (call.raw_response ≡ response.text)
      × (call.attempts ≡ suc n)
      × (call.attempts ≤ ceiling)
  IsExplained ceiling first_ones (gave_up attempts error text) =
      (n : ℕ) × (messages : List Message) × (response : Response) × Conversation first_ones n
        messages
      × (respond messages ≡ answered response)
      × (response.text ≡ text)
      × (check text ≡ invalid error)
      × (attempts ≡ suc n)
      × (ceiling ≡ suc n)
  IsExplained ceiling first_ones (raised error) =
      (n : ℕ) × (messages : List Message) × Conversation first_ones n messages
      × (respond messages ≡ failed error)
      × (n < ceiling)

  answer_cases :
      (a : Answer Response) → ((r : Response) × (a ≡ answered r)) ⊎ ((e : String) × (a ≡ failed e))
  answer_cases (answered r) = inl (r, refl)
  answer_cases (failed e) = inr (e, refl)

  checked_cases : (c : Checked A) → ((a : A) × (c ≡ valid a)) ⊎ ((e : String) × (c ≡ invalid e))
  checked_cases (valid a) = inl (a, refl)
  checked_cases (invalid e) = inr (e, refl)

  module _ (number : ℕ) (messages : List Message) (tokens_in tokens_out : Option ℕ) where
    attempt_raised :
        (left : ℕ) (error : String)
        → respond messages ≡ failed error
        → attempt left number messages tokens_in tokens_out ≡ raised error
    unfolding attempt
    attempt_raised zero error e = ground (arith, e)
    attempt_raised (suc left) error e = ground (arith, e)

    module _ (r : Response) (e : respond messages ≡ answered r) where
      abbrev now_in : Option ℕ
      now_in = or_before r.tokens_in tokens_in

      abbrev now_out : Option ℕ
      now_out = or_before r.tokens_out tokens_out

      attempt_valid :
          (left : ℕ) (a : A)
          → check r.text ≡ valid a
          → attempt left number messages tokens_in tokens_out
            ≡ accepted a record {
              attempts = number;
              raw_response = r.text;
              tokens_in = now_in;
              tokens_out = now_out;
            }
      unfolding attempt
      attempt_valid zero a v = ground (arith, e, v)
      attempt_valid (suc left) a v = ground (arith, e, v)

      attempt_last :
          (error : String)
          → check r.text ≡ invalid error
          → attempt zero number messages tokens_in tokens_out ≡ gave_up number error r.text
      unfolding attempt
      attempt_last error v = ground (arith, e, v)

      attempt_again :
          (left : ℕ) (error : String)
          → check r.text ≡ invalid error
          → attempt (suc left) number messages tokens_in tokens_out
            ≡ attempt left (suc number) (repaired messages r.text error) now_in now_out
      unfolding attempt
      attempt_again left error v = ground (arith, e, v)

  -- It is enough to explain what follows a rejected answer.
  attempt-IsExplained_by_rejection :
      (left n : ℕ) (first_ones messages : List Message) (tokens_in tokens_out : Option ℕ)
      → Conversation first_ones n messages
      → ((r : Response) (error : String)
          → respond messages ≡ answered r
          → check r.text ≡ invalid error
          → IsExplained
              (n + suc left)
              first_ones
              (attempt left (suc n) messages tokens_in tokens_out))
      → IsExplained (n + suc left) first_ones (attempt left (suc n) messages tokens_in tokens_out)
  attempt-IsExplained_by_rejection left n first_ones messages tokens_in tokens_out c follow =
      elim (answer_cases (respond messages)) [
        | inr (error, e) ↦
            rw (attempt_raised (suc n) messages tokens_in tokens_out left error e)
              (n, messages, c, e, omega arith)
        | inl (r, e) ↦ elim (checked_cases (check r.text)) [
          | inl (a, v) ↦
              rw (attempt_valid (suc n) messages tokens_in tokens_out r e left a v)
                (n, messages, r, c, e, v, refl, refl, omega arith)
          | inr (error, v) ↦ follow r error e v
        ]
      ]

  attempt-IsExplained :
      (left n : ℕ) (first_ones messages : List Message) (tokens_in tokens_out : Option ℕ)
      → Conversation first_ones n messages
      → IsExplained (n + suc left) first_ones (attempt left (suc n) messages tokens_in tokens_out)
  attempt-IsExplained zero n first_ones messages tokens_in tokens_out c =
      attempt-IsExplained_by_rejection zero n first_ones messages tokens_in tokens_out c
        (λ r error e v.
          rw (attempt_last (suc n) messages tokens_in tokens_out r e error v)
            (n, messages, r, c, e, refl, v, refl, omega arith))
  attempt-IsExplained (suc left) n first_ones messages tokens_in tokens_out c =
      attempt-IsExplained_by_rejection (suc left) n first_ones messages tokens_in tokens_out c
        (λ r error e v.
          let now = repaired messages r.text error in
          let now_in = or_before r.tokens_in tokens_in in
          let now_out = or_before r.tokens_out tokens_out in
          let next : Conversation first_ones (suc n) now = rejected n messages r error c e v in
          rw (attempt_again (suc n) messages tokens_in tokens_out r e left error v) (
            subst (λ k. IsExplained k first_ones (attempt left (suc (suc n)) now now_in now_out))
              (omega arith) (attempt-IsExplained left (suc n) first_ones now now_in now_out next)))

  -- A structured call starts from the system's content and the payload and ends in one of three ways, each
  -- reached by appending every rejected answer and its error to the conversation: it accepts the first
  -- answer that validates, within the allowed attempts, and reports which one that was; or it gives up
  -- when the answer to the last allowed attempt is rejected too, and reports that answer with its error;
  -- or it passes on the error of a call of the model. Allowed are one attempt and the retries, two where
  -- the provider says nothing of them.
  pub invoke_structured-IsExplained :
      (max_retries : Option ℕ) (system_content payload : String)
      → IsExplained
          (suc (elim max_retries [ none ↦ 2 | some retries ↦ retries ]))
          (system system_content ∷ human payload ∷ [])
          (invoke_structured max_retries system_content payload)
  unfolding invoke_structured max_attempts_of
  invoke_structured-IsExplained max_retries system_content payload =
      let ones = first_messages system_content payload in
      let left = max_attempts_of max_retries - 1 in
      let explained : IsExplained (0 + suc left) ones (attempt left 1 ones none none) =
        attempt-IsExplained left 0 ones ones none none begin in
      subst (λ k. IsExplained k ones (attempt left 1 ones none none)) (ground arith) explained

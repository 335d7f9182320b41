-- ===== src/Conversation/Exchanges.antt =====
-- A request, its answer, and what the client makes of the answer.
use verteilte_systeme_bbps.Prelude.{
  Option, throws-ne-ok, undefined-ne-ok, ok-injective, Bool, Bool-cases, Option-cases, inl, inr, ℕ,
  zero, suc, ◌<◌, ◌≤◌, ◌≡◌, ◌≢◌, refl, sym, ap, subst, ◌∙◌, true, false, List, [], ◌∷◌, ◌++◌,
  append-nil, length, All, some, Text, codes, ℤ, nat_eq, if◌then◌else◌, Outcome, ok, throws,
  undefined, arith,
}
use verteilte_systeme_bbps.Std.Decimal.{to_string_ℕ}
use verteilte_systeme_bbps.Protocol.Identifiers.{CommandIdentifiers, Statuscode}
use verteilte_systeme_bbps.Protocol.Json.{Json, IsLawful}
use verteilte_systeme_bbps.Protocol.Command.{Command, is_valid}
use verteilte_systeme_bbps.Protocol.Command
use verteilte_systeme_bbps.Protocol.Command.RoundTrip.{
  filled, IsFilled, Sent, deserialize-serialize,
}
use verteilte_systeme_bbps.Protocol.Response.{
  Response, new_response, set_status_code, response_dictionary,
}
use verteilte_systeme_bbps.Protocol.Response.Codec
use verteilte_systeme_bbps.Protocol.Response.Codec.Answers.{answered, IsAnswer, IsNamed}
use verteilte_systeme_bbps.Protocol.Response.Codec.RoundTrip.{deserialize-serialize_response}
use verteilte_systeme_bbps.Server.State.{Server}
use verteilte_systeme_bbps.Server.Invariant.{Returns}
use verteilte_systeme_bbps.Server.Invariant.Subscribing.{respond}
use verteilte_systeme_bbps.Server.Dispatch.{
  buffer_size, take, switch_command, answer, handle_approaching_client,
}
use verteilte_systeme_bbps.Server.Dispatch.Answers.{answer_command}
use verteilte_systeme_bbps.Client.{Exchange, catch_runtime_error, read_response, send_message}
use verteilte_systeme_bbps.Client.Log.{
  Logged, log_response, status_text, is_success, parameters_text,
}
use verteilte_systeme_bbps.Client.Received.{c_string-fits, until_zero_whole}

take_all : (n : ℕ) (s : Text) → length s ≤ n → take n s ≡ s
take_all zero [] h = refl
take_all zero (c ∷ s) h = absurd (omega arith)
take_all (suc n) [] h = refl
take_all (suc n) (c ∷ s) h = ap (λ t. c ∷ t) (take_all n s (omega arith))

-- What a call returned.
Returned :
    (P : Response → Server → Type 0) (o : Outcome (Response × Server))
    → Returns P o
    → (r : Response) × (s : Server) × (o ≡ ok (r, s)) × P r s
Returned P (ok (r, s)) h = (r, s, refl, h)
Returned P (throws e) h = absurd h
Returned P undefined h = absurd h

-- The line for a response with that status and no arguments.
abbrev pub line : Text → Text → Statuscode → Text
line sender_ip sender_port status =
    (codes "Received response from: " ++ (sender_ip ++ (codes ":" ++ (sender_port ++ codes "\n"))))
    ++ (codes "Status: " ++ status_text status)

abbrev pub reported : Text → Text → Statuscode → Logged
reported sender_ip sender_port status =
    if is_success status
    then Logged.info (line sender_ip sender_port status)
    else Logged.error (line sender_ip sender_port status)

logged_cases :
    (b : Bool) (s : Text)
    → elim b as (λ _. Outcome Logged) [
      | true ↦ ok (Logged.info (s ++ []))
      | false ↦ ok (Logged.error s)
    ]
      ≡ ok (if b then Logged.info s else Logged.error s)
logged_cases true s = ap (λ t. ok (Logged.info t)) (append-nil s)
logged_cases false s = refl

-- A response without arguments is logged with its status.
pub log_response-answered :
    (format_time : ℤ → Option Text) (sender_ip sender_port : Text) (id : CommandIdentifiers)
    (status : Statuscode)
    → IsAnswer id []
    → log_response format_time sender_ip sender_port (answered id status [])
      ≡ ok (reported sender_ip sender_port status)
unfolding log_response parameters_text response_dictionary
log_response-answered format_time sender_ip sender_port _ status IsAnswer.subscribe_answer =
    logged_cases (is_success status) _
log_response-answered format_time sender_ip sender_port _ status IsAnswer.unsubscribe_answer =
    logged_cases (is_success status) _
log_response-answered format_time sender_ip sender_port _ status IsAnswer.publish_answer =
    logged_cases (is_success status) _

pub respond-answered :
    (id : CommandIdentifiers) (status : Statuscode)
    → IsAnswer id []
    → respond id status ≡ answered id status []
unfolding set_status_code new_response response_dictionary
respond-answered _ status IsAnswer.subscribe_answer = refl
respond-answered _ status IsAnswer.unsubscribe_answer = refl
respond-answered _ status IsAnswer.publish_answer = refl

module _ (J : Json) (L : IsLawful J) where
  request-no_zero :
      (c : Command) (request : Text) → Command.serialize J c ≡ ok request → All (λ b. b ≢ 0) request
  unfolding Command.serialize
  request-no_zero c request e = elim (Bool-cases (is_valid c)) [
    | inl valid ↦ subst (All (λ b. b ≢ 0)) (ok-injective _ _ (rw valid at e)) (L.write_no_zero _)
    | inr bad ↦ absurd (throws-ne-ok _ request (rw bad at e))
  ]

  response-no_zero :
      (r : Response) (response : Text)
      → Codec.serialize J r ≡ ok response
      → All (λ b. b ≢ 0) response
  unfolding Codec.serialize
  response-no_zero r response e = elim (Option-cases r.status_code) [
    | inl unset ↦ absurd (undefined-ne-ok response (rw unset at e))
    | inr (code, set) ↦
        subst (All (λ b. b ≢ 0)) (ok-injective _ _ (rw set at e)) (L.write_no_zero _)
  ]

  -- What is serialized is read back.
  request-reads :
      (id : CommandIdentifiers) (texts : List Text) (request : Text)
      → IsFilled J L id texts
      → All (Sent J L) texts
      → Command.serialize J (filled id texts) ≡ ok request
      → Command.deserialize J request ≡ ok (filled id texts)
  request-reads id texts request shape sent e =
      let (s, written, read) = deserialize-serialize J L id texts shape sent in
      subst (λ t. Command.deserialize J t ≡ ok (filled id texts))
        (ok-injective s request (sym written ∙ e)) read

  response-reads :
      (id : CommandIdentifiers) (status : Statuscode) (k : ℕ) (answers : List Text)
      (response : Text)
      → IsAnswer id answers
      → All L.IsPlain answers
      → IsNamed status k
      → Codec.serialize J (answered id status answers) ≡ ok response
      → Codec.deserialize J id response ≡ ok (answered id status answers)
  response-reads id status k answers response shape plain named e =
      let (s, written, read) =
        deserialize-serialize_response J L status k named id answers shape plain in
      subst (λ t. Codec.deserialize J id t ≡ ok (answered id status answers))
        (ok-injective s response (sym written ∙ e)) read

  -- The client's side.
  pub send_message-answered :
      (format_time : ℤ → Option Text) (id : CommandIdentifiers) (texts : List Text) (request : Text)
      (status : Statuscode) (k : ℕ) (answers : List Text) (response sender_ip : Text)
      (sender_port : ℕ) (l : Logged)
      → Command.serialize J (filled id texts) ≡ ok request
      → IsAnswer id answers
      → All L.IsPlain answers
      → IsNamed status k
      → Codec.serialize J (answered id status answers) ≡ ok response
      → log_response format_time sender_ip (to_string_ℕ sender_port) (answered id status answers)
        ≡ ok l
      → length response < 2048
      → send_message J format_time
          (Exchange.received response sender_ip sender_port)
          (filled id texts)
        ≡ ok (record { sent = some request; logged = some l })
  unfolding send_message read_response catch_runtime_error
  send_message-answered format_time id texts request status k answers response sender_ip sender_port
        l written shape plain named answer_text logged fits =
      rw (written, send_message)
        (rw
          (c_string-fits 2048 response
            (response-no_zero (answered id status answers) response answer_text) fits)
          (rw (response-reads id status k answers response shape plain named answer_text) (
            rw logged (
              rw (until_zero_whole request (request-no_zero (filled id texts) request written))
                refl))))

  -- The server's side.
  pub handle_approaching_client-answered :
      (now later : ℕ) (ip : Text) (s : Server) (id : CommandIdentifiers) (texts : List Text) (b : ℕ)
      (pending : Text) (status : Statuscode) (answers : List Text) (response : Text)
      (Q : Server → Type 0)
      → Command.serialize J (filled id texts) ≡ ok (b ∷ pending)
      → IsFilled J L id texts
      → All (Sent J L) texts
      → length (b ∷ pending) ≤ buffer_size
      → Codec.serialize J (answered id status answers) ≡ ok response
      → Returns
          (λ r s'. (r ≡ answered id status answers) × Q s')
          (switch_command now later ip (filled id texts) id s)
      → (s' : Server) × (handle_approaching_client J now later ip (b ∷ pending) s
          ≡ ok (some response, s'))
        × Q s'
  unfolding handle_approaching_client
  handle_approaching_client-answered now later ip s id texts b pending status answers response Q
        written shape sent fits answer_text handled =
      let read = request-reads id texts (b ∷ pending) shape sent written in
      let (r, s', e, (same, q)) = Returned _ (answer J now later ip (b ∷ pending) s) (
        answer_command J now later ip s (λ r s'. (r ≡ answered id status answers) × Q s')
          (b ∷ pending) (filled id texts) read handled) in
      let serialized : Codec.serialize J r ≡ ok response =
        ap (Codec.serialize J) same ∙ answer_text in
      (
        s',
        rw (take_all buffer_size (b ∷ pending) fits, handle_approaching_client)
            (rw e (rw serialized refl)),
        q,
      )

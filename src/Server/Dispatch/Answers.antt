-- ===== src/Server/Dispatch/Answers.antt =====
-- Requests from the bytes that a client sends to the answer: `Command::deserialize`, the `switch` and
-- the handlers together.
use verteilte_systeme_bbps.Prelude.{
  ◌⊎◌, inl, inr, ok-injective, bind-ok, Option, none, some, sym, ap, refl, ◌≡◌, ◌≢◌, [], ◌∷◌, Text,
  ℕ, ok, ◌<◌, ◌^◌, ℤ, pos, Outcome, throws, undefined,
}
use verteilte_systeme_bbps.Std.Decimal.{to_string, to_string_ℕ}
use verteilte_systeme_bbps.Std.Decimal.RoundTrip.{
  stoi-to_string, to_string_ℕ-ascii, to_string_ℕ-ne-nil,
}
use verteilte_systeme_bbps.Protocol.Identifiers.{CommandIdentifiers, Statuscode, parameter_eq}
use verteilte_systeme_bbps.Protocol.Json.{Json, IsLawful}
use verteilte_systeme_bbps.Protocol.Command.{Command, get_command_argument}
use verteilte_systeme_bbps.Protocol.Command
use verteilte_systeme_bbps.Protocol.Command.RoundTrip.{filled, IsFilled, deserialize-serialize}
use verteilte_systeme_bbps.Protocol.Response.{Response, empty_response, set_status_code}
use verteilte_systeme_bbps.Server.State.{Server}
use verteilte_systeme_bbps.Server.Invariant.{Returns, Invariant}
use verteilte_systeme_bbps.Server.Invariant.Subscribing.{respond}
use verteilte_systeme_bbps.Server.Directory.{view, subscribe_spec, publish_spec}
use verteilte_systeme_bbps.Server.Directory.Subscribing.{handle_subscribe_request_refines}
use verteilte_systeme_bbps.Server.Directory.Publishing.{handle_publish_request_refines}
use verteilte_systeme_bbps.Server.Dispatch.{
  switch_command, catch_all, answer, take, buffer_size, handle_approaching_client,
}
use verteilte_systeme_bbps.Protocol.Response.Codec

catch_all-Returns :
    (P : Response → Server → Type 0) (s : Server) (o : Outcome (Response × Server))
    → Returns P o
    → Returns P (catch_all s o)
catch_all-Returns P s (ok (r, s')) h = h
catch_all-Returns P s (throws e) h = absurd h
catch_all-Returns P s undefined h = absurd h

module _ (J : Json) (now later : ℕ) (ip : Text) (s : Server) where
  -- Bytes that the JSON library does not parse are answered by an internal error, and change
  -- nothing.
  pub answer-garbage :
      (received : Text)
      → J.parse received ≡ ok none
      → answer J now later ip received s
        ≡ ok (set_status_code Statuscode.internal_error empty_response, s)
  unfolding answer Command.deserialize
  answer-garbage received e = rw (e, Command.deserialize) refl

  answer-unnamed :
      (received : Text) (c : Command) (n : ℤ)
      → Command.deserialize J received ≡ ok c
      → c.command_identifier ≡ CommandIdentifiers.unnamed n
      → answer J now later ip received s ≡ ok (empty_response, s)
  unfolding answer switch_command
  answer-unnamed received c n e id = rw e (rw id refl)

  -- If the bytes that `recv` delivers are read as a command whose identifier is none of the five,
  -- the status code of the answer is never set, and the answer is then written from it: the
  -- behaviour is undefined.
  pub handle_approaching_client-unnamed :
      (b : ℕ) (pending : Text) (c : Command) (n : ℤ)
      → Command.deserialize J (take buffer_size (b ∷ pending)) ≡ ok c
      → c.command_identifier ≡ CommandIdentifiers.unnamed n
      → handle_approaching_client J now later ip (b ∷ pending) s ≡ undefined
  unfolding handle_approaching_client Codec.serialize empty_response
  handle_approaching_client-unnamed b pending c n e id =
      rw (answer-unnamed (take buffer_size (b ∷ pending)) c n e id, handle_approaching_client) refl

  pub answer_command :
      (P : Response → Server → Type 0) (received : Text) (c : Command)
      → Command.deserialize J received ≡ ok c
      → Returns P (switch_command now later ip c c.command_identifier s)
      → Returns P (answer J now later ip received s)
  unfolding answer
  answer_command P received c e h =
      rw e (catch_all-Returns P s (switch_command now later ip c c.command_identifier s) h)

module _ (J : Json) (L : IsLawful J) (now later : ℕ) (ip : Text) (s : Server) (v : Invariant s)
    (name : Text) (named : name ≢ []) (plain : L.IsPlain name) where
  -- If the JSON library is lawful, the server's objects are in order, the topic's name is neither
  -- empty nor beyond what JSON carries, and the port is below 2 ^ 31: the command to subscribe
  -- with that name and port is serialized, and what was written is answered as the directory's
  -- specification of subscribing says for the client's address and that port, which also gives
  -- the directory afterwards.
  pub answer-subscribe :
      (port : ℕ)
      → port < 2 ^ 31
      → (received : Text) × (Command.serialize J
            (filled CommandIdentifiers.subscribe (name ∷ to_string (pos port) ∷ []))
          ≡ ok received)
        × (let (status, d) =
              subscribe_spec now (record { address = ip; port = pos port }) name (view s) in
            Returns
              (λ response s'.
                (response ≡ respond CommandIdentifiers.subscribe status) × (view s' ≡ d))
              (answer J now later ip received s))
  unfolding switch_command get_command_argument parameter_eq to_string Command.command_dictionary
  answer-subscribe port small =
      let (received, written, read) =
        deserialize-serialize J L CommandIdentifiers.subscribe (name ∷ to_string (pos port) ∷ [])
          (IsFilled.subscribe_filled name (to_string (pos port)))
          (
            (named, plain),
            (
              (
                to_string_ℕ-ne-nil port,
                L.ascii-IsPlain (to_string_ℕ port) (to_string_ℕ-ascii port),
              ),
              tt,
            ),
          ) in
      (
        received,
        written,
        answer_command J now later ip s _ received _ read (
            rw (stoi-to_string port small)
              (handle_subscribe_request_refines now later ip (pos port) name s v)),
      )

  -- If the JSON library is lawful, the server's objects are in order, and the topic's name and
  -- the message are neither empty nor beyond what JSON carries: the command to publish them is
  -- serialized, and what was written is answered as the directory's specification of publishing
  -- says, which also gives the directory afterwards.
  pub answer-publish :
      (message : Text)
      → message ≢ []
      → L.IsPlain message
      → (received : Text) × (Command.serialize J
            (filled CommandIdentifiers.publish (name ∷ message ∷ []))
          ≡ ok received)
        × (let (status, d) = publish_spec now message name (view s) in
            Returns
              (λ response s'.
                (response ≡ respond CommandIdentifiers.publish status) × (view s' ≡ d))
              (answer J now later ip received s))
  unfolding switch_command get_command_argument parameter_eq Command.command_dictionary
  answer-publish message some_text plain_message =
      let (received, written, read) =
        deserialize-serialize J L CommandIdentifiers.publish (name ∷ message ∷ [])
          (IsFilled.publish_filled name message)
          ((named, plain), ((some_text, plain_message), tt)) in
      (
        received,
        written,
        answer_command J now later ip s _ received _ read
            (handle_publish_request_refines s v name now later message),
      )

-- The handler returns: nothing arrived, or the block under `try` came to a response, which was
-- written.
pub handle_approaching_client-cases :
    (J : Json) (now later : ℕ) (ip received : Text) (s s' : Server) (text : Option Text)
    → handle_approaching_client J now later ip received s ≡ ok (text, s')
    → ((received ≡ []) × (text ≡ none) × (s' ≡ s))
      ⊎ ((response : Response) × (t : Text) × (answer J now later ip (take buffer_size received) s
            ≡ ok (response, s'))
          × (Codec.serialize J response ≡ ok t)
          × (received ≢ [])
          × (text ≡ some t))
unfolding handle_approaching_client
handle_approaching_client-cases J now later ip [] s s' text h =
    let e = ok-injective (none, s) (text, s') h in
    inl (refl, sym (ap (λ p. p.0) e), sym (ap (λ p. p.1) e))
handle_approaching_client-cases J now later ip (c ∷ pending) s s' text h =
    let ((response, server), e, f) =
      bind-ok (answer J now later ip (take buffer_size (c ∷ pending)) s) _ (text, s') h in
    let (t, e', g) = bind-ok (Codec.serialize J response) _ (text, s') f in
    let same = ok-injective (some t, server) (text, s') g in
    inr (response, t, rw (← ap (λ p. p.1) same) e, e', (λ k. cc), sym (ap (λ p. p.0) same))

-- ===== src/Conversation/Sessions.antt =====
-- A client that is started to subscribe to a topic, until it has ended, and the server's answers.
use verteilte_systeme_bbps.Prelude.{
  List, Option, ℕ, ◌<◌, ◌≤◌, ◌^◌, ◌≡◌, ◌≢◌, refl, ◌∙◌, ap, true, [], ◌∷◌, length, some, Text, codes,
  ℤ, pos, text_eq, ok, ==_self,
}
use verteilte_systeme_bbps.Std.Decimal.{to_string_ℕ}
use verteilte_systeme_bbps.Protocol.Identifiers.{CommandIdentifiers, Statuscode}
use verteilte_systeme_bbps.Protocol.Json.{Json, IsLawful}
use verteilte_systeme_bbps.Protocol.Command
use verteilte_systeme_bbps.Protocol.Response.Codec
use verteilte_systeme_bbps.Protocol.Response.Codec.Answers.{answered}
use verteilte_systeme_bbps.Server.State.{Server, ClientConnection, connection_eq}
use verteilte_systeme_bbps.Server.Memory.{Ptr}
use verteilte_systeme_bbps.Server.Invariant.{Invariant}
use verteilte_systeme_bbps.Server.Requests.{find_connection}
use verteilte_systeme_bbps.Server.Directory.{
  Directory, view, subscribe_spec, unsubscribe_first_spec,
}
use verteilte_systeme_bbps.Server.Dispatch.{buffer_size, handle_approaching_client}
use verteilte_systeme_bbps.Client.{
  Exchange, subscribe_command, unsubscribe_command, erase_topic, unsubscribe, subscribe_topic,
  Effect, unsubscribe_all,
}
use verteilte_systeme_bbps.Client.Arguments.{is_topic_argument}
use verteilte_systeme_bbps.Client.Arguments.Commands.{parse-subscribe}
use verteilte_systeme_bbps.Client.Messages.{Reception, handle_messages}
use verteilte_systeme_bbps.Client.Log.{Logged}
use verteilte_systeme_bbps.Client.Program.{
  Opening, new_client, for_topics, execute, delete_client, run_options, run_client, main,
}
use verteilte_systeme_bbps.Conversation.Exchanges.{reported}
use verteilte_systeme_bbps.Conversation.Returning.{subscribe_topic-Returns}
use verteilte_systeme_bbps.Conversation.Handled.{subscribed_client}
use verteilte_systeme_bbps.Conversation.Unsubscribing.{unsubscribe-handle_approaching_client}

erase_topic-only : (name : Text) → erase_topic name (name ∷ []) ≡ []
unfolding erase_topic
erase_topic-only name = rw (==_self name) refl

-- The program's run, from what its two exchanges come to.
main-two :
    (J : Json) (format_time : ℤ → Option Text) (exchanges : ℕ → Exchange) (port : ℕ) (name : Text)
    (subscribing unsubscribing : Effect) (receptions : List Reception) (messages : List Logged)
    → handle_messages J format_time receptions ≡ ok messages
    → is_topic_argument name ≡ ok true
    → subscribe_topic J format_time
        (exchanges 0)
        name
        (record { port = pos port; subscribed_topics = [] })
      ≡ ok (subscribing, record { port = pos port; subscribed_topics = name ∷ [] })
    → unsubscribe J format_time
        (exchanges 1)
        name
        (record { port = pos port; subscribed_topics = name ∷ [] })
      ≡ ok (
        unsubscribing,
        record { port = pos port; subscribed_topics = erase_topic name (name ∷ []) },
      )
    → main J format_time exchanges (Opening.bound port) receptions (codes "--subscribe" ∷ name ∷ [])
      ≡ ok (
          some (record {
            exit_code = 0;
            effects = subscribing ∷ unsubscribing ∷ [];
            messages = messages;
          }))
unfolding main run_client new_client run_options execute for_topics delete_client unsubscribe_all
    text_eq
main-two J format_time exchanges port name subscribing unsubscribing receptions messages received
      argument first second =
    rw (parse-subscribe name [] (argument, tt), main)
      (rw received (rw first (rw second (rw (erase_topic-only name) refl))))

-- What subscribing and then unsubscribing comes to: both status codes, and the directory.
abbrev pub session_spec :
    ℕ → ClientConnection → Text → Directory → Statuscode × Statuscode × Directory
session_spec now client name d =
    let (status, d') = subscribe_spec now client name d in
    let (status', d'') = unsubscribe_first_spec name d' in (status, status', d'')

module _ (J : Json) (L : IsLawful J) (format_time : ℤ → Option Text) (now later : ℕ) (ip : Text)
    (s : Server) (v : Invariant s) (name : Text) (named : name ≢ []) (plain : L.IsPlain name)
    (argument : is_topic_argument name ≡ ok true) (sender_ip : Text) (sender_port : ℕ) where
  -- If the JSON library is lawful, the server's objects are in order, the topic's name is not
  -- empty, has no dash at its first or second place and is not beyond what JSON carries, the
  -- client's socket is bound to a port below 2 ^ 31, its thread for messages runs on what it
  -- receives without an exception or undefined behaviour, the bytes of its two requests fit the
  -- server's buffer and those of the responses the client's, and its first two exchanges are with
  -- that server: the program that is started with `--subscribe` and the topic subscribes,
  -- unsubscribes when it ends, and exits with code 0 after exactly these two exchanges.
  -- `handleApproachingClient` answers the one and then the other as the specifications of
  -- subscribing and of unsubscribing the first subscriber say, which also give the directory
  -- afterwards, and the program logs both status codes.
  pub main-session :
      (port : ℕ) (exchanges : ℕ → Exchange) (b c : ℕ) (asked asked' response response' : Text)
      (now' later' : ℕ) (receptions : List Reception) (messages : List Logged)
      → handle_messages J format_time receptions ≡ ok messages
      → port < 2 ^ 31
      → length (b ∷ asked) ≤ buffer_size
      → length (c ∷ asked') ≤ buffer_size
      → length response < 2048
      → length response' < 2048
      → Command.serialize J (subscribe_command (pos port) name) ≡ ok (b ∷ asked)
      → Command.serialize J (unsubscribe_command (pos port) name) ≡ ok (c ∷ asked')
      → Codec.serialize J (
          answered CommandIdentifiers.subscribe
            (session_spec now (record { address = ip; port = pos port }) name (view s)).0
            [])
        ≡ ok response
      → Codec.serialize J (
          answered CommandIdentifiers.unsubscribe
            (session_spec now (record { address = ip; port = pos port }) name (view s)).1
            [])
        ≡ ok response'
      → exchanges 0 ≡ Exchange.received response sender_ip sender_port
      → exchanges 1 ≡ Exchange.received response' sender_ip sender_port
      → let (status, status', d') =
          session_spec now (record { address = ip; port = pos port }) name (view s) in
        (s₁ s₂ : Server) × (handle_approaching_client J now later ip (b ∷ asked) s
          ≡ ok (some response, s₁))
        × (handle_approaching_client J now' later' ip (c ∷ asked') s₁ ≡ ok (some response', s₂))
        × (view s₂ ≡ d')
        × (main J format_time exchanges
              (Opening.bound port)
              receptions
              (codes "--subscribe" ∷ name ∷ [])
            ≡ ok (
                some (record {
                  exit_code = 0;
                  effects =
                      record {
                        sent = some (b ∷ asked);
                        logged = some (reported sender_ip (to_string_ℕ sender_port) status);
                      }
                      ∷ record {
                        sent = some (c ∷ asked');
                        logged = some (reported sender_ip (to_string_ℕ sender_port) status');
                      }
                      ∷ [];
                  messages = messages;
                })))
  main-session port exchanges b c asked asked' response response' now' later' receptions messages
        received small fits fits' response_fits response_fits' written written' answer answer' first
        second =
      let client : ClientConnection = record { address = ip; port = pos port } in
      let (_, d) = subscribe_spec now client name (view s) in
      let (s₁, e, (seen, sound, (q, known)), subscribed) =
        subscribe_topic-Returns J L format_time now later ip s name named plain sender_ip
          sender_port b asked response fits response_fits port []
          (λ s'.
            (view s' ≡ d)
            × Invariant s'
            × ((q : Ptr) × (find_connection ip (pos port) s'.client_connections ≡ some q)))
          small written answer (subscribed_client now later name ip (pos port) s v) in
      let (s₂, e', seen', unsubscribed) =
        unsubscribe-handle_approaching_client J L format_time now' later' ip s₁ sound name named
          plain sender_ip sender_port c asked' response' fits' response_fits' port (name ∷ []) q
          small known written' (rw seen answer') in
      (
        s₁,
        s₂,
        e,
        e',
        seen' ∙ ap (λ d. (unsubscribe_first_spec name d).1) seen,
        main-two J format_time exchanges port name _ _ receptions messages received argument
            (rw first subscribed) (rw second (rw seen at unsubscribed)),
      )

-- ===== src/Conversation/Unsubscribing.antt =====
-- Unsubscribing, from the client's call to its log.
use verteilte_systeme_bbps.Prelude.{
  Option, ℕ, ◌<◌, ◌≤◌, ◌^◌, ◌≡◌, ◌≢◌, List, [], ◌∷◌, length, some, Text, ℤ, pos, ok,
}
use verteilte_systeme_bbps.Std.Decimal.{to_string, to_string_ℕ}
use verteilte_systeme_bbps.Std.Decimal.RoundTrip.{stoi-to_string}
use verteilte_systeme_bbps.Protocol.Identifiers.{CommandIdentifiers, parameter_eq}
use verteilte_systeme_bbps.Protocol.Json.{Json, IsLawful}
use verteilte_systeme_bbps.Protocol.Command.{
  Command, new_command, set_command_argument, get_command_argument,
}
use verteilte_systeme_bbps.Protocol.Command
use verteilte_systeme_bbps.Protocol.Command.RoundTrip.{IsFilled}
use verteilte_systeme_bbps.Protocol.Response.Codec
use verteilte_systeme_bbps.Protocol.Response.Codec.Answers.{answered, IsAnswer}
use verteilte_systeme_bbps.Server.State.{connection_eq, Server}
use verteilte_systeme_bbps.Server.Memory.{Ptr}
use verteilte_systeme_bbps.Server.Requests.{find_connection}
use verteilte_systeme_bbps.Server.Invariant.{Invariant}
use verteilte_systeme_bbps.Server.Directory.{view, unsubscribe_first_spec}
use verteilte_systeme_bbps.Server.Directory.Unsubscribing.{handle_unsubscribe_request_lem}
use verteilte_systeme_bbps.Server.Dispatch.{buffer_size, switch_command, handle_approaching_client}
use verteilte_systeme_bbps.Client.{Exchange, unsubscribe_command, unsubscribe, erase_topic}
use verteilte_systeme_bbps.Conversation.Exchanges.{reported}
use verteilte_systeme_bbps.Conversation.Sent.{
  unsubscribe_first_spec-Named, unsubscribe_command-filled, unsubscribe-sent,
}
use verteilte_systeme_bbps.Conversation.Together.{
  to_string-Sent, handle_approaching_client-send_message,
}

module _ (J : Json) (L : IsLawful J) (format_time : ℤ → Option Text) (now later : ℕ) (ip : Text)
    (s : Server) (v : Invariant s) (name : Text) (named : name ≢ []) (plain : L.IsPlain name)
    (sender_ip : Text) (sender_port : ℕ) (b : ℕ) (pending response : Text)
    (request_fits : length (b ∷ pending) ≤ buffer_size)
    (response_fits : length response < 2048) where
  -- If the JSON library is lawful, the server's objects are in order, the topic's name is neither
  -- empty nor beyond what JSON carries, the client's port is below 2 ^ 31 and the client has a
  -- connection, the bytes of the client's request fit the server's buffer and those of the
  -- response the client's: what `unsubscribe` sends is answered by `handleApproachingClient`,
  -- which takes the first subscriber from the topic, whoever it is, and the topic away with its
  -- last one, and the client then logs success, or invalid parameter if there is no such topic,
  -- and has the topic in its list no more.
  pub unsubscribe-handle_approaching_client :
      (port : ℕ) (topics : List Text) (client_ptr : Ptr)
      → port < 2 ^ 31
      → find_connection ip (pos port) s.client_connections ≡ some client_ptr
      → Command.serialize J (unsubscribe_command (pos port) name) ≡ ok (b ∷ pending)
      → Codec.serialize J
          (answered CommandIdentifiers.unsubscribe (unsubscribe_first_spec name (view s)).0 [])
        ≡ ok response
      → let (status, d) = unsubscribe_first_spec name (view s) in
        (s' : Server) × (handle_approaching_client J now later ip (b ∷ pending) s
          ≡ ok (some response, s'))
        × (view s' ≡ d)
        × (unsubscribe J format_time
              (Exchange.received response sender_ip sender_port)
              name
              (record { port = pos port; subscribed_topics = topics })
            ≡ ok (
              record {
                sent = some (b ∷ pending);
                logged = some (reported sender_ip (to_string_ℕ sender_port) status);
              },
              record { port = pos port; subscribed_topics = erase_topic name topics },
            ))
  unfolding switch_command get_command_argument parameter_eq to_string Command.command_dictionary
  unsubscribe-handle_approaching_client port topics client_ptr small known written answer =
      let (status, d) = unsubscribe_first_spec name (view s) in
      let (s', e, q, sent) =
        handle_approaching_client-send_message J L format_time now later ip s sender_ip sender_port
          b pending response request_fits response_fits CommandIdentifiers.unsubscribe
          (name ∷ to_string (pos port) ∷ []) (unsubscribe_command (pos port) name) status
          (λ s'. view s' ≡ d) (IsFilled.unsubscribe_filled name (to_string (pos port)))
          ((named, plain), (to_string-Sent J L port, tt)) IsAnswer.unsubscribe_answer
          (unsubscribe_first_spec-Named name (view s)) (unsubscribe_command-filled (pos port) name)
          written answer
          (rw (stoi-to_string port small)
            (handle_unsubscribe_request_lem s v name ip (pos port) client_ptr known)) in
      (
        s',
        e,
        q,
        unsubscribe-sent J format_time (Exchange.received response sender_ip sender_port) name
            (record { port = pos port; subscribed_topics = topics }) _ sent,
      )

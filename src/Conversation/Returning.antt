-- ===== src/Conversation/Returning.antt =====
-- Subscribing and publishing: what the handler's call comes to, the exchange comes to.
use verteilte_systeme_bbps.Prelude.{
  Option, ℕ, ◌<◌, ◌≤◌, ◌^◌, ◌≡◌, ◌≢◌, List, [], ◌∷◌, ◌++◌, length, some, Text, ℤ, pos, ok,
}
use verteilte_systeme_bbps.Std.Decimal.{to_string, to_string_ℕ}
use verteilte_systeme_bbps.Std.Decimal.RoundTrip.{stoi-to_string}
use verteilte_systeme_bbps.Protocol.Identifiers.{CommandIdentifiers, parameter_eq}
use verteilte_systeme_bbps.Protocol.Json.{Json, IsLawful}
use verteilte_systeme_bbps.Protocol.Command.{
  Command, new_command, set_command_argument, get_command_argument,
}
use verteilte_systeme_bbps.Protocol.Command
use verteilte_systeme_bbps.Protocol.Command.RoundTrip.{IsFilled}
use verteilte_systeme_bbps.Protocol.Response.Codec
use verteilte_systeme_bbps.Protocol.Response.Codec.Answers.{answered, IsAnswer}
use verteilte_systeme_bbps.Server.State.{ClientConnection, connection_eq, Server}
use verteilte_systeme_bbps.Server.Invariant.{Returns}
use verteilte_systeme_bbps.Server.Invariant.Subscribing.{respond}
use verteilte_systeme_bbps.Server.Requests.{handle_subscribe_request, handle_publish_request}
use verteilte_systeme_bbps.Server.Directory.{view, subscribe_spec, publish_spec}
use verteilte_systeme_bbps.Server.Dispatch.{buffer_size, switch_command, handle_approaching_client}
use verteilte_systeme_bbps.Client.{
  Client, Exchange, subscribe_command, publish_command, subscribe_topic, publish_topic,
}
use verteilte_systeme_bbps.Conversation.Exchanges.{reported}
use verteilte_systeme_bbps.Conversation.Sent.{
  subscribe_spec-Named, publish_spec-Named, subscribe_command-filled, publish_command-filled,
  subscribe_topic-sent, publish_topic-sent,
}
use verteilte_systeme_bbps.Conversation.Together.{
  to_string-Sent, handle_approaching_client-send_message,
}

module _ (J : Json) (L : IsLawful J) (format_time : ℤ → Option Text) (now later : ℕ) (ip : Text)
    (s : Server) (name : Text) (named : name ≢ []) (plain : L.IsPlain name) (sender_ip : Text)
    (sender_port : ℕ) (b : ℕ) (pending response : Text)
    (request_fits : length (b ∷ pending) ≤ buffer_size)
    (response_fits : length response < 2048) where
  -- What is true of the server after the handler's call is true of it after the exchange.
  pub subscribe_topic-Returns :
      (port : ℕ) (topics : List Text) (Q : Server → Type 0)
      → port < 2 ^ 31
      → Command.serialize J (subscribe_command (pos port) name) ≡ ok (b ∷ pending)
      → Codec.serialize J (
          answered CommandIdentifiers.subscribe
            (subscribe_spec now (record { address = ip; port = pos port }) name (view s)).0
            [])
        ≡ ok response
      → let (status, _) =
          subscribe_spec now (record { address = ip; port = pos port }) name (view s) in
        Returns
          (λ r s'. (r ≡ respond CommandIdentifiers.subscribe status) × Q s')
          (handle_subscribe_request now later ip (pos port) name s)
        → (s' : Server) × (handle_approaching_client J now later ip (b ∷ pending) s
            ≡ ok (some response, s'))
          × Q s'
          × (subscribe_topic J format_time
                (Exchange.received response sender_ip sender_port)
                name
                (record { port = pos port; subscribed_topics = topics })
              ≡ ok (
                record {
                  sent = some (b ∷ pending);
                  logged = some (reported sender_ip (to_string_ℕ sender_port) status);
                },
                record { port = pos port; subscribed_topics = topics ++ name ∷ [] },
              ))
  unfolding switch_command get_command_argument parameter_eq to_string Command.command_dictionary
  subscribe_topic-Returns port topics Q small written answer handled =
      let c : ClientConnection = record { address = ip; port = pos port } in
      let (status, _) = subscribe_spec now c name (view s) in
      let (s', e, q, sent) =
        handle_approaching_client-send_message J L format_time now later ip s sender_ip sender_port
          b pending response request_fits response_fits CommandIdentifiers.subscribe
          (name ∷ to_string (pos port) ∷ []) (subscribe_command (pos port) name) status Q
          (IsFilled.subscribe_filled name (to_string (pos port)))
          ((named, plain), (to_string-Sent J L port, tt)) IsAnswer.subscribe_answer
          (subscribe_spec-Named now c name (view s)) (subscribe_command-filled (pos port) name)
          written answer (rw (stoi-to_string port small) handled) in
      (
        s',
        e,
        q,
        subscribe_topic-sent J format_time (Exchange.received response sender_ip sender_port) name
            (record { port = pos port; subscribed_topics = topics }) _ sent,
      )

  pub publish_topic-Returns :
      (message : Text) (client : Client) (Q : Server → Type 0)
      → message ≢ []
      → L.IsPlain message
      → Command.serialize J (publish_command name message) ≡ ok (b ∷ pending)
      → Codec.serialize J
          (answered CommandIdentifiers.publish (publish_spec now message name (view s)).0 [])
        ≡ ok response
      → let (status, _) = publish_spec now message name (view s) in
        Returns
          (λ r s'. (r ≡ respond CommandIdentifiers.publish status) × Q s')
          (handle_publish_request now later name message s)
        → (s' : Server) × (handle_approaching_client J now later ip (b ∷ pending) s
            ≡ ok (some response, s'))
          × Q s'
          × (publish_topic J format_time
                (Exchange.received response sender_ip sender_port)
                name
                message
                client
              ≡ ok (
                record {
                  sent = some (b ∷ pending);
                  logged = some (reported sender_ip (to_string_ℕ sender_port) status);
                },
                client,
              ))
  unfolding switch_command get_command_argument parameter_eq Command.command_dictionary
  publish_topic-Returns message client Q some_text plain_message written answer handled =
      let (status, _) = publish_spec now message name (view s) in
      let (s', e, q, sent) =
        handle_approaching_client-send_message J L format_time now later ip s sender_ip sender_port
          b pending response request_fits response_fits CommandIdentifiers.publish
          (name ∷ message ∷ []) (publish_command name message) status Q
          (IsFilled.publish_filled name message) ((named, plain), ((some_text, plain_message), tt))
          IsAnswer.publish_answer (publish_spec-Named now message name (view s))
          (publish_command-filled name message) written answer handled in
      (
        s',
        e,
        q,
        publish_topic-sent J format_time (Exchange.received response sender_ip sender_port) name
            message client _ sent,
      )

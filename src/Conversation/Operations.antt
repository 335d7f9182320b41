-- ===== src/Conversation/Operations.antt =====
-- Subscribing and publishing, from the client's call to its log.
use verteilte_systeme_bbps.Prelude.{
  Option, ℕ, ◌<◌, ◌≤◌, ◌^◌, ◌≡◌, ◌≢◌, List, [], ◌∷◌, ◌++◌, length, some, Text, ℤ, pos, ok,
}
use verteilte_systeme_bbps.Std.Decimal.{to_string_ℕ}
use verteilte_systeme_bbps.Protocol.Identifiers.{CommandIdentifiers, parameter_eq}
use verteilte_systeme_bbps.Protocol.Json.{Json, IsLawful}
use verteilte_systeme_bbps.Protocol.Command.{
  Command, new_command, set_command_argument, get_command_argument,
}
use verteilte_systeme_bbps.Protocol.Command
use verteilte_systeme_bbps.Protocol.Response.Codec
use verteilte_systeme_bbps.Protocol.Response.Codec.Answers.{answered}
use verteilte_systeme_bbps.Server.State.{connection_eq, Server}
use verteilte_systeme_bbps.Server.Invariant.{Invariant}
use verteilte_systeme_bbps.Server.Directory.{view, subscribe_spec, publish_spec}
use verteilte_systeme_bbps.Server.Directory.Subscribing.{handle_subscribe_request_refines}
use verteilte_systeme_bbps.Server.Directory.Publishing.{handle_publish_request_refines}
use verteilte_systeme_bbps.Server.Dispatch.{buffer_size, handle_approaching_client}
use verteilte_systeme_bbps.Client.{
  Client, Exchange, subscribe_command, publish_command, subscribe_topic, publish_topic,
}
use verteilte_systeme_bbps.Conversation.Exchanges.{reported}
use verteilte_systeme_bbps.Conversation.Returning.{subscribe_topic-Returns, publish_topic-Returns}

module _ (J : Json) (L : IsLawful J) (format_time : ℤ → Option Text) (now later : ℕ) (ip : Text)
    (s : Server) (v : Invariant s) (name : Text) (named : name ≢ []) (plain : L.IsPlain name)
    (sender_ip : Text) (sender_port : ℕ) (b : ℕ) (pending response : Text)
    (request_fits : length (b ∷ pending) ≤ buffer_size)
    (response_fits : length response < 2048) where
  -- If the JSON library is lawful, the server's objects are in order, the topic's name is neither
  -- empty nor beyond what JSON carries, the client's port is below 2 ^ 31, the bytes of the
  -- client's request fit the server's buffer and those of the response the client's: what
  -- `subscribeTopic` sends is answered by `handleApproachingClient` as the directory's
  -- specification of subscribing says, which also gives the directory afterwards, and the client
  -- then logs the status of that specification and has the topic in its list.
  pub subscribe_topic-handle_approaching_client :
      (port : ℕ) (topics : List Text)
      → port < 2 ^ 31
      → Command.serialize J (subscribe_command (pos port) name) ≡ ok (b ∷ pending)
      → Codec.serialize J (
          answered CommandIdentifiers.subscribe
            (subscribe_spec now (record { address = ip; port = pos port }) name (view s)).0
            [])
        ≡ ok response
      → let (status, d) =
          subscribe_spec now (record { address = ip; port = pos port }) name (view s) in
        (s' : Server) × (handle_approaching_client J now later ip (b ∷ pending) s
          ≡ ok (some response, s'))
        × (view s' ≡ d)
        × (subscribe_topic J format_time
              (Exchange.received response sender_ip sender_port)
              name
              (record { port = pos port; subscribed_topics = topics })
            ≡ ok (
              record {
                sent = some (b ∷ pending);
                logged = some (reported sender_ip (to_string_ℕ sender_port) status);
              },
              record { port = pos port; subscribed_topics = topics ++ name ∷ [] },
            ))
  subscribe_topic-handle_approaching_client port topics small written answer =
      let (_, d) = subscribe_spec now (record { address = ip; port = pos port }) name (view s) in
      subscribe_topic-Returns J L format_time now later ip s name named plain sender_ip sender_port
        b pending response request_fits response_fits port topics (λ s'. view s' ≡ d) small written
        answer (handle_subscribe_request_refines now later ip (pos port) name s v)

  -- If the JSON library is lawful, the server's objects are in order, the topic's name and the
  -- message are neither empty nor beyond what JSON carries, the bytes of the client's request fit
  -- the server's buffer and those of the response the client's: what `publishTopic` sends is
  -- answered by `handleApproachingClient` as the directory's specification of publishing says,
  -- which also gives the directory afterwards, and the client then logs the status of that
  -- specification and is as it was.
  pub publish_topic-handle_approaching_client :
      (message : Text) (client : Client)
      → message ≢ []
      → L.IsPlain message
      → Command.serialize J (publish_command name message) ≡ ok (b ∷ pending)
      → Codec.serialize J
          (answered CommandIdentifiers.publish (publish_spec now message name (view s)).0 [])
        ≡ ok response
      → let (status, d) = publish_spec now message name (view s) in
        (s' : Server) × (handle_approaching_client J now later ip (b ∷ pending) s
          ≡ ok (some response, s'))
        × (view s' ≡ d)
        × (publish_topic J format_time
              (Exchange.received response sender_ip sender_port)
              name
              message
              client
            ≡ ok (
              record {
                sent = some (b ∷ pending);
                logged = some (reported sender_ip (to_string_ℕ sender_port) status);
              },
              client,
            ))
  publish_topic-handle_approaching_client message client some_text plain_message written answer =
      let (_, d) = publish_spec now message name (view s) in
      publish_topic-Returns J L format_time now later ip s name named plain sender_ip sender_port b
        pending response request_fits response_fits message client (λ s'. view s' ≡ d) some_text
        plain_message written answer (handle_publish_request_refines s v name now later message)

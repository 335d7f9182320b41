-- ===== src/Conversation/Programs.antt =====
-- The client's program, from its arguments on, and the server that answers it.
use verteilte_systeme_bbps.Prelude.{
  List, Option, ℕ, ◌<◌, ◌≤◌, ◌≡◌, ◌≢◌, refl, [], ◌∷◌, length, some, Text, codes, ℤ, pos, text_eq,
  ok,
}
use verteilte_systeme_bbps.Std.Decimal.{to_string_ℕ}
use verteilte_systeme_bbps.Protocol.Identifiers.{CommandIdentifiers}
use verteilte_systeme_bbps.Protocol.Json.{Json, IsLawful}
use verteilte_systeme_bbps.Protocol.Command
use verteilte_systeme_bbps.Protocol.Response.Codec
use verteilte_systeme_bbps.Protocol.Response.Codec.Answers.{answered}
use verteilte_systeme_bbps.Server.State.{Server}
use verteilte_systeme_bbps.Server.Invariant.{Invariant}
use verteilte_systeme_bbps.Server.Directory.{view, publish_spec}
use verteilte_systeme_bbps.Server.Dispatch.{buffer_size, handle_approaching_client}
use verteilte_systeme_bbps.Client.{Exchange, publish_command, unsubscribe_all}
use verteilte_systeme_bbps.Client.Arguments.{
  parse, parse_from, round, plain_round, command_round, publish_round,
}
use verteilte_systeme_bbps.Client.Messages.{Reception, handle_messages}
use verteilte_systeme_bbps.Client.Log.{Logged}
use verteilte_systeme_bbps.Client.Program.{
  Opening, new_client, front, last_argument, execute, delete_client, run_options, run_client, main,
}
use verteilte_systeme_bbps.Conversation.Exchanges.{reported}
use verteilte_systeme_bbps.Conversation.Operations.{publish_topic-handle_approaching_client}

module _ (J : Json) (L : IsLawful J) (format_time : ℤ → Option Text) (now later : ℕ) (ip : Text)
    (s : Server) (v : Invariant s) (name message : Text) (named : name ≢ [])
    (plain : L.IsPlain name) (some_text : message ≢ []) (plain_message : L.IsPlain message) where
  -- If the JSON library is lawful, the server's objects are in order, the topic's name and the
  -- message are neither empty nor beyond what JSON carries, the client's socket is bound, its
  -- thread for messages runs on what it receives without an exception or undefined behaviour, the
  -- bytes of the request fit the server's buffer and those of the response the client's, and the
  -- first exchange is with that server: the program that is started with `--publish`, the topic
  -- and the message exits with code 0 after exactly that exchange. `handleApproachingClient`
  -- answers its request as the specification of publishing says, which also gives the directory
  -- afterwards, and the program logs the status code.
  pub main-publish :
      (port : ℕ) (sender_ip : Text) (sender_port : ℕ) (b : ℕ) (pending response : Text)
      (exchanges : ℕ → Exchange) (receptions : List Reception) (messages : List Logged)
      → handle_messages J format_time receptions ≡ ok messages
      → length (b ∷ pending) ≤ buffer_size
      → length response < 2048
      → Command.serialize J (publish_command name message) ≡ ok (b ∷ pending)
      → Codec.serialize J
          (answered CommandIdentifiers.publish (publish_spec now message name (view s)).0 [])
        ≡ ok response
      → exchanges 0 ≡ Exchange.received response sender_ip sender_port
      → let (status, d) = publish_spec now message name (view s) in
        (s' : Server) × (handle_approaching_client J now later ip (b ∷ pending) s
          ≡ ok (some response, s'))
        × (view s' ≡ d)
        × (main J format_time exchanges
              (Opening.bound port)
              receptions
              (codes "--publish" ∷ name ∷ message ∷ [])
            ≡ ok (
                some (record {
                  exit_code = 0;
                  effects =
                      record {
                        sent = some (b ∷ pending);
                        logged = some (reported sender_ip (to_string_ℕ sender_port) status);
                      }
                      ∷ [];
                  messages = messages;
                })))
  unfolding main run_client new_client run_options execute delete_client front last_argument
      unsubscribe_all text_eq parse parse_from round plain_round command_round publish_round
  main-publish port sender_ip sender_port b pending response exchanges receptions messages received
        request_fits response_fits written answer exchanged =
      let (s', e, seen, published) =
        publish_topic-handle_approaching_client J L format_time now later ip s v name named plain
          sender_ip sender_port b pending response request_fits response_fits message
          (record { port = pos port; subscribed_topics = [] }) some_text plain_message written
          answer in
      (s', e, seen, rw (received, exchanged, main) (rw published refl))

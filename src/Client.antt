-- ===== src/Client.antt =====
-- client.cpp: what the client sends and what it remembers.
pub mod Address
pub mod Arguments
pub mod Log
pub mod Program
pub mod Received
pub mod Messages
pub mod Closing
use verteilte_systeme_bbps.Prelude.{
  ℕ, zero, suc, ◌+◌, ◌%◌, ◌^◌, Bool, true, false, List, [], ◌∷◌, ◌++◌, map, Option, none, some,
  Text, codes, ℤ, pos, nat_eq, text_eq, ◌==◌, length, if◌then◌else◌, Outcome, ok, throws, undefined,
  Exception, runtime_error, invalid_argument, out_of_range, json_error, ◌>>=◌,
}
use verteilte_systeme_bbps.Std.Decimal.{to_string, to_string_ℕ}
use verteilte_systeme_bbps.Protocol.Identifiers.{
  CommandIdentifiers, CommunicationParameters, parameter_eq,
}
use verteilte_systeme_bbps.Protocol.Json.{Json}
use verteilte_systeme_bbps.Protocol.Command.{Command, new_command, set_command_argument}
use verteilte_systeme_bbps.Protocol.Command
use verteilte_systeme_bbps.Protocol.Response.Codec
use verteilte_systeme_bbps.Client.Log.{Logged, log_response}

-- The fields that change. The addresses of the server and of the message socket are fixed by the
-- constructor.
pub record Client : Type 0 where
  pub port : ℤ
  pub subscribed_topics : List Text

-- What becomes of a connection to the server: a system call fails, or bytes are received from an
-- address.
pub data Exchange : Type 0 where
  no_socket no_connection not_sent no_response : Exchange
  received : (bytes : Text) (sender_ip : Text) (sender_port : ℕ) → Exchange

-- What went to the server, and what was logged for its response.
pub record Effect : Type 0 where
  pub sent : Option Text
  pub logged : Option Logged

-- `c_str()`: the text up to the first zero byte
unfoldable pub until_zero : Text → Text
until_zero [] = []
until_zero (c ∷ s) = let rest = until_zero s in if c == 0 then [] else c ∷ rest

-- The C string in a buffer of so many bytes that was filled with zeros before; without a zero the
-- reading runs past its end.
unfoldable pub c_string : ℕ → Text → Outcome Text
c_string zero s = undefined
c_string (suc n) [] = ok []
c_string (suc n) (c ∷ s) = elim (c == 0) [
  | true ↦ ok []
  | false ↦ c_string n s >>= λ rest. ok (c ∷ rest)
]

-- `catch (const runtime_error &)`: the other classes of exceptions pass.
unfoldable pub catch_runtime_error {ℓ} : {A : Type ℓ} → A → Outcome A → Outcome A
catch_runtime_error handled (ok a) = ok a
catch_runtime_error handled (throws (runtime_error what)) = ok handled
catch_runtime_error handled (throws invalid_argument) = throws invalid_argument
catch_runtime_error handled (throws out_of_range) = throws out_of_range
catch_runtime_error handled (throws json_error) = throws json_error
catch_runtime_error handled undefined = undefined

module _ (J : Json) (format_time : ℤ → Option Text) where
  -- The `try` block of `sendMessage`.
  unfoldable pub read_response : CommandIdentifiers → Text → Text → ℕ → Outcome Logged
  unfolding c_string log_response Codec.deserialize to_string_ℕ
  read_response command bytes sender_ip sender_port = do
    response_json ← c_string 2048 bytes
    response ← Codec.deserialize J command response_json
    log_response format_time sender_ip (to_string_ℕ sender_port) response

  unfoldable pub send_message : Exchange → Command → Outcome Effect
  unfolding Command.serialize until_zero read_response catch_runtime_error
  send_message Exchange.no_socket command =
      throws (runtime_error (codes "Server socket creation failed"))
  send_message Exchange.no_connection command = do
    message ← Command.serialize J command
    ok (record { sent = none; logged = none })
  send_message Exchange.not_sent command = do
    message ← Command.serialize J command
    ok (record { sent = none; logged = none })
  send_message Exchange.no_response command = do
    message ← Command.serialize J command
    ok (record { sent = some (until_zero message); logged = none })
  send_message (Exchange.received bytes sender_ip sender_port) command = do
    message ← Command.serialize J command
    logged ←
        catch_runtime_error none (
          read_response command.command_identifier bytes sender_ip sender_port >>= λ l. ok (some l))
    ok (record { sent = some (until_zero message); logged = logged })

-- The commands that the operations build.
unfoldable pub subscribe_command : ℤ → Text → Command
unfolding new_command set_command_argument to_string
subscribe_command port topic_name =
    (set_command_argument CommunicationParameters.client_port (to_string port)
      (set_command_argument CommunicationParameters.topic_name topic_name
        (new_command CommandIdentifiers.subscribe)).1).1

unfoldable pub unsubscribe_command : ℤ → Text → Command
unfolding new_command set_command_argument to_string
unsubscribe_command port topic_name =
    (set_command_argument CommunicationParameters.client_port (to_string port)
      (set_command_argument CommunicationParameters.topic_name topic_name
        (new_command CommandIdentifiers.unsubscribe)).1).1

unfoldable pub publish_command : Text → Text → Command
unfolding new_command set_command_argument
publish_command topic_name message =
    (set_command_argument CommunicationParameters.message message
      (set_command_argument CommunicationParameters.topic_name topic_name
        (new_command CommandIdentifiers.publish)).1).1

unfoldable pub status_command : Text → Command
unfolding new_command set_command_argument
status_command topic_name =
    (set_command_argument CommunicationParameters.topic_name topic_name
      (new_command CommandIdentifiers.get_topic_status)).1

-- `erase(remove(..., topicName), ...)`
unfoldable pub erase_topic : Text → List Text → List Text
erase_topic topic_name [] = []
erase_topic topic_name (t ∷ ts) =
    let rest = erase_topic topic_name ts in if t == topic_name then rest else t ∷ rest

module _ (J : Json) (format_time : ℤ → Option Text) (exchange : Exchange) where
  unfoldable pub subscribe_topic : Text → Client → Outcome (Effect × Client)
  unfolding send_message subscribe_command
  subscribe_topic topic_name client = do
    effect ← send_message J format_time exchange (subscribe_command client.port topic_name)
    ok (effect, record client { subscribed_topics = client.subscribed_topics ++ topic_name ∷ [] })

  unfoldable pub unsubscribe : Text → Client → Outcome (Effect × Client)
  unfolding send_message unsubscribe_command erase_topic
  unsubscribe topic_name client = do
    effect ← send_message J format_time exchange (unsubscribe_command client.port topic_name)
    ok (
      effect,
      record client { subscribed_topics = erase_topic topic_name client.subscribed_topics },
    )

  unfoldable pub publish_topic : Text → Text → Client → Outcome (Effect × Client)
  unfolding send_message publish_command
  publish_topic topic_name message client = do
    effect ← send_message J format_time exchange (publish_command topic_name message)
    ok (effect, client)

  unfoldable pub list_topics : Client → Outcome (Effect × Client)
  unfolding send_message new_command
  list_topics client = do
    effect ← send_message J format_time exchange (new_command CommandIdentifiers.list_topics)
    ok (effect, client)

  unfoldable pub get_topic_status : Text → Client → Outcome (Effect × Client)
  unfolding send_message status_command
  get_topic_status topic_name client = do
    effect ← send_message J format_time exchange (status_command topic_name)
    ok (effect, client)

-- What one round adds to the rounds behind it.
abbrev pub before : Effect → Option (List Effect × Client) → Option (List Effect × Client)
before effect none = none
before effect (some (effects, client)) = some (effect ∷ effects, client)

-- The loop of `~Client`; the exchanges come one after the other. `none` where the fuel is used up.
module _ (J : Json) (format_time : ℤ → Option Text) (exchanges : ℕ → Exchange) where
  unfoldable pub unsubscribe_all : ℕ → ℕ → Client → Outcome (Option (List Effect × Client))
  unfolding unsubscribe
  unsubscribe_all k zero client = elim client.subscribed_topics [
    | [] ↦ ok (some ([], client))
    | topic_name ∷ _ ↦ ok none
  ]
  unsubscribe_all k (suc fuel) client = elim client.subscribed_topics [
    | [] ↦ ok (some ([], client))
    | topic_name ∷ _ ↦
        unsubscribe J format_time (exchanges k) topic_name client >>= λ (effect, client').
        unsubscribe_all (suc k) fuel client' >>= λ rest. ok (before effect rest)
  ]

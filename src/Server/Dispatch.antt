-- ===== src/Server/Dispatch.antt =====
-- `handleApproachingClient`: one request on one connection.
pub mod Answers
pub mod Defined
use verteilte_systeme_bbps.Prelude.{
  ℕ, zero, suc, List, [], ◌∷◌, Option, none, some, Text, ℤ, Outcome, ok, throws, undefined, ◌>>=◌,
}
use verteilte_systeme_bbps.Std.Decimal.{stoi}
use verteilte_systeme_bbps.Protocol.Identifiers.{
  CommandIdentifiers, CommunicationParameters, Statuscode, parameter_eq,
}
use verteilte_systeme_bbps.Protocol.Json.{Json}
use verteilte_systeme_bbps.Protocol.Command.{Command, get_command_argument}
use verteilte_systeme_bbps.Protocol.Command
use verteilte_systeme_bbps.Protocol.Response.{Response, empty_response, set_status_code}
use verteilte_systeme_bbps.Protocol.Response.Codec
use verteilte_systeme_bbps.Server.State.{Server}
use verteilte_systeme_bbps.Server.Requests.{
  handle_subscribe_request, handle_unsubscribe_request, handle_list_topics, handle_get_topic_status,
  handle_publish_request,
}

-- `BUFFER_SIZE`
abbrev pub buffer_size : ℕ
buffer_size = 2048

-- `recv` into a buffer of so many bytes
abbrev pub take : ℕ → Text → Text
take zero s = []
take (suc n) [] = []
take (suc n) (c ∷ s) = c ∷ take n s

-- The branches of the `switch`. An identifier with no name leaves the response as `Response()` made it.
unfoldable pub switch_command :
    ℕ → ℕ → Text → Command → CommandIdentifiers → Server → Outcome (Response × Server)
unfolding stoi get_command_argument handle_subscribe_request handle_unsubscribe_request
    handle_list_topics handle_get_topic_status handle_publish_request
switch_command now later ip command CommandIdentifiers.subscribe s = do
  port ← get_command_argument CommunicationParameters.client_port command >>= stoi
  name ← get_command_argument CommunicationParameters.topic_name command
  handle_subscribe_request now later ip port name s
switch_command now later ip command CommandIdentifiers.unsubscribe s = do
  port ← get_command_argument CommunicationParameters.client_port command >>= stoi
  name ← get_command_argument CommunicationParameters.topic_name command
  handle_unsubscribe_request ip port name s
switch_command now later ip command CommandIdentifiers.publish s = do
  name ← get_command_argument CommunicationParameters.topic_name command
  message ← get_command_argument CommunicationParameters.message command
  handle_publish_request now later name message s
switch_command now later ip command CommandIdentifiers.list_topics s = handle_list_topics s
switch_command now later ip command CommandIdentifiers.get_topic_status s = do
  name ← get_command_argument CommunicationParameters.topic_name command
  handle_get_topic_status name s
switch_command now later ip command (CommandIdentifiers.unnamed n) s = ok (empty_response, s)

-- `catch (const exception &e)`. The exceptions come before the server's objects are changed.
abbrev pub catch_all : Server → Outcome (Response × Server) → Outcome (Response × Server)
catch_all s (ok r) = ok r
catch_all s (throws e) = ok (set_status_code Statuscode.internal_error empty_response, s)
catch_all s undefined = undefined

module _ (J : Json) where
  -- The `try` block and its handler.
  unfoldable pub answer : ℕ → ℕ → Text → Text → Server → Outcome (Response × Server)
  unfolding switch_command
  answer now later ip received s = catch_all s (
      Command.deserialize J received >>= λ command.
      switch_command now later ip command command.command_identifier s)

  -- What `recv` can deliver goes in, and what is handed to `send` comes out; `none` where the
  -- connection is closed without an answer.
  unfoldable pub handle_approaching_client :
      ℕ → ℕ → Text → Text → Server → Outcome (Option Text × Server)
  unfolding answer
  handle_approaching_client now later ip [] s = ok (none, s)
  handle_approaching_client now later ip (c ∷ pending) s = do
    (response, s') ← answer now later ip (take buffer_size (c ∷ pending)) s
    text ← Codec.serialize J response
    ok (some text, s')

-- ===== src/Server/Directory/Service.antt =====
-- The server that is promised: the same requests, answered from the directory alone.
pub mod Answering
pub mod Statuses
pub mod Handling
use verteilte_systeme_bbps.Protocol.Response.Codec
use verteilte_systeme_bbps.Server.Dispatch.{take, buffer_size}
use verteilte_systeme_bbps.Prelude.{
  Option, none, some, [], ◌∷◌, ℕ, List, map, Text, text_eq, Outcome, ok, throws, undefined, ◌>>=◌,
}
use verteilte_systeme_bbps.Std.Decimal.{stoi}
use verteilte_systeme_bbps.Protocol.Identifiers.{
  CommandIdentifiers, CommunicationParameters, Statuscode,
}
use verteilte_systeme_bbps.Protocol.Json.{Json}
use verteilte_systeme_bbps.Protocol.Command.{Command, get_command_argument}
use verteilte_systeme_bbps.Protocol.Command
use verteilte_systeme_bbps.Protocol.Response.{
  Response, empty_response, set_status_code, vector_to_array_string,
}
use verteilte_systeme_bbps.Protocol.Response.Codec.Answers.{answered}
use verteilte_systeme_bbps.Server.Requests.{topic_status_response, endpoint_string}
use verteilte_systeme_bbps.Server.Invariant.Subscribing.{respond}
use verteilte_systeme_bbps.Server.Directory.{
  Directory, find_view, subscribe_spec, unsubscribe_first_spec, publish_spec,
}

-- All names, in the order in which the topics came into being.
unfoldable pub list_spec : Directory → Response
list_spec d =
    answered CommandIdentifiers.list_topics Statuscode.success
      (vector_to_array_string (map (λ t. t.name) d) ∷ [])

unfoldable pub status_spec : Text → Directory → Response
status_spec name d = elim (find_view name d) [
  | none ↦ respond CommandIdentifiers.get_topic_status Statuscode.invalid_parameter
  | some t ↦ topic_status_response t.message_timestamp (map endpoint_string t.subscribers)
]

-- One request of a client at that address.
unfoldable pub request_spec :
    ℕ → Text → Command → CommandIdentifiers → Directory → Outcome (Response × Directory)
unfolding subscribe_spec unsubscribe_first_spec publish_spec list_spec status_spec
request_spec now ip command CommandIdentifiers.subscribe d = do
  port ← get_command_argument CommunicationParameters.client_port command >>= stoi
  name ← get_command_argument CommunicationParameters.topic_name command
  let (status, d') = subscribe_spec now (record { address = ip; port = port }) name d
  ok (respond CommandIdentifiers.subscribe status, d')
request_spec now ip command CommandIdentifiers.unsubscribe d = do
  port ← get_command_argument CommunicationParameters.client_port command >>= stoi
  name ← get_command_argument CommunicationParameters.topic_name command
  let (status, d') = unsubscribe_first_spec name d
  ok (respond CommandIdentifiers.unsubscribe status, d')
request_spec now ip command CommandIdentifiers.publish d = do
  name ← get_command_argument CommunicationParameters.topic_name command
  message ← get_command_argument CommunicationParameters.message command
  let (status, d') = publish_spec now message name d
  ok (respond CommandIdentifiers.publish status, d')
request_spec now ip command CommandIdentifiers.list_topics d = ok (list_spec d, d)
request_spec now ip command CommandIdentifiers.get_topic_status d = do
  name ← get_command_argument CommunicationParameters.topic_name command
  ok (status_spec name d, d)
request_spec now ip command (CommandIdentifiers.unnamed n) d = ok (empty_response, d)

-- What the bytes of a request are answered. A request that cannot be read changes nothing.
unfoldable pub answer_spec : Json → ℕ → Text → Text → Directory → Outcome (Response × Directory)
unfolding request_spec
answer_spec J now ip received d =
    elim (Command.deserialize J received >>= λ c. request_spec now ip c c.command_identifier d) [
      | ok r ↦ ok r
      | throws e ↦ ok (set_status_code Statuscode.internal_error empty_response, d)
      | undefined ↦ undefined
    ]

-- What a whole connection is answered: `none` where nothing arrives.
unfoldable pub handle_spec : Json → ℕ → Text → Text → Directory → Outcome (Option Text × Directory)
unfolding answer_spec
handle_spec J now ip [] d = ok (none, d)
handle_spec J now ip (c ∷ pending) d = do
  (response, d') ← answer_spec J now ip (take buffer_size (c ∷ pending)) d
  text ← Codec.serialize J response
  ok (some text, d')

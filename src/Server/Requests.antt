-- ===== src/Server/Requests.antt =====
-- The request handlers of server.cpp. Each runs under the server's mutex from its first read to its
-- last write, so that it is one step.
use verteilte_systeme_bbps.Prelude.{
  ℕ, suc, Bool, true, false, ◌&&◌, List, [], ◌∷◌, ◌++◌, map, Option, none, some, Text, ℤ, length,
  nat_eq, int_eq, text_eq, ◌==◌, if◌then◌else◌, Outcome, ok, ◌>>=◌,
}
use verteilte_systeme_bbps.Std.Decimal.{to_string}
use verteilte_systeme_bbps.Protocol.Identifiers.{
  CommandIdentifiers, CommunicationParameters, Statuscode, parameter_eq,
}
use verteilte_systeme_bbps.Protocol.Response.{
  Response, new_response, set_status_code, set_response_argument_vector,
  set_response_argument_uint64,
}
use verteilte_systeme_bbps.Protocol.Message.{uint64_of_time}
use verteilte_systeme_bbps.Server.Memory.{Ptr, Cells, load, load_nullable, store, release, find_ptr}
use verteilte_systeme_bbps.Server.State.{ClientConnection, Topic, Server}
use verteilte_systeme_bbps.Server.Topic.{
  new_topic, has_client, topic_subscribe, topic_unsubscribe, set_message,
}

-- The loops that look for a topic and for a connection.
unfoldable pub find_topic : Text → Cells Topic → Option Ptr
unfolding find_ptr
find_topic name topics = find_ptr (λ t. t.topic_name == name) topics

unfoldable pub find_connection : Text → ℤ → Cells ClientConnection → Option Ptr
unfolding find_ptr
find_connection address port connections =
    find_ptr (λ c. c.address == address && c.port == port) connections

unfoldable pub find_or_create_topic : ℕ → ℕ → Text → Server → Ptr × Server
unfolding find_topic new_topic
find_or_create_topic now later name s = elim (find_topic name s.topics) [
  | some p ↦ (p, s)
  | none ↦ (
    s.next,
    record s { topics = s.topics ++ (s.next, new_topic name now later) ∷ []; next = suc s.next },
  )
]

unfoldable pub find_or_create_connection : Text → ℤ → Server → Ptr × Server
unfolding find_connection
find_or_create_connection address port s =
    elim (find_connection address port s.client_connections) [
      | some p ↦ (p, s)
      | none ↦ (
        s.next,
        record s {
          client_connections =
              s.client_connections ++ (s.next, record { address = address; port = port }) ∷ [];
          next = suc s.next;
        },
      )
    ]

-- From the two pointers on.
unfoldable pub subscribe_pointers : Ptr → Ptr → Server → Outcome (Response × Server)
unfolding topic_subscribe store set_status_code new_response
subscribe_pointers topic_ptr client_ptr s = do
  topic ← load s.topics topic_ptr
  (added, topic') ← topic_subscribe s.client_connections client_ptr topic
  ok (
    set_status_code (if added then Statuscode.success else Statuscode.failed)
        (new_response CommandIdentifiers.subscribe),
    record s { topics = store topic_ptr topic' s.topics },
  )

unfoldable pub handle_subscribe_request :
    ℕ → ℕ → Text → ℤ → Text → Server → Outcome (Response × Server)
unfolding find_or_create_topic find_or_create_connection subscribe_pointers
handle_subscribe_request now later ip_address port topic_name s =
    let (topic_ptr, s') = find_or_create_topic now later topic_name s in
    let (client_ptr, s'') = find_or_create_connection ip_address port s' in
    subscribe_pointers topic_ptr client_ptr s''

-- The loop over the topics that are left, which follows the client's pointer in each round.
unfoldable pub is_subscribed_to_other_topic :
    Cells ClientConnection → Option Ptr → Cells Topic → Outcome Bool
unfolding has_client load_nullable
is_subscribed_to_other_topic connections client_ptr [] = ok false
is_subscribed_to_other_topic connections client_ptr ((_, topic) ∷ topics) = do
  c ← load_nullable connections client_ptr
  found ← has_client connections topic.subscriber_list c.address c.port
  if found then ok true else is_subscribed_to_other_topic connections client_ptr topics

-- `erase` and `delete`, which do nothing for a null pointer
unfoldable pub release_nullable : Option Ptr → Cells ClientConnection → Cells ClientConnection
unfolding release
release_nullable none connections = connections
release_nullable (some p) connections = release p connections

-- From the topic's pointer on.
unfoldable pub unsubscribe_pointers : Ptr → Option Ptr → Server → Outcome (Response × Server)
unfolding topic_unsubscribe store release is_subscribed_to_other_topic release_nullable
    set_status_code new_response
unsubscribe_pointers topic_ptr client_ptr s = do
  topic ← load s.topics topic_ptr
  (removed, topic') ← topic_unsubscribe s.client_connections client_ptr topic
  let topics' = store topic_ptr topic' s.topics
  let response = new_response CommandIdentifiers.unsubscribe
  if removed
      then (do
        let left = if length topic'.subscriber_list == 0 then release topic_ptr topics' else topics'
        other ← is_subscribed_to_other_topic s.client_connections client_ptr left
        ok (
          set_status_code Statuscode.success response,
          record s {
            topics = left;
            client_connections =
                if other
                then s.client_connections
                else release_nullable client_ptr s.client_connections;
          },
        ))
      else ok (set_status_code Statuscode.failed response, record s { topics = topics' })

unfoldable pub handle_unsubscribe_request : Text → ℤ → Text → Server → Outcome (Response × Server)
unfolding find_connection find_topic unsubscribe_pointers
handle_unsubscribe_request ip_address port topic_name s = elim (find_topic topic_name s.topics) [
  | none ↦ ok (
    set_status_code Statuscode.invalid_parameter (new_response CommandIdentifiers.unsubscribe),
    s,
  )
  | some topic_ptr ↦
      unsubscribe_pointers topic_ptr (find_connection ip_address port s.client_connections) s
]

unfoldable pub handle_list_topics : Server → Outcome (Response × Server)
unfolding new_response set_response_argument_vector set_status_code
handle_list_topics s =
    let (done, response) =
      set_response_argument_vector CommunicationParameters.topics
        (map (λ cell. cell.1.topic_name) s.topics) (new_response CommandIdentifiers.list_topics) in
    ok
      (set_status_code (if done then Statuscode.success else Statuscode.internal_error) response, s)

-- `connection->getAddress() + ":" + to_string(connection->getPort())`
unfoldable pub endpoint_string : ClientConnection → Text
unfolding to_string
endpoint_string c = c.address ++ b':' ∷ to_string c.port

-- The loop that collects the subscribers.
unfoldable pub subscriber_strings : Cells ClientConnection → List Ptr → Outcome (List Text)
unfolding endpoint_string
subscriber_strings connections [] = ok []
subscriber_strings connections (p ∷ ps) = do
  c ← load connections p
  rest ← subscriber_strings connections ps
  ok (endpoint_string c ∷ rest)

-- The second argument is set only if the first was.
unfoldable pub topic_status_response : ℤ → List Text → Response
unfolding new_response set_response_argument_uint64 set_response_argument_vector set_status_code
    uint64_of_time
topic_status_response timestamp subscribers =
    let (first, r) =
      set_response_argument_uint64 CommunicationParameters.message_timestamp
        (uint64_of_time timestamp) (new_response CommandIdentifiers.get_topic_status) in
    let (second, r') =
      set_response_argument_vector CommunicationParameters.subscribers subscribers r in
    if first
    then set_status_code (if second then Statuscode.success else Statuscode.internal_error) r'
    else set_status_code Statuscode.internal_error r

unfoldable pub handle_get_topic_status : Text → Server → Outcome (Response × Server)
unfolding find_topic subscriber_strings topic_status_response
handle_get_topic_status topic_name s = elim (find_topic topic_name s.topics) [
  | none ↦ ok (
    set_status_code Statuscode.invalid_parameter (new_response CommandIdentifiers.get_topic_status),
    s,
  )
  | some topic_ptr ↦ do
    topic ← load s.topics topic_ptr
    names ← subscriber_strings s.client_connections topic.subscriber_list
    ok (topic_status_response topic.message_timestamp names, s)
]

unfoldable pub handle_publish_request : ℕ → ℕ → Text → Text → Server → Outcome (Response × Server)
unfolding find_topic set_message store set_status_code new_response
handle_publish_request now later topic_name message s = elim (find_topic topic_name s.topics) [
  | none ↦
      ok (set_status_code Statuscode.invalid_parameter (new_response CommandIdentifiers.publish), s)
  | some topic_ptr ↦ do
    topic ← load s.topics topic_ptr
    let (done, topic') = set_message message now later topic
    ok (
      set_status_code (if done then Statuscode.success else Statuscode.failed)
          (new_response CommandIdentifiers.publish),
      record s { topics = store topic_ptr topic' s.topics },
    )
]

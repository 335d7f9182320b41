-- ===== src/Server/Invariant/Requests.antt =====
-- The other handlers, and the requests that the server does not survive.
use verteilte_systeme_bbps.Prelude.{
  ℕ, ◌≤◌, ◌≡◌, ◌≢◌, refl, Option-cases, inl, inr, List, [], ◌∷◌, map, none, some, All, All-map,
  Text, ℤ, ok, undefined, arith, text_eq, nat_eq, int_eq, ==_iff, length,
}
use verteilte_systeme_bbps.Server.Memory.{Ptr, Cells, load}
use verteilte_systeme_bbps.Server.Memory.Storing.{All-store}
use verteilte_systeme_bbps.Server.Memory.Finding.{All-load, load-find_ptr}
use verteilte_systeme_bbps.Server.State.{ClientConnection, connection_eq, Topic, Server}
use verteilte_systeme_bbps.Server.Topic.{set_message}
use verteilte_systeme_bbps.Server.Topic.Laws.{IsLive, endpoints}
use verteilte_systeme_bbps.Server.Requests.{
  find_topic, find_connection, handle_unsubscribe_request, handle_publish_request,
  handle_list_topics, handle_get_topic_status, subscriber_strings, topic_status_response,
  endpoint_string,
}
use verteilte_systeme_bbps.Server.Invariant.{IsSound, Returns, store-WellFormed, Invariant}
use verteilte_systeme_bbps.Server.Invariant.Unsubscribing.{
  unsubscribe_pointers-Invariant, unsubscribe_pointers_null, topics_left-ne-nil,
}

-- What a search for a topic finds: the topic and, by the invariant, its subscribers.
pub record Found (s : Server) (name : Text) (p : Ptr) : Type 0 where
  pub topic : Topic
  pub there : load s.topics p ≡ ok topic
  pub named : topic.topic_name ≡ name
  pub first : Ptr
  pub rest : List Ptr
  pub listed : topic.subscriber_list ≡ first ∷ rest

cons_of_ne_nil : (ps : List Ptr) → ps ≢ [] → (p : Ptr) × (qs : List Ptr) × (ps ≡ p ∷ qs)
cons_of_ne_nil [] h = absurd (h refl)
cons_of_ne_nil (p ∷ qs) h = (p, qs, refl)

pub find_topic-Found :
    (s : Server) (name : Text) (p : Ptr)
    → Invariant s
    → find_topic name s.topics ≡ some p
    → Found s name p
unfolding find_topic
find_topic-Found s name p v e =
    let (t, there, hit) = load-find_ptr _ s.topics p v.well_formed.topics_distinct e in
    let (first, rest, listed) =
      cons_of_ne_nil t.subscriber_list
        (All-load (λ cell. cell.1.subscriber_list ≢ []) p t s.topics there v.populated) in
    record {
      topic = t;
      there = there;
      named = (==_iff t.topic_name name).0 hit;
      first = first;
      rest = rest;
      listed = listed;
    }

module _ (s : Server) (v : Invariant s) (name : Text) where
  -- In a server whose objects are in order, an unsubscribe request of a client that has a
  -- connection is answered without a fault, and the objects are in order again.
  pub handle_unsubscribe_request-Invariant :
      (address : Text) (port : ℤ) (client_ptr : Ptr)
      → find_connection address port s.client_connections ≡ some client_ptr
      → Returns (λ response s'. Invariant s') (handle_unsubscribe_request address port name s)
  unfolding handle_unsubscribe_request find_connection
  handle_unsubscribe_request-Invariant address port client_ptr known =
      let (c, at_client, _) =
        load-find_ptr _ s.client_connections client_ptr v.well_formed.connections_distinct known in
      elim (Option-cases (find_topic name s.topics)) [
        | inl e ↦ rw (e, handle_unsubscribe_request) v
        | inr (p, e) ↦
            let f = find_topic-Found s name p v e in
            rw (e, handle_unsubscribe_request)
              (rw (known, find_connection)
                (unsubscribe_pointers-Invariant s v p f.first f.rest f.topic f.there f.listed
                  client_ptr c at_client))
      ]

  pub handle_publish_request-Invariant :
      (now later : ℕ) (message : Text)
      → Returns (λ response s'. Invariant s') (handle_publish_request now later name message s)
  unfolding handle_publish_request set_message
  handle_publish_request-Invariant now later message =
      elim (Option-cases (find_topic name s.topics)) [
        | inl e ↦ rw (e, handle_publish_request) v
        | inr (p, e) ↦
            let f = find_topic-Found s name p v e in
            rw (e, handle_publish_request)
              (rw f.there (record {
                well_formed = store-WellFormed s p f.topic _ v.well_formed f.there refl (
                    All-load (IsSound s.client_connections) p f.topic s.topics f.there
                      v.well_formed.sound);
                populated =
                    All-store (λ cell. cell.1.subscriber_list ≢ []) p _ s.topics
                      (ground (arith, f.listed)) (All-map (λ cell h _. h) s.topics v.populated);
              }))
      ]

  pub handle_list_topics-Invariant : Returns (λ response s'. Invariant s') (handle_list_topics s)
  unfolding handle_list_topics
  handle_list_topics-Invariant = v

-- The strings that a status request answers.
pub subscriber_strings_lem :
    (connections : Cells ClientConnection) (ps : List Ptr)
    → All (IsLive connections) ps
    → subscriber_strings connections ps ≡ ok (map endpoint_string (endpoints connections ps))
unfolding subscriber_strings endpoints
subscriber_strings_lem connections [] _ = refl
subscriber_strings_lem connections (p ∷ ps) ((c, e), h) =
    rw (e, subscriber_strings)
      (rw (subscriber_strings_lem connections ps h) (rw (e, endpoints) refl))

-- A status request is answered with the topic's timestamp and subscribers, and changes nothing.
pub handle_get_topic_status_lem :
    (s : Server) (v : Invariant s) (name : Text) (p : Ptr) (e : find_topic name s.topics ≡ some p)
    → let f = find_topic-Found s name p v e in
      handle_get_topic_status name s
      ≡ ok (
        topic_status_response f.topic.message_timestamp
            (map endpoint_string (endpoints s.client_connections f.topic.subscriber_list)),
        s,
      )
unfolding handle_get_topic_status
handle_get_topic_status_lem s v name p e =
    let f = find_topic-Found s name p v e in
    rw (e, handle_get_topic_status)
      (rw (f.there) (
        rw
          (subscriber_strings_lem s.client_connections f.topic.subscriber_list
            (All-load (IsSound s.client_connections) p f.topic s.topics f.there
              v.well_formed.sound).0)
          refl))

pub handle_get_topic_status-Invariant :
    (s : Server) (name : Text)
    → Invariant s
    → Returns (λ response s'. Invariant s') (handle_get_topic_status name s)
unfolding handle_get_topic_status
handle_get_topic_status-Invariant s name v = elim (Option-cases (find_topic name s.topics)) [
  | inl e ↦ rw (e, handle_get_topic_status) v
  | inr (p, e) ↦ rw (handle_get_topic_status_lem s v name p e) v
]

-- In a server whose objects are in order and which has at least two topics, an unsubscribe request
-- of a client without a connection, for a topic that is there, makes the server follow a null
-- pointer: the behaviour is undefined.
pub unsubscribe_unknown :
    (s : Server) (address : Text) (port : ℤ) (name : Text) (p : Ptr)
    → Invariant s
    → find_connection address port s.client_connections ≡ none
    → find_topic name s.topics ≡ some p
    → 2 ≤ length s.topics
    → handle_unsubscribe_request address port name s ≡ undefined
unfolding handle_unsubscribe_request
unsubscribe_unknown s address port name p v unknown e two =
    let f = find_topic-Found s name p v e in
    rw (e, handle_unsubscribe_request)
      (rw unknown (
        unsubscribe_pointers_null s v p f.first f.rest f.topic f.there f.listed
          (topics_left-ne-nil p f.topic f.rest s.topics v.well_formed.topics_distinct two)))

-- ===== src/Server/Invariant/Subscribing.antt =====
-- `handleSubscribeRequest` keeps the invariant.
use verteilte_systeme_bbps.Prelude.{
  ℕ, ◌≡◌, ◌≢◌, refl, subst, sym, Bool-cases, Option-cases, inl, inr, List, [], ◌∷◌, ◌++◌, All,
  All-map, All-append, Distinct-append_one, Text, ℤ, ok, arith, int_eq, text_eq, contains,
  if◌then◌else◌,
}
use verteilte_systeme_bbps.Protocol.Identifiers.{CommandIdentifiers, Statuscode}
use verteilte_systeme_bbps.Protocol.Response.{Response, new_response, set_status_code}
use verteilte_systeme_bbps.Server.Memory.{Ptr, Cells, load, store}
use verteilte_systeme_bbps.Server.Memory.Finding.{All-load}
use verteilte_systeme_bbps.Server.Memory.Storing.{All-store}
use verteilte_systeme_bbps.Server.State.{ClientConnection, connection_eq, Topic, Server}
use verteilte_systeme_bbps.Server.Topic.Laws.{endpoints, topic_subscribe_lem, ne_of_not-contains}
use verteilte_systeme_bbps.Server.Requests.{
  find_topic, find_or_create_topic, find_or_create_connection, subscribe_pointers,
  handle_subscribe_request,
}
use verteilte_systeme_bbps.Server.Invariant.{
  WellFormed, IsSound, Returns, store-WellFormed, Invariant, Populated,
}
use verteilte_systeme_bbps.Server.Invariant.Creating.{
  find_or_create_topic_lem, find_or_create_connection_lem,
}

-- What the third step does to a topic.
abbrev pub with_subscriber : Cells ClientConnection → Ptr → ClientConnection → Topic → Topic
with_subscriber connections p c t =
    if contains (endpoints connections t.subscriber_list) c
    then t
    else record t { subscriber_list = t.subscriber_list ++ p ∷ [] }

abbrev pub subscribe_status : Cells ClientConnection → ClientConnection → Topic → Statuscode
subscribe_status connections c t =
    if contains (endpoints connections t.subscriber_list) c
    then Statuscode.failed
    else Statuscode.success

abbrev pub respond : CommandIdentifiers → Statuscode → Response
respond command status = set_status_code status (new_response command)

module _ (s : Server) (w : WellFormed s) (topic_ptr client_ptr : Ptr) (t : Topic)
    (c : ClientConnection) (at_topic : load s.topics topic_ptr ≡ ok t)
    (at_client : load s.client_connections client_ptr ≡ ok c) where
  IsSound-at : IsSound s.client_connections (topic_ptr, t)
  IsSound-at = All-load (IsSound s.client_connections) topic_ptr t s.topics at_topic w.sound

  pub subscribe_pointers_lem :
      subscribe_pointers topic_ptr client_ptr s
      ≡ ok (
        respond CommandIdentifiers.subscribe (subscribe_status s.client_connections c t),
        record s {
          topics = store topic_ptr (with_subscriber s.client_connections client_ptr c t) s.topics;
        },
      )
  unfolding subscribe_pointers
  subscribe_pointers_lem =
      rw (at_topic, subscribe_pointers)
        (rw (topic_subscribe_lem s.client_connections client_ptr c t at_client IsSound-at.0)
          (ground arith))

  with_subscriber-IsSound :
      IsSound s.client_connections (topic_ptr, with_subscriber s.client_connections client_ptr c t)
  with_subscriber-IsSound =
      elim (Bool-cases (contains (endpoints s.client_connections t.subscriber_list) c)) [
        | inl known ↦ rw known IsSound-at
        | inr new ↦ rw new (
          All-append _ t.subscriber_list _ IsSound-at.0 ((c, at_client), tt),
          Distinct-append_one t.subscriber_list client_ptr IsSound-at.1 (
              ne_of_not-contains s.client_connections t.subscriber_list client_ptr c at_client new),
        )
      ]

  with_subscriber-name :
      (with_subscriber s.client_connections client_ptr c t).topic_name ≡ t.topic_name
  with_subscriber-name = ground arith

  with_subscriber-ne-nil :
      (with_subscriber s.client_connections client_ptr c t).subscriber_list ≢ []
  unfolding endpoints
  with_subscriber-ne-nil = ne_nil t.subscriber_list refl
    where
      ne_nil :
          (ps : List Ptr)
          → t.subscriber_list ≡ ps
          → (with_subscriber s.client_connections client_ptr c t).subscriber_list ≢ []
      ne_nil [] e = ground arith
      ne_nil (p ∷ ps) e = ground arith

  pub subscribed-WellFormed : WellFormed (record s {
    topics = store topic_ptr (with_subscriber s.client_connections client_ptr c t) s.topics;
  })
  subscribed-WellFormed =
      store-WellFormed s topic_ptr t _ w at_topic with_subscriber-name with_subscriber-IsSound

  pub subscribed-Populated :
      All (λ cell. cell.0 ≢ topic_ptr → cell.1.subscriber_list ≢ []) s.topics
      → Populated (store topic_ptr (with_subscriber s.client_connections client_ptr c t) s.topics)
  subscribed-Populated =
      All-store (λ cell. cell.1.subscriber_list ≢ []) topic_ptr _ s.topics with_subscriber-ne-nil

module _ (now later : ℕ) (address : Text) (port : ℤ) (name : Text) (s : Server)
    (v : Invariant s) where
  abbrev client : ClientConnection
  client = record { address = address; port = port }

  -- Only a topic that has just been made has no subscriber.
  others-Populated :
      let (p, s') = find_or_create_topic now later name s in
      All (λ cell. cell.0 ≢ p → cell.1.subscriber_list ≢ []) s'.topics
  unfolding find_or_create_topic
  others-Populated = elim (Option-cases (find_topic name s.topics)) [
    | inl e ↦
        rw (e, find_or_create_topic)
          (All-append _ s.topics _ (All-map (λ cell h _. h) s.topics v.populated)
            ((λ h. absurd (h refl)), tt))
    | inr (p, e) ↦ rw (e, find_or_create_topic) (All-map (λ cell h _. h) s.topics v.populated)
  ]

  -- In a server whose objects are in order, a subscribe request is answered without a fault, and
  -- the objects are in order again.
  pub handle_subscribe_request-Invariant :
      Returns (λ response s'. Invariant s') (handle_subscribe_request now later address port name s)
  unfolding handle_subscribe_request
  handle_subscribe_request-Invariant =
      let (tp, s') = find_or_create_topic now later name s in
      let (w', has, same) = find_or_create_topic_lem name now later s v.well_formed in
      let (cp, s'') = find_or_create_connection address port s' in
      let (w'', at_client, same_topics) = find_or_create_connection_lem address port s' w' in
      let at_topic : load s''.topics tp ≡ ok has.topic = rw same_topics has.there in
      rw (subscribe_pointers_lem s'' w'' tp cp has.topic client at_topic at_client) (record {
        well_formed = subscribed-WellFormed s'' w'' tp cp has.topic client at_topic at_client;
        populated = subscribed-Populated s'' w'' tp cp has.topic client at_topic at_client (
            subst (All (λ cell. cell.0 ≢ tp → cell.1.subscriber_list ≢ [])) (sym same_topics)
              others-Populated);
      })

-- ===== src/Server/Directory/Subscribing.antt =====
-- `handleSubscribeRequest` does what the directory's `subscribe_spec` says.
use verteilte_systeme_bbps.Prelude.{
  ℕ, suc, ◌≡◌, refl, sym, ap, ◌∙◌, Bool, true, Option-cases, inl, inr, [], ◌∷◌, ◌++◌, map-append,
  none, some, Text, ℤ, ok, arith, ◌==◌, text_eq, nat_eq, ==_iff, contains, if◌then◌else◌,
}
use mathlib.Core.Path.{ap₂}
use mathlib.Core.Option.{some-injective}
use verteilte_systeme_bbps.Protocol.Identifiers.{CommandIdentifiers, Statuscode}
use verteilte_systeme_bbps.Server.Memory.{Ptr, Cells, load, store, find_ptr}
use verteilte_systeme_bbps.Server.Memory.Finding.{load_last}
use verteilte_systeme_bbps.Server.State.{ClientConnection, connection_eq, Topic, Server}
use verteilte_systeme_bbps.Server.Topic.{new_topic}
use verteilte_systeme_bbps.Server.Topic.Laws.{endpoints, endpoints-append_one}
use verteilte_systeme_bbps.Server.Requests.{
  find_topic, find_connection, find_or_create_topic, find_or_create_connection,
  handle_subscribe_request,
}
use verteilte_systeme_bbps.Server.Invariant.{WellFormed, Returns, Invariant}
use verteilte_systeme_bbps.Server.Invariant.Creating.{
  find_or_create_topic_lem, find_or_create_connection_lem,
}
use verteilte_systeme_bbps.Server.Invariant.Subscribing.{
  with_subscriber, respond, subscribe_pointers_lem,
}
use verteilte_systeme_bbps.Server.Directory.{
  TopicView, Directory, topic_view, view, find_view, replace_view, add_subscriber, subscribe_spec,
}
use verteilte_systeme_bbps.Server.Directory.Views.{
  find_view-none, find_view-some, views-store, views-append_new, replace_view_same,
}

pub find_ptr-append_one {ℓ} :
    {A : Type ℓ} (test : A → Bool) (cells : Cells A) (p : Ptr) (a : A)
    → find_ptr test cells ≡ none
    → test a ≡ true
    → find_ptr test (cells ++ (p, a) ∷ []) ≡ some p
unfolding find_ptr
find_ptr-append_one test [] p a e hit = ground arith
find_ptr-append_one test ((q, b) ∷ cells) p a e hit =
    ground (arith, find_ptr-append_one test cells p a)

replace_view_last :
    (name : Text) (d : Directory) (t t' : TopicView)
    → find_view name d ≡ none
    → t.name ≡ name
    → replace_view name t' (d ++ t ∷ []) ≡ d ++ t' ∷ []
replace_view_last name [] t t' e h = ground arith
replace_view_last name (u ∷ d) t t' e h = ground (arith, replace_view_last name d t t')

-- The specification, once a topic of the name is there.
abbrev enter : ClientConnection → Text → TopicView → Directory → Statuscode × Directory
enter c name t d = (
  if contains t.subscribers c then Statuscode.failed else Statuscode.success,
  replace_view name (if contains t.subscribers c then t else add_subscriber c t) d,
)

module _ (now later : ℕ) (name : Text) (s : Server) (w : WellFormed s) where
  pub find_topic-created :
      let (p, s') = find_or_create_topic now later name s in find_topic name s'.topics ≡ some p
  unfolding find_or_create_topic find_topic new_topic
  find_topic-created = elim (Option-cases (find_topic name s.topics)) [
    | inl e ↦
        rw (e, find_or_create_topic)
          (find_ptr-append_one (λ t. t.topic_name == name) s.topics s.next
            (new_topic name now later) e ((==_iff name name).1 refl))
    | inr (p, e) ↦ rw (e, find_or_create_topic) e
  ]

  enter_created :
      (c : ClientConnection) (t : Topic)
      → find_topic name s.topics ≡ none
      → load (s.topics ++ (s.next, new_topic name now later) ∷ []) s.next ≡ ok t
      → enter c name (topic_view s.client_connections t) (
          view (record s {
            topics = s.topics ++ (s.next, new_topic name now later) ∷ [];
            next = suc s.next;
          }))
        ≡ subscribe_spec now c name (view s)
  unfolding subscribe_spec new_topic endpoints
  enter_created c t e there =
      let new : Topic = new_topic name now later in
      let is_new : t ≡ new = ground (arith, load_last s.next new s.topics w.topics_below) in
      let absent = find_view-none s.client_connections name s.topics e in
      rw
        (
          is_new,
          map-append (λ (cell : Ptr × Topic). topic_view s.client_connections cell.1) s.topics,
        )
        (rw
          (replace_view_last name (view s) (topic_view s.client_connections new)
            (add_subscriber c (topic_view s.client_connections new)) absent refl)
          (rw (absent, subscribe_spec) refl))

  enter_found :
      (c : ClientConnection) (p : Ptr) (t : Topic)
      → find_topic name s.topics ≡ some p
      → load s.topics p ≡ ok t
      → enter c name (topic_view s.client_connections t) (view s)
        ≡ subscribe_spec now c name (view s)
  unfolding subscribe_spec
  enter_found c p t e there =
      let seen = find_view-some s.client_connections name s.topics p t w.topics_distinct e there in
      rw (seen, subscribe_spec)
        (ground (arith, replace_view_same name (view s) (topic_view s.client_connections t) seen))

  enter-subscribe_spec :
      (c : ClientConnection) (t : Topic)
      → let (p, s') = find_or_create_topic now later name s in
        load s'.topics p ≡ ok t
        → enter c name (topic_view s'.client_connections t) (view s')
          ≡ subscribe_spec now c name (view s)
  unfolding find_or_create_topic
  enter-subscribe_spec c t there = elim (Option-cases (find_topic name s.topics)) [
    | inl e ↦
        rw (e, find_or_create_topic) (enter_created c t e (rw (e, find_or_create_topic) at there))
    | inr (p, e) ↦
        rw (e, find_or_create_topic) (enter_found c p t e (rw (e, find_or_create_topic) at there))
  ]

-- A connection that is made changes no view.
view-find_or_create_connection :
    (address : Text) (port : ℤ) (s : Server)
    → WellFormed s
    → view (find_or_create_connection address port s).1 ≡ view s
unfolding find_or_create_connection
view-find_or_create_connection address port s w =
    elim (Option-cases (find_connection address port s.client_connections)) [
      | inl e ↦
          rw (e, find_or_create_connection)
            (views-append_new s.client_connections s.next _ s.topics w.sound)
      | inr (p, e) ↦ rw (e, find_or_create_connection) refl
    ]

-- The third step, seen in the directory.
view-with_subscriber :
    (s : Server) (w : WellFormed s) (name : Text) (topic_ptr client_ptr : Ptr) (t : Topic)
    (c : ClientConnection)
    → find_topic name s.topics ≡ some topic_ptr
    → load s.client_connections client_ptr ≡ ok c
    → view (record s {
      topics = store topic_ptr (with_subscriber s.client_connections client_ptr c t) s.topics;
    })
      ≡ (enter c name (topic_view s.client_connections t) (view s)).1
view-with_subscriber s w name topic_ptr client_ptr t c found at_client =
    views-store s.client_connections name s.topics topic_ptr
      (with_subscriber s.client_connections client_ptr c t) w.topics_distinct found
    ∙ ap (λ v. replace_view name v (view s))
        (ground (
          arith,
          endpoints-append_one s.client_connections t.subscriber_list client_ptr c at_client,
        ))

module _ (now later : ℕ) (address : Text) (port : ℤ) (name : Text) (s : Server)
    (v : Invariant s) where
  -- In a server whose objects are in order, a subscribe request is answered as the directory's
  -- specification of subscribing says, which also gives the directory afterwards: the client is
  -- added behind the other subscribers of the topic, which is made if it is not there, and if the
  -- client is there already, nothing changes and the answer is failed.
  pub handle_subscribe_request_refines :
      let (status, d) =
        subscribe_spec now (record { address = address; port = port }) name (view s) in
      Returns
        (λ response s'. (response ≡ respond CommandIdentifiers.subscribe status) × (view s' ≡ d))
        (handle_subscribe_request now later address port name s)
  unfolding handle_subscribe_request
  handle_subscribe_request_refines =
      let client : ClientConnection = record { address = address; port = port } in
      let (tp, s') = find_or_create_topic now later name s in
      let (w', has, same) = find_or_create_topic_lem name now later s v.well_formed in
      let (cp, s'') = find_or_create_connection address port s' in
      let (w'', at_client, same_topics) = find_or_create_connection_lem address port s' w' in
      let at_topic : load s''.topics tp ≡ ok has.topic = rw same_topics has.there in
      let found' = find_topic-created now later name s v.well_formed in
      let found : find_topic name s''.topics ≡ some tp = rw same_topics found' in
      let same_view = view-find_or_create_connection address port s' w' in
      let same_topic : topic_view s''.client_connections has.topic
          ≡ topic_view s'.client_connections has.topic =
        some-injective _ _ (
          sym (
            find_view-some s''.client_connections name s''.topics tp has.topic w''.topics_distinct
              found at_topic)
          ∙ ap (find_view name) same_view
          ∙ find_view-some s'.client_connections name s'.topics tp has.topic w'.topics_distinct
              found' has.there) in
      let spec : enter client name (topic_view s''.client_connections has.topic) (view s'')
          ≡ subscribe_spec now client name (view s) =
        ap₂ (enter client name) same_topic same_view
        ∙ enter-subscribe_spec now later name s v.well_formed client has.topic has.there in
      rw (subscribe_pointers_lem s'' w'' tp cp has.topic client at_topic at_client) (
        ap (λ p. respond CommandIdentifiers.subscribe p.0) spec,
        view-with_subscriber s'' w'' name tp cp has.topic client found at_client
            ∙ ap (λ p. p.1) spec,
      )

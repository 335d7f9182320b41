-- ===== src/Server/Invariant/Creating.antt =====
-- The steps of `handleSubscribeRequest` that find or make the topic and the connection.
use verteilte_systeme_bbps.Prelude.{
  ℕ, suc, ◌≡◌, ◌≢◌, refl, subst, sym, ap, ◌∙◌, false, Option-cases, inl, inr, [], ◌∷◌, ◌++◌,
  map-append, none, All, All-map, All-append, Distinct, Distinct-append_one, Text, ℤ, ok, arith,
  ◌&&◌, int_eq, ◌==◌, text_eq, ==_iff,
}
use verteilte_systeme_bbps.Server.Memory.{Ptr, Cells, load}
use verteilte_systeme_bbps.Server.Memory.Finding.{
  addresses, Below-mono, Below-append_one, Below-fresh, addresses-append_one, load_last,
  load-find_ptr, find_ptr-none,
}
use verteilte_systeme_bbps.Server.State.{ClientConnection, connection_eq, Topic, Server}
use verteilte_systeme_bbps.Server.Topic.{new_topic}
use verteilte_systeme_bbps.Server.Topic.Laws.{IsLive-append_one, same_connection}
use verteilte_systeme_bbps.Server.Requests.{
  find_topic, find_connection, find_or_create_topic, find_or_create_connection,
}
use verteilte_systeme_bbps.Server.Invariant.{WellFormed, topic_names, connections_of}

-- A pointer to a topic of that name.
pub record HasTopic (s : Server) (p : Ptr) (name : Text) : Type 0 where
  pub topic : Topic
  pub there : load s.topics p ≡ ok topic
  pub named : topic.topic_name ≡ name

module _ (name : Text) (now later : ℕ) (s : Server) (w : WellFormed s) where
  absent-ne :
      (cells : Cells Topic)
      → All (λ cell. (cell.1.topic_name == name) ≡ false) cells
      → All (λ n. n ≢ name) (topic_names cells)
  absent-ne [] h = tt
  absent-ne (cell ∷ cells) (e, h) = (ground arith, absent-ne cells h)

  created-WellFormed :
      find_topic name s.topics ≡ none
      → WellFormed (record s {
        topics = s.topics ++ (s.next, new_topic name now later) ∷ [];
        next = suc s.next;
      })
  unfolding find_topic new_topic
  created-WellFormed none_there = record {
    topics_below = Below-append_one s.next s.topics _ w.topics_below;
    connections_below =
        Below-mono s.next (suc s.next) s.client_connections (omega arith) w.connections_below;
    topics_distinct = subst Distinct (sym (addresses-append_one s.topics s.next _)) (
        Distinct-append_one (addresses s.topics) s.next w.topics_distinct
          (Below-fresh s.next s.topics w.topics_below));
    connections_distinct = w.connections_distinct;
    names_distinct =
        subst Distinct (sym (map-append (λ (cell : Ptr × Topic). cell.1.topic_name) s.topics _)) (
          Distinct-append_one (topic_names s.topics) name w.names_distinct
            (absent-ne s.topics (find_ptr-none _ s.topics none_there)));
    endpoints_distinct = w.endpoints_distinct;
    sound = All-append _ s.topics _ w.sound ((tt, tt), tt);
  }

  -- The pointer that the handler goes on with leads to a topic of the name, be it old or new.
  pub find_or_create_topic_lem :
      let (p, s') = find_or_create_topic now later name s in
      WellFormed s' × HasTopic s' p name × (s'.client_connections ≡ s.client_connections)
  unfolding find_or_create_topic find_topic
  find_or_create_topic_lem = elim (Option-cases (find_topic name s.topics)) [
    | inl e ↦
        rw (e, find_or_create_topic)
          (
            created-WellFormed e,
            record {
              topic = new_topic name now later;
              there = load_last s.next _ s.topics w.topics_below;
              named = unfold new_topic in refl;
            },
            refl,
          )
    | inr (p, e) ↦
        let (t, there, hit) = load-find_ptr _ s.topics p w.topics_distinct e in
        rw (e, find_or_create_topic)
          (w, record { topic = t; there = there; named = (==_iff t.topic_name name).0 hit }, refl)
  ]

module _ (address : Text) (port : ℤ) (s : Server) (w : WellFormed s) where
  absent-connection :
      (cells : Cells ClientConnection)
      → All (λ cell. (cell.1.address == address && cell.1.port == port) ≡ false) cells
      → All (λ c. c ≢ record { address = address; port = port }) (connections_of cells)
  absent-connection [] h = tt
  absent-connection (cell ∷ cells) (e, h) = (ground arith, absent-connection cells h)

  connected-WellFormed :
      find_connection address port s.client_connections ≡ none
      → WellFormed (record s {
        client_connections =
            s.client_connections ++ (s.next, record { address = address; port = port }) ∷ [];
        next = suc s.next;
      })
  unfolding find_connection
  connected-WellFormed none_there = record {
    topics_below = Below-mono s.next (suc s.next) s.topics (omega arith) w.topics_below;
    connections_below = Below-append_one s.next s.client_connections _ w.connections_below;
    topics_distinct = w.topics_distinct;
    connections_distinct =
        subst Distinct (sym (addresses-append_one s.client_connections s.next _)) (
          Distinct-append_one (addresses s.client_connections) s.next w.connections_distinct
            (Below-fresh s.next s.client_connections w.connections_below));
    names_distinct = w.names_distinct;
    endpoints_distinct =
        subst Distinct
          (sym (map-append (λ (cell : Ptr × ClientConnection). cell.1) s.client_connections _))
          (Distinct-append_one (connections_of s.client_connections) _ w.endpoints_distinct (
            absent-connection s.client_connections
              (find_ptr-none _ s.client_connections none_there)));
    sound =
        All-map (λ cell (live, d). (IsLive-append_one s.client_connections s.next _ _ live, d))
          s.topics w.sound;
  }

  -- The pointer leads to a connection with the address and port, and the topics stay as they are.
  pub find_or_create_connection_lem :
      let (p, s') = find_or_create_connection address port s in
      WellFormed s'
      × (load s'.client_connections p ≡ ok (record { address = address; port = port }))
      × (s'.topics ≡ s.topics)
  unfolding find_or_create_connection find_connection
  find_or_create_connection_lem =
      elim (Option-cases (find_connection address port s.client_connections)) [
        | inl e ↦
            rw (e, find_or_create_connection)
              (
                connected-WellFormed e,
                load_last s.next _ s.client_connections w.connections_below,
                refl,
              )
        | inr (p, e) ↦
            let (c, there, hit) = load-find_ptr _ s.client_connections p w.connections_distinct e in
            rw (e, find_or_create_connection)
              (
                w,
                there ∙ ap ok (sym ((==_iff _ c).0 (sym (same_connection c address port) ∙ hit))),
                refl,
              )
      ]

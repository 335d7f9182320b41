-- ===== src/Server/Invariant/Leaving.antt =====
-- What a subscriber leaves behind who goes: the topics and the connections that are left.
use verteilte_systeme_bbps.Prelude.{
  ◌≡◌, ◌≢◌, refl, subst, ap, ◌∙◌, Bool, true, false, ◌||◌, Bool-cases, inl, inr, List, [], ◌∷◌,
  Option, none, some, All, All-map, Distinct, ok, undefined, arith, ◌==◌, text_eq, nat_eq, contains,
  length, if◌then◌else◌,
}
use verteilte_systeme_bbps.Server.Memory.{Ptr, Cells, load, store, release}
use verteilte_systeme_bbps.Server.Memory.Releasing.{
  Below-release, All-release, Distinct-release, release-store,
}
use verteilte_systeme_bbps.Server.Memory.Storing.{All-store}
use verteilte_systeme_bbps.Server.Memory.Finding.{All-load}
use verteilte_systeme_bbps.Server.State.{ClientConnection, connection_eq, Topic, Server}
use verteilte_systeme_bbps.Server.Topic.{topic_unsubscribe}
use verteilte_systeme_bbps.Server.Topic.Laws.{
  IsLive, IsLive-release, endpoints, has_client_lem, ne_of_not-contains, topic_unsubscribe_first,
  erase_ptr_head,
}
use verteilte_systeme_bbps.Server.Requests.{is_subscribed_to_other_topic}
use verteilte_systeme_bbps.Server.Invariant.{
  WellFormed, IsSound, store-WellFormed, Invariant, Populated,
}

-- The connection is among the subscribers of one of the topics.
abbrev pub subscribed_somewhere : Cells ClientConnection → ClientConnection → Cells Topic → Bool
subscribed_somewhere connections c [] = false
subscribed_somewhere connections c (cell ∷ cells) =
    contains (endpoints connections cell.1.subscriber_list) c
    || subscribed_somewhere connections c cells

module _ (connections : Cells ClientConnection) (p : Ptr) (c : ClientConnection)
    (there : load connections p ≡ ok c) where
  pub is_subscribed_to_other_topic_lem :
      (topics : Cells Topic)
      → All (IsSound connections) topics
      → is_subscribed_to_other_topic connections (some p) topics
        ≡ ok (subscribed_somewhere connections c topics)
  unfolding is_subscribed_to_other_topic
  is_subscribed_to_other_topic_lem [] h = refl
  is_subscribed_to_other_topic_lem ((q, t) ∷ topics) ((live, _), h) =
      rw (there, is_subscribed_to_other_topic)
        (rw (has_client_lem connections t.subscriber_list c.address c.port live)
          (ground (arith, is_subscribed_to_other_topic_lem topics h)))

  -- Where it is nobody's subscriber, the connection can be deleted.
  released-IsSound :
      (topics : Cells Topic)
      → All (IsSound connections) topics
      → subscribed_somewhere connections c topics ≡ false
      → All (IsSound (release p connections)) topics
  released-IsSound [] h e = tt
  released-IsSound (cell ∷ topics) ((live, d), h) e = (
    (
      IsLive-release connections p cell.1.subscriber_list
          (ne_of_not-contains connections cell.1.subscriber_list p c there (ground arith)) live,
      d,
    ),
    released-IsSound topics h (ground arith),
  )

-- A null pointer is followed as soon as there is a topic left.
pub is_subscribed-null :
    (connections : Cells ClientConnection) (topics : Cells Topic)
    → topics ≢ []
    → is_subscribed_to_other_topic connections none topics ≡ undefined
unfolding is_subscribed_to_other_topic
is_subscribed-null connections [] h = absurd (h refl)
is_subscribed-null connections (cell ∷ topics) h = refl

-- The topics when a subscriber has gone from one of them.
abbrev pub topics_left : Ptr → Topic → List Ptr → Cells Topic → Cells Topic
topics_left p t rest topics =
    let topics' = store p (record t { subscriber_list = rest }) topics in
    if length rest == 0 then release p topics' else topics'

module _ (s : Server) (v : Invariant s) (topic_ptr first : Ptr) (rest : List Ptr) (t : Topic)
    (at_topic : load s.topics topic_ptr ≡ ok t) (listed : t.subscriber_list ≡ first ∷ rest) where
  sound_here : All (IsLive s.client_connections) (first ∷ rest) × Distinct (first ∷ rest)
  sound_here =
      subst (λ ps. All (IsLive s.client_connections) ps × Distinct ps) listed
        (All-load (IsSound s.client_connections) topic_ptr t s.topics at_topic v.well_formed.sound)

  -- Whoever asks, the first subscriber goes.
  pub topic_unsubscribe_here :
      (asked : Option Ptr)
      → topic_unsubscribe s.client_connections asked t
        ≡ ok (true, record t { subscriber_list = rest })
  topic_unsubscribe_here asked =
      topic_unsubscribe_first s.client_connections asked first rest t listed sound_here.0.0
      ∙ ap (λ ps. ok (true, record t { subscriber_list = ps }))
          (erase_ptr_head first rest sound_here.1.0)

  stored : Server
  stored = record s { topics = store topic_ptr (record t { subscriber_list = rest }) s.topics }

  stored-WellFormed : WellFormed stored
  unfolding stored
  stored-WellFormed =
      store-WellFormed s topic_ptr t _ v.well_formed at_topic refl (sound_here.0.1, sound_here.1.1)

  pub left-WellFormed : WellFormed (record s { topics = topics_left topic_ptr t rest s.topics })
  unfolding stored
  left-WellFormed = elim (Bool-cases (length rest == 0)) [
    | inl empty ↦ rw empty (record {
      topics_below = Below-release s.next topic_ptr _ stored-WellFormed.topics_below;
      connections_below = v.well_formed.connections_below;
      topics_distinct =
          Distinct-release (λ cell. cell.0) topic_ptr _ stored-WellFormed.topics_distinct;
      connections_distinct = v.well_formed.connections_distinct;
      names_distinct =
          Distinct-release (λ cell. cell.1.topic_name) topic_ptr _ stored-WellFormed.names_distinct;
      endpoints_distinct = v.well_formed.endpoints_distinct;
      sound = All-release _ topic_ptr _ stored-WellFormed.sound;
    })
    | inr more ↦ rw more stored-WellFormed
  ]

  pub left-Populated : Populated (topics_left topic_ptr t rest s.topics)
  left-Populated = by_rest rest refl
    where
      by_rest : (ps : List Ptr) → rest ≡ ps → Populated (topics_left topic_ptr t rest s.topics)
      by_rest [] e =
          let empty : (length rest == 0) ≡ true = ground arith in
          rw (empty, release-store)
            (All-release (λ cell. cell.1.subscriber_list ≢ []) topic_ptr s.topics v.populated)
      by_rest (p ∷ ps) e =
          let more : (length rest == 0) ≡ false = ground arith in
          rw more (
            All-store (λ cell. cell.1.subscriber_list ≢ []) topic_ptr _ s.topics (ground arith)
              (All-map (λ cell h _. h) s.topics v.populated))

-- The connections when that one has gone which is subscribed nowhere.
abbrev pub connections_left :
    Cells Topic → Ptr → ClientConnection → Cells ClientConnection → Cells ClientConnection
connections_left topics p c connections =
    if subscribed_somewhere connections c topics then connections else release p connections

module _ (s : Server) (w : WellFormed s) (client_ptr : Ptr) (c : ClientConnection)
    (at_client : load s.client_connections client_ptr ≡ ok c) where
  pub connections_left-WellFormed : WellFormed (record s {
    client_connections = connections_left s.topics client_ptr c s.client_connections;
  })
  connections_left-WellFormed =
      elim (Bool-cases (subscribed_somewhere s.client_connections c s.topics)) [
        | inl used ↦ rw used w
        | inr unused ↦ rw unused (record {
          topics_below = w.topics_below;
          connections_below =
              Below-release s.next client_ptr s.client_connections w.connections_below;
          topics_distinct = w.topics_distinct;
          connections_distinct =
              Distinct-release (λ cell. cell.0) client_ptr s.client_connections
                w.connections_distinct;
          names_distinct = w.names_distinct;
          endpoints_distinct =
              Distinct-release (λ cell. cell.1) client_ptr s.client_connections
                w.endpoints_distinct;
          sound =
              released-IsSound s.client_connections client_ptr c at_client s.topics w.sound unused;
        })
      ]

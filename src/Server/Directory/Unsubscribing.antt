-- ===== src/Server/Directory/Unsubscribing.antt =====
-- `handleUnsubscribeRequest`, seen in the directory.
use verteilte_systeme_bbps.Prelude.{
  ◌≡◌, ◌≢◌, refl, sym, subst, ap, ◌∙◌, true, false, ◌&&◌, int_eq, Bool-cases, Option-cases, inl,
  inr, List, [], ◌∷◌, map, some, All, Distinct, Text, ℤ, ok, arith, ◌==◌, text_eq, nat_eq, length,
}
use verteilte_systeme_bbps.Protocol.Identifiers.{CommandIdentifiers, Statuscode}
use verteilte_systeme_bbps.Server.Memory.{Ptr, Cells, load}
use verteilte_systeme_bbps.Server.Memory.Finding.{addresses, load-find_ptr, All-load}
use verteilte_systeme_bbps.Server.Memory.Releasing.{release-store}
use verteilte_systeme_bbps.Server.State.{ClientConnection, connection_eq, Topic, Server}
use verteilte_systeme_bbps.Server.Topic.Laws.{IsLive, endpoints, ne_of_not-contains}
use verteilte_systeme_bbps.Server.Requests.{find_topic, find_connection, handle_unsubscribe_request}
use verteilte_systeme_bbps.Server.Invariant.{IsSound, Returns, Invariant}
use verteilte_systeme_bbps.Server.Invariant.Subscribing.{respond}
use verteilte_systeme_bbps.Server.Invariant.Leaving.{
  subscribed_somewhere, topics_left, connections_left,
}
use verteilte_systeme_bbps.Server.Invariant.Unsubscribing.{unsubscribe_pointers_lem}
use verteilte_systeme_bbps.Server.Invariant.Requests.{find_topic-Found}
use verteilte_systeme_bbps.Server.Directory.{
  tail, topic_view, view, with_subscribers, unsubscribe_first_spec,
}
use verteilte_systeme_bbps.Server.Directory.Views.{
  find_view-none, find_view-some, views-store, views-release, views-release_connection,
}

-- A connection that is subscribed nowhere is apart from all subscribers.
apart_of_unused :
    (connections : Cells ClientConnection) (p : Ptr) (c : ClientConnection) (topics : Cells Topic)
    → load connections p ≡ ok c
    → subscribed_somewhere connections c topics ≡ false
    → All (λ cell. All (λ q. q ≢ p) cell.1.subscriber_list) topics
apart_of_unused connections p c [] there unused = tt
apart_of_unused connections p c (cell ∷ topics) there unused = (
  ne_of_not-contains connections cell.1.subscriber_list p c there (ground arith),
  apart_of_unused connections p c topics there (ground arith),
)

view-connections_left :
    (connections : Cells ClientConnection) (p : Ptr) (c : ClientConnection) (topics : Cells Topic)
    → load connections p ≡ ok c
    → map
        (λ (cell : Ptr × Topic). topic_view (connections_left topics p c connections) cell.1)
        topics
      ≡ map (λ cell. topic_view connections cell.1) topics
view-connections_left connections p c topics there =
    elim (Bool-cases (subscribed_somewhere connections c topics)) [
      | inl used ↦ rw used refl
      | inr unused ↦ rw unused (
          views-release_connection connections p topics
            (apart_of_unused connections p c topics there unused))
    ]

endpoints-tail :
    (connections : Cells ClientConnection) (ps : List Ptr) (first : Ptr) (rest : List Ptr)
    → ps ≡ first ∷ rest
    → IsLive connections first
    → endpoints connections rest ≡ tail (endpoints connections ps)
unfolding endpoints
endpoints-tail connections ps first rest listed (c, there) = rw (listed, endpoints) (rw there refl)

-- The topics when the first subscriber has gone from one of them.
view-topics_left :
    (connections : Cells ClientConnection) (name : Text) (p : Ptr) (t : Topic)
    (topics : Cells Topic)
    → Distinct (addresses topics)
    → find_topic name topics ≡ some p
    → (rest : List Ptr) → All (IsLive connections) rest
    → map (λ cell. topic_view connections cell.1) (topics_left p t rest topics)
      ≡ with_subscribers name
          (topic_view connections t)
          (endpoints connections rest)
          (map (λ cell. topic_view connections cell.1) topics)
unfolding with_subscribers endpoints
view-topics_left connections name p t topics d found [] _ =
    let empty : (length {A = Ptr} [] == 0) ≡ true = ground arith in
    rw (empty, release-store) (views-release connections name topics p d found)
view-topics_left connections name p t topics d found (q ∷ ps) ((c, there), _) =
    let more : (length (q ∷ ps) == 0) ≡ false = ground arith in
    rw more (
      views-store connections name topics p (record t { subscriber_list = q ∷ ps }) d found
      ∙ rw (there, endpoints, with_subscribers) (ground arith))

module _ (s : Server) (v : Invariant s) (name : Text) where
  -- What the specification makes of a topic that is there.
  pub unsubscribe_first_spec-left :
      (p : Ptr) (e : find_topic name s.topics ≡ some p)
      → let f = find_topic-Found s name p v e in
        unsubscribe_first_spec name (view s)
        ≡ (Statuscode.success, view (record s { topics = topics_left p f.topic f.rest s.topics }))
  unfolding unsubscribe_first_spec
  unsubscribe_first_spec-left p e =
      let f = find_topic-Found s name p v e in
      let sound =
        All-load (IsSound s.client_connections) p f.topic s.topics f.there v.well_formed.sound in
      let live = subst (All (IsLive s.client_connections)) f.listed sound.0 in
      let d = v.well_formed.topics_distinct in
      rw
        (
          find_view-some s.client_connections name s.topics p f.topic d e f.there,
          unsubscribe_first_spec,
        )
        (ap (λ d'. (Statuscode.success, d'))
          (sym (
            view-topics_left s.client_connections name p f.topic s.topics d e f.rest live.1
            ∙ ap (λ cs. with_subscribers name (topic_view s.client_connections f.topic) cs (view s))
                (endpoints-tail s.client_connections f.topic.subscriber_list f.first f.rest f.listed
                  live.0))))

module _ (s : Server) (v : Invariant s) (name : Text) (address : Text) (port : ℤ) where
  -- In a server whose objects are in order, an unsubscribe request of a client that has a
  -- connection, whichever it is, takes the first subscriber from the topic, and the topic away
  -- with its last one; the answer is success, or invalid parameter if there is no such topic.
  pub handle_unsubscribe_request_lem :
      (client_ptr : Ptr)
      → find_connection address port s.client_connections ≡ some client_ptr
      → let (status, d) = unsubscribe_first_spec name (view s) in
        Returns
          (λ response s'.
            (response ≡ respond CommandIdentifiers.unsubscribe status) × (view s' ≡ d))
          (handle_unsubscribe_request address port name s)
  unfolding handle_unsubscribe_request find_connection unsubscribe_first_spec
  handle_unsubscribe_request_lem client_ptr known = elim (Option-cases (find_topic name s.topics)) [
    | inl e ↦
        rw (find_view-none s.client_connections name s.topics e, unsubscribe_first_spec)
          (rw (e, handle_unsubscribe_request) (refl, refl))
    | inr (p, e) ↦
        let (c, at_client, _) =
          load-find_ptr (λ c. c.address == address && c.port == port) s.client_connections
            client_ptr v.well_formed.connections_distinct known in
        let f = find_topic-Found s name p v e in
        rw (unsubscribe_first_spec-left s v name p e) (
          rw (e, handle_unsubscribe_request)
            (rw (known, find_connection)
              (rw
                (unsubscribe_pointers_lem s v p f.first f.rest f.topic f.there f.listed client_ptr c
                  at_client)
                (
                  refl,
                  view-connections_left s.client_connections client_ptr c
                      (topics_left p f.topic f.rest s.topics) at_client,
                ))))
  ]

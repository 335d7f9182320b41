-- ===== src/Server/Program/Genuine.antt =====
-- Nothing is sent that was not published, and to nobody who did not subscribe.
pub mod Whole
use verteilte_systeme_bbps.Prelude.{
  Option, none, some, ℕ, ◌≡◌, ◌≢◌, refl, sym, ap, subst, ◌∙◌, Bool, true, false, if◌then◌else◌,
  Option-cases, inl, inr, List, [], ◌∷◌, ◌++◌, append_assoc, All, All-append, All-map, map, Text, ℤ,
  pos, ok, ◌>>=◌, bind-ok, ok-injective,
}
use verteilte_systeme_bbps.Protocol.Json.{Json}
use verteilte_systeme_bbps.Server.Memory.{Ptr, Cells}
use verteilte_systeme_bbps.Server.State.{ClientConnection, Topic, Server}
use verteilte_systeme_bbps.Server.Invariant.{Invariant}
use verteilte_systeme_bbps.Server.Topic.Laws.{endpoints}
use verteilte_systeme_bbps.Server.Sending.{Datagram, Network, datagram}
use verteilte_systeme_bbps.Server.Directory.{view, topic_view}
use verteilte_systeme_bbps.Server.Directory.Service.Answering.{answer-answer_spec}
use verteilte_systeme_bbps.Server.Directory.Changes.{Change}
use verteilte_systeme_bbps.Server.Directory.Changes.Requests.{Brings}
use verteilte_systeme_bbps.Server.Directory.Changes.Origins.{
  Subscribed, IsGenuine, answer_spec-IsGenuine,
}
use verteilte_systeme_bbps.Server.Heartbeat.{check_topic_timeouts}
use verteilte_systeme_bbps.Server.Heartbeat.Keeps.{check_topic_timeouts-Invariant}
use verteilte_systeme_bbps.Server.Heartbeat.Contents.{Sends, check_topic_timeouts-All}
use verteilte_systeme_bbps.Server.Dispatch.{take, buffer_size, handle_approaching_client}
use verteilte_systeme_bbps.Server.Dispatch.Answers.{handle_approaching_client-cases}
use verteilte_systeme_bbps.Server.Threads.{System}
use verteilte_systeme_bbps.Server.Threads.Safety.{answer-Invariant, new_server-Invariant}
use verteilte_systeme_bbps.Server.Schedule.{Arrival, Turn, run_turn}
use verteilte_systeme_bbps.Server.CommandLine.{parse}
use verteilte_systeme_bbps.Server.Program.{
  Listener, is_listening, Event, Running, take_thread, start, Status, handle_event, handle_events,
  main,
}
use verteilte_systeme_bbps.Server.Program.Life.{parsed_running}
use verteilte_systeme_bbps.Server.Program.Served.{accepted, take_thread-All, accepted-All}

-- One of the connections brought the message that the datagram carries, at the time that it carries,
-- and one of them asked for the client that it goes to to be a subscriber of the topic.
abbrev pub HasOrigin : Json → ℕ → (Arrival → Type 0) → Datagram → Type 0
HasOrigin J limit P d =
    (a : Arrival) × (b : Arrival) × (c : ClientConnection) × (name : Text) × (message : Text) × P a
    × P b
    × Brings J a (Change.publish a.now message name)
    × Brings J b (Change.subscribe b.now c name)
    × (d ≡ datagram J limit c name message (pos a.now))

-- One of those connections, with the bytes that the server's buffer takes of what it brings.
abbrev pub Cut : (Arrival → Type 0) → Arrival → Type 0
Cut P a = (b : Arrival) × P b × (a ≡ record b { received = take buffer_size b.received })

module _ (J : Json) (limit : ℕ) (P : Arrival → Type 0) where
  IsGenuine-Sends :
      (connections : Cells ClientConnection) (t : Topic)
      → IsGenuine J (Cut P) (topic_view connections t)
      → Sends J limit (HasOrigin J limit (Cut P)) connections t
  IsGenuine-Sends connections t (published, subscribed) some_text =
      let (a, pa, asks_a, at) = published some_text in
      All-map
        (λ c (b, pb, asks_b). (
          a,
          b,
          c,
          t.topic_name,
          t.message,
          pa,
          pb,
          asks_a,
          asks_b,
          ap (datagram J limit c t.topic_name t.message) at,
        ))
        (endpoints connections t.subscriber_list) subscribed

  view-Sends :
      (connections : Cells ClientConnection) (topics : Cells Topic)
      → All
          (IsGenuine J (Cut P))
          (map (λ (cell : Ptr × Topic). topic_view connections cell.1) topics)
      → All (λ cell. Sends J limit (HasOrigin J limit (Cut P)) connections cell.1) topics
  view-Sends connections [] h = tt
  view-Sends connections (cell ∷ topics) (g, h) =
      (IsGenuine-Sends connections cell.1 g, view-Sends connections topics h)

  -- The server's objects are in order, and what it keeps and what it has sent has its origin.
  pub record IsHonest (a : System) : Type 0 where
    pub sound : Invariant a.server
    pub kept : All (IsGenuine J (Cut P)) (view a.server)
    pub sent : All (HasOrigin J limit (Cut P)) a.network.sent

  request-IsHonest :
      (q : Arrival) (a : System) (text : Option Text) (server : Server)
      → P q
      → IsHonest a
      → handle_approaching_client J q.now q.later q.ip_address q.received a.server
        ≡ ok (text, server)
      → IsHonest (record a { server = server })
  request-IsHonest q a text server p h e =
      elim (handle_approaching_client-cases J q.now q.later q.ip_address q.received a.server server
        text e) [
          | inl (empty, closed, same) ↦ subst (λ s. IsHonest (record a { server = s })) (sym same) h
          | inr (response, t, e1, written, some_bytes, given) ↦
              let bytes = take buffer_size q.received in
              let spec =
                answer-answer_spec a.server h.sound J q.now q.later q.ip_address bytes response
                  server e1 in
              let q' : Arrival = record q { received = bytes } in
              record {
                sound =
                    answer-Invariant a.server h.sound J q.now q.later q.ip_address bytes response
                      server e1;
                kept =
                    answer_spec-IsGenuine J (Cut P) q' (view a.server) (view server) response
                      (q, p, refl) h.kept spec;
                sent = h.sent;
              }
        ]

  round-IsHonest :
      (clock : ℕ → ℕ) (a b : System)
      → IsHonest a
      → run_turn J limit (Turn.round clock) a ≡ ok b
      → IsHonest b
  unfolding run_turn
  round-IsHonest clock a b h e =
      let ((server, network), e1, f) =
        bind-ok (check_topic_timeouts J limit clock a.server a.network) _ b e in
      let (s', n', e2, v, seen, _) =
        check_topic_timeouts-Invariant J limit clock a.server a.network h.sound in
      let same = ap (λ (q : Server × Network). q.0) (ok-injective _ _ (sym e2 ∙ e1)) in
      subst IsHonest (ok-injective _ b f) (record {
        sound = subst Invariant same v;
        kept =
            subst (λ s. All (IsGenuine J (Cut P)) (view s)) same
              (subst (All (IsGenuine J (Cut P))) (sym seen) h.kept);
        sent =
            check_topic_timeouts-All J limit (HasOrigin J limit (Cut P)) clock a.server server
              a.network network (view-Sends a.server.client_connections a.server.topics h.kept) e1
              h.sent;
      })

  -- The program, with the connections that wait.
  pub record IsSincere (r : Running) : Type 0 where
    pub honest : IsHonest r.system
    pub waiting : All P r.threads

  event-IsSincere :
      (event : Event) (r r' : Running)
      → IsSincere r
      → All P (accepted r.accepting (event ∷ []))
      → handle_event J limit event r ≡ ok r'
      → IsSincere r' × (r'.accepting ≡ r.accepting)
  unfolding handle_event
  event-IsSincere Event.accept_failure r r' h new e =
      let same = ok-injective r r' e in (subst IsSincere same h, ap (λ q. q.accepting) (sym same))
  event-IsSincere (Event.accept_connection a) r r' h new e =
      subst (λ q. IsSincere q × (q.accepting ≡ r.accepting)) (ok-injective _ r' e)
        ((elim r.accepting
            as (λ b.
              All P ((if b then a ∷ [] else []) ++ [])
              → IsSincere (if b then record r { threads = r.threads ++ a ∷ [] } else r)
                × ((if b then record r { threads = r.threads ++ a ∷ [] } else r).accepting
                    ≡ r.accepting)) [
                      | true ↦ λ came. (
                        record {
                          honest = h.honest;
                          waiting = All-append P r.threads (a ∷ []) h.waiting came;
                        },
                        refl,
                      )
                      | false ↦ λ _. (h, refl)
                    ])
          new)
  event-IsSincere (Event.thread_turn i) r r' h new e =
      elim (Option-cases (take_thread i r.threads)) [
        | inl absent ↦
            let same = ok-injective r r' (rw (absent, handle_event) at e) in
            (subst IsSincere same h, ap (λ q. q.accepting) (sym same))
        | inr ((a, others), found) ↦
            let ((text, server), e1, f) =
              bind-ok
                (handle_approaching_client J a.now a.later a.ip_address a.received r.system.server)
                _ r' (rw (found, handle_event) at e) in
            let (pa, rest, _) = take_thread-All P i r.threads a others found h.waiting in
            subst (λ q. IsSincere q × (q.accepting ≡ r.accepting)) (ok-injective _ r' f)
              (
                record {
                  honest = request-IsHonest a r.system text server pa h.honest e1;
                  waiting = rest;
                },
                refl,
              )
      ]
  event-IsSincere (Event.heartbeat_turn clock) r r' h new e =
      let (system, e1, f) = bind-ok (run_turn J limit (Turn.round clock) r.system) _ r' e in
      subst (λ q. IsSincere q × (q.accepting ≡ r.accepting)) (ok-injective _ r' f)
        (
          record { honest = round-IsHonest clock r.system system h.honest e1; waiting = h.waiting },
          refl,
        )

  pub events-IsSincere :
      (events : List Event) (r r' : Running)
      → IsSincere r
      → All P (accepted r.accepting events)
      → handle_events J limit events r ≡ ok r'
      → IsSincere r'
  unfolding handle_events
  events-IsSincere [] r r' h new e = subst IsSincere (ok-injective r r' e) h
  events-IsSincere (event ∷ events) r r' h new e =
      let (r1, e1, f) =
        bind-ok (handle_event J limit event r) (handle_events J limit events) r' e in
      let (first, later) = accepted-All P r.accepting event events new in
      let (h1, same) = event-IsSincere event r r1 h first e1 in
      events-IsSincere events r1 r' h1 (subst (λ b. All P (accepted b events)) (sym same) later) f

-- ===== src/Server/Program/Life.antt =====
-- What the server's program keeps to, from its arguments on.
use verteilte_systeme_bbps.Prelude.{
  ◌≢◌, ok-injective, bind-ok, ℕ, ◌≤◌, ◌≡◌, refl, ap, ◌∙◌, subst, true, false, if◌then◌else◌, List,
  [], ◌∷◌, ◌++◌, length, Option-cases, inl, inr, Text, ℤ, ok, ◌>>=◌,
}
use verteilte_systeme_bbps.Protocol.Json.{Json}
use verteilte_systeme_bbps.Server.Invariant.{Invariant}
use verteilte_systeme_bbps.Server.Heartbeat.{check_topics, check_topic_timeouts}
use verteilte_systeme_bbps.Server.Threads.{System, new_server, Reach}
use verteilte_systeme_bbps.Server.Threads.Safety.{Reach-Invariant, Reach-sent}
use verteilte_systeme_bbps.Server.Schedule.{Turn, run_turn}
use verteilte_systeme_bbps.Server.Schedule.Runs.{request-Reach, round-Reach}
use verteilte_systeme_bbps.Server.Dispatch.{handle_approaching_client}
use verteilte_systeme_bbps.Server.CommandLine.{Options, Parsed, parse}
use verteilte_systeme_bbps.Server.CommandLine.Settings.{IsPort, parse-IsPort}
use verteilte_systeme_bbps.Server.Program.{
  Listener, is_listening, Event, Running, take_thread, start, Status, handle_event, handle_events,
  main,
}

module _ (J : Json) (limit : ℕ) (descriptors : ℕ) where
  module _ (topic_timeout : ℤ) where
    abbrev Reachable : System → Type 0
    Reachable = Reach J limit descriptors topic_timeout

    event-Reach :
        (event : Event) (r r' : Running)
        → Reachable r.system
        → handle_event J limit event r ≡ ok r'
        → Reachable r'.system
    unfolding handle_event
    event-Reach Event.accept_failure r r' reach h =
        subst (λ q. Reachable q.system) (ok-injective r r' h) reach
    event-Reach (Event.accept_connection a) r r' reach h =
        subst (λ q. Reachable q.system) (ok-injective _ r' h)
          (elim r.accepting
            as (λ b.
              Reachable (if b then record r { threads = r.threads ++ a ∷ [] } else r).system) [
                | true ↦ reach
                | false ↦ reach
              ])
    event-Reach (Event.thread_turn i) r r' reach h = elim (Option-cases (take_thread i r.threads)) [
      | inl e ↦
          subst (λ q. Reachable q.system) (ok-injective r r' (rw (e, handle_event) at h)) reach
      | inr ((a, others), e) ↦
          let ((text, server), e', f) =
            bind-ok
              (handle_approaching_client J a.now a.later a.ip_address a.received r.system.server) _
              r' (rw (e, handle_event) at h) in
          subst (λ q. Reachable q.system) (ok-injective _ r' f)
            (request-Reach J limit descriptors topic_timeout a r.system text server reach e')
    ]
    event-Reach (Event.heartbeat_turn clock) r r' reach h =
        let (system, e, f) = bind-ok (run_turn J limit (Turn.round clock) r.system) _ r' h in
        subst (λ q. Reachable q.system) (ok-injective _ r' f)
          (round-Reach J limit descriptors topic_timeout clock r.system system reach e)

    events-Reach :
        (events : List Event) (r r' : Running)
        → Reachable r.system
        → handle_events J limit events r ≡ ok r'
        → Reachable r'.system
    unfolding handle_events
    events-Reach [] r r' reach h = subst (λ q. Reachable q.system) (ok-injective r r' h) reach
    events-Reach (event ∷ events) r r' reach h =
        let (r1, e, f) =
          bind-ok (handle_event J limit event r) (handle_events J limit events) r' h in
        events-Reach events r1 r' (event-Reach event r r1 reach e) f

    start-Reach :
        (o : Options) (listener : Listener)
        → o.topic_timeout ≡ topic_timeout
        → Reachable (start descriptors o listener).system
    unfolding start
    start-Reach o listener e = rw e Reach.start

  pub parsed_running :
      (parsed : Parsed) (listener : Listener) (events : List Event) (r : Running)
      → elim parsed [
        | Parsed.start o ↦ handle_events J limit events (start descriptors o listener) >>= λ q.
            ok (Status.running q)
        | Parsed.help ↦ ok (Status.exited 0)
        | Parsed.refused ↦ ok (Status.exited 1)
      ]
        ≡ ok (Status.running r)
      → (o : Options) × (parsed ≡ Parsed.start o)
        × (handle_events J limit events (start descriptors o listener) ≡ ok r)
  parsed_running (Parsed.start o) listener events r h =
      let (q, e, f) =
        bind-ok (handle_events J limit events (start descriptors o listener)) _ (Status.running r)
          h in
      (o, refl, e ∙ cc)
  parsed_running Parsed.help listener events r h = cc
  parsed_running Parsed.refused listener events r h = cc

  -- If the server's program goes on after any events that its arguments and the outcomes of the
  -- system calls led to, and it had no more descriptors open at its start than it may have: its
  -- arguments were accepted with a port that is no more than 65535, its objects are in order, and
  -- it has sent no more datagrams than it may have descriptors.
  pub main-Invariant :
      (args : List Text) (listener : Listener) (events : List Event) (r : Running)
      → descriptors ≤ limit
      → main J limit descriptors args listener events ≡ ok (Status.running r)
      → (o : Options) × (parse args ≡ ok (Parsed.start o))
        × IsPort o.port
        × Invariant r.system.server
        × (length r.system.network.sent ≤ limit)
  unfolding main
  main-Invariant args listener events r room h =
      let (parsed, e, f) = bind-ok (parse args) _ (Status.running r) h in
      let (o, e', g) = parsed_running parsed listener events r f in
      let started = e ∙ ap ok e' in
      let reach =
        events-Reach o.topic_timeout events (start descriptors o listener) r
          (start-Reach o.topic_timeout o listener refl) g in
      (o, started, parse-IsPort args o started, Reach-Invariant reach, Reach-sent room reach)

  deaf_listener :
      (listener : Listener) → listener ≢ Listener.listening → is_listening listener ≡ false
  deaf_listener Listener.no_socket deaf = refl
  deaf_listener Listener.not_bound deaf = refl
  deaf_listener Listener.not_listening deaf = refl
  deaf_listener Listener.listening deaf = absurd (deaf refl)

  -- A server that does not listen has no threads of connections and no topics.
  event_deaf :
      (o : Options) (listener : Listener) (event : Event)
      → listener ≢ Listener.listening
      → handle_event J limit event (start descriptors o listener)
        ≡ ok (start descriptors o listener)
  unfolding handle_event start take_thread run_turn check_topic_timeouts check_topics new_server
  event_deaf o listener Event.accept_failure deaf = refl
  event_deaf o listener (Event.accept_connection a) deaf = rw (deaf_listener listener deaf) refl
  event_deaf o listener (Event.thread_turn i) deaf = refl
  event_deaf o listener (Event.heartbeat_turn clock) deaf = refl

  events_deaf :
      (o : Options) (listener : Listener) (events : List Event)
      → listener ≢ Listener.listening
      → handle_events J limit events (start descriptors o listener)
        ≡ ok (start descriptors o listener)
  unfolding handle_events
  events_deaf o listener [] deaf = refl
  events_deaf o listener (event ∷ events) deaf =
      rw (event_deaf o listener event deaf) (events_deaf o listener events deaf)

  -- If the server's arguments are accepted and it cannot make its socket, bind it or listen on
  -- it, then whatever happens afterwards, its state stays as it was at its start: it takes no
  -- connection, has no topic and sends nothing.
  pub main_not_listening :
      (args : List Text) (o : Options) (listener : Listener) (events : List Event)
      → parse args ≡ ok (Parsed.start o)
      → listener ≢ Listener.listening
      → main J limit descriptors args listener events
        ≡ ok (Status.running (start descriptors o listener))
  unfolding main
  main_not_listening args o listener events e deaf =
      rw e (rw (events_deaf o listener events deaf) refl)

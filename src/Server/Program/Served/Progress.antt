-- ===== src/Server/Program/Served/Progress.antt =====
-- A run of the program against the directory's service.
use verteilte_systeme_bbps.Prelude.{
  Option, map, map-append, ok-injective, bind-ok, ℕ, ◌≡◌, refl, sym, ◌∙◌, subst, Bool, true, false,
  if◌then◌else◌, List, [], ◌∷◌, ◌++◌, Option-cases, inl, inr, append-nil, append_assoc, Text,
  Outcome, ok,
}
use mathlib.Core.List.{Perm}
use mathlib.Core.List.Perm
use verteilte_systeme_bbps.Protocol.Json.{Json}
use verteilte_systeme_bbps.Server.Invariant.{Invariant}
use verteilte_systeme_bbps.Server.Directory.{view}
use verteilte_systeme_bbps.Server.Directory.Service.Handling.{handle_approaching_client-handle_spec}
use verteilte_systeme_bbps.Server.Heartbeat.Keeps.{check_topic_timeouts-Invariant}
use verteilte_systeme_bbps.Server.Dispatch.{handle_approaching_client}
use verteilte_systeme_bbps.Server.Threads.{System}
use verteilte_systeme_bbps.Server.Threads.Safety.{new_server-Invariant}
use verteilte_systeme_bbps.Server.Schedule.{Arrival, Turn, run_turn}
use verteilte_systeme_bbps.Server.CommandLine.{parse}
use verteilte_systeme_bbps.Server.Program.{
  Listener, is_listening, Event, Running, take_thread, start, Status, handle_event, handle_events,
  main,
}
use verteilte_systeme_bbps.Server.Program.Life.{parsed_running}
use verteilte_systeme_bbps.Server.Program.Served.{accepted, Serves, Serves-append, take_thread-perm}

-- The connections whose threads have ended.
abbrev pub ended : List (Arrival × Option Text) → List Arrival
ended = map (λ (f : Arrival × Option Text). f.0)

-- From one state of the program to a later one: the connections that were answered, and those that
-- came in between.
record Progress (J : Json) (new : List Arrival) (r r' : Running) : Type 0 where
  same : r'.accepting ≡ r.accepting
  served : List (Arrival × Option Text)
  finished : r'.finished ≡ r.finished ++ served
  each : Perm (ended served ++ r'.threads) (r.threads ++ new)
  directory : Serves J served (view r.system.server) (view r'.system.server)
  sound : Invariant r'.system.server

module _ (J : Json) where
  -- Nothing came in and nothing was answered.
  Progress-still :
      (r r' : Running)
      → r'.accepting ≡ r.accepting
      → r'.threads ≡ r.threads
      → r'.finished ≡ r.finished
      → view r'.system.server ≡ view r.system.server
      → Invariant r'.system.server
      → Progress J [] r r'
  Progress-still r r' same threads finished seen v = record {
    same = same;
    served = [];
    finished = finished ∙ sym (append-nil r.finished);
    each = rw (threads, append-nil r.threads) Perm.rfl;
    directory = sym seen;
    sound = v;
  }

  Progress-trans :
      (new later : List Arrival) (a b c : Running)
      → Progress J new a b
      → Progress J later b c
      → Progress J (new ++ later) a c
  Progress-trans new later a b c h k = record {
    same = k.same ∙ h.same;
    served = h.served ++ k.served;
    finished = rw (k.finished, h.finished) (append_assoc a.finished h.served k.served);
    each =
        rw
          (
            map-append (λ (f : Arrival × Option Text). f.0) h.served k.served,
            append_assoc (ended h.served) (ended k.served) c.threads,
            ← append_assoc a.threads new later,
          )
          (Perm.trans (Perm.append_left (ended h.served) k.each) (
            rw (← append_assoc (ended h.served) b.threads later) (Perm.append_right later h.each)));
    directory =
        Serves-append J h.served k.served (view a.system.server) (view b.system.server)
          (view c.system.server) h.directory k.directory;
    sound = k.sound;
  }

  run_turn-view :
      (limit : ℕ) (clock : ℕ → ℕ) (s s' : System)
      → Invariant s.server
      → run_turn J limit (Turn.round clock) s ≡ ok s'
      → view s'.server ≡ view s.server
  unfolding run_turn
  run_turn-view limit clock s s' v h =
      let (server, network, e, _, seen, _) =
        check_topic_timeouts-Invariant J limit clock s.server s.network v in
      let left : ◌≡◌ {A = Outcome System} (ok (record { server = server; network = network }))
          (ok s') =
        rw e at h in
      let same : server ≡ s'.server = cc in subst (λ t. view t ≡ view s.server) same seen

  module _ (limit : ℕ) where
    round-Invariant :
        (clock : ℕ → ℕ) (s s' : System)
        → Invariant s.server
        → run_turn J limit (Turn.round clock) s ≡ ok s'
        → Invariant s'.server
    unfolding run_turn
    round-Invariant clock s s' v h =
        let (server, network, e, sound, _, _) =
          check_topic_timeouts-Invariant J limit clock s.server s.network v in
        subst (λ (t : System). Invariant t.server) (ok-injective _ s' (rw e at h)) sound

    event-Progress :
        (event : Event) (r r' : Running)
        → Invariant r.system.server
        → handle_event J limit event r ≡ ok r'
        → Progress J (accepted r.accepting (event ∷ [])) r r'
    unfolding handle_event
    event-Progress Event.accept_failure r r' v h =
        subst (Progress J [] r) (ok-injective r r' h) (Progress-still r r refl refl refl refl v)
    event-Progress (Event.accept_connection a) r r' v h =
        subst (Progress J _ r) (ok-injective _ r' h)
          (elim r.accepting
            as (λ b.
              Progress J ((if b then a ∷ [] else []) ++ []) r
                (if b then record r { threads = r.threads ++ a ∷ [] } else r)) [
                  | true ↦ record {
                    same = refl;
                    served = [];
                    finished = sym (append-nil r.finished);
                    each = Perm.rfl;
                    directory = refl;
                    sound = v;
                  }
                  | false ↦ Progress-still r r refl refl refl refl v
                ])
    event-Progress (Event.thread_turn i) r r' v h = elim (Option-cases (take_thread i r.threads)) [
      | inl e ↦
          subst (Progress J [] r) (ok-injective r r' (rw (e, handle_event) at h))
            (Progress-still r r refl refl refl refl v)
      | inr ((a, others), e) ↦
          let ((text, server), e', f) =
            bind-ok
              (handle_approaching_client J a.now a.later a.ip_address a.received r.system.server) _
              r' (rw (e, handle_event) at h) in
          let (spec, sound) =
            handle_approaching_client-handle_spec J a text r.system.server server v e' in
          subst (Progress J [] r) (ok-injective _ r' f) (record {
            same = refl;
            served = (a, text) ∷ [];
            finished = refl;
            each = rw (append-nil r.threads) (Perm.symm (take_thread-perm i r.threads a others e));
            directory = (view server, spec, refl);
            sound = sound;
          })
    ]
    event-Progress (Event.heartbeat_turn clock) r r' v h =
        let (system, e, f) = bind-ok (run_turn J limit (Turn.round clock) r.system) _ r' h in
        subst (Progress J [] r) (ok-injective _ r' f) (
          Progress-still r (record r { system = system }) refl refl refl
            (run_turn-view limit clock r.system system v e)
            (round-Invariant clock r.system system v e))

    accepted-cons :
        (accepting : Bool) (event : Event) (events : List Event)
        → accepted accepting (event ∷ []) ++ accepted accepting events
          ≡ accepted accepting (event ∷ events)
    accepted-cons accepting Event.accept_failure events = refl
    accepted-cons true (Event.accept_connection a) events = refl
    accepted-cons false (Event.accept_connection a) events = refl
    accepted-cons accepting (Event.thread_turn i) events = refl
    accepted-cons accepting (Event.heartbeat_turn clock) events = refl

    events-Progress :
        (events : List Event) (r r' : Running)
        → Invariant r.system.server
        → handle_events J limit events r ≡ ok r'
        → Progress J (accepted r.accepting events) r r'
    unfolding handle_events
    events-Progress [] r r' v h =
        subst (Progress J [] r) (ok-injective r r' h) (Progress-still r r refl refl refl refl v)
    events-Progress (event ∷ events) r r' v h =
        let (r1, e, f) =
          bind-ok (handle_event J limit event r) (handle_events J limit events) r' h in
        let first = event-Progress event r r1 v e in
        subst (λ new. Progress J new r r') (accepted-cons r.accepting event events)
          (Progress-trans (accepted r.accepting (event ∷ [])) (accepted r.accepting events) r r1 r'
            first
            (subst (λ b. Progress J (accepted b events) r1 r') first.same
              (events-Progress events r1 r' first.sound f)))

  -- If the server's program goes on after any events that its arguments and the outcomes of the
  -- system calls led to: each connection that it accepted, once it listened, either waits for the
  -- turn of its thread or had it exactly once. The directory's service, given those that had
  -- their turn one after the other in the order of their turns, from an empty directory, answers
  -- each with the same bytes as the program did, or with none where nothing arrived, and comes to
  -- the topics, messages and subscribers that the program has, whenever the rounds of the
  -- heartbeat were.
  pub main-serve :
      (limit descriptors : ℕ) (args : List Text) (listener : Listener) (events : List Event)
      (r : Running)
      → main J limit descriptors args listener events ≡ ok (Status.running r)
      → Perm (ended r.finished ++ r.threads) (accepted (is_listening listener) events)
        × Serves J r.finished [] (view r.system.server)
  unfolding main start
  main-serve limit descriptors args listener events r h =
      let (parsed, e, f) = bind-ok (parse args) _ (Status.running r) h in
      let (o, e', g) = parsed_running J limit descriptors parsed listener events r f in
      let p =
        events-Progress limit events (start descriptors o listener) r
          (new_server-Invariant o.topic_timeout) g in
      (
        rw p.finished p.each,
        subst (λ served. Serves J served [] (view r.system.server)) (sym p.finished) p.directory,
      )

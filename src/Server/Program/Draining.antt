-- ===== src/Server/Program/Draining.antt =====
-- The program goes on, and every connection is answered in the end.
pub mod Turns
use verteilte_systeme_bbps.Prelude.{
  ◌<◌, ℤ, ℕ, zero, suc, ◌+◌, ◌≤◌, ◌≡◌, ◌≢◌, refl, sym, ap, ◌∙◌, subst, Bool, true, false,
  if◌then◌else◌, Bool-cases, List, [], ◌∷◌, ◌++◌, length, length-append, Option-cases, inl, inr,
  Option, none, some, All, All-append, append-nil, Text, Outcome, ok, ◌>>=◌, arith,
}
use mathlib.Core.List.{Perm}
use mathlib.Core.List.Perm
use verteilte_systeme_bbps.Protocol.Identifiers.{CommandIdentifiers}
use verteilte_systeme_bbps.Protocol.Json.{Json}
use verteilte_systeme_bbps.Protocol.Command.{Command}
use verteilte_systeme_bbps.Protocol.Command
use verteilte_systeme_bbps.Protocol.Command.Defined.{IsTotal}
use verteilte_systeme_bbps.Server.Invariant.{Invariant}
use verteilte_systeme_bbps.Server.Directory.{view}
use verteilte_systeme_bbps.Server.Heartbeat.Keeps.{check_topic_timeouts-Invariant}
use verteilte_systeme_bbps.Server.State.{Server}
use verteilte_systeme_bbps.Server.Dispatch.{take, buffer_size, handle_approaching_client}
use verteilte_systeme_bbps.Server.Directory.Service.Answering.{answer-answer_spec}
use verteilte_systeme_bbps.Server.Directory.Service.Statuses.{
  answer_spec-HasStatus, serialize-HasStatus,
}
use verteilte_systeme_bbps.Server.Dispatch.Defined.{answer-Known}
use verteilte_systeme_bbps.Server.Threads.Safety.{new_server-Invariant}
use verteilte_systeme_bbps.Server.Schedule.{Arrival, Turn, run_turn}
use verteilte_systeme_bbps.Server.CommandLine.{Options, Parsed, parse}
use verteilte_systeme_bbps.Server.Program.{
  Listener, is_listening, Event, Running, take_thread, start, Status, handle_event, handle_events,
  main,
}
use verteilte_systeme_bbps.Server.Program.Served.{accepted, take_thread-All, accepted-All}
use verteilte_systeme_bbps.Server.Program.Served.Progress.{main-serve}

-- Turns of threads, each counted among those that wait then.
abbrev pub turns : List ℕ → List Event
turns [] = []
turns (i ∷ order) = Event.thread_turn i ∷ turns order

-- The order in which so many threads that wait have their turns; what comes behind is no matter.
abbrev pub IsOrder : ℕ → List ℕ → Type 0
IsOrder zero order = Unit
IsOrder (suc n) [] = suc n ≤ 0
IsOrder (suc n) (i ∷ order) = (i ≤ n) × IsOrder n order

module _ (J : Json) where
  -- What the connection brings is neither a request to unsubscribe nor a command without a name.
  abbrev pub IsStaying : Arrival → Type 0
  IsStaying a =
      (c : Command)
      → Command.deserialize J (take buffer_size a.received) ≡ ok c
      → (c.command_identifier ≢ CommandIdentifiers.unsubscribe)
        × ((n : ℤ) → c.command_identifier ≢ CommandIdentifiers.unnamed n)

  pub nil_of_length : (threads : List Arrival) → length threads ≤ 0 → threads ≡ []
  nil_of_length [] h = refl
  nil_of_length (a ∷ threads) h = absurd (omega arith)

  pub take_thread-some :
      (i : ℕ) (threads : List Arrival)
      → i < length threads
      → (a : Arrival) × (others : List Arrival) × (take_thread i threads ≡ some (a, others))
  unfolding take_thread
  take_thread-some i [] h = absurd (omega arith)
  take_thread-some zero (a ∷ threads) h = (a, threads, refl)
  take_thread-some (suc i) (a ∷ threads) h =
      let (b, others, e) = take_thread-some i threads (omega arith) in (b, a ∷ others, rw e refl)

  -- The program after an event: it is in order, and no more connections wait than waited or came.
  pub record Goes (r : Running) (more : ℕ) (o : Outcome Running) : Type 0 where
    pub next : Running
    pub returns : o ≡ ok next
    pub sound : Invariant next.system.server
    pub staying : All IsStaying next.threads
    pub same : next.accepting ≡ r.accepting
    pub fewer : length next.threads ≤ length r.threads + more

  pub Goes-still :
      (r : Running) (v : Invariant r.system.server) (h : All IsStaying r.threads) → Goes r 0 (ok r)
  Goes-still r v h = record {
    next = r;
    returns = refl;
    sound = v;
    staying = h;
    same = refl;
    fewer = omega arith;
  }

  module _ (limit : ℕ) (total : IsTotal J) where
    -- The handler comes to its end.
    handled :
        (now later : ℕ) (ip received : Text) (s : Server)
        → Invariant s
        → ((c : Command)
            → Command.deserialize J (take buffer_size received) ≡ ok c
            → (c.command_identifier ≢ CommandIdentifiers.unsubscribe)
              × ((n : ℤ) → c.command_identifier ≢ CommandIdentifiers.unnamed n))
        → (text : Option Text) × (s' : Server) × (handle_approaching_client J now later ip received
              s
            ≡ ok (text, s'))
          × Invariant s'
    unfolding handle_approaching_client
    handled now later ip [] s v staying = (none, s, refl, v)
    handled now later ip (c ∷ pending) s v staying =
        let bytes = take buffer_size (c ∷ pending) in
        let (response, server, answered, sound) =
          answer-Known now later ip s v J bytes total
            (λ c read port asks _. absurd ((staying c read).0 asks)) in
        let spec = answer-answer_spec s v J now later ip bytes response server answered in
        let (code, set) =
          answer_spec-HasStatus J now ip bytes (view s) (view server) response
            (λ c read. (staying c read).1) spec in
        let (text, written) = serialize-HasStatus J response code set in
        (some text, server, rw answered (rw written refl), sound)

    -- The turn of a thread, with what it leaves.
    pub thread-Goes :
        (i : ℕ) (r : Running) (a : Arrival) (others : List Arrival)
        → take_thread i r.threads ≡ some (a, others)
        → Invariant r.system.server
        → All IsStaying r.threads
        → (r' : Running) × (handle_event J limit (Event.thread_turn i) r ≡ ok r')
          × Invariant r'.system.server
          × (r'.threads ≡ others)
          × (r'.accepting ≡ r.accepting)
    unfolding handle_event
    thread-Goes i r a others e v h =
        let (staying, _, _) = take_thread-All IsStaying i r.threads a others e h in
        let (text, server, done, sound) =
          handled a.now a.later a.ip_address a.received r.system.server v staying in
        (
          record r {
            threads = others;
            finished = r.finished ++ (a, text) ∷ [];
            system = record r.system { server = server };
          },
          rw (e, handle_event) (rw done refl),
          sound,
          refl,
          refl,
        )

    pub event-Goes :
        (event : Event) (r : Running)
        → Invariant r.system.server
        → All IsStaying r.threads
        → All IsStaying (accepted r.accepting (event ∷ []))
        → Goes r (length (accepted r.accepting (event ∷ []))) (handle_event J limit event r)
    unfolding handle_event run_turn
    event-Goes Event.accept_failure r v h new = Goes-still r v h
    event-Goes (Event.accept_connection a) r v h new =
        (elim r.accepting
            as (λ b.
              All IsStaying ((if b then a ∷ [] else []) ++ [])
              → Goes r (length ((if b then a ∷ [] else []) ++ []))
                  (ok (if b then record r { threads = r.threads ++ a ∷ [] } else r))) [
                    | true ↦ λ new. record {
                      next = record r { threads = r.threads ++ a ∷ [] };
                      returns = refl;
                      sound = v;
                      staying = All-append IsStaying r.threads (a ∷ []) h new;
                      same = refl;
                      fewer = omega (arith, length-append r.threads (a ∷ []));
                    }
                    | false ↦ λ _. Goes-still r v h
                  ])
          new
    event-Goes (Event.thread_turn i) r v h new = elim (Option-cases (take_thread i r.threads)) [
      | inl e ↦ rw (e, handle_event) (Goes-still r v h)
      | inr ((a, others), e) ↦
          let (r', e', sound, left, same) = thread-Goes i r a others e v h in
          let (_, staying, size) = take_thread-All IsStaying i r.threads a others e h in
          record {
            next = r';
            returns = e';
            sound = sound;
            staying = subst (All IsStaying) (sym left) staying;
            same = same;
            fewer = omega (arith, size, ap length left);
          }
    ]
    event-Goes (Event.heartbeat_turn clock) r v h new =
        let (server, network, e, sound, _, _) =
          check_topic_timeouts-Invariant J limit clock r.system.server r.system.network v in
        record {
          next = record r { system = record { server = server; network = network } };
          returns = rw e refl;
          sound = sound;
          staying = h;
          same = refl;
          fewer = omega arith;
        }

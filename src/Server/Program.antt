-- ===== src/Server/Program.antt =====
-- The server as a program: `main` of server/main.cpp, the constructor of `Server` and `startServer`.
-- What the system calls come to, and the order in which the threads take their turns, is a list of
-- events.
pub mod Life
pub mod Served
pub mod Draining
pub mod Genuine
use verteilte_systeme_bbps.Prelude.{
  ℕ, zero, suc, Bool, true, false, List, [], ◌∷◌, ◌++◌, Option, none, some, Text, if◌then◌else◌,
  Outcome, ok, ◌>>=◌,
}
use verteilte_systeme_bbps.Protocol.Json.{Json}
use verteilte_systeme_bbps.Server.Threads.{System, new_server}
use verteilte_systeme_bbps.Server.Dispatch.{handle_approaching_client}
use verteilte_systeme_bbps.Server.Schedule.{Arrival, Turn, run_turn}
use verteilte_systeme_bbps.Server.CommandLine.{Options, Parsed, parse}

-- How far `startServer` comes before its loop.
pub data Listener : Type 0 where
  no_socket not_bound not_listening listening : Listener

abbrev pub is_listening : Listener → Bool
is_listening Listener.no_socket = false
is_listening Listener.not_bound = false
is_listening Listener.not_listening = false
is_listening Listener.listening = true

-- `accept` fails or brings a connection; the thread of a connection, counted among those that wait,
-- or the thread of the heartbeat has its turn.
pub data Event : Type 0 where
  accept_failure : Event
  accept_connection : Arrival → Event
  thread_turn : ℕ → Event
  heartbeat_turn : (ℕ → ℕ) → Event

-- The program: whether it is in the loop of `startServer`, the connections whose threads have not had
-- their turn, those whose threads have ended, with what each handed to `send`, and what the threads
-- share.
pub record Running : Type 0 where
  pub accepting : Bool
  pub threads : List Arrival
  pub finished : List (Arrival × Option Text)
  pub system : System

-- A thread, and the others.
unfoldable pub take_thread : ℕ → List Arrival → Option (Arrival × List Arrival)
take_thread i [] = none
take_thread zero (a ∷ threads) = some (a, threads)
take_thread (suc i) (a ∷ threads) = elim (take_thread i threads) [
  | none ↦ none
  | some (b, others) ↦ some (b, a ∷ others)
]

-- The constructor of `Server`; where `startServer` returns, `main` goes on to the destructor, which
-- waits for the heartbeat's thread.
unfoldable pub start : ℕ → Options → Listener → Running
unfolding new_server
start descriptors o listener = record {
  accepting = is_listening listener;
  threads = [];
  finished = [];
  system = record {
    server = new_server o.topic_timeout;
    network = record { open_descriptors = descriptors; sent = [] };
  };
}

-- The program has returned, or it goes on.
pub data Status : Type 0 where
  exited : ℕ → Status
  running : Running → Status

module _ (J : Json) (limit : ℕ) where
  unfoldable pub handle_event : Event → Running → Outcome Running
  unfolding take_thread handle_approaching_client run_turn
  handle_event Event.accept_failure r = ok r
  handle_event (Event.accept_connection a) r =
      ok (if r.accepting then record r { threads = r.threads ++ a ∷ [] } else r)
  handle_event (Event.thread_turn i) r = elim (take_thread i r.threads) [
    | none ↦ ok r
    | some (a, others) ↦
        handle_approaching_client J a.now a.later a.ip_address a.received r.system.server
        >>= λ (text, server). ok (record r {
          threads = others;
          finished = r.finished ++ (a, text) ∷ [];
          system = record r.system { server = server };
        })
  ]
  handle_event (Event.heartbeat_turn clock) r =
      run_turn J limit (Turn.round clock) r.system >>= λ system. ok (record r { system = system })

  unfoldable pub handle_events : List Event → Running → Outcome Running
  unfolding handle_event
  handle_events [] r = ok r
  handle_events (event ∷ events) r = handle_event event r >>= handle_events events

  unfoldable pub main : ℕ → List Text → Listener → List Event → Outcome Status
  unfolding parse start handle_events
  main descriptors args listener events = parse args >>= λ parsed. elim parsed [
    | Parsed.start o ↦
        handle_events events (start descriptors o listener) >>= λ r. ok (Status.running r)
    | Parsed.help ↦ ok (Status.exited 0)
    | Parsed.refused ↦ ok (Status.exited 1)
  ]

-- ===== src/Server/Schedule.antt =====
-- A run of the server by evaluation: the turns are given as a list.
pub mod Runs
use verteilte_systeme_bbps.Prelude.{ℕ, List, [], ◌∷◌, Text, Outcome, ok, ◌>>=◌}
use verteilte_systeme_bbps.Protocol.Json.{Json}
use verteilte_systeme_bbps.Server.Heartbeat.{check_topic_timeouts}
use verteilte_systeme_bbps.Server.Dispatch.{handle_approaching_client}
use verteilte_systeme_bbps.Server.Threads.{System}

-- What a connection brings: the times at which the handler reads the clock, the address, the bytes.
pub record Arrival : Type 0 where
  pub now : ℕ
  pub later : ℕ
  pub ip_address : Text
  pub received : Text

pub data Turn : Type 0 where
  request : Arrival → Turn
  round : (ℕ → ℕ) → Turn

module _ (J : Json) (limit : ℕ) where
  unfoldable pub run_turn : Turn → System → Outcome System
  unfolding handle_approaching_client check_topic_timeouts
  run_turn (Turn.request a) s = do
    (text, server) ← handle_approaching_client J a.now a.later a.ip_address a.received s.server
    ok (record s { server = server })
  run_turn (Turn.round clock) s = do
    (server, network) ← check_topic_timeouts J limit clock s.server s.network
    ok (record { server = server; network = network })

  unfoldable pub run_turns : List Turn → System → Outcome System
  unfolding run_turn
  run_turns [] s = ok s
  run_turns (turn ∷ turns) s = run_turn turn s >>= run_turns turns

-- ===== src/Server/Threads.antt =====
-- The server as it runs: requests, each on a thread of its own, and the rounds of the heartbeat's
-- thread take turns under the mutex, in any order.
pub mod Safety
use verteilte_systeme_bbps.Prelude.{ℕ, ◌≡◌, List, [], Text, ℤ, Outcome, ok}
use verteilte_systeme_bbps.Protocol.Json.{Json}
use verteilte_systeme_bbps.Protocol.Response.{Response}
use verteilte_systeme_bbps.Server.State.{Server}
use verteilte_systeme_bbps.Server.Sending.{Network}
use verteilte_systeme_bbps.Server.Heartbeat.{check_topic_timeouts}
use verteilte_systeme_bbps.Server.Dispatch.{answer}

-- `Server(port, topicTimeout)`, up to the call of `startServer`
unfoldable pub new_server : ℤ → Server
new_server topic_timeout = record {
  topic_timeout = topic_timeout;
  topics = [];
  client_connections = [];
  next = 1;
}

pub record System : Type 0 where
  pub server : Server
  pub network : Network

-- One turn: what the `try` block of `handleApproachingClient` does for a request, or a round of
-- `checkTopicTimeouts`.
pub data Step (J : Json) (limit : ℕ) (a : System) : System → Type 0 where
  request :
      (now later : ℕ) (ip received : Text) {response : Response} {s : Server}
      → answer J now later ip received a.server ≡ ok (response, s)
      → Step J limit a (record { server = s; network = a.network })
  round :
      (clock : ℕ → ℕ) {s : Server} {n : Network}
      → check_topic_timeouts J limit clock a.server a.network ≡ ok (s, n)
      → Step J limit a (record { server = s; network = n })

-- What a server can come to that has so many descriptors open when it starts.
pub data Reach (J : Json) (limit : ℕ) (descriptors : ℕ) (topic_timeout : ℤ) : System → Type 0 where
  start : Reach J limit descriptors topic_timeout (record {
    server = new_server topic_timeout;
    network = record { open_descriptors = descriptors; sent = [] };
  })
  then_step :
      {a b : System}
      → Reach J limit descriptors topic_timeout a
      → Step J limit a b
      → Reach J limit descriptors topic_timeout b

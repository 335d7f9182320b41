-- ===== src/Server/Heartbeat.antt =====
-- One round of `checkTopicTimeouts`, under the server's mutex. The clock gives what the calls of
-- `time(nullptr)` return, one after the other.
pub mod Kept
pub mod Keeps
pub mod Timeliness
pub mod Repeating
pub mod Delivery
pub mod Rounds
pub mod Contents
use verteilte_systeme_bbps.Prelude.{
  ℕ, suc, ◌+◌, true, false, List, [], ◌∷◌, ℤ, pos, le_ℤ, ◌+ℤ◌, Outcome, ok, ◌>>=◌,
}
use verteilte_systeme_bbps.Protocol.Json.{Json}
use verteilte_systeme_bbps.Server.Memory.{Ptr, Cells}
use verteilte_systeme_bbps.Server.State.{ClientConnection, Topic, Server}
use verteilte_systeme_bbps.Server.Sending.{Network, publish_message}

pub record Swept : Type 0 where
  pub topics : Cells Topic
  pub network : Network

module _ (J : Json) (limit : ℕ) (clock : ℕ → ℕ) (connections : Cells ClientConnection)
    (topic_timeout : ℤ) where
  -- The loop over the topics that are left; `k` calls of the clock have been made.
  unfoldable pub check_topics : ℕ → Cells Topic → Network → Outcome Swept
  unfolding publish_message
  check_topics k [] network = ok (record { topics = []; network = network })
  check_topics k ((p, topic) ∷ cells) network =
      elim (le_ℤ topic.timeout_timestamp (pos (clock k))) [
        | true ↦ (do
          network' ← publish_message J limit connections topic network
          rest ← check_topics (k + 2) cells network'
          ok (record rest {
            topics =
                (p, record topic { timeout_timestamp = pos (clock (k + 1)) +ℤ topic_timeout })
                ∷ rest.topics;
          }))
        | false ↦ (do
          rest ← check_topics (k + 1) cells network
          ok (record rest { topics = (p, topic) ∷ rest.topics }))
      ]

module _ (J : Json) (limit : ℕ) (clock : ℕ → ℕ) where
  unfoldable pub check_topic_timeouts : Server → Network → Outcome (Server × Network)
  unfolding check_topics
  check_topic_timeouts s network = do
    swept ← check_topics J limit clock s.client_connections s.topic_timeout 0 s.topics network
    ok (record s { topics = swept.topics }, swept.network)

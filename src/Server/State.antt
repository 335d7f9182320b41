-- ===== src/Server/State.antt =====
-- The classes of topic.h, clientconnection.h and server.h.
use verteilte_systeme_bbps.Prelude.{List, Text, ℤ, ℕ_discrete, Eq}
use verteilte_systeme_bbps.Server.Memory.{Ptr, Cells}

pub record ClientConnection : Type 0 where
  pub address : Text
  pub port : ℤ

ClientConnection-discrete : Discrete ClientConnection
ClientConnection-discrete = hlevel ℕ_discrete

instance unfoldable pub connection_eq : Eq ClientConnection
unfolding ClientConnection-discrete
connection_eq = record { dec = ClientConnection-discrete }

-- A `time_t` counts seconds.
pub record Topic : Type 0 where
  pub message : Text
  pub topic_name : Text
  pub message_timestamp : ℤ
  pub subscriber_list : List Ptr
  pub timeout_timestamp : ℤ

-- `next` is the address of the next object. The mutex and the thread are the steps of
-- Server/Threads; the field `port` is neither set nor read.
pub record Server : Type 0 where
  pub topic_timeout : ℤ
  pub topics : Cells Topic
  pub client_connections : Cells ClientConnection
  pub next : Ptr

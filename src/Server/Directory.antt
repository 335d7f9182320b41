-- ===== src/Server/Directory.antt =====
-- What the server promises, without pointers: a directory of topics with their subscribers, and what
-- each request does to it.
pub mod Views
pub mod Subscribing
pub mod Unsubscribing
pub mod Publishing
pub mod Meaning
pub mod Service
pub mod Changes
pub mod Subscribers
use verteilte_systeme_bbps.Prelude.{
  ℕ, Bool, true, false, List, [], ◌∷◌, ◌++◌, map, Option, none, some, Text, ℤ, pos, ◌==◌, text_eq,
  contains, if◌then◌else◌, length, nat_eq,
}
use verteilte_systeme_bbps.Protocol.Identifiers.{Statuscode}
use verteilte_systeme_bbps.Server.Memory.{Cells}
use verteilte_systeme_bbps.Server.State.{ClientConnection, connection_eq, Topic, Server}
use verteilte_systeme_bbps.Server.Topic.Laws.{endpoints}

pub record TopicView : Type 0 where
  pub name : Text
  pub message : Text
  pub message_timestamp : ℤ
  pub subscribers : List ClientConnection

abbrev pub Directory : Type 0
Directory = List TopicView

abbrev pub topic_view : Cells ClientConnection → Topic → TopicView
topic_view connections t = record {
  name = t.topic_name;
  message = t.message;
  message_timestamp = t.message_timestamp;
  subscribers = endpoints connections t.subscriber_list;
}

abbrev pub view : Server → Directory
view s = map (λ cell. topic_view s.client_connections cell.1) s.topics

abbrev pub find_view : Text → Directory → Option TopicView
find_view name [] = none
find_view name (t ∷ ts) = if t.name == name then some t else find_view name ts

-- The topic of that name gives way to another.
abbrev pub replace_view : Text → TopicView → Directory → Directory
replace_view name t' [] = []
replace_view name t' (t ∷ ts) = if t.name == name then t' ∷ ts else t ∷ replace_view name t' ts

abbrev pub remove_view : Text → Directory → Directory
remove_view name [] = []
remove_view name (t ∷ ts) = if t.name == name then ts else t ∷ remove_view name ts

abbrev pub tail : List ClientConnection → List ClientConnection
tail [] = []
tail (c ∷ cs) = cs

abbrev pub add_subscriber : ClientConnection → TopicView → TopicView
add_subscriber c t = record t { subscribers = t.subscribers ++ c ∷ [] }

abbrev pub remove_subscriber : ClientConnection → List ClientConnection → List ClientConnection
remove_subscriber c [] = []
remove_subscriber c (d ∷ ds) = if d == c then ds else d ∷ remove_subscriber c ds

-- A client is added once. A topic that is not there comes into being with its first subscriber.
unfoldable pub subscribe_spec : ℕ → ClientConnection → Text → Directory → Statuscode × Directory
subscribe_spec now c name d = elim (find_view name d) [
  | some t ↦
      if contains t.subscribers c
      then (Statuscode.failed, d)
      else (Statuscode.success, replace_view name (add_subscriber c t) d)
  | none ↦ (
    Statuscode.success,
    d
        ++ record { name = name; message = []; message_timestamp = pos now; subscribers = c ∷ [] }
          ∷ [],
  )
]

-- A topic with no subscriber left goes.
unfoldable pub with_subscribers : Text → TopicView → List ClientConnection → Directory → Directory
with_subscribers name t [] d = remove_view name d
with_subscribers name t (c ∷ cs) d = replace_view name (record t { subscribers = c ∷ cs }) d

-- What unsubscribing is for: the client, and no other, is no subscriber any more.
unfoldable pub unsubscribe_spec : ClientConnection → Text → Directory → Statuscode × Directory
unfolding with_subscribers
unsubscribe_spec c name d = elim (find_view name d) [
  | none ↦ (Statuscode.invalid_parameter, d)
  | some t ↦
      if contains t.subscribers c
      then (Statuscode.success, with_subscribers name t (remove_subscriber c t.subscribers) d)
      else (Statuscode.failed, d)
]

-- What the server does instead: the subscriber that came first goes, whoever asks.
unfoldable pub unsubscribe_first_spec : Text → Directory → Statuscode × Directory
unfolding with_subscribers
unsubscribe_first_spec name d = elim (find_view name d) [
  | none ↦ (Statuscode.invalid_parameter, d)
  | some t ↦ (Statuscode.success, with_subscribers name t (tail t.subscribers) d)
]

unfoldable pub publish_spec : ℕ → Text → Text → Directory → Statuscode × Directory
publish_spec now message name d = elim (find_view name d) [
  | none ↦ (Statuscode.invalid_parameter, d)
  | some t ↦ (
    Statuscode.success,
    replace_view name (record t { message = message; message_timestamp = pos now }) d,
  )
]

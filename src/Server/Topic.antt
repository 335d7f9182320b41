-- ===== src/Server/Topic.antt =====
-- topic.cpp, without the sending of messages.
pub mod Laws
use verteilte_systeme_bbps.Prelude.{
  ℕ, Bool, true, false, ◌&&◌, List, [], ◌∷◌, ◌++◌, Text, ℤ, pos, int_eq, text_eq, ◌==◌,
  if◌then◌else◌, Outcome, ok, ◌>>=◌,
}
use verteilte_systeme_bbps.Server.Memory.{Ptr, Cells, load, erase_ptr}
use verteilte_systeme_bbps.Server.State.{ClientConnection, Topic}

-- `Topic(name)`; the two numbers are what `time(nullptr)` returns.
unfoldable pub new_topic : Text → ℕ → ℕ → Topic
new_topic name now later = record {
  message = [];
  topic_name = name;
  message_timestamp = pos now;
  subscriber_list = [];
  timeout_timestamp = pos later;
}

module _ (connections : Cells ClientConnection) where
  -- `hasClient`, over the subscribers that are left
  unfoldable pub has_client : List Ptr → Text → ℤ → Outcome Bool
  has_client [] address port = ok false
  has_client (p ∷ ps) address port = do
    c ← load connections p
    if c.address == address && c.port == port then ok true else has_client ps address port

  unfoldable pub topic_subscribe : Ptr → Topic → Outcome (Bool × Topic)
  unfolding has_client
  topic_subscribe p topic = do
    c ← load connections p
    known ← has_client topic.subscriber_list c.address c.port
    if known
        then ok (false, topic)
        else ok (true, record topic { subscriber_list = topic.subscriber_list ++ p ∷ [] })

  -- The loop of `unsubscribe`. Its variable has the name of the argument and hides it, so the test
  -- compares each subscriber with itself.
  unfoldable pub unsubscribe_loop : List Ptr → Topic → Outcome (Bool × Topic)
  unsubscribe_loop [] topic = ok (false, topic)
  unsubscribe_loop (p ∷ ps) topic = do
    c ← load connections p
    if c.address == c.address && c.port == c.port
        then ok (true, record topic { subscriber_list = erase_ptr p topic.subscriber_list })
        else unsubscribe_loop ps topic

  -- The argument, which may be null, is not read.
  unfoldable pub topic_unsubscribe {ℓ} : {P : Type ℓ} → P → Topic → Outcome (Bool × Topic)
  unfolding unsubscribe_loop erase_ptr
  topic_unsubscribe _ topic = unsubscribe_loop topic.subscriber_list topic

-- `setMessage`, with what the two calls of `time(nullptr)` return. It returns true.
unfoldable pub set_message : Text → ℕ → ℕ → Topic → Bool × Topic
set_message message now later topic = (
  true,
  record topic { message = message; message_timestamp = pos now; timeout_timestamp = pos later },
)

-- ===== src/Server/Sending.antt =====
-- `ClientConnection::SendMessage` and `Topic::publishMessage`. `limit` is the number of descriptors
-- that the system lets the process have; `socket` fails when they are in use. What `sendto` returns is
-- not looked at, so a datagram counts as sent when it is handed over.
use verteilte_systeme_bbps.Prelude.{
  ℕ, suc, ◌-◌, ◌%◌, ◌^◌, List, [], ◌∷◌, ◌++◌, Text, ℤ, pos, negsuc, ltb, ◌==◌, text_eq,
  if◌then◌else◌, Outcome, ok, ◌>>=◌,
}
use verteilte_systeme_bbps.Protocol.Json.{Json}
use verteilte_systeme_bbps.Protocol.Message.{serialize}
use verteilte_systeme_bbps.Server.Memory.{Ptr, Cells, load}
use verteilte_systeme_bbps.Server.State.{ClientConnection, Topic}

pub record Datagram : Type 0 where
  pub address : Text
  pub port : ℕ
  pub content : Text

pub record Network : Type 0 where
  pub open_descriptors : ℕ
  pub sent : List Datagram

-- `htons(this->port)` keeps sixteen bits of the int.
unfoldable pub uint16_of_int : ℤ → ℕ
uint16_of_int (pos n) = n % 2 ^ 16
uint16_of_int (negsuc n) = 2 ^ 16 - 1 - n % 2 ^ 16

module _ (J : Json) (limit : ℕ) where
  unfoldable pub datagram : ClientConnection → Text → Text → ℤ → Datagram
  unfolding uint16_of_int
  datagram c topic_name message timestamp = record {
    address = c.address;
    port = uint16_of_int c.port;
    content =
        serialize J
          (record { topic = topic_name; message_timestamp = timestamp; message = message });
  }

  -- The socket that is opened is not closed.
  unfoldable pub send_message : ClientConnection → Text → Text → ℤ → Network → Network
  unfolding datagram
  send_message c topic_name message timestamp network =
      if ltb network.open_descriptors limit
      then record {
        open_descriptors = suc network.open_descriptors;
        sent = network.sent ++ datagram c topic_name message timestamp ∷ [];
      }
      else network

  -- The loop of `publishMessage`, over the subscribers that are left.
  unfoldable pub send_to_all : Cells ClientConnection → List Ptr → Topic → Network → Outcome Network
  unfolding send_message
  send_to_all connections [] topic network = ok network
  send_to_all connections (p ∷ ps) topic network = do
    c ← load connections p
    send_to_all connections ps topic
        (send_message c topic.topic_name topic.message topic.message_timestamp network)

  unfoldable pub publish_message : Cells ClientConnection → Topic → Network → Outcome Network
  unfolding send_to_all
  publish_message connections topic network =
      if topic.message == []
      then ok network
      else send_to_all connections topic.subscriber_list topic network

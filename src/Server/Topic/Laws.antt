-- ===== src/Server/Topic/Laws.antt =====
-- The subscribers of a topic, seen as the addresses and ports that they stand for.
use verteilte_systeme_bbps.Prelude.{
  ◌≡◌, refl, ap, ◌≢◌, true, false, ◌&&◌, List, [], ◌∷◌, ◌++◌, All, All-map, nat_eq, int_eq, text_eq,
  ◌==◌, contains, if◌then◌else◌, ok, arith, ℤ, Text,
}
use verteilte_systeme_bbps.Server.Memory.{Ptr, Cells, load, release, erase_ptr}
use verteilte_systeme_bbps.Server.Memory.Finding.{load-append_one}
use verteilte_systeme_bbps.Server.Memory.Releasing.{load-release}
use verteilte_systeme_bbps.Server.State.{ClientConnection, connection_eq, Topic}
use verteilte_systeme_bbps.Server.Topic.{has_client, topic_subscribe, topic_unsubscribe}

-- The pointer leads to an object.
abbrev pub IsLive : Cells ClientConnection → Ptr → Type 0
IsLive connections p = (c : ClientConnection) × (load connections p ≡ ok c)

-- What the pointers stand for; one that leads nowhere stands for nothing.
unfoldable pub endpoints : Cells ClientConnection → List Ptr → List ClientConnection
endpoints connections [] = []
endpoints connections (p ∷ ps) = elim (load connections p) [
  | ok c ↦ c ∷ endpoints connections ps
  | _ ↦ endpoints connections ps
]

pub same_connection :
    (c : ClientConnection) (address : Text) (port : ℤ)
    → (c.address == address && c.port == port) ≡ (record { address = address; port = port } == c)
same_connection c address port = ground arith

module _ (connections : Cells ClientConnection) where
  -- `hasClient` returns, and says whether the address and port are among the subscribers'.
  pub has_client_lem :
      (ps : List Ptr) (address : Text) (port : ℤ)
      → All (IsLive connections) ps
      → has_client connections ps address port
        ≡ ok (contains (endpoints connections ps) (record { address = address; port = port }))
  unfolding has_client endpoints
  has_client_lem [] address port h = refl
  has_client_lem (p ∷ ps) address port ((c, e), h) =
      rw e (ground (arith, has_client_lem ps address port h))

  pub endpoints-append_one :
      (ps : List Ptr) (p : Ptr) (c : ClientConnection)
      → load connections p ≡ ok c
      → endpoints connections (ps ++ p ∷ []) ≡ endpoints connections ps ++ c ∷ []
  unfolding endpoints
  endpoints-append_one [] p c e = ground arith
  endpoints-append_one (q ∷ ps) p c e = ground (arith, endpoints-append_one ps p c e)

  -- A live pointer among the subscribers shows in the endpoints.
  pub ne_of_not-contains :
      (ps : List Ptr) (p : Ptr) (c : ClientConnection)
      → load connections p ≡ ok c
      → contains (endpoints connections ps) c ≡ false
      → All (λ q. q ≢ p) ps
  unfolding endpoints
  ne_of_not-contains [] p c e h = tt
  ne_of_not-contains (q ∷ ps) p c e h = (
    λ same. ground (arith, ap (load connections) same),
    ne_of_not-contains ps p c e (ground arith),
  )

  -- Subscribing adds a live pointer behind the others unless its address and port are there.
  pub topic_subscribe_lem :
      (p : Ptr) (c : ClientConnection) (topic : Topic)
      → load connections p ≡ ok c
      → All (IsLive connections) topic.subscriber_list
      → topic_subscribe connections p topic ≡ (
          if contains (endpoints connections topic.subscriber_list) c
          then ok (false, topic)
          else ok (true, record topic { subscriber_list = topic.subscriber_list ++ p ∷ [] }))
  unfolding topic_subscribe
  topic_subscribe_lem p c topic e live =
      rw (e, topic_subscribe)
        (rw (has_client_lem topic.subscriber_list c.address c.port live) (ground arith))

  -- `unsubscribe` drops the first subscriber, whoever asks for it.
  pub topic_unsubscribe_first :
      {P : Type 0} (asked : P) (p : Ptr) (ps : List Ptr) (topic : Topic)
      → topic.subscriber_list ≡ p ∷ ps
      → IsLive connections p
      → topic_unsubscribe connections asked topic
        ≡ ok (true, record topic { subscriber_list = erase_ptr p (p ∷ ps) })
  unfolding topic_unsubscribe
  topic_unsubscribe_first asked p ps topic e (c, there) = ground arith

  pub topic_unsubscribe_nobody :
      {P : Type 0} (asked : P) (topic : Topic)
      → topic.subscriber_list ≡ []
      → topic_unsubscribe connections asked topic ≡ ok (false, topic)
  unfolding topic_unsubscribe
  topic_unsubscribe_nobody asked topic e = ground arith

pub erase_ptr_head : (p : Ptr) (ps : List Ptr) → All (λ q. q ≢ p) ps → erase_ptr p (p ∷ ps) ≡ ps
unfolding erase_ptr
erase_ptr_head p [] h = ground arith
erase_ptr_head p (q ∷ ps) (q≢p, h) = ground (arith, erase_ptr_head p ps h)

pub IsLive-append_one :
    (connections : Cells ClientConnection) (q : Ptr) (c : ClientConnection) (ps : List Ptr)
    → All (IsLive connections) ps
    → All (IsLive (connections ++ (q, c) ∷ [])) ps
IsLive-append_one connections q c = All-map λ p (d, e). (d, load-append_one p q c d connections e)

-- A new object changes no endpoint, nor does the end of one that is no subscriber.
pub endpoints-append_new :
    (connections : Cells ClientConnection) (q : Ptr) (c : ClientConnection) (ps : List Ptr)
    → All (IsLive connections) ps
    → endpoints (connections ++ (q, c) ∷ []) ps ≡ endpoints connections ps
unfolding endpoints
endpoints-append_new connections q c [] _ = refl
endpoints-append_new connections q c (p ∷ ps) ((d, e), h) =
    ground (arith, endpoints-append_new connections q c ps h, load-append_one p q c d connections e)

pub IsLive-release :
    (connections : Cells ClientConnection) (q : Ptr) (ps : List Ptr)
    → All (λ p. p ≢ q) ps
    → All (IsLive connections) ps
    → All (IsLive (release q connections)) ps
IsLive-release connections q [] _ _ = tt
IsLive-release connections q (p ∷ ps) (p≢q, h) ((d, e), live) =
    ((d, rw (load-release q p connections p≢q) e), IsLive-release connections q ps h live)

pub endpoints-release :
    (connections : Cells ClientConnection) (q : Ptr) (ps : List Ptr)
    → All (λ p. p ≢ q) ps
    → endpoints (release q connections) ps ≡ endpoints connections ps
unfolding endpoints
endpoints-release connections q [] _ = refl
endpoints-release connections q (p ∷ ps) (p≢q, h) =
    rw (load-release q p connections p≢q, endpoints)
      (ground (arith, endpoints-release connections q ps h))

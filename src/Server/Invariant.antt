-- ===== src/Server/Invariant.antt =====
-- What holds of the server's objects between two requests.
pub mod Creating
pub mod Subscribing
pub mod Leaving
pub mod Unsubscribing
pub mod Requests
use verteilte_systeme_bbps.Prelude.{
  ℕ, suc, ◌+◌, ◌≡◌, ◌≢◌, refl, subst, sym, Bool, true, false, List, [], ◌∷◌, ◌++◌, map, Option,
  none, some, All, All-map, Distinct, Text, ok, throws, undefined, Outcome, arith,
}
use verteilte_systeme_bbps.Protocol.Response.{Response}
use verteilte_systeme_bbps.Server.Memory.{Ptr, Cells, load, store}
use verteilte_systeme_bbps.Server.Memory.Finding.{addresses, Below}
use verteilte_systeme_bbps.Server.Memory.Storing.{
  All-store, Below-store, addresses-store, map-store,
}
use verteilte_systeme_bbps.Server.State.{ClientConnection, Topic, Server}
use verteilte_systeme_bbps.Server.Topic.Laws.{IsLive}

abbrev pub topic_names : Cells Topic → List Text
topic_names = map (λ cell. cell.1.topic_name)

abbrev pub connections_of : Cells ClientConnection → List ClientConnection
connections_of = map (λ cell. cell.1)

-- The subscribers are there, and none is listed twice.
abbrev pub IsSound : Cells ClientConnection → Ptr × Topic → Type 0
IsSound connections cell =
    All (IsLive connections) cell.1.subscriber_list × Distinct cell.1.subscriber_list

pub record WellFormed (s : Server) : Type 0 where
  pub topics_below : Below s.next s.topics
  pub connections_below : Below s.next s.client_connections
  pub topics_distinct : Distinct (addresses s.topics)
  pub connections_distinct : Distinct (addresses s.client_connections)
  pub names_distinct : Distinct (topic_names s.topics)
  pub endpoints_distinct : Distinct (connections_of s.client_connections)
  pub sound : All (IsSound s.client_connections) s.topics

-- Every topic has a subscriber.
abbrev pub Populated : Cells Topic → Type 0
Populated = All (λ cell. cell.1.subscriber_list ≢ [])

pub record Invariant (s : Server) : Type 0 where
  pub well_formed : WellFormed s
  pub populated : Populated s.topics

-- The call returns, neither by an exception nor by way of undefined behaviour, and what it returns
-- has the property.
abbrev pub Returns : (Response → Server → Type 0) → Outcome (Response × Server) → Type 0
Returns P (ok (r, s)) = P r s
Returns P (throws e) = ⊥
Returns P undefined = ⊥

-- Writing a topic under its old name.
pub store-WellFormed :
    (s : Server) (p : Ptr) (a b : Topic)
    → WellFormed s
    → load s.topics p ≡ ok a
    → b.topic_name ≡ a.topic_name
    → IsSound s.client_connections (p, b)
    → WellFormed (record s { topics = store p b s.topics })
store-WellFormed s p a b w there same_name sound = record {
  topics_below = Below-store s.next p b s.topics w.topics_below;
  connections_below = w.connections_below;
  topics_distinct = subst Distinct (sym (addresses-store p b s.topics)) w.topics_distinct;
  connections_distinct = w.connections_distinct;
  names_distinct =
      subst Distinct
        (sym (map-store (λ t. t.topic_name) p a b s.topics w.topics_distinct there same_name))
        w.names_distinct;
  endpoints_distinct = w.endpoints_distinct;
  sound =
      All-store (IsSound s.client_connections) p b s.topics sound
        (All-map (λ cell h _. h) s.topics w.sound);
}

-- ===== src/Server/Heartbeat/Keeps.antt =====
-- A round of the heartbeat changes the topics' timeouts, and nothing else of the server.
use verteilte_systeme_bbps.Prelude.{
  ℕ, ◌+◌, ◌≤◌, ◌≡◌, refl, true, false, Bool-cases, inl, inr, List, [], ◌∷◌, All, length,
  length-append, ℤ, pos, le_ℤ, ◌+ℤ◌, text_eq, ◌==◌, ok, arith,
}
use verteilte_systeme_bbps.Protocol.Json.{Json}
use verteilte_systeme_bbps.Server.Memory.{Ptr, Cells}
use verteilte_systeme_bbps.Server.State.{ClientConnection, Topic, Server}
use verteilte_systeme_bbps.Server.Topic.Laws.{IsLive}
use verteilte_systeme_bbps.Server.Invariant.{IsSound, Invariant}
use verteilte_systeme_bbps.Server.Directory.{view}
use verteilte_systeme_bbps.Server.Sending.{
  Network, datagram, send_message, send_to_all, publish_message,
}
use verteilte_systeme_bbps.Server.Heartbeat.{Swept, check_topics, check_topic_timeouts}
use verteilte_systeme_bbps.Server.Heartbeat.Kept.{Kept, Kept-Invariant, Kept-view}

-- Every datagram costs a descriptor for good, and there are `limit` of them.
pub record Costs (limit : ℕ) (before after : Network) : Type 0 where
  pub each :
      length after.sent + before.open_descriptors ≡ length before.sent + after.open_descriptors
  pub bounded : before.open_descriptors ≤ limit → after.open_descriptors ≤ limit

Costs-refl : (limit : ℕ) (n : Network) → Costs limit n n
Costs-refl limit n = record { each = omega arith; bounded = λ h. h }

Costs-trans : (limit : ℕ) (a b c : Network) → Costs limit a b → Costs limit b c → Costs limit a c
Costs-trans limit a b c h k = record {
  each = omega arith;
  bounded = λ le. k.bounded (h.bounded le);
}

module _ (J : Json) (limit : ℕ) (connections : Cells ClientConnection) where
  send_message-Costs :
      (c : ClientConnection) (name message : List ℕ) (z : ℤ) (n : Network)
      → Costs limit n (send_message J limit c name message z n)
  unfolding send_message
  send_message-Costs c name message z n =
      ground (arith, length-append n.sent (datagram J limit c name message z ∷ []))

  send_to_all_lem :
      (ps : List Ptr) (t : Topic) (n : Network)
      → All (IsLive connections) ps
      → (n' : Network) × (send_to_all J limit connections ps t n ≡ ok n') × Costs limit n n'
  unfolding send_to_all
  send_to_all_lem [] t n _ = (n, refl, Costs-refl limit n)
  send_to_all_lem (p ∷ ps) t n ((c, there), live) =
      let n1 = send_message J limit c t.topic_name t.message t.message_timestamp n in
      let (n', e, costs) = send_to_all_lem ps t n1 live in
      (
        n',
        rw (there, send_to_all) e,
        Costs-trans limit n n1 n'
            (send_message-Costs c t.topic_name t.message t.message_timestamp n) costs,
      )

  publish_message_lem :
      (t : Topic) (n : Network)
      → All (IsLive connections) t.subscriber_list
      → (n' : Network) × (publish_message J limit connections t n ≡ ok n') × Costs limit n n'
  unfolding publish_message
  publish_message_lem t n live = elim (Bool-cases (t.message == [])) [
    | inl empty ↦ (n, rw empty refl, Costs-refl limit n)
    | inr some_text ↦
        let (n', e, costs) = send_to_all_lem t.subscriber_list t n live in
        (n', rw some_text e, costs)
  ]

module _ (J : Json) (limit : ℕ) (clock : ℕ → ℕ) (connections : Cells ClientConnection)
    (topic_timeout : ℤ) where
  -- The two branches of a round.
  pub check_topics-due :
      (k : ℕ) (p : Ptr) (t : Topic) (cells : Cells Topic) (n n' : Network) (rest : Swept)
      → le_ℤ t.timeout_timestamp (pos (clock k)) ≡ true
      → publish_message J limit connections t n ≡ ok n'
      → check_topics J limit clock connections topic_timeout (k + 2) cells n' ≡ ok rest
      → check_topics J limit clock connections topic_timeout k ((p, t) ∷ cells) n
        ≡ ok (record rest {
          topics =
              (p, record t { timeout_timestamp = pos (clock (k + 1)) +ℤ topic_timeout })
              ∷ rest.topics;
        })
  unfolding check_topics
  check_topics-due k p t cells n n' rest due published e =
      rw (due, check_topics) (rw published (rw e refl))

  pub check_topics-early :
      (k : ℕ) (p : Ptr) (t : Topic) (cells : Cells Topic) (n : Network) (rest : Swept)
      → le_ℤ t.timeout_timestamp (pos (clock k)) ≡ false
      → check_topics J limit clock connections topic_timeout (k + 1) cells n ≡ ok rest
      → check_topics J limit clock connections topic_timeout k ((p, t) ∷ cells) n
        ≡ ok (record rest { topics = (p, t) ∷ rest.topics })
  unfolding check_topics
  check_topics-early k p t cells n rest early e = rw (early, check_topics) (rw e refl)

  -- The loop ends without a fault.
  pub check_topics_lem :
      (k : ℕ) (cells : Cells Topic) (n : Network)
      → All (IsSound connections) cells
      → (swept : Swept) × (check_topics J limit clock connections topic_timeout k cells n
          ≡ ok swept)
        × Kept cells swept.topics
        × Costs limit n swept.network
  unfolding check_topics
  check_topics_lem k [] n _ = (record { topics = []; network = n }, refl, tt, Costs-refl limit n)
  check_topics_lem k ((p, t) ∷ cells) n ((live, _), sound) =
      elim (Bool-cases (le_ℤ t.timeout_timestamp (pos (clock k)))) [
        | inl due ↦
            let (n', e, costs) = publish_message_lem J limit connections t n live in
            let (rest, e', kept, costs') = check_topics_lem (k + 2) cells n' sound in
            (
              record rest {
                topics =
                    (p, record t { timeout_timestamp = pos (clock (k + 1)) +ℤ topic_timeout })
                    ∷ rest.topics;
              },
              check_topics-due k p t cells n n' rest due e e',
              (refl, refl, kept),
              Costs-trans limit n n' rest.network costs costs',
            )
        | inr early ↦
            let (rest, e, kept, costs) = check_topics_lem (k + 1) cells n sound in
            (
              record rest { topics = (p, t) ∷ rest.topics },
              check_topics-early k p t cells n rest early e,
              (refl, refl, kept),
              costs,
            )
      ]

module _ (J : Json) (limit : ℕ) (clock : ℕ → ℕ) (s : Server) (n : Network) (v : Invariant s) where
  -- In a server whose objects are in order, a round of the heartbeat ends without a fault, leaves
  -- the objects in order and the directory as it is, and each datagram that it sends costs a
  -- descriptor, of which it never opens more than the limit.
  pub check_topic_timeouts-Invariant :
      (s' : Server) × (n' : Network) × (check_topic_timeouts J limit clock s n ≡ ok (s', n'))
      × Invariant s'
      × (view s' ≡ view s)
      × Costs limit n n'
  unfolding check_topic_timeouts
  check_topic_timeouts-Invariant =
      let (swept, e, kept, costs) =
        check_topics_lem J limit clock s.client_connections s.topic_timeout 0 s.topics n
          v.well_formed.sound in
      (
        record s { topics = swept.topics },
        swept.network,
        rw e refl,
        Kept-Invariant s swept.topics v kept,
        Kept-view s swept.topics kept,
        costs,
      )

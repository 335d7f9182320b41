-- ===== src/Server/Heartbeat/Contents.antt =====
-- What the datagrams of a round can carry.
use verteilte_systeme_bbps.Prelude.{
  ℕ, ◌+◌, ◌≡◌, ◌≢◌, subst, Bool-cases, inl, inr, List, [], ◌∷◌, All, All-append, ℤ, pos, le_ℤ, ltb,
  text_eq, ◌==◌, ok, bind-ok, ok-injective, arith,
}
use verteilte_systeme_bbps.Protocol.Json.{Json}
use verteilte_systeme_bbps.Server.Memory.{Ptr, Cells, load}
use verteilte_systeme_bbps.Server.State.{ClientConnection, Topic, Server}
use verteilte_systeme_bbps.Server.Topic.Laws.{endpoints}
use verteilte_systeme_bbps.Server.Sending.{
  Datagram, Network, datagram, send_message, send_to_all, publish_message,
}
use verteilte_systeme_bbps.Server.Heartbeat.{Swept, check_topics, check_topic_timeouts}

module _ (J : Json) (limit : ℕ) (Q : Datagram → Type 0) (connections : Cells ClientConnection) where
  -- Whatever the topic can send has the property.
  abbrev pub Sends : Topic → Type 0
  Sends t =
      t.message ≢ []
      → All (λ c. Q (datagram J limit c t.topic_name t.message t.message_timestamp))
          (endpoints connections t.subscriber_list)

  send_message-All :
      (c : ClientConnection) (t : Topic) (n : Network)
      → Q (datagram J limit c t.topic_name t.message t.message_timestamp)
      → All Q n.sent
      → All Q (send_message J limit c t.topic_name t.message t.message_timestamp n).sent
  unfolding send_message
  send_message-All c t n q h = elim (Bool-cases (ltb n.open_descriptors limit)) [
    | inl room ↦ rw room (All-append Q n.sent _ h (q, tt))
    | inr full ↦ rw full h
  ]

  send_to_all-All :
      (ps : List Ptr) (t : Topic) (n n' : Network)
      → All
          (λ c. Q (datagram J limit c t.topic_name t.message t.message_timestamp))
          (endpoints connections ps)
      → send_to_all J limit connections ps t n ≡ ok n'
      → All Q n.sent
      → All Q n'.sent
  unfolding send_to_all endpoints
  send_to_all-All [] t n n' q e h = subst (λ m. All Q m.sent) (ok-injective n n' e) h
  send_to_all-All (p ∷ ps) t n n' q e h =
      let (c, there, f) = bind-ok (load connections p) _ n' e in
      let (qc, qs) = rw (there, endpoints) at q in
      send_to_all-All ps t (send_message J limit c t.topic_name t.message t.message_timestamp n) n'
        qs f (send_message-All c t n qc h)

  publish_message-All :
      (t : Topic) (n n' : Network)
      → Sends t
      → publish_message J limit connections t n ≡ ok n'
      → All Q n.sent
      → All Q n'.sent
  unfolding publish_message
  publish_message-All t n n' q e h = elim (Bool-cases (t.message == [])) [
    | inl empty ↦ subst (λ m. All Q m.sent) (ok-injective n n' (rw empty at e)) h
    | inr some_text ↦
        send_to_all-All t.subscriber_list t n n'
          (q (λ none_there. ground (arith, none_there, some_text))) (rw some_text at e) h
  ]

  module _ (clock : ℕ → ℕ) (topic_timeout : ℤ) where
    check_topics-All :
        (k : ℕ) (cells : Cells Topic) (n : Network) (swept : Swept)
        → All (λ cell. Sends cell.1) cells
        → check_topics J limit clock connections topic_timeout k cells n ≡ ok swept
        → All Q n.sent
        → All Q swept.network.sent
    unfolding check_topics
    check_topics-All k [] n swept q e h =
        subst (λ (m : Swept). All Q m.network.sent) (ok-injective _ swept e) h
    check_topics-All k ((p, t) ∷ cells) n swept (qt, q) e h =
        elim (Bool-cases (le_ℤ t.timeout_timestamp (pos (clock k)))) [
          | inl due ↦
              let (n', e1, f1) =
                bind-ok (publish_message J limit connections t n) _ swept
                  (rw (due, check_topics) at e) in
              let (rest, e2, f2) =
                bind-ok (check_topics J limit clock connections topic_timeout (k + 2) cells n') _
                  swept f1 in
              let same = ok-injective _ swept f2 in
              subst (λ (m : Swept). All Q m.network.sent) same
                (check_topics-All (k + 2) cells n' rest q e2 (publish_message-All t n n' qt e1 h))
          | inr early ↦
              let (rest, e2, f2) =
                bind-ok (check_topics J limit clock connections topic_timeout (k + 1) cells n) _
                  swept (rw (early, check_topics) at e) in
              let same = ok-injective _ swept f2 in
              subst (λ (m : Swept). All Q m.network.sent) same
                (check_topics-All (k + 1) cells n rest q e2 h)
        ]

module _ (J : Json) (limit : ℕ) (Q : Datagram → Type 0) (clock : ℕ → ℕ) where
  -- A round adds only datagrams that a topic can send.
  pub check_topic_timeouts-All :
      (s s' : Server) (n n' : Network)
      → All (λ cell. Sends J limit Q s.client_connections cell.1) s.topics
      → check_topic_timeouts J limit clock s n ≡ ok (s', n')
      → All Q n.sent
      → All Q n'.sent
  unfolding check_topic_timeouts
  check_topic_timeouts-All s s' n n' q e h =
      let (swept, e1, f1) =
        bind-ok (check_topics J limit clock s.client_connections s.topic_timeout 0 s.topics n) _
          (s', n') e in
      subst (λ (m : Server × Network). All Q m.1.sent) (ok-injective _ (s', n') f1)
        (check_topics-All J limit Q s.client_connections clock s.topic_timeout 0 s.topics n swept q
          e1 h)

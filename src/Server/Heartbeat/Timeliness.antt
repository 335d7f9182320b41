-- ===== src/Server/Heartbeat/Timeliness.antt =====
-- What a round of the heartbeat sends, and when it sends again.
use verteilte_systeme_bbps.Prelude.{
  ℕ, suc, ◌+◌, ◌<◌, ◌≤◌, ◌≡◌, refl, sym, ap, ◌∙◌, false, Bool-cases, inl, inr, List, [], ◌∷◌, ◌++◌,
  list_laws, map, All, length, length-append, ℤ, pos, le_ℤ, ◌+ℤ◌, ◌≤ℤ◌, +ℤ_parts, text_eq, ◌==◌,
  if◌then◌else◌, ok, arith,
}
use verteilte_systeme_bbps.Protocol.Json.{Json}
use verteilte_systeme_bbps.Server.Memory.{Ptr, Cells, load}
use verteilte_systeme_bbps.Server.State.{ClientConnection, Topic, Server}
use verteilte_systeme_bbps.Server.Topic.Laws.{IsLive, endpoints}
use verteilte_systeme_bbps.Server.Invariant.{IsSound, Invariant}
use verteilte_systeme_bbps.Server.Sending.{
  Datagram, Network, datagram, send_message, send_to_all, publish_message,
}
use verteilte_systeme_bbps.Server.Heartbeat.Keeps.{check_topics-due, check_topics-early}
use verteilte_systeme_bbps.Server.Heartbeat.{check_topics, check_topic_timeouts}

module _ (J : Json) (limit : ℕ) (connections : Cells ClientConnection) where
  -- The message of the topic, once for each of its subscribers, in their order; nothing if the topic
  -- has no message yet.
  abbrev pub copies : Topic → List Datagram
  copies t =
      if t.message == []
      then []
      else map (λ c. datagram J limit c t.topic_name t.message t.message_timestamp)
          (endpoints connections t.subscriber_list)

  -- What a round that takes no time has to send: the copies of the topics that are due.
  abbrev pub heartbeats : ℕ → Cells Topic → List Datagram
  heartbeats now [] = []
  heartbeats now ((_, t) ∷ cells) =
      if le_ℤ t.timeout_timestamp (pos now)
      then copies t ++ heartbeats now cells
      else heartbeats now cells

  abbrev pub with_sent : List Datagram → Network → Network
  with_sent ds n = record { open_descriptors = n.open_descriptors + length ds; sent = n.sent ++ ds }

  with_sent-nil : (n : Network) → with_sent [] n ≡ n
  with_sent-nil n = grind (arith, list_laws)

  with_sent-append :
      (ds es : List Datagram) (n : Network) → with_sent es (with_sent ds n) ≡ with_sent (ds ++ es) n
  with_sent-append ds es n = grind (arith, list_laws)

  send_message-room :
      (c : ClientConnection) (t : Topic) (n : Network)
      → n.open_descriptors < limit
      → send_message J limit c t.topic_name t.message t.message_timestamp n
        ≡ with_sent (datagram J limit c t.topic_name t.message t.message_timestamp ∷ []) n
  unfolding send_message
  send_message-room c t n room = ground arith

  abbrev all_copies : Topic → List ClientConnection → List Datagram
  all_copies t = map (λ c. datagram J limit c t.topic_name t.message t.message_timestamp)

  endpoints-cons :
      (p : Ptr) (ps : List Ptr) (c : ClientConnection)
      → load connections p ≡ ok c
      → endpoints connections (p ∷ ps) ≡ c ∷ endpoints connections ps
  unfolding endpoints
  endpoints-cons p ps c there = rw (there, endpoints) refl

  send_to_all-copies :
      (ps : List Ptr) (t : Topic) (n : Network)
      → All (IsLive connections) ps
      → n.open_descriptors + length (all_copies t (endpoints connections ps)) ≤ limit
      → send_to_all J limit connections ps t n
        ≡ ok (with_sent (all_copies t (endpoints connections ps)) n)
  unfolding send_to_all endpoints
  send_to_all-copies [] t n _ room = ap ok (sym (with_sent-nil n))
  send_to_all-copies (p ∷ ps) t n ((c, there), live) room =
      let d = datagram J limit c t.topic_name t.message t.message_timestamp in
      let rest = all_copies t (endpoints connections ps) in
      let split = endpoints-cons p ps c there in
      let room' : n.open_descriptors + suc (length rest) ≤ limit = rw split at room in
      rw (there, send_to_all)
        (rw (send_message-room c t n (omega arith)) (
          send_to_all-copies ps t (with_sent (d ∷ []) n) live (omega arith)
          ∙ ap ok (with_sent-append (d ∷ []) rest n)
          ∙ ap (λ cs. ok (with_sent (all_copies t cs) n)) (sym split)))

  publish_message-copies :
      (t : Topic) (n : Network)
      → All (IsLive connections) t.subscriber_list
      → n.open_descriptors + length (copies t) ≤ limit
      → publish_message J limit connections t n ≡ ok (with_sent (copies t) n)
  unfolding publish_message
  publish_message-copies t n live room = elim (Bool-cases (t.message == [])) [
    | inl empty ↦ rw empty (ap ok (sym (with_sent-nil n)))
    | inr some_text ↦
        rw some_text (send_to_all-copies t.subscriber_list t n live (rw some_text at room))
  ]

module _ (J : Json) (limit : ℕ) (now : ℕ) (connections : Cells ClientConnection)
    (topic_timeout : ℤ) where
  -- No topic is due.
  abbrev pub IsQuiet : Cells Topic → Type 0
  IsQuiet = All (λ cell. le_ℤ cell.1.timeout_timestamp (pos now) ≡ false)

  later_than_now : (z : ℤ) → pos 1 ≤ℤ z → le_ℤ (pos now +ℤ z) (pos now) ≡ false
  later_than_now z h = ground (arith, +ℤ_parts (pos now) z)

  check_topics-heartbeats :
      (k : ℕ) (cells : Cells Topic) (n : Network)
      → All (IsSound connections) cells
      → pos 1 ≤ℤ topic_timeout
      → n.open_descriptors + length (heartbeats J limit connections now cells) ≤ limit
      → (cells' : Cells Topic) × (check_topics J limit
            (λ _. now)
            connections
            topic_timeout
            k
            cells
            n
          ≡ ok (record {
            topics = cells';
            network = with_sent J limit connections (heartbeats J limit connections now cells) n;
          }))
        × IsQuiet cells'
  unfolding check_topics
  check_topics-heartbeats k [] n _ _ _ = (
    [],
    ap (λ m. ok (record { topics = []; network = m })) (sym (with_sent-nil J limit connections n)),
    tt,
  )
  check_topics-heartbeats k ((p, t) ∷ cells) n ((live, _), sound) positive room =
      elim (Bool-cases (le_ℤ t.timeout_timestamp (pos now))) [
        | inl due ↦
            let first = copies J limit connections t in
            let rest = heartbeats J limit connections now cells in
            let all : heartbeats J limit connections now ((p, t) ∷ cells) ≡ first ++ rest =
              rw due refl in
            let room' : n.open_descriptors + length (first ++ rest) ≤ limit = rw due at room in
            let sum = length-append first rest in
            let n' = with_sent J limit connections first n in
            let (cells', e, quiet) =
              check_topics-heartbeats (k + 2) cells n' sound positive (omega (arith, sum)) in
            let renewed : Cells Topic =
              (p, record t { timeout_timestamp = pos now +ℤ topic_timeout }) ∷ cells' in
            (
              renewed,
              check_topics-due J limit (λ _. now) connections topic_timeout k p t cells n n' _ due
                    (publish_message-copies J limit connections t n live (omega (arith, sum))) e
                  ∙ ap (λ m. ok (record { topics = renewed; network = m }))
                      (with_sent-append J limit connections first rest n)
                  ∙ ap
                      (λ ds.
                        ok (record {
                          topics = renewed;
                          network = with_sent J limit connections ds n;
                        }))
                      (sym all),
              (later_than_now topic_timeout positive, quiet),
            )
        | inr early ↦
            let all : heartbeats J limit connections now ((p, t) ∷ cells)
                ≡ heartbeats J limit connections now cells =
              rw early refl in
            let (cells', e, quiet) =
              check_topics-heartbeats (k + 1) cells n sound positive (rw early at room) in
            let same : Cells Topic = (p, t) ∷ cells' in
            (
              same,
              check_topics-early J limit (λ _. now) connections topic_timeout k p t cells n _ early
                    e
                  ∙ ap
                      (λ ds.
                        ok (record { topics = same; network = with_sent J limit connections ds n }))
                      (sym all),
              (early, quiet),
            )
      ]

module _ (J : Json) (limit : ℕ) (now : ℕ) (s : Server) (n : Network) (v : Invariant s) where
  -- In a server whose objects are in order, if the round takes no time, the timeout is at least a
  -- second and there are descriptors for so many datagrams: every topic that is due and has a
  -- message has it sent to each of its subscribers once, in their order, nothing else is sent,
  -- and afterwards no topic is due.
  pub check_topic_timeouts-heartbeats :
      pos 1 ≤ℤ s.topic_timeout
      → n.open_descriptors + length (heartbeats J limit s.client_connections now s.topics) ≤ limit
      → (s' : Server) × (n' : Network) × (check_topic_timeouts J limit (λ _. now) s n ≡ ok (s', n'))
        × (n'.sent ≡ n.sent ++ heartbeats J limit s.client_connections now s.topics)
        × IsQuiet J limit now s.client_connections s.topic_timeout s'.topics
  unfolding check_topic_timeouts
  check_topic_timeouts-heartbeats positive room =
      let (cells', e, quiet) =
        check_topics-heartbeats J limit now s.client_connections s.topic_timeout 0 s.topics n
          v.well_formed.sound positive room in
      (
        record s { topics = cells' },
        with_sent J limit s.client_connections
            (heartbeats J limit s.client_connections now s.topics) n,
        rw e refl,
        refl,
        quiet,
      )

-- ===== src/Server/Heartbeat/Repeating.antt =====
-- The heartbeat comes again: when the timeout has passed, every topic is sent once more.
use verteilte_systeme_bbps.Prelude.{
  ok-injective, bind-ok, ℕ, ◌+◌, ◌≤◌, ◌≡◌, refl, sym, ap, subst, ◌∙◌, true, Bool-cases, inl, inr,
  List, [], ◌∷◌, ◌++◌, All, All-map, length, length-append, ℤ, pos, le_ℤ, ◌+ℤ◌, ◌≤ℤ◌, Outcome, ok,
  throws, undefined, ◌>>=◌, arith,
}
use verteilte_systeme_bbps.Protocol.Json.{Json}
use verteilte_systeme_bbps.Server.Memory.{Ptr, Cells}
use verteilte_systeme_bbps.Server.State.{ClientConnection, Topic, Server}
use verteilte_systeme_bbps.Server.Invariant.{Invariant}
use verteilte_systeme_bbps.Server.Sending.{Datagram, Network, publish_message}
use verteilte_systeme_bbps.Server.Heartbeat.{Swept, check_topics, check_topic_timeouts}
use verteilte_systeme_bbps.Server.Heartbeat.Keeps.{check_topic_timeouts-Invariant}
use verteilte_systeme_bbps.Server.Heartbeat.Timeliness.{
  copies, heartbeats, check_topic_timeouts-heartbeats,
}

-- No topic's timeout is later than that.
abbrev pub Until : ℤ → Cells Topic → Type 0
Until z = All (λ cell. cell.1.timeout_timestamp ≤ℤ z)

-- A copy of every topic's message for each of its subscribers.
abbrev pub every_copy : Json → ℕ → Cells ClientConnection → Cells Topic → List Datagram
every_copy J limit connections [] = []
every_copy J limit connections ((_, t) ∷ cells) =
    copies J limit connections t ++ every_copy J limit connections cells

pub ≤ℤ_trans : (a b c : ℤ) → a ≤ℤ b → b ≤ℤ c → a ≤ℤ c
≤ℤ_trans a b c h k = omega arith

module _ (J : Json) (limit : ℕ) (connections : Cells ClientConnection) where
  pub heartbeats_all :
      (now : ℕ) (cells : Cells Topic)
      → Until (pos now) cells
      → heartbeats J limit connections now cells ≡ every_copy J limit connections cells
  heartbeats_all now [] _ = refl
  heartbeats_all now ((p, t) ∷ cells) (due, h) =
      let is_due : le_ℤ t.timeout_timestamp (pos now) ≡ true = ground arith in
      rw is_due (ap (λ ds. copies J limit connections t ++ ds) (heartbeats_all now cells h))

swept_eq : (a b : Swept) → ok a ≡ ok b → a ≡ b
swept_eq a b h = cc

module _ (J : Json) (limit : ℕ) (now : ℕ) (connections : Cells ClientConnection)
    (topic_timeout : ℤ) where
  -- The timeouts are no later than a timeout from now, and the copies are what they were.
  abbrev Repeats : Cells Topic → Swept → Type 0
  Repeats cells swept =
      Until (pos now +ℤ topic_timeout) swept.topics
      × (every_copy J limit connections swept.topics ≡ every_copy J limit connections cells)

  Repeats-cons :
      (p : Ptr) (t : Topic) (z : ℤ) (cells : Cells Topic) (rest : Swept)
      → z ≤ℤ pos now +ℤ topic_timeout
      → Repeats cells rest
      → Repeats
          ((p, t) ∷ cells)
          (record rest { topics = (p, record t { timeout_timestamp = z }) ∷ rest.topics })
  Repeats-cons p t z cells rest early (u, same) =
      ((early, u), ap (λ ds. copies J limit connections t ++ ds) same)

  check_topics-Repeats :
      (k : ℕ) (cells : Cells Topic) (n : Network) (swept : Swept)
      → Until (pos now +ℤ topic_timeout) cells
      → check_topics J limit (λ _. now) connections topic_timeout k cells n ≡ ok swept
      → Repeats cells swept
  unfolding check_topics
  check_topics-Repeats k [] n swept _ h = subst (Repeats []) (swept_eq _ swept h) (tt, refl)
  check_topics-Repeats k ((p, t) ∷ cells) n swept (early, u) h =
      elim (Bool-cases (le_ℤ t.timeout_timestamp (pos now))) [
        | inl due ↦
            let (n', e, f) =
              bind-ok (publish_message J limit connections t n) _ swept
                (rw (due, check_topics) at h) in
            let (rest, e', f') =
              bind-ok (check_topics J limit (λ _. now) connections topic_timeout (k + 2) cells n') _
                swept f in
            subst (Repeats ((p, t) ∷ cells)) (swept_eq _ swept f') (
              Repeats-cons p t (pos now +ℤ topic_timeout) cells rest (omega arith)
                (check_topics-Repeats (k + 2) cells n' rest u e'))
        | inr not_due ↦
            let (rest, e', f') =
              bind-ok (check_topics J limit (λ _. now) connections topic_timeout (k + 1) cells n) _
                swept (rw (not_due, check_topics) at h) in
            subst (Repeats ((p, t) ∷ cells)) (swept_eq _ swept f') (
              Repeats-cons p t t.timeout_timestamp cells rest early
                (check_topics-Repeats (k + 1) cells n rest u e'))
      ]

round_of :
    (J : Json) (limit : ℕ) (clock : ℕ → ℕ) (s : Server) (n : Network) (s' : Server) (n' : Network)
    → check_topic_timeouts J limit clock s n ≡ ok (s', n')
    → (swept : Swept) × (check_topics J limit clock s.client_connections s.topic_timeout 0 s.topics
          n
        ≡ ok swept)
      × (s' ≡ record s { topics = swept.topics })
unfolding check_topic_timeouts
round_of J limit clock s n s' n' h =
    go (check_topics J limit clock s.client_connections s.topic_timeout 0 s.topics n) refl h
  where
    go :
        (m : Outcome Swept)
        → check_topics J limit clock s.client_connections s.topic_timeout 0 s.topics n ≡ m
        → ◌>>=◌ {A = Server × Network} m
            (λ swept. ok (record s { topics = swept.topics }, swept.network))
          ≡ ok (s', n')
        → (swept : Swept) × (check_topics J limit clock s.client_connections s.topic_timeout 0
              s.topics n
            ≡ ok swept)
          × (s' ≡ record s { topics = swept.topics })
    go (ok swept) e k = (swept, e, cc)
    go (throws x) e k = cc
    go undefined e k = cc

module _ (J : Json) (limit : ℕ) (now : ℕ) (s : Server) (n : Network) (v : Invariant s) where
  abbrev due_now : List Datagram
  due_now = heartbeats J limit s.client_connections now s.topics

  abbrev everything : List Datagram
  everything = every_copy J limit s.client_connections s.topics

  -- A round, with all that is known of it.
  pub round_lem :
      pos 1 ≤ℤ s.topic_timeout
      → Until (pos now +ℤ s.topic_timeout) s.topics
      → n.open_descriptors + length due_now ≤ limit
      → (cells : Cells Topic) × (n1 : Network) × (check_topic_timeouts J limit (λ _. now) s n
          ≡ ok (record s { topics = cells }, n1))
        × Invariant (record s { topics = cells })
        × (n1.sent ≡ n.sent ++ due_now)
        × (n1.open_descriptors ≡ n.open_descriptors + length due_now)
        × Until (pos now +ℤ s.topic_timeout) cells
        × (every_copy J limit s.client_connections cells ≡ everything)
  round_lem positive early room =
      let (s1, n1, e, sent, _) = check_topic_timeouts-heartbeats J limit now s n v positive room in
      let (s2, n2, e', v2, _, costs) = check_topic_timeouts-Invariant J limit (λ _. now) s n v in
      let same = ok-injective (s2, n2) (s1, n1) (sym e' ∙ e) in
      let (swept, f, form) = round_of J limit (λ _. now) s n s1 n1 e in
      let (u, copied) =
        check_topics-Repeats J limit now s.client_connections s.topic_timeout 0 s.topics n swept
          early f in
      let each : length n1.sent + n.open_descriptors ≡ length n.sent + n1.open_descriptors =
        subst
          (λ (p : Server × Network).
            length p.1.sent + n.open_descriptors ≡ length n.sent + p.1.open_descriptors)
          same costs.each in
      let longer : length n1.sent ≡ length n.sent + length due_now =
        ap length sent ∙ length-append n.sent due_now in
      (
        swept.topics,
        n1,
        e ∙ ap (λ t. ok (t, n1)) form,
        subst Invariant form (subst (λ (p : Server × Network). Invariant p.0) same v2),
        sent,
        omega (arith, each, longer),
        u,
        copied,
      )

  -- In a server whose objects are in order, if the timeout is at least a second and no topic's is
  -- further away than that, the rounds take no time and there are descriptors for what they send:
  -- after a round, one that comes when the timeout has passed sends the message of every topic to
  -- all its subscribers again.
  pub check_topic_timeouts-again :
      (later : ℕ)
      → pos 1 ≤ℤ s.topic_timeout
      → Until (pos now +ℤ s.topic_timeout) s.topics
      → pos now +ℤ s.topic_timeout ≤ℤ pos later
      → n.open_descriptors
          + length (heartbeats J limit s.client_connections now s.topics)
          + length (every_copy J limit s.client_connections s.topics)
        ≤ limit
      → (s1 : Server) × (n1 : Network) × (s2 : Server) × (n2 : Network) × (check_topic_timeouts J
            limit
            (λ _. now)
            s
            n
          ≡ ok (s1, n1))
        × (check_topic_timeouts J limit (λ _. later) s1 n1 ≡ ok (s2, n2))
        × (n2.sent ≡ n1.sent ++ every_copy J limit s.client_connections s.topics)
  check_topic_timeouts-again later positive early passed room =
      let (cells, n1, e, v1, sent, open_now, u, copied) = round_lem positive early (omega arith) in
      let s1 : Server = record s { topics = cells } in
      let due : Until (pos later) cells =
        All-map
          (λ cell h.
            ≤ℤ_trans cell.1.timeout_timestamp (pos now +ℤ s.topic_timeout) (pos later) h passed)
          cells u in
      let all_sent : heartbeats J limit s.client_connections later cells ≡ everything =
        heartbeats_all J limit s.client_connections later cells due ∙ copied in
      let count = ap length all_sent in
      let (s2, n2, e2, sent2, _) =
        check_topic_timeouts-heartbeats J limit later s1 n1 v1 positive
          (omega (arith, open_now, count)) in
      (s1, n1, s2, n2, e, e2, sent2 ∙ ap (λ ds. n1.sent ++ ds) all_sent)

-- ===== src/Server/Heartbeat/Rounds.antt =====
-- The heartbeat's thread over many rounds.
use verteilte_systeme_bbps.Prelude.{
  ℕ, zero, suc, ◌+◌, ◌≤◌, ◌≡◌, refl, sym, ap, ◌∙◌, List, [], ◌∷◌, ◌++◌, append_assoc, append-nil,
  map, All-map, length, length-append, ℤ, pos, ◌+ℤ◌, ◌≤ℤ◌, +ℤ_parts, ok, arith,
}
use verteilte_systeme_bbps.Protocol.Json.{Json}
use verteilte_systeme_bbps.Server.Memory.{Cells}
use verteilte_systeme_bbps.Server.State.{Topic}
use verteilte_systeme_bbps.Server.Invariant.{Invariant}
use verteilte_systeme_bbps.Server.Sending.{Datagram}
use verteilte_systeme_bbps.Server.Heartbeat.Repeating.{
  Until, every_copy, round_lem, heartbeats_all, ≤ℤ_trans,
}
use verteilte_systeme_bbps.Server.Threads.{System}
use verteilte_systeme_bbps.Server.Schedule.{Turn, run_turn, run_turns}

-- So many times the same.
abbrev pub repeated : ℕ → List Datagram → List Datagram
repeated zero ds = []
repeated (suc k) ds = ds ++ repeated k ds

-- Each time is a timeout or more behind the one before.
abbrev pub IsSpaced : ℤ → List ℕ → Type 0
IsSpaced timeout [] = Unit
IsSpaced timeout (t ∷ []) = Unit
IsSpaced timeout (t ∷ u ∷ ts) = (pos t +ℤ timeout ≤ℤ pos u) × IsSpaced timeout (u ∷ ts)

-- Rounds that take no time.
abbrev pub rounds : List ℕ → List Turn
rounds = map (λ at. Turn.round (λ _. at))

-- No topic's timeout is later than the first of the times.
abbrev pub AllDue : Cells Topic → List ℕ → Type 0
AllDue topics [] = Unit
AllDue topics (t ∷ ts) = Until (pos t) topics

later_due :
    (z : ℤ) (t : ℕ) (ts : List ℕ) (cells : Cells Topic)
    → IsSpaced z (t ∷ ts)
    → Until (pos t +ℤ z) cells
    → AllDue cells ts
later_due z t [] cells spaced h = tt
later_due z t (u ∷ ts) cells (gap, _) h =
    All-map (λ cell k. ≤ℤ_trans cell.1.timeout_timestamp (pos t +ℤ z) (pos u) k gap) cells h

rest-IsSpaced : (z : ℤ) (t : ℕ) (ts : List ℕ) → IsSpaced z (t ∷ ts) → IsSpaced z ts
rest-IsSpaced z t [] h = tt
rest-IsSpaced z t (u ∷ ts) (_, h) = h

grows : (z : ℤ) (t : ℕ) → pos 1 ≤ℤ z → pos t ≤ℤ pos t +ℤ z
grows z t h = ground (arith, +ℤ_parts (pos t) z)

module _ (J : Json) (limit : ℕ) where
  -- In a server whose objects are in order, with a timeout of at least a second, let rounds of
  -- the heartbeat that take no time come at times each of which is a timeout or more behind the
  -- one before, every topic be due at the first, and there be descriptors for what they send: the
  -- rounds end without a fault, and each sends the message of every topic that has one to all its
  -- subscribers, in their order, once, and nothing else.
  pub run_turns-rounds :
      (times : List ℕ) (a : System)
      → Invariant a.server
      → pos 1 ≤ℤ a.server.topic_timeout
      → IsSpaced a.server.topic_timeout times
      → AllDue a.server.topics times
      → a.network.open_descriptors
          + length (
              repeated
                (length times)
                (every_copy J limit a.server.client_connections a.server.topics))
        ≤ limit
      → (b : System) × (run_turns J limit (rounds times) a ≡ ok b)
        × (b.network.sent
            ≡ a.network.sent
              ++ repeated
                  (length times)
                  (every_copy J limit a.server.client_connections a.server.topics))
  unfolding run_turns run_turn
  run_turns-rounds [] a v positive spaced due room = (a, refl, sym (append-nil a.network.sent))
  run_turns-rounds (t ∷ ts) a v positive spaced due room =
      let s = a.server in
      let all = every_copy J limit s.client_connections s.topics in
      let now_due = heartbeats_all J limit s.client_connections t s.topics due in
      let count = ap length now_due in
      let sum = length-append all (repeated (length ts) all) in
      let early =
        All-map
          (λ cell h.
            ≤ℤ_trans cell.1.timeout_timestamp (pos t) (pos t +ℤ s.topic_timeout) h
              (grows s.topic_timeout t positive))
          s.topics due in
      let (cells, n1, e, v1, sent, opened, until, copied) =
        round_lem J limit t s a.network v positive early (omega (arith, count, sum)) in
      let a1 : System = record { server = record s { topics = cells }; network = n1 } in
      let same = ap (repeated (length ts)) copied in
      let (b, runs, more) =
        run_turns-rounds ts a1 v1 positive (rest-IsSpaced s.topic_timeout t ts spaced)
          (later_due s.topic_timeout t ts cells spaced until)
          (omega (arith, count, sum, opened, ap length same)) in
      (
        b,
        rw e runs,
        more
            ∙ ap (λ ds. ds ++ repeated (length ts) (every_copy J limit s.client_connections cells))
                (sent ∙ ap (λ ds. a.network.sent ++ ds) now_due)
            ∙ ap (λ ds. (a.network.sent ++ all) ++ ds) same
            ∙ append_assoc a.network.sent all (repeated (length ts) all),
      )

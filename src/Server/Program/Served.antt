-- ===== src/Server/Program/Served.antt =====
-- Which connections a run of the program has answered, and in which order.
pub mod Progress
use verteilte_systeme_bbps.Prelude.{
  All, length, bind-ok, ℕ, zero, suc, ◌≡◌, refl, sym, ap, ◌∙◌, subst, Bool, true, false,
  if◌then◌else◌, List, [], ◌∷◌, ◌++◌, Option-cases, inl, inr, Option, none, some, append-nil,
  append_assoc, Text, Outcome, ok, ◌>>=◌,
}
use mathlib.Core.List.{Perm, perm_middle}
use mathlib.Core.List.Perm
use verteilte_systeme_bbps.Protocol.Json.{Json}
use verteilte_systeme_bbps.Protocol.Response.{Response}
use verteilte_systeme_bbps.Server.State.{Server}
use verteilte_systeme_bbps.Server.Sending.{Network}
use verteilte_systeme_bbps.Server.Invariant.{Invariant}
use verteilte_systeme_bbps.Server.Directory.{Directory, view}
use verteilte_systeme_bbps.Server.Directory.Service.{handle_spec}
use verteilte_systeme_bbps.Server.Directory.Service.Answering.{answer-answer_spec}
use verteilte_systeme_bbps.Server.Heartbeat.{check_topic_timeouts}
use verteilte_systeme_bbps.Server.Heartbeat.Keeps.{check_topic_timeouts-Invariant}
use verteilte_systeme_bbps.Server.Dispatch.{answer}
use verteilte_systeme_bbps.Server.Threads.{System}
use verteilte_systeme_bbps.Server.Threads.Safety.{new_server-Invariant, Step-Invariant}
use verteilte_systeme_bbps.Server.Schedule.{Arrival, Turn, run_turn}
use verteilte_systeme_bbps.Server.CommandLine.{Options, Parsed, parse}
use verteilte_systeme_bbps.Server.Program.{
  Listener, is_listening, Event, Running, take_thread, start, Status, handle_event, handle_events,
  main,
}
use verteilte_systeme_bbps.Server.Program.Life.{parsed_running}

-- The connections that were accepted, in their order.
abbrev pub accepted : Bool → List Event → List Arrival
accepted accepting [] = []
accepted accepting (Event.accept_failure ∷ events) = accepted accepting events
accepted accepting (Event.accept_connection a ∷ events) =
    (if accepting then a ∷ [] else []) ++ accepted accepting events
accepted accepting (Event.thread_turn i ∷ events) = accepted accepting events
accepted accepting (Event.heartbeat_turn clock ∷ events) = accepted accepting events

module _ (J : Json) where
  -- The directory's service answers those connections with those texts, one after the other, and
  -- comes from the one directory to the other.
  abbrev pub Serves : List (Arrival × Option Text) → Directory → Directory → Type 0
  Serves [] d d' = d ≡ d'
  Serves ((a, text) ∷ rest) d d' =
      (m : Directory) × (handle_spec J a.now a.ip_address a.received d ≡ ok (text, m))
      × Serves rest m d'

  pub Serves-append :
      (xs ys : List (Arrival × Option Text)) (a b c : Directory)
      → Serves xs a b
      → Serves ys b c
      → Serves (xs ++ ys) a c
  Serves-append [] ys a b c h k = subst (λ d. Serves ys d c) (sym h) k
  Serves-append ((x, text) ∷ xs) ys a b c (m, e, h) k = (m, e, Serves-append xs ys m b c h k)

pub take_thread-perm :
    (i : ℕ) (threads : List Arrival) (a : Arrival) (others : List Arrival)
    → take_thread i threads ≡ some (a, others)
    → Perm threads (a ∷ others)
unfolding take_thread
take_thread-perm i [] a others e = cc
take_thread-perm zero (b ∷ threads) a others e =
    let same : b ≡ a = cc in let rest : threads ≡ others = cc in rw (same, rest) Perm.rfl
take_thread-perm (suc i) (b ∷ threads) a others e = elim (Option-cases (take_thread i threads)) [
  | inl absent ↦
      let clash : ◌≡◌ {A = Option (Arrival × List Arrival)} none (some (a, others)) =
        rw absent at e in
      cc
  | inr ((c, rest), found) ↦
      let hit : ◌≡◌ {A = Option (Arrival × List Arrival)} (some (c, b ∷ rest)) (some (a, others)) =
        rw found at e in
      let same : c ≡ a = cc in
      let more : b ∷ rest ≡ others = cc in
      subst (λ xs. Perm (b ∷ threads) (a ∷ xs)) more
        (subst (λ x. Perm (b ∷ threads) (x ∷ b ∷ rest)) same
          (Perm.trans (Perm.cons b (take_thread-perm i threads c rest found)) (Perm.swap c b rest)))
]

-- A thread that is taken, and the others.
pub take_thread-All :
    (P : Arrival → Type 0) (i : ℕ) (threads : List Arrival) (a : Arrival) (others : List Arrival)
    → take_thread i threads ≡ some (a, others)
    → All P threads
    → P a × All P others × (length threads ≡ suc (length others))
unfolding take_thread
take_thread-All P i [] a others e h = cc
take_thread-All P zero (b ∷ threads) a others e (hb, h) =
    let same : b ≡ a = cc in
    let rest : threads ≡ others = cc in
    (subst P same hb, subst (All P) rest h, ap (λ xs. suc (length xs)) rest)
take_thread-All P (suc i) (b ∷ threads) a others e (hb, h) =
    elim (Option-cases (take_thread i threads)) [
      | inl absent ↦
          let clash : ◌≡◌ {A = Option (Arrival × List Arrival)} none (some (a, others)) =
            rw absent at e in
          cc
      | inr ((c, rest), found) ↦
          let hit : ◌≡◌ {A = Option (Arrival × List Arrival)} (some (c, b ∷ rest))
              (some (a, others)) =
            rw found at e in
          let same : c ≡ a = cc in
          let more : b ∷ rest ≡ others = cc in
          let (hc, hrest, size) = take_thread-All P i threads c rest found h in
          (
            subst P same hc,
            subst (All P) more (hb, hrest),
            ap suc size ∙ ap (λ xs. suc (length xs)) more,
          )
    ]

pub accepted-All :
    (P : Arrival → Type 0) (accepting : Bool) (event : Event) (events : List Event)
    → All P (accepted accepting (event ∷ events))
    → All P (accepted accepting (event ∷ [])) × All P (accepted accepting events)
accepted-All P accepting Event.accept_failure events h = (tt, h)
accepted-All P true (Event.accept_connection a) events (ha, h) = ((ha, tt), h)
accepted-All P false (Event.accept_connection a) events h = (tt, h)
accepted-All P accepting (Event.thread_turn i) events h = (tt, h)
accepted-All P accepting (Event.heartbeat_turn clock) events h = (tt, h)

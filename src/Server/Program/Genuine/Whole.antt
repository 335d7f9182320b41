-- ===== src/Server/Program/Genuine/Whole.antt =====
-- The program from its start.
use verteilte_systeme_bbps.Prelude.{
  ℕ, ◌≡◌, refl, subst, List, [], ◌∷◌, ◌++◌, append_assoc, All, Text, ok, bind-ok,
}
use verteilte_systeme_bbps.Protocol.Json.{Json}
use verteilte_systeme_bbps.Server.Threads.Safety.{new_server-Invariant}
use verteilte_systeme_bbps.Server.Schedule.{Arrival}
use verteilte_systeme_bbps.Server.CommandLine.{parse}
use verteilte_systeme_bbps.Server.Program.{
  Listener, is_listening, Event, Running, start, Status, main,
}
use verteilte_systeme_bbps.Server.Program.Life.{parsed_running}
use verteilte_systeme_bbps.Server.Program.Served.{accepted}
use verteilte_systeme_bbps.Server.Program.Genuine.{Cut, HasOrigin, IsSincere, events-IsSincere}

abbrev In : List Arrival → Arrival → Type 0
In arrivals a = (before : List Arrival) × (after : List Arrival) × (arrivals ≡ before ++ a ∷ after)

All-In : (before arrivals : List Arrival) → All (In (before ++ arrivals)) arrivals
All-In before [] = tt
All-In before (a ∷ arrivals) = (
  (before, arrivals, refl),
  subst (λ all. All (In all) arrivals) (append_assoc before (a ∷ []) arrivals)
      (All-In (before ++ a ∷ []) arrivals),
)

-- The connection was accepted while those events came.
abbrev pub IsAccepted : Listener → List Event → Arrival → Type 0
IsAccepted listener events = In (accepted (is_listening listener) events)

module _ (J : Json) where
  -- If the server's program goes on after any events that its arguments and the outcomes of the
  -- system calls led to, then every datagram that it has sent has its origin in connections that
  -- it accepted, of which its buffer takes the first 2048 bytes: one brought a request to publish
  -- the message that the datagram carries for the topic that it carries, at the time that it
  -- carries, and one brought a request that made the address and the port that the datagram goes
  -- to a subscriber of that topic.
  pub main-HasOrigin :
      (limit descriptors : ℕ) (args : List Text) (listener : Listener) (events : List Event)
      (r : Running)
      → main J limit descriptors args listener events ≡ ok (Status.running r)
      → All (HasOrigin J limit (Cut (IsAccepted listener events))) r.system.network.sent
  unfolding main start
  main-HasOrigin limit descriptors args listener events r h =
      let (parsed, e, f) = bind-ok (parse args) _ (Status.running r) h in
      let (o, e', g) = parsed_running J limit descriptors parsed listener events r f in
      let P = IsAccepted listener events in
      let first : IsSincere J limit P (start descriptors o listener) = record {
        honest = record { sound = new_server-Invariant o.topic_timeout; kept = tt; sent = tt };
        waiting = tt;
      } in
      let last =
        events-IsSincere J limit P events (start descriptors o listener) r first
          (All-In [] (accepted (is_listening listener) events)) g in
      last.honest.sent

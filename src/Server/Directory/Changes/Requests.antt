-- ===== src/Server/Directory/Changes/Requests.antt =====
-- Requests that reach the server in either order.
use verteilte_systeme_bbps.Prelude.{
  ok-injective, ℕ, ◌≡◌, ◌≢◌, refl, sym, ap, ◌∙◌, Text, ℤ, Outcome, ok, ◌>>=◌,
}
use mathlib.Core.Path.{subst₂}
use mathlib.Core.List.{Perm}
use mathlib.Core.List.Perm
use mathlib.Core.Quot
use mathlib.Core.Quot.{Quot}
use verteilte_systeme_bbps.Std.Decimal.{stoi}
use verteilte_systeme_bbps.Protocol.Identifiers.{CommandIdentifiers, CommunicationParameters}
use verteilte_systeme_bbps.Protocol.Json.{Json}
use verteilte_systeme_bbps.Protocol.Command.{Command, get_command_argument}
use verteilte_systeme_bbps.Protocol.Command
use verteilte_systeme_bbps.Protocol.Response.{Response}
use verteilte_systeme_bbps.Server.State.{Server}
use verteilte_systeme_bbps.Server.Invariant.{Invariant}
use verteilte_systeme_bbps.Server.Invariant.Subscribing.{respond}
use verteilte_systeme_bbps.Server.Directory.{TopicView, Directory, view}
use verteilte_systeme_bbps.Server.Directory.Service.{request_spec, answer_spec}
use verteilte_systeme_bbps.Server.Directory.Service.Answering.{answer-answer_spec}
use verteilte_systeme_bbps.Server.Directory.Changes.{Change, topic_of, command_of, change}
use verteilte_systeme_bbps.Server.Directory.Changes.Commuting.{change_comm}
use verteilte_systeme_bbps.Server.Dispatch.{answer}
use verteilte_systeme_bbps.Server.Schedule.{Arrival}
use verteilte_systeme_bbps.Server.Threads.Safety.{answer-Invariant}

-- The topics with their subscribers, whatever their order.
abbrev pub Topics : Type 0
Topics = Quot (Perm {A = TopicView})

abbrev pub topics_of : Server → Topics
topics_of s = Quot.mk (view s)

-- The command asks for that change, at that time and from that address.
abbrev pub Asks : ℕ → Text → Command → Change → Type 0
Asks now ip c (Change.subscribe at client name) =
    (c.command_identifier ≡ CommandIdentifiers.subscribe)
    × (at ≡ now)
    × (client.address ≡ ip)
    × ((get_command_argument CommunicationParameters.client_port c >>= stoi) ≡ ok client.port)
    × (get_command_argument CommunicationParameters.topic_name c ≡ ok name)
Asks now ip c (Change.unsubscribe name) =
    (port : ℤ) × (c.command_identifier ≡ CommandIdentifiers.unsubscribe)
    × ((get_command_argument CommunicationParameters.client_port c >>= stoi) ≡ ok port)
    × (get_command_argument CommunicationParameters.topic_name c ≡ ok name)
Asks now ip c (Change.publish at message name) =
    (c.command_identifier ≡ CommandIdentifiers.publish)
    × (at ≡ now)
    × (get_command_argument CommunicationParameters.topic_name c ≡ ok name)
    × (get_command_argument CommunicationParameters.message c ≡ ok message)

pub request_spec-change :
    (now : ℕ) (ip : Text) (c : Command) (x : Change) (d : Directory)
    → Asks now ip c x
    → let (status, d') = change x d in
      request_spec now ip c c.command_identifier d ≡ ok (respond (command_of x) status, d')
unfolding request_spec change
request_spec-change now ip c (Change.subscribe at client name) d (is, same, here, port, named) =
    ap (λ id. request_spec now ip c id d) is
    ∙ rw (port, request_spec) (rw named (rw (same, ← here) refl))
request_spec-change now ip c (Change.unsubscribe name) d (_, is, port, named) =
    ap (λ id. request_spec now ip c id d) is ∙ rw (port, request_spec) (rw named refl)
request_spec-change now ip c (Change.publish at message name) d (is, same, named, text) =
    ap (λ id. request_spec now ip c id d) is ∙ rw (named, request_spec) (rw text (rw same refl))

module _ (J : Json) where
  -- The connection brings a request for that change.
  abbrev pub Brings : Arrival → Change → Type 0
  Brings a x =
      (c : Command) × (Command.deserialize J a.received ≡ ok c) × Asks a.now a.ip_address c x

  answer_spec-change :
      (a : Arrival) (x : Change) (d : Directory)
      → Brings a x
      → let (status, d') = change x d in
        answer_spec J a.now a.ip_address a.received d ≡ ok (respond (command_of x) status, d')
  unfolding answer_spec
  answer_spec-change a x d (c, read, asks) =
      rw (read, answer_spec) (rw (request_spec-change a.now a.ip_address c x d asks) refl)

  abbrev pub answered_by : Arrival → Server → Outcome (Response × Server)
  answered_by a s = answer J a.now a.later a.ip_address a.received s

  answer-change :
      (a : Arrival) (x : Change) (s s' : Server) (r : Response)
      → Invariant s
      → Brings a x
      → answered_by a s ≡ ok (r, s')
      → Invariant s'
        × (r ≡ respond (command_of x) (change x (view s)).0)
        × (view s' ≡ (change x (view s)).1)
  answer-change a x s s' r v brings e =
      let spec =
        sym (answer-answer_spec s v J a.now a.later a.ip_address a.received r s' e)
        ∙ answer_spec-change a x (view s) brings in
      (
        answer-Invariant s v J a.now a.later a.ip_address a.received r s' e,
        ap (λ q. q.0) (ok-injective _ _ spec),
        ap (λ q. q.1) (ok-injective _ _ spec),
      )

  -- If the server's objects are in order, and two connections bring requests to subscribe,
  -- unsubscribe or publish, each for a topic of another name, and all are answered: whichever of
  -- their threads has the mutex first, each is answered the same, and the server has the same
  -- topics afterwards, each with the same message, time and subscribers in their order; only the
  -- topics among themselves may stand in another order.
  pub answer_comm :
      (s : Server) (v : Invariant s) (a b : Arrival) (x y : Change)
      → Brings a x
      → Brings b y
      → topic_of x ≢ topic_of y
      → (first later : Response × Server) → answered_by a s ≡ ok first
      → answered_by b first.1 ≡ ok later
      → (first' later' : Response × Server) → answered_by b s ≡ ok first'
      → answered_by a first'.1 ≡ ok later'
      → (later'.0 ≡ first.0) × (later.0 ≡ first'.0) × (topics_of later.1 ≡ topics_of later'.1)
  answer_comm s v a b x y asks_x asks_y apart (ra, sa) (rb, sab) ea eab (rb', sb) (ra', sba) eb
        eba =
      let (va, is_ra, is_sa) = answer-change a x s sa ra v asks_x ea in
      let (_, is_rb, is_sab) = answer-change b y sa sab rb va asks_y eab in
      let (vb, is_rb', is_sb) = answer-change b y s sb rb' v asks_y eb in
      let (_, is_ra', is_sba) = answer-change a x sb sba ra' vb asks_x eba in
      let (same_x, mixed) = change_comm x y (view s) apart in
      let (same_y, _) = change_comm y x (view s) (λ e. apart (sym e)) in
      let at_sab = is_sab ∙ ap (λ d. (change y d).1) is_sa in
      let at_sba = is_sba ∙ ap (λ d. (change x d).1) is_sb in
      (
        is_ra'
            ∙ ap (λ d. respond (command_of x) (change x d).0) is_sb
            ∙ ap (respond (command_of x)) same_x
            ∙ sym is_ra,
        is_rb
            ∙ ap (λ d. respond (command_of y) (change y d).0) is_sa
            ∙ ap (respond (command_of y)) same_y
            ∙ sym is_rb',
        Quot.sound (Perm.symm (subst₂ Perm (sym at_sba) (sym at_sab) mixed)),
      )

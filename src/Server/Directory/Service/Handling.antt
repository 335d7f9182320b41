-- ===== src/Server/Directory/Service/Handling.antt =====
-- The whole `handleApproachingClient` against the directory's service.
use verteilte_systeme_bbps.Protocol.Response.Codec
use verteilte_systeme_bbps.Prelude.{
  Option, none, some, ok-injective, bind-ok, ◌≡◌, ap, subst, [], ◌∷◌, Text, ok,
}
use verteilte_systeme_bbps.Protocol.Json.{Json}
use verteilte_systeme_bbps.Server.Invariant.{Invariant}
use verteilte_systeme_bbps.Server.Directory.{view}
use verteilte_systeme_bbps.Server.Directory.Service.Answering.{answer-answer_spec}
use verteilte_systeme_bbps.Server.Dispatch.{answer, take, buffer_size, handle_approaching_client}
use verteilte_systeme_bbps.Server.Directory.Service.{handle_spec}
use verteilte_systeme_bbps.Server.State.{Server}
use verteilte_systeme_bbps.Server.Threads.Safety.{answer-Invariant}
use verteilte_systeme_bbps.Server.Schedule.{Arrival}

module _ (J : Json) where
  -- What the handler hands to `send`, the service answers, and comes to the same directory.
  pub handle_approaching_client-handle_spec :
      (a : Arrival) (text : Option Text) (s s' : Server)
      → Invariant s
      → handle_approaching_client J a.now a.later a.ip_address a.received s ≡ ok (text, s')
      → (handle_spec J a.now a.ip_address a.received (view s) ≡ ok (text, view s')) × Invariant s'
  unfolding handle_approaching_client handle_spec
  handle_approaching_client-handle_spec a text s s' v h = handled a.received h
    where
      handled :
          (received : Text)
          → handle_approaching_client J a.now a.later a.ip_address received s ≡ ok (text, s')
          → (handle_spec J a.now a.ip_address received (view s) ≡ ok (text, view s')) × Invariant s'
      handled [] h =
          let same = ok-injective (none, s) (text, s') h in
          (ap (λ p. ok (p.0, view p.1)) same, subst (λ p. Invariant p.1) same v)
      handled (c ∷ pending) h =
          let bytes = take buffer_size (c ∷ pending) in
          let ((response, server), e, f) =
            bind-ok (answer J a.now a.later a.ip_address bytes s) _ (text, s') h in
          let (t, e', g) = bind-ok (Codec.serialize J response) _ (text, s') f in
          let same = ok-injective (some t, server) (text, s') g in
          (
            rw (answer-answer_spec s v J a.now a.later a.ip_address bytes response server e)
                (rw e' (ap (λ p. ok (p.0, view p.1)) same)),
            subst (λ p. Invariant p.1) same
                (answer-Invariant s v J a.now a.later a.ip_address bytes response server e),
          )

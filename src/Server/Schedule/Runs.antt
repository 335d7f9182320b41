-- ===== src/Server/Schedule/Runs.antt =====
-- What a run by evaluation comes to is reached by steps.
use verteilte_systeme_bbps.Prelude.{
  ok-injective, bind-ok, inl, inr, ℕ, ◌≡◌, sym, subst, Option, ℤ, Text, ok,
}
use verteilte_systeme_bbps.Protocol.Json.{Json}
use verteilte_systeme_bbps.Server.State.{Server}
use verteilte_systeme_bbps.Server.Heartbeat.{check_topic_timeouts}
use verteilte_systeme_bbps.Server.Dispatch.{take, buffer_size, handle_approaching_client}
use verteilte_systeme_bbps.Server.Dispatch.Answers.{handle_approaching_client-cases}
use verteilte_systeme_bbps.Server.Threads.{System, Step, Reach}
use verteilte_systeme_bbps.Server.Schedule.{Arrival, Turn, run_turn}

module _ (J : Json) (limit descriptors : ℕ) (topic_timeout : ℤ) where
  -- A connection's turn is a step, or nothing arrived and nothing happens.
  pub request-Reach :
      (q : Arrival) (a : System) (text : Option Text) (server : Server)
      → Reach J limit descriptors topic_timeout a
      → handle_approaching_client J q.now q.later q.ip_address q.received a.server
        ≡ ok (text, server)
      → Reach J limit descriptors topic_timeout (record a { server = server })
  request-Reach q a text server reach h =
      elim (handle_approaching_client-cases J q.now q.later q.ip_address q.received a.server server
        text h) [
          | inl (empty, closed, same) ↦
              subst (λ s. Reach J limit descriptors topic_timeout (record a { server = s }))
                (sym same) reach
          | inr (response, t, e, written, some_bytes, given) ↦
              Reach.then_step reach
                (Step.request q.now q.later q.ip_address (take buffer_size q.received) e)
        ]

  pub round-Reach :
      (clock : ℕ → ℕ) (a b : System)
      → Reach J limit descriptors topic_timeout a
      → run_turn J limit (Turn.round clock) a ≡ ok b
      → Reach J limit descriptors topic_timeout b
  unfolding run_turn
  round-Reach clock a b reach h =
      let ((server, network), e, f) =
        bind-ok (check_topic_timeouts J limit clock a.server a.network) _ b h in
      subst (Reach J limit descriptors topic_timeout) (ok-injective _ b f)
        (Reach.then_step reach (Step.round clock e))

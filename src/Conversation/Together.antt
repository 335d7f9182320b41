-- ===== src/Conversation/Together.antt =====
-- A request, its answer by the server, and what the client makes of it.
use verteilte_systeme_bbps.Prelude.{
  Option, ℕ, ◌≤◌, ◌<◌, ◌≡◌, ap, sym, ◌∙◌, All, List, [], ◌∷◌, length, some, Text, ℤ, pos, ok,
}
use verteilte_systeme_bbps.Std.Decimal.{to_string, to_string_ℕ}
use verteilte_systeme_bbps.Std.Decimal.RoundTrip.{to_string_ℕ-ascii, to_string_ℕ-ne-nil}
use verteilte_systeme_bbps.Protocol.Identifiers.{CommandIdentifiers, Statuscode}
use verteilte_systeme_bbps.Protocol.Json.{Json, IsLawful}
use verteilte_systeme_bbps.Protocol.Command.{Command}
use verteilte_systeme_bbps.Protocol.Command
use verteilte_systeme_bbps.Protocol.Command.RoundTrip.{filled, IsFilled, Sent}
use verteilte_systeme_bbps.Protocol.Response.Codec
use verteilte_systeme_bbps.Protocol.Response.Codec.Answers.{answered, IsAnswer}
use verteilte_systeme_bbps.Server.State.{Server}
use verteilte_systeme_bbps.Server.Invariant.{Returns}
use verteilte_systeme_bbps.Server.Invariant.Subscribing.{respond}
use verteilte_systeme_bbps.Server.Dispatch.{buffer_size, switch_command, handle_approaching_client}
use verteilte_systeme_bbps.Client.{Exchange, send_message}
use verteilte_systeme_bbps.Conversation.Exchanges.{
  reported, log_response-answered, respond-answered, send_message-answered,
  handle_approaching_client-answered,
}
use verteilte_systeme_bbps.Server.Directory.Meaning.{Returns-mono}
use verteilte_systeme_bbps.Conversation.Sent.{Named}

-- The digits of a port can be sent.
pub to_string-Sent : (J : Json) (L : IsLawful J) (port : ℕ) → Sent J L (to_string (pos port))
unfolding to_string
to_string-Sent J L port =
    (to_string_ℕ-ne-nil port, L.ascii-IsPlain (to_string_ℕ port) (to_string_ℕ-ascii port))

module _ (J : Json) (L : IsLawful J) (format_time : ℤ → Option Text) (now later : ℕ) (ip : Text)
    (s : Server) (sender_ip : Text) (sender_port : ℕ) (b : ℕ) (pending response : Text)
    (request_fits : length (b ∷ pending) ≤ buffer_size)
    (response_fits : length response < 2048) where
  -- The request is answered with the status, the server afterwards has the property, and the client
  -- reports the status.
  pub handle_approaching_client-send_message :
      (id : CommandIdentifiers) (texts : List Text) (command : Command) (status : Statuscode)
      (Q : Server → Type 0)
      → IsFilled J L id texts
      → All (Sent J L) texts
      → IsAnswer id []
      → Named status
      → command ≡ filled id texts
      → Command.serialize J command ≡ ok (b ∷ pending)
      → Codec.serialize J (answered id status []) ≡ ok response
      → Returns
          (λ r s'. (r ≡ respond id status) × Q s')
          (switch_command now later ip (filled id texts) id s)
      → (s' : Server) × (handle_approaching_client J now later ip (b ∷ pending) s
          ≡ ok (some response, s'))
        × Q s'
        × (send_message J format_time
              (Exchange.received response sender_ip sender_port)
              (filled id texts)
            ≡ ok (record {
              sent = some (b ∷ pending);
              logged = some (reported sender_ip (to_string_ℕ sender_port) status);
            }))
  handle_approaching_client-send_message id texts command status Q shape sendable no_arguments
        (k, named) same written answer handled =
      let written' = ap (Command.serialize J) (sym same) ∙ written in
      let (s', e, q) =
        handle_approaching_client-answered J L now later ip s id texts b pending status [] response
          Q written' shape sendable request_fits answer
          (Returns-mono (switch_command now later ip (filled id texts) id s)
            (λ r s' (same, q). (same ∙ respond-answered id status no_arguments, q)) handled) in
      (
        s',
        e,
        q,
        send_message-answered J L format_time id texts (b ∷ pending) status k [] response sender_ip
            sender_port (reported sender_ip (to_string_ℕ sender_port) status) written' no_arguments
            tt named answer
            (log_response-answered format_time sender_ip (to_string_ℕ sender_port) id status
              no_arguments)
            response_fits,
      )

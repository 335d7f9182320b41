-- ===== src/Conversation/Sent.antt =====
-- What the client's operations send, and the status codes that come back.
use verteilte_systeme_bbps.Prelude.{
  Option, ℕ, ◌≡◌, refl, ap, ◌∙◌, Bool-cases, Option-cases, inl, inr, [], ◌∷◌, ◌++◌, Text, ℤ,
  contains, ok, ◌>>=◌,
}
use verteilte_systeme_bbps.Std.Decimal.{to_string}
use verteilte_systeme_bbps.Protocol.Identifiers.{CommandIdentifiers, Statuscode, parameter_eq}
use verteilte_systeme_bbps.Protocol.Json.{Json}
use verteilte_systeme_bbps.Protocol.Command.{
  Command, new_command, set_command_argument, get_command_argument,
}
use verteilte_systeme_bbps.Protocol.Command
use verteilte_systeme_bbps.Protocol.Command.RoundTrip.{filled}
use verteilte_systeme_bbps.Protocol.Response.{index_of}
use verteilte_systeme_bbps.Protocol.Response.Codec.Answers.{IsNamed}
use verteilte_systeme_bbps.Server.State.{ClientConnection, connection_eq}
use verteilte_systeme_bbps.Server.Directory.{
  Directory, find_view, subscribe_spec, publish_spec, unsubscribe_first_spec,
}
use verteilte_systeme_bbps.Client.{
  Client, Exchange, Effect, subscribe_command, publish_command, unsubscribe_command, unsubscribe,
  erase_topic, subscribe_topic, publish_topic, send_message,
}

abbrev pub Named : Statuscode → Type 0
Named status = (k : ℕ) × IsNamed status k

pub subscribe_spec-Named :
    (now : ℕ) (c : ClientConnection) (name : Text) (d : Directory)
    → Named (subscribe_spec now c name d).0
unfolding subscribe_spec
subscribe_spec-Named now c name d = elim (Option-cases (find_view name d)) [
  | inl e ↦ rw (e, subscribe_spec) (0, IsNamed.success_named)
  | inr (t, e) ↦ elim (Bool-cases (contains t.subscribers c)) [
    | inl there ↦ rw (e, subscribe_spec) (rw there (1, IsNamed.failed_named))
    | inr new ↦ rw (e, subscribe_spec) (rw new (0, IsNamed.success_named))
  ]
]

pub publish_spec-Named :
    (now : ℕ) (message name : Text) (d : Directory) → Named (publish_spec now message name d).0
unfolding publish_spec
publish_spec-Named now message name d = elim (Option-cases (find_view name d)) [
  | inl e ↦ rw (e, publish_spec) (2, IsNamed.invalid_parameter_named)
  | inr (t, e) ↦ rw (e, publish_spec) (0, IsNamed.success_named)
]

pub unsubscribe_first_spec-Named :
    (name : Text) (d : Directory) → Named (unsubscribe_first_spec name d).0
unfolding unsubscribe_first_spec
unsubscribe_first_spec-Named name d = elim (Option-cases (find_view name d)) [
  | inl e ↦ rw (e, unsubscribe_first_spec) (2, IsNamed.invalid_parameter_named)
  | inr (t, e) ↦ rw (e, unsubscribe_first_spec) (0, IsNamed.success_named)
]

pub unsubscribe_command-filled :
    (port : ℤ) (name : Text)
    → unsubscribe_command port name
      ≡ filled CommandIdentifiers.unsubscribe (name ∷ to_string port ∷ [])
unfolding unsubscribe_command set_command_argument new_command Command.command_dictionary index_of
    parameter_eq
unsubscribe_command-filled port name = refl

pub subscribe_command-filled :
    (port : ℤ) (name : Text)
    → subscribe_command port name ≡ filled CommandIdentifiers.subscribe (name ∷ to_string port ∷ [])
unfolding subscribe_command set_command_argument new_command Command.command_dictionary index_of
    parameter_eq
subscribe_command-filled port name = refl

pub publish_command-filled :
    (name message : Text)
    → publish_command name message ≡ filled CommandIdentifiers.publish (name ∷ message ∷ [])
unfolding publish_command set_command_argument new_command Command.command_dictionary index_of
    parameter_eq
publish_command-filled name message = refl

module _ (J : Json) (format_time : ℤ → Option Text) (exchange : Exchange) (name : Text) where
  pub subscribe_topic-sent :
      (client : Client) (effect : Effect)
      → send_message J format_time exchange
          (filled CommandIdentifiers.subscribe (name ∷ to_string client.port ∷ []))
        ≡ ok effect
      → subscribe_topic J format_time exchange name client
        ≡ ok (effect, record client { subscribed_topics = client.subscribed_topics ++ name ∷ [] })
  unfolding subscribe_topic
  subscribe_topic-sent client effect e =
      ap
        (λ o. o >>= λ f.
          ok (f, record client { subscribed_topics = client.subscribed_topics ++ name ∷ [] }))
        (ap (send_message J format_time exchange) (subscribe_command-filled client.port name) ∙ e)

  pub publish_topic-sent :
      (message : Text) (client : Client) (effect : Effect)
      → send_message J format_time exchange
          (filled CommandIdentifiers.publish (name ∷ message ∷ []))
        ≡ ok effect
      → publish_topic J format_time exchange name message client ≡ ok (effect, client)
  unfolding publish_topic
  publish_topic-sent message client effect e =
      ap (λ o. o >>= λ f. ok (f, client))
        (ap (send_message J format_time exchange) (publish_command-filled name message) ∙ e)

  pub unsubscribe-sent :
      (client : Client) (effect : Effect)
      → send_message J format_time exchange
          (filled CommandIdentifiers.unsubscribe (name ∷ to_string client.port ∷ []))
        ≡ ok effect
      → unsubscribe J format_time exchange name client
        ≡ ok (
          effect,
          record client { subscribed_topics = erase_topic name client.subscribed_topics },
        )
  unfolding unsubscribe
  unsubscribe-sent client effect e =
      ap
        (λ o. o >>= λ f.
          ok (f, record client { subscribed_topics = erase_topic name client.subscribed_topics }))
        (ap (send_message J format_time exchange) (unsubscribe_command-filled client.port name) ∙ e)

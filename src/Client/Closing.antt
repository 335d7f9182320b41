-- ===== src/Client/Closing.antt =====
-- The destructor's loop ends.
use verteilte_systeme_bbps.Prelude.{
  Option, ℕ, zero, suc, ◌≤◌, ◌≡◌, ◌≢◌, refl, ap, Bool, true, false, List, [], ◌∷◌, none, some, All,
  Text, ℤ, pos, negsuc, nat_eq, text_eq, ==_self, length, if◌then◌else◌, Outcome, ok, ◌>>=◌, arith,
}
use verteilte_systeme_bbps.Std.Decimal.{to_string}
use verteilte_systeme_bbps.Std.Decimal.RoundTrip.{to_string_ℕ-ne-nil}
use verteilte_systeme_bbps.Protocol.Identifiers.{parameter_eq}
use verteilte_systeme_bbps.Protocol.Json.{Json}
use verteilte_systeme_bbps.Protocol.Command.{
  Command, new_command, set_command_argument, is_valid, all_set, command_dictionary, serialize,
}
use verteilte_systeme_bbps.Protocol.Response.{index_of}
use verteilte_systeme_bbps.Client.{
  Client, Exchange, Effect, before, until_zero, send_message, unsubscribe_command,
  subscribe_command, erase_topic, unsubscribe, unsubscribe_all,
}

to_string-ne-nil : (z : ℤ) → to_string z ≢ []
unfolding to_string
to_string-ne-nil (pos n) = to_string_ℕ-ne-nil n
to_string-ne-nil (negsuc n) = λ e. cc

both_set : (a b : Text) → a ≢ [] → b ≢ [] → all_set (a ∷ b ∷ []) ≡ true
unfolding all_set
both_set a b ha hb = ground arith

unsubscribe_command_lem :
    (port : ℤ) (name : Text) → name ≢ [] → is_valid (unsubscribe_command port name) ≡ true
unfolding is_valid unsubscribe_command set_command_argument new_command command_dictionary index_of
    parameter_eq
unsubscribe_command_lem port name named =
    both_set name (to_string port) named (to_string-ne-nil port)

erase_topic-All :
    (name : Text) (ts : List Text) → All (λ t. t ≢ []) ts → All (λ t. t ≢ []) (erase_topic name ts)
unfolding erase_topic
erase_topic-All name [] h = tt
erase_topic-All name (t ∷ ts) h = ground (arith, erase_topic-All name ts)

length-erase_topic : (name : Text) (ts : List Text) → length (erase_topic name ts) ≤ length ts
unfolding erase_topic
length-erase_topic name [] = omega arith
length-erase_topic name (t ∷ ts) = ground (arith, length-erase_topic name ts)

erase_topic-first :
    (name : Text) (ts : List Text) → erase_topic name (name ∷ ts) ≡ erase_topic name ts
unfolding erase_topic
erase_topic-first name ts = rw (==_self name) refl

pub subscribe_command_lem :
    (port : ℤ) (name : Text) → name ≢ [] → is_valid (subscribe_command port name) ≡ true
unfolding is_valid subscribe_command set_command_argument new_command command_dictionary index_of
    parameter_eq
subscribe_command_lem port name named = both_set name (to_string port) named (to_string-ne-nil port)

chosen {ℓ} :
    {A : Type ℓ} (b : Bool) (x : A) (m : Outcome A)
    → b ≡ true
    → (y : A) × ((if b then ok x else m) ≡ ok y)
chosen true x m h = (x, refl)
chosen false x m h = cc

module _ (J : Json) (format_time : ℤ → Option Text) where
  -- A command that is valid gets through `sendMessage` without an exception.
  abbrev pub Survives : Exchange → Type 0
  Survives exchange =
      (command : Command)
      → is_valid command ≡ true
      → (effect : Effect) × (send_message J format_time exchange command ≡ ok effect)

  serialize-valid : (c : Command) → is_valid c ≡ true → (text : Text) × (serialize J c ≡ ok text)
  unfolding serialize
  serialize-valid c valid = chosen (is_valid c) _ _ valid

  -- A server that does not answer does no harm.
  pub no_response-Survives : Survives Exchange.no_response
  unfolding send_message
  no_response-Survives command valid =
      let (text, e) = serialize-valid command valid in
      (record { sent = some (until_zero text); logged = none }, rw e refl)

  module _ (exchanges : ℕ → Exchange) (survives : (k : ℕ) → Survives (exchanges k)) where
    pub closing :
        (k fuel : ℕ) (port : ℤ) (topics : List Text)
        → length topics ≤ fuel
        → All (λ t. t ≢ []) topics
        → (effects : List Effect) × (unsubscribe_all J format_time exchanges k fuel
              (record { port = port; subscribed_topics = topics })
            ≡ ok (some (effects, record { port = port; subscribed_topics = [] })))
          × (length effects ≤ length topics)
    unfolding unsubscribe_all unsubscribe
    closing k zero port [] enough named = ([], refl, omega arith)
    closing k (suc fuel) port [] enough named = ([], refl, omega arith)
    closing k zero port (t ∷ ts) enough named = absurd (omega arith)
    closing k (suc fuel) port (t ∷ ts) enough (first, rest) =
        let left = erase_topic t ts in
        let shorter = length-erase_topic t ts in
        let (effect, sent) =
          survives k (unsubscribe_command port t) (unsubscribe_command_lem port t first) in
        let (effects, e, few) =
          closing (suc k) fuel port left (omega (arith, shorter)) (erase_topic-All t ts rest) in
        (
          effect ∷ effects,
          rw sent (rw (erase_topic-first t ts) (ap (λ o. o >>= λ done. ok (before effect done)) e)),
          omega (arith, shorter),
        )

-- ===== src/Protocol/Message.antt =====
-- message.h and message.cpp: what the server publishes.
pub mod RoundTrip
use verteilte_systeme_bbps.Prelude.{
  ℕ, ◌-◌, ◌%◌, ◌^◌, none, some, Text, codes, ℤ, pos, negsuc, Outcome, ok, throws, undefined,
  Exception, runtime_error, invalid_argument, ◌>>=◌,
}
use verteilte_systeme_bbps.Std.Decimal.{stoll}
use verteilte_systeme_bbps.Protocol.Json.{Json}

-- A `time_t` counts seconds.
pub record Message : Type 0 where
  pub topic : Text
  pub message_timestamp : ℤ
  pub message : Text

-- `static_cast<uint64_t>(time_t)`
unfoldable pub uint64_of_time : ℤ → ℕ
uint64_of_time (pos n) = n % 2 ^ 64
uint64_of_time (negsuc n) = 2 ^ 64 - 1 - n % 2 ^ 64

-- `catch (const invalid_argument &)`, with the exception that its block throws.
abbrev pub catch_invalid_argument {ℓ} : {A : Type ℓ} → Exception → Outcome A → Outcome A
catch_invalid_argument e (ok a) = ok a
catch_invalid_argument e (throws invalid_argument) = throws e
catch_invalid_argument e (throws f) = throws f
catch_invalid_argument e undefined = undefined

module _ (J : Json) where
  open J use {Value, null, of_text, of_uint64, assign, member, as_string, parse, write}

  unfoldable pub serialize : Message → Text
  unfolding uint64_of_time
  serialize m =
      let v = assign null (codes "topic") (of_text m.topic) in
      let v' =
        assign v (codes "messageTimestamp") (of_uint64 (uint64_of_time m.message_timestamp)) in
      write (assign v' (codes "message") (of_text m.message))

  -- The block under `try`.
  unfoldable pub message_of_value : Value → Outcome Message
  unfolding stoll
  message_of_value v = do
    topic ← member v (codes "topic") >>= as_string
    digits ← member v (codes "messageTimestamp") >>= as_string
    timestamp ← stoll digits
    message ← member v (codes "message") >>= as_string
    ok (record { topic = topic; message_timestamp = timestamp; message = message })

  unfoldable pub deserialize : Text → Outcome Message
  unfolding message_of_value
  deserialize s = parse s >>= λ parsed. elim parsed [
    | none ↦ throws (runtime_error (codes "Failed to parse message JSON"))
    | some v ↦
        catch_invalid_argument
          (runtime_error (codes "Invalid or missing arguments in message JSON"))
          (message_of_value v)
  ]

-- ===== src/Client/Messages/Published.antt =====
-- What becomes of the messages that the server publishes, and of other datagrams.
use verteilte_systeme_bbps.Prelude.{
  some, ◌++◌, Option, arith, none, ℕ, ◌<◌, ◌^◌, ◌≡◌, ◌≢◌, refl, ap, List, ◌∷◌, length, All, Text,
  codes, ℤ, pos, negsuc, Outcome, ok, throws, runtime_error, out_of_range, ◌>>=◌,
}
use verteilte_systeme_bbps.Protocol.Json.{Json, IsLawful}
use verteilte_systeme_bbps.Protocol.Message.{Message}
use verteilte_systeme_bbps.Protocol.Message
use verteilte_systeme_bbps.Protocol.Message.RoundTrip.{
  serialize-no_zero, deserialize-serialize_message, deserialize-serialize_negative,
}
use verteilte_systeme_bbps.Server.State.{ClientConnection}
use verteilte_systeme_bbps.Server.Sending.{datagram}
use verteilte_systeme_bbps.Client.Received.{c_string-fits}
use verteilte_systeme_bbps.Client.Log.{formatted_timestamp, Logged}
use verteilte_systeme_bbps.Client.Messages.{
  Reception, print_message, catch_and_log, receive_message, handle_messages,
}

-- The line for a message.
abbrev pub message_line : Text → Text → Text → Text
message_line topic time message =
    codes "Topic: "
    ++ (topic ++ (codes " | Message-Timestamp: " ++ (time ++ (codes " | Message: " ++ message))))

pub formatted_timestamp-fits : (t : Text) → length t < 21 → formatted_timestamp (some t) ≡ ok t
unfolding formatted_timestamp
formatted_timestamp-fits t fits = ground arith

print_message-shown :
    (format_time : ℤ → Option Text) (m : Message) (shown : Text)
    → format_time m.message_timestamp ≡ some shown
    → length shown < 21
    → print_message format_time m ≡ ok (Logged.info (message_line m.topic shown m.message))
unfolding print_message
print_message-shown format_time m shown timed fits =
    rw timed (rw (formatted_timestamp-fits shown fits) refl)

module _ (J : Json) (format_time : ℤ → Option Text) where
  receive_message-fits :
      (s : Text) (read : Outcome Message)
      → All (λ c. c ≢ 0) s
      → length s < 2048
      → Message.deserialize J s ≡ read
      → receive_message J format_time s ≡ catch_and_log (read >>= λ m. print_message format_time m)
  unfolding receive_message
  receive_message-fits s read clean short e =
      rw (c_string-fits 2048 s clean short, receive_message)
        (ap (λ o. catch_and_log (o >>= λ m. print_message format_time m)) e)

  -- Garbage.
  pub handle_messages-garbage :
      (s : Text) (receptions : List Reception)
      → All (λ c. c ≢ 0) s
      → length s < 2048
      → J.parse s ≡ ok none
      → handle_messages J format_time (Reception.datagram s ∷ receptions) ≡ (
          handle_messages J format_time receptions >>= λ rest.
          ok (Logged.error (codes "Failed to parse message JSON") ∷ rest))
  unfolding handle_messages Message.deserialize catch_and_log
  handle_messages-garbage s receptions clean short garbage =
      rw
        (
          receive_message-fits s (throws (runtime_error (codes "Failed to parse message JSON")))
              clean short (rw (garbage, Message.deserialize) refl),
          handle_messages,
        )
        refl

module _ (J : Json) (L : IsLawful J) (format_time : ℤ → Option Text) (limit : ℕ)
    (c : ClientConnection) (name message : Text) (n : ℕ) (plain : L.IsPlain name)
    (plain' : L.IsPlain message) (small : n < 2 ^ 63) where
  -- If the JSON library is lawful and carries a topic's name and its message, and the time is
  -- below 2 ^ 63 and what `strftime` makes of it is shorter than the buffer of 21 bytes: the
  -- datagram that the server sends for it, if it is below 2048 bytes, is logged by the client's
  -- thread as that topic, time and message, and the thread goes on with what comes behind it.
  pub handle_messages-datagram :
      (shown : Text) (receptions : List Reception)
      → format_time (pos n) ≡ some shown
      → length shown < 21
      → length (datagram J limit c name message (pos n)).content < 2048
      → handle_messages J format_time
          (Reception.datagram (datagram J limit c name message (pos n)).content ∷ receptions)
        ≡ (handle_messages J format_time receptions >>= λ rest.
            ok (Logged.info (message_line name shown message) ∷ rest))
  unfolding handle_messages datagram catch_and_log
  handle_messages-datagram shown receptions timed fits short =
      rw
        (
          receive_message-fits J format_time _ _ (serialize-no_zero J L _) short
              (deserialize-serialize_message J L name message n plain plain' small),
          handle_messages,
        )
        (rw
          (
            print_message-shown format_time
                (record { topic = name; message_timestamp = pos n; message = message }) shown timed
                fits,
            catch_and_log,
          )
          refl)

  -- If the JSON library is lawful and carries a topic's name and its message: a datagram below
  -- 2048 bytes that the server's code would make for a timestamp that is negative, but no less
  -- than - 2 ^ 63, makes the client's thread throw out of range, which nobody catches.
  pub handle_messages-negative :
      (receptions : List Reception)
      → length (datagram J limit c name message (negsuc n)).content < 2048
      → handle_messages J format_time
          (Reception.datagram (datagram J limit c name message (negsuc n)).content ∷ receptions)
        ≡ throws out_of_range
  unfolding handle_messages datagram catch_and_log
  handle_messages-negative receptions short =
      rw
        (
          receive_message-fits J format_time _ _ (serialize-no_zero J L _) short
              (deserialize-serialize_negative J L name message n plain plain' small),
          handle_messages,
        )
        refl

-- ===== src/Protocol/Message/RoundTrip.antt =====
-- What `Message::deserialize` makes of what `Message::serialize` wrote.
use verteilte_systeme_bbps.Prelude.{
  ◌≢◌, All, negsuc, ◌-◌, throws, out_of_range, Outcome, ◌>>=◌, ℤ, ℕ, ◌<◌, ◌^◌, ◌≡◌, refl, ap, ◌∙◌,
  Text, codes, text_eq, nat_eq, ok, runtime_error, pos, arith,
}
use verteilte_systeme_bbps.Std.Decimal.{stoll, to_string_ℕ}
use verteilte_systeme_bbps.Std.Decimal.RoundTrip.{stoll-to_string_ℕ, stoll-to_string_out}
use verteilte_systeme_bbps.Protocol.Json.{Json, IsLawful}
use verteilte_systeme_bbps.Protocol.Message.{
  Message, uint64_of_time, serialize, message_of_value, deserialize, catch_invalid_argument,
}

module _ (J : Json) (L : IsLawful J) (topic message : Text) (n : ℕ) where
  open J use {Value, null, of_text, of_uint64, assign, member, as_string}

  abbrev with_topic : Value
  with_topic = assign null (codes "topic") (of_text topic)

  abbrev with_timestamp : Value
  with_timestamp = assign with_topic (codes "messageTimestamp") (of_uint64 n)

  abbrev document : Value
  document = assign with_timestamp (codes "message") (of_text message)

  topic_plain : L.IsPlain (codes "topic")
  topic_plain = L.ascii-IsPlain (codes "topic") (omega arith)

  timestamp_plain : L.IsPlain (codes "messageTimestamp")
  timestamp_plain = L.ascii-IsPlain (codes "messageTimestamp") (omega arith)

  message_plain : L.IsPlain (codes "message")
  message_plain = L.ascii-IsPlain (codes "message") (omega arith)

  with_topic-IsObject : L.IsObject with_topic
  with_topic-IsObject = L.assign-IsObject null (codes "topic") _ L.null-IsObject topic_plain

  with_timestamp-IsObject : L.IsObject with_timestamp
  with_timestamp-IsObject =
      L.assign-IsObject with_topic (codes "messageTimestamp") _ with_topic-IsObject timestamp_plain

  member-topic : member (L.reread document) (codes "topic") ≡ ok (L.reread (of_text topic))
  unfolding text_eq
  member-topic =
      L.member-assign with_timestamp (codes "message") (of_text message) (codes "topic")
        with_timestamp-IsObject message_plain
      ∙ L.member-assign with_topic (codes "messageTimestamp") (of_uint64 n) (codes "topic")
          with_topic-IsObject timestamp_plain
      ∙ L.member-assign null (codes "topic") (of_text topic) (codes "topic") L.null-IsObject
          topic_plain

  member-timestamp :
      member (L.reread document) (codes "messageTimestamp") ≡ ok (L.reread (of_uint64 n))
  unfolding text_eq
  member-timestamp =
      L.member-assign with_timestamp (codes "message") (of_text message) (codes "messageTimestamp")
        with_timestamp-IsObject message_plain
      ∙ L.member-assign with_topic (codes "messageTimestamp") (of_uint64 n)
          (codes "messageTimestamp") with_topic-IsObject timestamp_plain

  member-message : member (L.reread document) (codes "message") ≡ ok (L.reread (of_text message))
  unfolding text_eq
  member-message =
      L.member-assign with_timestamp (codes "message") (of_text message) (codes "message")
        with_timestamp-IsObject message_plain

  abbrev original : ℤ → Message
  original time = record { topic = topic; message_timestamp = time; message = message }

  serialize-document :
      (time : ℤ) → uint64_of_time time ≡ n → serialize J (original time) ≡ J.write document
  unfolding serialize
  serialize-document time same =
      ap
        (λ k. J.write (
          assign (assign with_topic (codes "messageTimestamp") (of_uint64 k)) (codes "message")
            (of_text message)))
        same

  -- What is read depends on what `stoll` makes of the number.
  message_of_value-document :
      L.IsPlain topic
      → L.IsPlain message
      → n < 2 ^ 64
      → message_of_value J (L.reread document)
        ≡ (stoll (to_string_ℕ n) >>= λ time. ok (original time))
  unfolding message_of_value
  message_of_value-document plain plain' small = rw (member-topic) (
      rw (L.as_string-text topic plain, member-timestamp)
        (rw (L.as_string-uint64 n small, member-message)
          (rw (L.as_string-text message plain') refl)))

  deserialize-document :
      (time : ℤ) (read : Outcome ℤ)
      → uint64_of_time time ≡ n
      → stoll (to_string_ℕ n) ≡ read
      → L.IsPlain topic
      → L.IsPlain message
      → n < 2 ^ 64
      → deserialize J (serialize J (original time))
        ≡ catch_invalid_argument
            (runtime_error (codes "Invalid or missing arguments in message JSON"))
            (read >>= λ t. ok (original t))
  unfolding deserialize
  deserialize-document time read same number plain plain' small =
      ap (deserialize J) (serialize-document time same)
      ∙ rw (L.parse-write document, deserialize)
          (ap
            (catch_invalid_argument
              (runtime_error (codes "Invalid or missing arguments in message JSON")))
            (message_of_value-document plain plain' small
              ∙ ap (λ o. o >>= λ t. ok (original t)) number))

module _ (J : Json) (L : IsLawful J) (topic message : Text) where
  -- If the JSON library is lawful, a message whose texts JSON carries and whose timestamp is not
  -- negative and below 2 ^ 63 is read back as it was.
  pub deserialize-serialize_message :
      (n : ℕ)
      → L.IsPlain topic
      → L.IsPlain message
      → n < 2 ^ 63
      → deserialize J
          (serialize J (record { topic = topic; message_timestamp = pos n; message = message }))
        ≡ ok (record { topic = topic; message_timestamp = pos n; message = message })
  unfolding uint64_of_time
  deserialize-serialize_message n plain plain' small =
      deserialize-document J L topic message n (pos n) (ok (pos n)) (omega arith)
        (stoll-to_string_ℕ n small) plain plain' (omega arith)

  -- Before 1970.
  pub deserialize-serialize_negative :
      (n : ℕ)
      → L.IsPlain topic
      → L.IsPlain message
      → n < 2 ^ 63
      → deserialize J
          (serialize J (record { topic = topic; message_timestamp = negsuc n; message = message }))
        ≡ throws out_of_range
  unfolding uint64_of_time
  deserialize-serialize_negative n plain plain' small =
      deserialize-document J L topic message (2 ^ 64 - 1 - n) (negsuc n) (throws out_of_range)
        (omega arith) (stoll-to_string_out (2 ^ 64 - 1 - n) (omega arith)) plain plain'
        (omega arith)

pub serialize-no_zero : (J : Json) (L : IsLawful J) (m : Message) → All (λ c. c ≢ 0) (serialize J m)
unfolding serialize
serialize-no_zero J L m = L.write_no_zero _

-- ===== src/Protocol/Command/RoundTrip.antt =====
-- What `Command::deserialize` makes of what `Command::serialize` wrote.
use verteilte_systeme_bbps.Prelude.{
  ℕ, ◌<◌, ◌^◌, ◌≡◌, ◌≢◌, refl, sym, ◌∙◌, >>=-assoc, true, false, List, [], ◌∷◌, Text, codes, ◌==◌,
  text_eq, nat_eq, if◌then◌else◌, ok, ◌>>=◌, pos, arith, All,
}
use verteilte_systeme_bbps.Protocol.Identifiers.{
  CommandIdentifiers, parameter_eq, command_of_int, int_of_command,
  communication_parameter_to_string, string_to_communication_parameter,
}
use verteilte_systeme_bbps.Protocol.Json.{Json, IsLawful, insert_name}
use verteilte_systeme_bbps.Protocol.Command.{
  Command, new_command, command_dictionary, set_command_argument, all_set, is_valid,
  argument_object, serialize, set_arguments, deserialize,
}
use verteilte_systeme_bbps.Protocol.Command.Documents.{
  missing, document, one_argument, two_arguments, command_of_value-document, set_arguments-one,
  set_arguments-two, set_arguments-rounds,
}

-- A command with those texts for the arguments that its identifier asks for.
abbrev pub filled : CommandIdentifiers → List Text → Command
filled id texts = record {
  command_identifier = id;
  available_command_arguments = command_dictionary id;
  command_arguments = texts;
}

module _ (J : Json) (L : IsLawful J) where
  abbrev pub Sent : Text → Type 0
  Sent t = (t ≢ []) × L.IsPlain t

  -- What is written for the command is read back as the command.
  abbrev pub ReadsBack : Command → Type 0
  ReadsBack c = (s : Text) × (serialize J c ≡ ok s) × (deserialize J s ≡ ok c)

  pub reads_document :
      (n : ℕ) (arguments : J.Value) (c : Command)
      → n < 2 ^ 31
      → (J.member_names (L.reread arguments) >>= λ keys.
          set_arguments J (L.reread arguments) keys (new_command (command_of_int (pos n))))
        ≡ ok c
      → is_valid c ≡ true
      → deserialize J (J.write (document J L n arguments)) ≡ ok c
  unfolding deserialize
  reads_document n arguments c small filled_in valid =
      rw (deserialize, L.parse-write (document J L n arguments))
        (command_of_value-document J L n arguments small
          ∙ sym (
              >>=-assoc (J.member_names (L.reread arguments))
                (λ keys.
                  set_arguments J (L.reread arguments) keys (new_command (command_of_int (pos n))))
                (λ d. if is_valid d then ok d else missing))
          ∙ rw filled_in (rw valid refl))

  all_set-two : (a b : Text) → a ≢ [] → b ≢ [] → all_set (a ∷ b ∷ []) ≡ true
  unfolding all_set
  all_set-two a b ha hb = ground arith

  pub all_set-one : (a : Text) → a ≢ [] → all_set (a ∷ []) ≡ true
  unfolding all_set
  all_set-one a ha = ground arith

  -- The identifiers with a topic name and a second argument, whose name comes before.
  two-ReadsBack :
      (id : CommandIdentifiers) (n : ℕ) (second : Text) (a b : Text)
      → n < 2 ^ 31
      → serialize J (filled id (a ∷ b ∷ []))
        ≡ ok (J.write (document J L n (two_arguments J L (codes "topicName") a second b)))
      → insert_name second (codes "topicName" ∷ []) ≡ second ∷ codes "topicName" ∷ []
      → set_command_argument
          (string_to_communication_parameter second)
          b
          (new_command (command_of_int (pos n)))
        ≡ (true, filled id ([] ∷ b ∷ []))
      → set_command_argument
          (string_to_communication_parameter (codes "topicName"))
          a
          (filled id ([] ∷ b ∷ []))
        ≡ (true, filled id (a ∷ b ∷ []))
      → Sent a
      → Sent b
      → All (λ c. c < 128) second
      → (codes "topicName" == second) ≡ false
      → ReadsBack (filled id (a ∷ b ∷ []))
  unfolding is_valid
  two-ReadsBack id n second a b small written ordered first then_topic (set_a, plain_a)
        (set_b, plain_b) ascii differ =
      let plain = L.ascii-IsPlain (codes "topicName") (omega arith) in
      let plain' = L.ascii-IsPlain second ascii in
      (
        J.write (document J L n (two_arguments J L (codes "topicName") a second b)),
        written,
        reads_document n (two_arguments J L (codes "topicName") a second b) _ small
            (set_arguments-two J L (codes "topicName") a second b _ plain plain_a plain' plain_b
                differ
              ∙ rw ordered (
                  set_arguments-rounds J L (codes "topicName") a second b _ _ _ plain plain_a plain'
                    plain_b differ first then_topic))
            (all_set-two a b set_a set_b),
      )

  one-ReadsBack :
      (a : Text) → Sent a → ReadsBack (filled CommandIdentifiers.get_topic_status (a ∷ []))
  unfolding serialize is_valid argument_object communication_parameter_to_string
      set_command_argument string_to_communication_parameter text_eq parameter_eq new_command
      command_of_int nat_eq int_of_command
  one-ReadsBack a (set_a, plain_a) = (
    J.write (document J L 4 (one_argument J L (codes "topicName") a)),
    rw (all_set-one a set_a) refl,
    reads_document 4 (one_argument J L (codes "topicName") a) _ (omega arith)
        (set_arguments-one J L (codes "topicName") a _
          (L.ascii-IsPlain (codes "topicName") (omega arith)) plain_a)
        (all_set-one a set_a),
  )

  none-ReadsBack : ReadsBack (filled CommandIdentifiers.list_topics [])
  unfolding serialize set_arguments new_command command_of_int nat_eq int_of_command
  none-ReadsBack = (
    J.write (document J L 3 J.null),
    refl,
    reads_document 3 J.null _ (omega arith) (rw L.member_names-null refl) refl,
  )

  subscribe-ReadsBack :
      (a b : Text) → Sent a → Sent b → ReadsBack (filled CommandIdentifiers.subscribe (a ∷ b ∷ []))
  unfolding serialize is_valid argument_object communication_parameter_to_string
      set_command_argument string_to_communication_parameter text_eq parameter_eq new_command
      command_of_int nat_eq int_of_command
  subscribe-ReadsBack a b ha hb =
      two-ReadsBack CommandIdentifiers.subscribe 0 (codes "clientPort") a b (omega arith)
        (rw (all_set-two a b ha.0 hb.0) refl) refl refl refl ha hb (omega arith) refl

  unsubscribe-ReadsBack :
      (a b : Text)
      → Sent a
      → Sent b
      → ReadsBack (filled CommandIdentifiers.unsubscribe (a ∷ b ∷ []))
  unfolding serialize is_valid argument_object communication_parameter_to_string
      set_command_argument string_to_communication_parameter text_eq parameter_eq new_command
      command_of_int nat_eq int_of_command
  unsubscribe-ReadsBack a b ha hb =
      two-ReadsBack CommandIdentifiers.unsubscribe 1 (codes "clientPort") a b (omega arith)
        (rw (all_set-two a b ha.0 hb.0) refl) refl refl refl ha hb (omega arith) refl

  publish-ReadsBack :
      (a b : Text) → Sent a → Sent b → ReadsBack (filled CommandIdentifiers.publish (a ∷ b ∷ []))
  unfolding serialize is_valid argument_object communication_parameter_to_string
      set_command_argument string_to_communication_parameter text_eq parameter_eq new_command
      command_of_int nat_eq int_of_command
  publish-ReadsBack a b ha hb =
      two-ReadsBack CommandIdentifiers.publish 2 (codes "message") a b (omega arith)
        (rw (all_set-two a b ha.0 hb.0) refl) refl refl refl ha hb (omega arith) refl

  -- An identifier and the texts for its arguments.
  pub data IsFilled : CommandIdentifiers → List Text → Type 0 where
    subscribe_filled : (a b : Text) → IsFilled CommandIdentifiers.subscribe (a ∷ b ∷ [])
    unsubscribe_filled : (a b : Text) → IsFilled CommandIdentifiers.unsubscribe (a ∷ b ∷ [])
    publish_filled : (a b : Text) → IsFilled CommandIdentifiers.publish (a ∷ b ∷ [])
    list_topics_filled : IsFilled CommandIdentifiers.list_topics []
    get_topic_status_filled : (a : Text) → IsFilled CommandIdentifiers.get_topic_status (a ∷ [])

  -- If the JSON library is lawful, every command of the five, with as many texts as it has
  -- arguments, none of them empty or beyond what JSON carries, is read back as it was:
  -- `serialize` succeeds, and `deserialize` makes the same command of what it wrote.
  pub deserialize-serialize :
      (id : CommandIdentifiers) (texts : List Text)
      → IsFilled id texts
      → All Sent texts
      → ReadsBack (filled id texts)
  deserialize-serialize _ _ (subscribe_filled a b) h = subscribe-ReadsBack a b h.0 h.1.0
  deserialize-serialize _ _ (unsubscribe_filled a b) h = unsubscribe-ReadsBack a b h.0 h.1.0
  deserialize-serialize _ _ (publish_filled a b) h = publish-ReadsBack a b h.0 h.1.0
  deserialize-serialize _ _ list_topics_filled h = none-ReadsBack
  deserialize-serialize _ _ (get_topic_status_filled a) h = one-ReadsBack a h.0

-- ===== src/Protocol/Command/UnknownKeys.antt =====
-- A key of a command's arguments that is none of the names.
use verteilte_systeme_bbps.Prelude.{
  ◌≡◌, ◌≢◌, refl, ◌∙◌, [], ◌∷◌, Text, codes, ==_differ, text_eq, nat_eq, ok, arith,
}
use verteilte_systeme_bbps.Protocol.Identifiers.{
  CommandIdentifiers, CommunicationParameters, parameter_eq, command_of_int,
  communication_parameter_to_string, string_to_communication_parameter,
}
use verteilte_systeme_bbps.Protocol.Json.{Json, IsLawful}
use verteilte_systeme_bbps.Protocol.Command.{
  new_command, command_dictionary, set_command_argument, all_set, is_valid, deserialize,
}
use verteilte_systeme_bbps.Protocol.Command.Documents.{document, one_argument, set_arguments-one}
use verteilte_systeme_bbps.Protocol.Command.RoundTrip.{filled, Sent, reads_document, all_set-one}

abbrev pub IsUnknown : Text → Type 0
IsUnknown key = (p : CommunicationParameters) → key ≢ communication_parameter_to_string p

unknown-topic_name :
    (key : Text)
    → IsUnknown key
    → string_to_communication_parameter key ≡ CommunicationParameters.topic_name
unfolding string_to_communication_parameter communication_parameter_to_string
unknown-topic_name key h =
    rw (==_differ key (codes "clientPort") (h CommunicationParameters.client_port)) (
      rw (==_differ key (codes "message") (h CommunicationParameters.message)) (
        rw (==_differ key (codes "topics") (h CommunicationParameters.topics)) (
          rw
            (==_differ key (codes "messageTimestamp") (h CommunicationParameters.message_timestamp))
            (rw (==_differ key (codes "subscribers") (h CommunicationParameters.subscribers))
              refl))))

module _ (J : Json) (L : IsLawful J) where
  -- If the JSON library is lawful: a status request whose only argument has a key that is none of
  -- the names, and a text that is not empty, where JSON carries both, is read as the request for
  -- the status of the topic with that text for its name.
  pub deserialize_unknown_key :
      (key a : Text)
      → IsUnknown key
      → L.IsPlain key
      → Sent J L a
      → deserialize J (J.write (document J L 4 (one_argument J L key a)))
        ≡ ok (filled CommandIdentifiers.get_topic_status (a ∷ []))
  unfolding set_command_argument new_command command_dictionary command_of_int nat_eq parameter_eq
      all_set is_valid
  deserialize_unknown_key key a unknown plain (set_a, plain_a) =
      reads_document J L 4 (one_argument J L key a) _ (omega arith)
        (set_arguments-one J L key a _ plain plain_a ∙ rw (unknown-topic_name key unknown) refl)
        (all_set-one J L a set_a)

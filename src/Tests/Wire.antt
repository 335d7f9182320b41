-- ===== src/Tests/Wire.antt =====
-- Messages and responses that go over the wire, at concrete inputs.
use verteilte_systeme_bbps.Prelude.{
  ◌≡◌, ◌≢◌, refl, All, nat_eq, [], ◌∷◌, Text, codes, pos, negsuc, ok, throws, out_of_range, text_eq,
  arith,
}
use verteilte_systeme_bbps.Protocol.Identifiers.{
  CommandIdentifiers, CommunicationParameters, Statuscode, parameter_eq,
  communication_parameter_to_string,
}
use verteilte_systeme_bbps.Protocol.Message.RoundTrip.{
  deserialize-serialize_message, deserialize-serialize_negative,
}
use verteilte_systeme_bbps.Protocol.Message
use verteilte_systeme_bbps.Protocol.Response.Codec
use verteilte_systeme_bbps.Protocol.Response.Codec.Answers.{answered, IsAnswer, IsNamed}
use verteilte_systeme_bbps.Protocol.Response.Codec.RoundTrip.{deserialize-serialize_response}
use verteilte_systeme_bbps.Protocol.Command
use verteilte_systeme_bbps.Protocol.Command.RoundTrip.{filled, ReadsBack}
use verteilte_systeme_bbps.Protocol.Command.Reading.{deserialize-ReadsBack}
use verteilte_systeme_bbps.Protocol.Command.UnknownKeys.{IsUnknown, deserialize_unknown_key}
use verteilte_systeme_bbps.Tests.Documents.{trees, trees-IsLawful, Tree, written}

deserialize-serialize_message_example :
    Message.deserialize trees (
      Message.serialize trees
        (record { topic = codes "news"; message_timestamp = pos 1700000000; message = codes "hi" }))
    ≡ ok (record { topic = codes "news"; message_timestamp = pos 1700000000; message = codes "hi" })
deserialize-serialize_message_example =
    deserialize-serialize_message trees trees-IsLawful (codes "news") (codes "hi") 1700000000 tt tt
      (omega arith)

negative_timestamp :
    Message.deserialize trees (
      Message.serialize trees
        (record { topic = codes "news"; message_timestamp = negsuc 0; message = codes "hi" }))
    ≡ throws out_of_range
negative_timestamp =
    deserialize-serialize_negative trees trees-IsLawful (codes "news") (codes "hi") 0 tt tt
      (omega arith)

-- `{"command": 4, "arguments": {"colour": "red"}}`
abbrev status_of_red : Text
status_of_red = written (
    Tree.assigned (Tree.assigned Tree.null (codes "command") (Tree.int (pos 4))) (codes "arguments")
      (Tree.assigned Tree.null (codes "colour") (Tree.text (codes "red"))))

colour-IsUnknown : IsUnknown (codes "colour")
unfolding communication_parameter_to_string
colour-IsUnknown CommunicationParameters.topic_name e = ground arith
colour-IsUnknown CommunicationParameters.client_port e = ground arith
colour-IsUnknown CommunicationParameters.message e = ground arith
colour-IsUnknown CommunicationParameters.topics e = ground arith
colour-IsUnknown CommunicationParameters.message_timestamp e = ground arith
colour-IsUnknown CommunicationParameters.subscribers e = ground arith

deserialize_unknown_key_example :
    Command.deserialize trees status_of_red
    ≡ ok (filled CommandIdentifiers.get_topic_status (codes "red" ∷ []))
deserialize_unknown_key_example =
    deserialize_unknown_key trees trees-IsLawful (codes "colour") (codes "red") colour-IsUnknown tt
      ((λ e. cc), tt)

deserialize-serialize_response_example :
    (s : Text) × (Codec.serialize trees (
        answered CommandIdentifiers.get_topic_status Statuscode.success
          (codes "17" ∷ codes "[10.0.0.1:4001]" ∷ []))
      ≡ ok s)
    × (Codec.deserialize trees CommandIdentifiers.get_topic_status s
        ≡ ok (
            answered CommandIdentifiers.get_topic_status Statuscode.success
              (codes "17" ∷ codes "[10.0.0.1:4001]" ∷ [])))
deserialize-serialize_response_example =
    deserialize-serialize_response trees trees-IsLawful Statuscode.success 0 IsNamed.success_named
      CommandIdentifiers.get_topic_status (codes "17" ∷ codes "[10.0.0.1:4001]" ∷ [])
      (IsAnswer.get_topic_status_answer (codes "17") (codes "[10.0.0.1:4001]")) (tt, (tt, tt))

-- The arguments in another order than they are written in.
abbrev swapped_subscribe : Text
swapped_subscribe = written (
    Tree.assigned
      (Tree.assigned Tree.null (codes "arguments") (
        Tree.assigned (Tree.assigned Tree.null (codes "clientPort") (Tree.text (codes "4003")))
          (codes "topicName") (Tree.text (codes "news"))))
      (codes "command") (Tree.int (pos 0)))

deserialize-ReadsBack_example :
    (Command.command_dictionary CommandIdentifiers.subscribe
      ≡ Command.command_dictionary CommandIdentifiers.subscribe)
    × All (λ t. t ≢ []) (codes "news" ∷ codes "4003" ∷ [])
    × ReadsBack trees trees-IsLawful
        (filled CommandIdentifiers.subscribe (codes "news" ∷ codes "4003" ∷ []))
unfolding Command.deserialize text_eq nat_eq parameter_eq
deserialize-ReadsBack_example =
    deserialize-ReadsBack trees trees-IsLawful swapped_subscribe
      (filled CommandIdentifiers.subscribe (codes "news" ∷ codes "4003" ∷ [])) refl (λ n e. cc)
      (tt, (tt, tt))

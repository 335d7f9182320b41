-- ===== src/Tests/Conversations.antt =====
-- The client and the server together, and the messages that come to the client, at concrete inputs.
use verteilte_systeme_bbps.Prelude.{
  ◌≡◌, refl, [], ◌∷◌, ℤ, some, Text, codes, pos, negsuc, nat_eq, text_eq, ok, throws, out_of_range,
  arith,
}
use verteilte_systeme_bbps.Std.Decimal.{to_string}
use verteilte_systeme_bbps.Protocol.Identifiers.{
  Statuscode, parameter_eq, int_of_command, int_of_statuscode, communication_parameter_to_string,
}
use verteilte_systeme_bbps.Protocol.Command
use verteilte_systeme_bbps.Protocol.Response.{response_dictionary}
use verteilte_systeme_bbps.Protocol.Response.Codec
use verteilte_systeme_bbps.Protocol.Message
use verteilte_systeme_bbps.Server.Memory.{load}
use verteilte_systeme_bbps.Server.State.{Server, connection_eq}
use verteilte_systeme_bbps.Server.Topic.Laws.{endpoints}
use verteilte_systeme_bbps.Server.Directory.{
  view, unsubscribe_first_spec, subscribe_spec, publish_spec,
}
use verteilte_systeme_bbps.Server.Sending.{datagram}
use verteilte_systeme_bbps.Server.Dispatch.{handle_approaching_client}
use verteilte_systeme_bbps.Client.{
  Exchange, Effect, unsubscribe, unsubscribe_command, erase_topic, subscribe_command,
  publish_command,
}
use verteilte_systeme_bbps.Client.Log.{Logged}
use verteilte_systeme_bbps.Client.Messages.{Reception, handle_messages, print_message}
use verteilte_systeme_bbps.Client.Messages.Published.{
  handle_messages-garbage, handle_messages-datagram, handle_messages-negative,
}
use verteilte_systeme_bbps.Conversation.Exchanges.{reported}
use verteilte_systeme_bbps.Conversation.Sessions.{session_spec, main-session}
use verteilte_systeme_bbps.Client.Arguments.{is_topic_argument}
use verteilte_systeme_bbps.Conversation.Programs.{main-publish}
use verteilte_systeme_bbps.Client.Program.{Opening, main}
use verteilte_systeme_bbps.Conversation.Unsubscribing.{unsubscribe-handle_approaching_client}
use verteilte_systeme_bbps.Tests.Documents.{trees, trees-IsLawful, Tree, written}
use verteilte_systeme_bbps.Tests.States.{anna, bert-known, two_topics, two_topics-Invariant}

-- What the client sends, and the answer.
abbrev subscribe_request : Text
subscribe_request = written (
    Tree.assigned (Tree.assigned Tree.null (codes "command") (Tree.int (pos 0))) (codes "arguments")
      (Tree.assigned (Tree.assigned Tree.null (codes "topicName") (Tree.text (codes "news")))
        (codes "clientPort") (Tree.text (codes "4003"))))

abbrev success_answer : Text
success_answer = written (Tree.assigned Tree.null (codes "statusCode") (Tree.int (pos 0)))

abbrev publish_request : Text
publish_request = written (
    Tree.assigned (Tree.assigned Tree.null (codes "command") (Tree.int (pos 2))) (codes "arguments")
      (Tree.assigned (Tree.assigned Tree.null (codes "topicName") (Tree.text (codes "news")))
        (codes "message") (Tree.text (codes "bye"))))

abbrev carl_leaves : Text
carl_leaves = written (
    Tree.assigned (Tree.assigned Tree.null (codes "command") (Tree.int (pos 1))) (codes "arguments")
      (Tree.assigned (Tree.assigned Tree.null (codes "topicName") (Tree.text (codes "news")))
        (codes "clientPort") (Tree.text (codes "4003"))))

-- The server's answer, as the client receives it.
abbrev success_received : Exchange
success_received = Exchange.received success_answer (codes "10.0.0.9") 8080

abbrev success_logged : Text → Effect
success_logged request = record {
  sent = some request;
  logged = some (reported (codes "10.0.0.9") (codes "8080") Statuscode.success);
}

main-session_example :
    (s₁ s₂ : Server) × (handle_approaching_client trees 7 8
        (codes "10.0.0.3")
        subscribe_request
        two_topics
      ≡ ok (some success_answer, s₁))
    × (handle_approaching_client trees 9 10 (codes "10.0.0.3") carl_leaves s₁
        ≡ ok (some success_answer, s₂))
    × (view s₂
        ≡ (session_spec 7
            (record { address = codes "10.0.0.3"; port = pos 4003 })
            (codes "news")
            (view two_topics)).2)
    × (main trees
          (λ z. some (to_string z))
          (λ _. success_received)
          (Opening.bound 4003)
          (Reception.nothing ∷ [])
          (codes "--subscribe" ∷ codes "news" ∷ [])
        ≡ ok (
            some (record {
              exit_code = 0;
              effects = success_logged subscribe_request ∷ success_logged carl_leaves ∷ [];
              messages = [];
            })))
unfolding handle_messages subscribe_spec unsubscribe_first_spec to_string text_eq connection_eq
    endpoints load nat_eq Command.serialize Codec.serialize subscribe_command unsubscribe_command
    is_topic_argument int_of_command communication_parameter_to_string int_of_statuscode
    response_dictionary parameter_eq
main-session_example =
    main-session trees trees-IsLawful (λ z. some (to_string z)) 7 8 (codes "10.0.0.3") two_topics
      two_topics-Invariant (codes "news") (λ e. cc) tt refl (codes "10.0.0.9") 8080 4003
      (λ _. success_received) 1 1 _ _ success_answer success_answer 9 10 (Reception.nothing ∷ []) []
      refl (omega arith) (omega arith) (omega arith) (omega arith) (omega arith) refl refl refl refl
      refl refl

main-publish_example :
    (s' : Server) × (handle_approaching_client trees 7 8
        (codes "10.0.0.3")
        publish_request
        two_topics
      ≡ ok (some success_answer, s'))
    × (view s' ≡ (publish_spec 7 (codes "bye") (codes "news") (view two_topics)).1)
    × (main trees
          (λ z. some (to_string z))
          (λ _. success_received)
          (Opening.bound 4003)
          (Reception.nothing ∷ [])
          (codes "--publish" ∷ codes "news" ∷ codes "bye" ∷ [])
        ≡ ok (
            some (record {
              exit_code = 0;
              effects = success_logged publish_request ∷ [];
              messages = [];
            })))
unfolding handle_messages publish_spec to_string text_eq endpoints load nat_eq Command.serialize
    Codec.serialize publish_command int_of_command communication_parameter_to_string
    int_of_statuscode response_dictionary parameter_eq
main-publish_example =
    main-publish trees trees-IsLawful (λ z. some (to_string z)) 7 8 (codes "10.0.0.3") two_topics
      two_topics-Invariant (codes "news") (codes "bye") (λ e. cc) tt (λ e. cc) tt 4003
      (codes "10.0.0.9") 8080 1 _ success_answer (λ _. success_received) (Reception.nothing ∷ []) []
      refl (omega arith) (omega arith) refl refl refl

abbrev unsubscribe_request : Text
unsubscribe_request = written (
    Tree.assigned (Tree.assigned Tree.null (codes "command") (Tree.int (pos 1))) (codes "arguments")
      (Tree.assigned (Tree.assigned Tree.null (codes "topicName") (Tree.text (codes "news")))
        (codes "clientPort") (Tree.text (codes "4002"))))

unsubscribed_together :
    (s' : Server) × (handle_approaching_client trees 7 8
        (codes "10.0.0.2")
        unsubscribe_request
        two_topics
      ≡ ok (some success_answer, s'))
    × (view s' ≡ (unsubscribe_first_spec (codes "news") (view two_topics)).1)
    × (unsubscribe trees
          (λ z. some (to_string z))
          (Exchange.received success_answer (codes "10.0.0.9") 8080)
          (codes "news")
          (record { port = pos 4002; subscribed_topics = codes "news" ∷ codes "weather" ∷ [] })
        ≡ ok (
          record {
            sent = some unsubscribe_request;
            logged = some (reported (codes "10.0.0.9") (codes "8080") Statuscode.success);
          },
          record { port = pos 4002; subscribed_topics = codes "weather" ∷ [] },
        ))
unfolding unsubscribe_first_spec to_string text_eq endpoints load nat_eq Command.serialize
    Codec.serialize unsubscribe_command erase_topic int_of_command communication_parameter_to_string
    int_of_statuscode response_dictionary parameter_eq
unsubscribed_together =
    unsubscribe-handle_approaching_client trees trees-IsLawful (λ z. some (to_string z)) 7 8
      (codes "10.0.0.2") two_topics two_topics-Invariant (codes "news") (λ e. cc) tt
      (codes "10.0.0.9") 8080 1 _ success_answer (omega arith) (omega arith) 4002
      (codes "news" ∷ codes "weather" ∷ []) 3 (omega arith) bert-known refl refl

-- The datagram of the news at a time, with what comes behind it.
abbrev news_at : ℤ → Text
news_at z = (datagram trees 1024 anna (codes "news") (codes "hi") z).content

handle_messages-datagram_example :
    handle_messages trees
      (λ z. some (to_string z))
      (Reception.datagram (news_at (pos 5)) ∷ Reception.nothing ∷ [])
    ≡ ok (Logged.info (codes "Topic: news | Message-Timestamp: 5 | Message: hi") ∷ [])
unfolding handle_messages print_message to_string datagram Message.serialize
handle_messages-datagram_example =
    handle_messages-datagram trees trees-IsLawful (λ z. some (to_string z)) 1024 anna (codes "news")
      (codes "hi") 5 tt tt (omega arith) (codes "5") (Reception.nothing ∷ []) refl (omega arith)
      (omega arith)

handle_messages-negative_example :
    handle_messages trees (λ z. some (to_string z)) (Reception.datagram (news_at (negsuc 0)) ∷ [])
    ≡ throws out_of_range
unfolding datagram Message.serialize
handle_messages-negative_example =
    handle_messages-negative trees trees-IsLawful (λ z. some (to_string z)) 1024 anna (codes "news")
      (codes "hi") 0 tt tt (omega arith) [] (omega arith)

garbage_logged :
    handle_messages trees (λ z. some (to_string z)) (Reception.datagram (8 ∷ []) ∷ [])
    ≡ ok (Logged.error (codes "Failed to parse message JSON") ∷ [])
unfolding handle_messages
garbage_logged =
    handle_messages-garbage trees (λ z. some (to_string z)) (8 ∷ []) [] ((λ e. omega arith), tt)
      (omega arith) refl

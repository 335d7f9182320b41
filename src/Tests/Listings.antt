-- ===== src/Tests/Listings.antt =====
-- Clients that ask for the topics and for a topic, and the server's answer, at concrete inputs.
use verteilte_systeme_bbps.Prelude.{
  ◌≡◌, refl, [], ◌∷◌, ◌++◌, some, Text, codes, pos, nat_eq, text_eq, ok, arith,
}
use verteilte_systeme_bbps.Std.Decimal.{to_string}
use verteilte_systeme_bbps.Protocol.Identifiers.{
  parameter_eq, int_of_command, int_of_statuscode, communication_parameter_to_string,
}
use verteilte_systeme_bbps.Protocol.ArrayStrings.RoundTrip.{IsElement}
use verteilte_systeme_bbps.Protocol.Command.{new_command}
use verteilte_systeme_bbps.Protocol.Command
use verteilte_systeme_bbps.Protocol.Response.{
  response_dictionary, vector_to_array_string, join_elements,
}
use verteilte_systeme_bbps.Protocol.Response.Codec
use verteilte_systeme_bbps.Server.Directory.Service.{list_spec, status_spec}
use verteilte_systeme_bbps.Server.Requests.{endpoint_string, topic_status_response}
use verteilte_systeme_bbps.Server.Topic.Laws.{endpoints}
use verteilte_systeme_bbps.Server.Memory.{load}
use verteilte_systeme_bbps.Client.Arguments.{is_topic_argument}
use verteilte_systeme_bbps.Conversation.Asking.{main-get_topic_status}
use verteilte_systeme_bbps.Server.Dispatch.{handle_approaching_client}
use verteilte_systeme_bbps.Client.{Exchange, status_command}
use verteilte_systeme_bbps.Client.Log.{Logged, status_text}
use verteilte_systeme_bbps.Client.Messages.{Reception, handle_messages}
use verteilte_systeme_bbps.Client.Program.{Opening, main}
use verteilte_systeme_bbps.Conversation.Listing.{main-list_topics}
use verteilte_systeme_bbps.Tests.Documents.{trees, trees-IsLawful, Tree, written}
use verteilte_systeme_bbps.Tests.States.{two_topics, two_topics-Invariant}

abbrev news-IsElement : IsElement (codes "news")
news-IsElement = record {
  no_comma = omega arith;
  head = b'n';
  behind = codes "ews";
  begins = refl;
  head_visible = λ e. omega arith;
  before = codes "new";
  last = b's';
  ends = refl;
  last_visible = λ e. omega arith;
}

abbrev weather-IsElement : IsElement (codes "weather")
weather-IsElement = record {
  no_comma = omega arith;
  head = b'w';
  behind = codes "eather";
  begins = refl;
  head_visible = λ e. omega arith;
  before = codes "weathe";
  last = b'r';
  ends = refl;
  last_visible = λ e. omega arith;
}

abbrev list_request : Text
list_request = written (
    Tree.assigned (Tree.assigned Tree.null (codes "command") (Tree.int (pos 3))) (codes "arguments")
      Tree.null)

abbrev list_answer : Text
list_answer = written (
    Tree.assigned (Tree.assigned Tree.null (codes "statusCode") (Tree.int (pos 0))) (codes "topics")
      (Tree.text (codes "[news,weather]")))

main-list_topics_example :
    (handle_approaching_client trees 7 8 (codes "10.0.0.3") list_request two_topics
      ≡ ok (some list_answer, two_topics))
    × (main trees
          (λ z. some (to_string z))
          (λ _. Exchange.received list_answer (codes "10.0.0.9") 8080)
          (Opening.bound 4003)
          (Reception.nothing ∷ [])
          (codes "--list-topics" ∷ [])
        ≡ ok (
            some (record {
              exit_code = 0;
              effects =
                  record {
                    sent = some list_request;
                    logged = some (
                        Logged.info (
                          codes
                            "Received response from: 10.0.0.9:8080\nStatus: Success\nTopics: news, weather"));
                  }
                  ∷ [];
              messages = [];
            })))
unfolding handle_messages status_text list_spec vector_to_array_string join_elements to_string
    text_eq nat_eq Command.serialize Codec.serialize new_command int_of_command
    communication_parameter_to_string int_of_statuscode response_dictionary parameter_eq
main-list_topics_example =
    main-list_topics trees trees-IsLawful (λ z. some (to_string z)) 7 8 (codes "10.0.0.3")
      two_topics two_topics-Invariant (news-IsElement, (weather-IsElement, tt)) tt 4003
      (codes "10.0.0.9") 8080 1 _ list_answer
      (λ _. Exchange.received list_answer (codes "10.0.0.9") 8080) (Reception.nothing ∷ []) [] refl
      (omega arith) (omega arith) refl refl refl

abbrev anna-IsElement : IsElement (codes "10.0.0.1:4001")
anna-IsElement = record {
  no_comma = omega arith;
  head = b'1';
  behind = codes "0.0.0.1:4001";
  begins = refl;
  head_visible = λ e. omega arith;
  before = codes "10.0.0.1:400";
  last = b'1';
  ends = refl;
  last_visible = λ e. omega arith;
}

abbrev bert-IsElement : IsElement (codes "10.0.0.2:4002")
bert-IsElement = record {
  no_comma = omega arith;
  head = b'1';
  behind = codes "0.0.0.2:4002";
  begins = refl;
  head_visible = λ e. omega arith;
  before = codes "10.0.0.2:400";
  last = b'2';
  ends = refl;
  last_visible = λ e. omega arith;
}

abbrev status_request : Text
status_request = written (
    Tree.assigned (Tree.assigned Tree.null (codes "command") (Tree.int (pos 4))) (codes "arguments")
      (Tree.assigned Tree.null (codes "topicName") (Tree.text (codes "news"))))

abbrev status_answer : Text
status_answer = written (
    Tree.assigned
      (Tree.assigned (Tree.assigned Tree.null (codes "statusCode") (Tree.int (pos 0)))
        (codes "messageTimestamp") (Tree.text (codes "5")))
      (codes "subscribers") (Tree.text (codes "[10.0.0.1:4001,10.0.0.2:4002]")))

main-get_topic_status_example :
    (handle_approaching_client trees 7 8 (codes "10.0.0.3") status_request two_topics
      ≡ ok (some status_answer, two_topics))
    × (main trees
          (λ z. some (to_string z))
          (λ _. Exchange.received status_answer (codes "10.0.0.9") 8080)
          (Opening.bound 4003)
          (Reception.nothing ∷ [])
          (codes "--get-topic-status" ∷ codes "news" ∷ [])
        ≡ ok (
            some (record {
              exit_code = 0;
              effects =
                  record {
                    sent = some status_request;
                    logged = some (
                        Logged.info (
                          codes "Received response from: 10.0.0.9:8080\nStatus: Success"
                          ++ codes
                              "\nMessage-Timestamp: 5\nSubscribers: 10.0.0.1:4001, 10.0.0.2:4002"));
                  }
                  ∷ [];
              messages = [];
            })))
unfolding handle_messages status_text status_spec endpoints load vector_to_array_string
    join_elements endpoint_string topic_status_response is_topic_argument to_string text_eq nat_eq
    Command.serialize Codec.serialize status_command int_of_command
    communication_parameter_to_string int_of_statuscode response_dictionary parameter_eq
main-get_topic_status_example =
    main-get_topic_status trees trees-IsLawful (λ z. some (to_string z)) 7 8 (codes "10.0.0.3")
      two_topics two_topics-Invariant (codes "news") (λ e. cc) tt refl _ 5 (codes "5") 4003
      (codes "10.0.0.9") 8080 1 _ status_answer
      (λ _. Exchange.received status_answer (codes "10.0.0.9") 8080) (Reception.nothing ∷ []) []
      refl refl refl (omega arith) refl (omega arith) (anna-IsElement, (bert-IsElement, tt))
      (((λ e. ground arith), tt), (tt, tt)) tt (omega arith) (omega arith) refl refl refl

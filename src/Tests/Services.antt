-- ===== src/Tests/Services.antt =====
-- Requests against the directory's service, in two orders, and from one client to the other, at
-- concrete inputs.
use verteilte_systeme_bbps.Prelude.{
  ◌≡◌, refl, [], ◌∷◌, ◌++◌, Text, codes, pos, nat_eq, text_eq, some, ok, arith, true,
}
use mathlib.Core.List.{Perm}
use verteilte_systeme_bbps.Std.Decimal.{to_string, stoi}
use verteilte_systeme_bbps.Protocol.Identifiers.{
  CommandIdentifiers, Statuscode, parameter_eq, int_of_command, int_of_statuscode,
  communication_parameter_to_string,
}
use verteilte_systeme_bbps.Protocol.Command.{get_command_argument}
use verteilte_systeme_bbps.Protocol.Command
use verteilte_systeme_bbps.Protocol.Message
use verteilte_systeme_bbps.Protocol.Response.{Response, response_dictionary}
use verteilte_systeme_bbps.Protocol.Response.Codec
use verteilte_systeme_bbps.Server.Memory.{Ptr, load}
use verteilte_systeme_bbps.Server.State.{Server, Topic, ClientConnection, connection_eq}
use verteilte_systeme_bbps.Server.Topic.Laws.{endpoints}
use verteilte_systeme_bbps.Server.Invariant.Subscribing.{respond}
use verteilte_systeme_bbps.Server.Directory.{view, subscribe_spec}
use verteilte_systeme_bbps.Server.Directory.Service.{answer_spec}
use verteilte_systeme_bbps.Server.Directory.Service.Answering.{answer-answer_spec}
use verteilte_systeme_bbps.Server.Directory.Changes.{Change}
use verteilte_systeme_bbps.Server.Directory.Changes.Requests.{topics_of, answer_comm}
use verteilte_systeme_bbps.Server.Sending.{Datagram, Network, datagram}
use verteilte_systeme_bbps.Server.Heartbeat.{check_topic_timeouts}
use verteilte_systeme_bbps.Server.Heartbeat.Delivery.{Within}
use verteilte_systeme_bbps.Server.Dispatch.{answer, handle_approaching_client}
use verteilte_systeme_bbps.Server.Threads.{new_server}
use verteilte_systeme_bbps.Server.Threads.Safety.{new_server-Invariant}
use verteilte_systeme_bbps.Server.Schedule.{Arrival}
use verteilte_systeme_bbps.Server.Program.{Listener}
use verteilte_systeme_bbps.Server.Program.Served.{accepted, Serves}
use verteilte_systeme_bbps.Server.Program.Served.Progress.{ended, main-serve}
use verteilte_systeme_bbps.Client.{subscribe_command, publish_command}
use verteilte_systeme_bbps.Client.Log.{Logged}
use verteilte_systeme_bbps.Client.Messages.{Reception, handle_messages}
use verteilte_systeme_bbps.Conversation.Delivery.{subscribe-publish-handle_messages}
use verteilte_systeme_bbps.Tests.Documents.{trees, trees-IsLawful, Tree, written}
use verteilte_systeme_bbps.Tests.States.{two_topics, two_topics-Invariant}
use verteilte_systeme_bbps.Tests.Runs.{
  quiet_network, request_of_carl, with_carl, carl-subscribes, with_news,
}
use verteilte_systeme_bbps.Tests.Programs.{carls_events, carls_end, carls_answers, main-runs}

answer-answer_spec_example :
    answer_spec trees 7 (codes "10.0.0.3") request_of_carl []
    ≡ ok (respond CommandIdentifiers.subscribe Statuscode.success, view with_carl)
unfolding new_server
answer-answer_spec_example =
    answer-answer_spec (new_server (pos 30)) (new_server-Invariant (pos 30)) trees 7 8
      (codes "10.0.0.3") request_of_carl (respond CommandIdentifiers.subscribe Statuscode.success)
      with_carl carl-subscribes

main-serve_example :
    Perm (ended carls_answers ++ []) (accepted true carls_events)
    × Serves trees carls_answers [] (view (with_news 70))
main-serve_example = main-serve trees 1024 6 [] Listener.listening carls_events carls_end main-runs

-- Dora's request to subscribe to the weather.
abbrev request_of_dora : Text
request_of_dora = written (
    Tree.assigned (Tree.assigned Tree.null (codes "command") (Tree.int (pos 0))) (codes "arguments")
      (Tree.assigned (Tree.assigned Tree.null (codes "topicName") (Tree.text (codes "weather")))
        (codes "clientPort") (Tree.text (codes "4004"))))

abbrev carl : ClientConnection
carl = record { address = codes "10.0.0.3"; port = pos 4003 }

abbrev dora : ClientConnection
dora = record { address = codes "10.0.0.4"; port = pos 4004 }

abbrev carl_comes : Arrival
carl_comes = record {
  now = 7;
  later = 8;
  ip_address = codes "10.0.0.3";
  received = request_of_carl;
}

abbrev dora_comes : Arrival
dora_comes = record {
  now = 7;
  later = 8;
  ip_address = codes "10.0.0.4";
  received = request_of_dora;
}

-- A topic that came into being at 7 with that one subscriber.
abbrev fresh : Text → Ptr → Topic
fresh name p = record {
  message = [];
  topic_name = name;
  message_timestamp = pos 7;
  subscriber_list = p ∷ [];
  timeout_timestamp = pos 8;
}

abbrev with_dora : Server
with_dora = record {
  topic_timeout = pos 30;
  topics = (1, fresh (codes "weather") 2) ∷ [];
  client_connections = (2, dora) ∷ [];
  next = 3;
}

abbrev carl_then_dora : Server
carl_then_dora = record {
  topic_timeout = pos 30;
  topics = (1, fresh (codes "news") 2) ∷ (3, fresh (codes "weather") 4) ∷ [];
  client_connections = (2, carl) ∷ (4, dora) ∷ [];
  next = 5;
}

abbrev dora_then_carl : Server
dora_then_carl = record {
  topic_timeout = pos 30;
  topics = (1, fresh (codes "weather") 2) ∷ (3, fresh (codes "news") 4) ∷ [];
  client_connections = (2, dora) ∷ (4, carl) ∷ [];
  next = 5;
}

abbrev success : Response
success = respond CommandIdentifiers.subscribe Statuscode.success

answer_comm_example :
    (success ≡ success)
    × (success ≡ success)
    × (topics_of carl_then_dora ≡ topics_of dora_then_carl)
unfolding answer Command.deserialize nat_eq text_eq parameter_eq load new_server stoi
    get_command_argument connection_eq
answer_comm_example =
    answer_comm trees (new_server (pos 30)) (new_server-Invariant (pos 30)) carl_comes dora_comes
      (Change.subscribe 7 carl (codes "news")) (Change.subscribe 7 dora (codes "weather"))
      (_, refl, (refl, refl, refl, refl, refl)) (_, refl, (refl, refl, refl, refl, refl)) (λ e. cc)
      (success, with_carl) (success, carl_then_dora) refl refl (success, with_dora)
      (success, dora_then_carl) refl refl

-- Dora subscribes to the news, of which somebody else publishes, and reads them.
abbrev dora_subscribes : Text
dora_subscribes = written (
    Tree.assigned (Tree.assigned Tree.null (codes "command") (Tree.int (pos 0))) (codes "arguments")
      (Tree.assigned (Tree.assigned Tree.null (codes "topicName") (Tree.text (codes "news")))
        (codes "clientPort") (Tree.text (codes "4004"))))

abbrev publish_request : Text
publish_request = written (
    Tree.assigned (Tree.assigned Tree.null (codes "command") (Tree.int (pos 2))) (codes "arguments")
      (Tree.assigned (Tree.assigned Tree.null (codes "topicName") (Tree.text (codes "news")))
        (codes "message") (Tree.text (codes "bye"))))

abbrev success_answer : Text
success_answer = written (Tree.assigned Tree.null (codes "statusCode") (Tree.int (pos 0)))

abbrev news_to_dora : Datagram
news_to_dora = datagram trees 1024 dora (codes "news") (codes "bye") (pos 20)

subscribe-publish-handle_messages_example :
    (s1 : Server) × (s2 : Server) × (s3 : Server) × (n' : Network) × (handle_approaching_client
        trees 7 8
        (codes "10.0.0.4")
        dora_subscribes
        two_topics
      ≡ ok (some success_answer, s1))
    × (handle_approaching_client trees 20 21 (codes "10.0.0.9") publish_request s1
        ≡ ok (some success_answer, s2))
    × (check_topic_timeouts trees 1024 (λ _. 40) s2 quiet_network ≡ ok (s3, n'))
    × Within (news_to_dora ∷ []) n'.sent
    × (news_to_dora.address ≡ codes "10.0.0.4")
    × (news_to_dora.port ≡ 4004)
    × (handle_messages trees
          (λ z. some (to_string z))
          (Reception.datagram news_to_dora.content ∷ [])
        ≡ ok (Logged.info (codes "Topic: news | Message-Timestamp: 20 | Message: bye") ∷ []))
unfolding subscribe_spec to_string text_eq connection_eq endpoints load nat_eq Command.serialize
    Codec.serialize subscribe_command publish_command int_of_command
    communication_parameter_to_string int_of_statuscode response_dictionary parameter_eq datagram
    Message.serialize
subscribe-publish-handle_messages_example =
    subscribe-publish-handle_messages trees trees-IsLawful (λ z. some (to_string z)) two_topics
      two_topics-Invariant (codes "news") (codes "bye") (λ e. cc) tt (λ e. cc) tt 7 8
      (codes "10.0.0.4") 4004 1 _ success_answer (omega arith) (omega arith) (omega arith) refl refl
      20 21 (codes "10.0.0.9") 1 _ success_answer (omega arith) (omega arith) (omega arith) refl
      refl 1024 40 quiet_network news_to_dora (omega arith) (omega arith) (omega arith) refl
      (omega arith) (codes "20") refl (omega arith)

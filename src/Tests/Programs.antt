-- ===== src/Tests/Programs.antt =====
-- Runs of the server's program, at concrete inputs.
use verteilte_systeme_bbps.Prelude.{
  Option, Text, some, ◌≤◌, ◌≡◌, ◌+ℤ◌, true, refl, List, [], ◌∷◌, ◌++◌, length, codes, pos, nat_eq,
  text_eq, ok, arith,
}
use verteilte_systeme_bbps.Protocol.Identifiers.{
  CommandIdentifiers, Statuscode, int_of_statuscode, parameter_eq,
}
use verteilte_systeme_bbps.Protocol.Command
use verteilte_systeme_bbps.Server.Memory.{load}
use verteilte_systeme_bbps.Server.State.{Server}
use verteilte_systeme_bbps.Server.Topic.Laws.{endpoints}
use verteilte_systeme_bbps.Server.Invariant.{Invariant}
use verteilte_systeme_bbps.Server.Sending.{Network, datagram}
use verteilte_systeme_bbps.Server.Heartbeat.{check_topic_timeouts}
use verteilte_systeme_bbps.Server.Heartbeat.Rounds.{rounds, repeated, run_turns-rounds}
use verteilte_systeme_bbps.Server.Heartbeat.Repeating.{check_topic_timeouts-again}
use verteilte_systeme_bbps.Server.Dispatch.{answer, handle_approaching_client}
use verteilte_systeme_bbps.Server.Threads.{System, new_server}
use verteilte_systeme_bbps.Server.Schedule.{Arrival, run_turn, run_turns}
use verteilte_systeme_bbps.Protocol.Response.Codec
use verteilte_systeme_bbps.Protocol.Response.{response_dictionary}
use verteilte_systeme_bbps.Server.CommandLine.{Options, Parsed, parse}
use verteilte_systeme_bbps.Server.CommandLine.Settings.{IsPort}
use verteilte_systeme_bbps.Server.Program.{
  Listener, Event, Running, Status, start, main, handle_event, handle_events, take_thread,
}
use verteilte_systeme_bbps.Server.Program.Life.{main-Invariant, main_not_listening}
use verteilte_systeme_bbps.Server.Heartbeat.Delivery.{
  Within, check_topic_timeouts-handle_publish_request,
}
use verteilte_systeme_bbps.Server.Requests.{handle_publish_request}
use verteilte_systeme_bbps.Server.Invariant.Subscribing.{respond}
use verteilte_systeme_bbps.Tests.States.{bert, news, weather, two_topics, two_topics-Invariant}
use verteilte_systeme_bbps.Tests.Documents.{trees, Tree, written}
use verteilte_systeme_bbps.Tests.Runs.{
  quiet_network, request_of_carl, news_by_carl, with_news, with_news-Invariant, news_sent,
  after_round,
}

abbrev carls_success : Text
carls_success = written (Tree.assigned Tree.null (codes "statusCode") (Tree.int (pos 0)))

-- The connections that were answered, with the answers.
abbrev pub carls_answers : List (Arrival × Option Text)
carls_answers =
    (
      record { now = 7; later = 8; ip_address = codes "10.0.0.3"; received = request_of_carl },
      some carls_success,
    )
    ∷ (
      record { now = 20; later = 21; ip_address = codes "10.0.0.3"; received = news_by_carl },
      some carls_success,
    )
    ∷ []

abbrev pub carls_end : Running
carls_end = record {
  accepting = true;
  threads = [];
  finished = carls_answers;
  system = after_round;
}

-- Carl subscribes and publishes while another connection fails, and a round follows.
abbrev pub carls_events : List Event
carls_events =
    Event.accept_connection
      (record { now = 20; later = 21; ip_address = codes "10.0.0.3"; received = news_by_carl })
    ∷ Event.accept_failure
    ∷ Event.accept_connection
        (record { now = 7; later = 8; ip_address = codes "10.0.0.3"; received = request_of_carl })
    ∷ Event.thread_turn 1
    ∷ Event.thread_turn 0
    ∷ Event.heartbeat_turn (λ _. 40)
    ∷ []

pub main-runs : main trees 1024 6 [] Listener.listening carls_events ≡ ok (Status.running carls_end)
unfolding main parse handle_events handle_event take_thread run_turn start new_server
    handle_approaching_client answer Codec.serialize int_of_statuscode response_dictionary
    Command.deserialize check_topic_timeouts nat_eq text_eq parameter_eq load ◌+ℤ◌
main-runs = refl

main-Invariant_example :
    (o : Options) × (parse [] ≡ ok (Parsed.start o))
    × IsPort o.port
    × Invariant (with_news 70)
    × (length news_sent.sent ≤ 1024)
main-Invariant_example =
    main-Invariant trees 1024 6 [] Listener.listening carls_events carls_end (omega arith) main-runs

main_not_listening_example :
    main trees 1024 6 [] Listener.not_bound carls_events
    ≡ ok (
        Status.running
          (start 6 (record { port = pos 8080; topic_timeout = pos 30 }) Listener.not_bound))
unfolding parse
main_not_listening_example =
    main_not_listening trees 1024 6 [] (record { port = pos 8080; topic_timeout = pos 30 })
      Listener.not_bound carls_events refl (λ e. cc)

-- Rain is published for the weather, of which Bert is the subscriber, and sent with the news.
abbrev with_rain : Server
with_rain = record two_topics {
  topics =
      (1, news)
      ∷ (
        4,
        record weather {
          message = codes "rain";
          message_timestamp = pos 20;
          timeout_timestamp = pos 21;
        },
      )
      ∷ [];
}

rain-published :
    handle_publish_request 20 21 (codes "weather") (codes "rain") two_topics
    ≡ ok (respond CommandIdentifiers.publish Statuscode.success, with_rain)
unfolding handle_publish_request text_eq nat_eq load
rain-published = refl

check_topic_timeouts-handle_publish_request_example :
    (s2 : Server) × (n2 : Network) × (check_topic_timeouts trees 1024
        (λ _. 40)
        with_rain
        quiet_network
      ≡ ok (s2, n2))
    × Within (datagram trees 1024 bert (codes "weather") (codes "rain") (pos 20) ∷ []) n2.sent
unfolding endpoints nat_eq text_eq load
check_topic_timeouts-handle_publish_request_example =
    check_topic_timeouts-handle_publish_request trees 1024 20 21 40 (codes "weather") (codes "rain")
      two_topics two_topics-Invariant
      (record {
        name = codes "weather";
        message = [];
        message_timestamp = pos 6;
        subscribers = bert ∷ [];
      })
      (respond CommandIdentifiers.publish Statuscode.success) with_rain quiet_network refl (λ e. cc)
      rain-published (omega arith) (omega arith) (omega arith)

-- The news go out again half a minute later.
news_again :
    (s1 : Server) × (n1 : Network) × (s2 : Server) × (n2 : Network) × (check_topic_timeouts trees
        1024
        (λ _. 40)
        (with_news 70)
        quiet_network
      ≡ ok (s1, n1))
    × (check_topic_timeouts trees 1024 (λ _. 71) s1 n1 ≡ ok (s2, n2))
    × (n2.sent ≡ n1.sent ++ news_sent.sent)
unfolding nat_eq load ◌+ℤ◌ text_eq endpoints
news_again =
    check_topic_timeouts-again trees 1024 40 (with_news 70) quiet_network with_news-Invariant 71
      (omega arith) (omega arith, tt) (omega arith) (omega arith)

-- The news go out three times.
run_turns-rounds_example :
    (b : System) × (run_turns trees 1024
        (rounds (71 ∷ 101 ∷ 140 ∷ []))
        (record { server = with_news 70; network = quiet_network })
      ≡ ok b)
    × (b.network.sent ≡ repeated 3 news_sent.sent)
unfolding nat_eq load ◌+ℤ◌ text_eq endpoints
run_turns-rounds_example =
    run_turns-rounds trees 1024 (71 ∷ 101 ∷ 140 ∷ [])
      (record { server = with_news 70; network = quiet_network }) with_news-Invariant (omega arith)
      (omega arith, (omega arith, tt)) (omega arith, tt) (omega arith)

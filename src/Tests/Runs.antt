-- ===== src/Tests/Runs.antt =====
-- The heartbeat, requests as text, and a run of the server, at concrete inputs.
use verteilte_systeme_bbps.Prelude.{
  ℕ, ◌+◌, ◌+ℤ◌, ◌≤◌, ◌≡◌, refl, [], ◌∷◌, length, Text, codes, pos, arith, text_eq, int_eq, nat_eq,
  map, ok, undefined,
}
use verteilte_systeme_bbps.Std.Decimal.{to_string}
use verteilte_systeme_bbps.Protocol.Identifiers.{CommandIdentifiers, Statuscode, parameter_eq}
use verteilte_systeme_bbps.Protocol.Response.{empty_response, set_status_code}
use verteilte_systeme_bbps.Protocol.Command.{Command}
use verteilte_systeme_bbps.Protocol.Command
use verteilte_systeme_bbps.Protocol.Command.RoundTrip.{filled, IsFilled, deserialize-serialize}
use verteilte_systeme_bbps.Server.State.{connection_eq, Server}
use verteilte_systeme_bbps.Server.Memory.{load}
use verteilte_systeme_bbps.Server.Topic.Laws.{endpoints}
use verteilte_systeme_bbps.Server.Invariant.{Returns, Invariant}
use verteilte_systeme_bbps.Server.Invariant.Subscribing.{respond}
use verteilte_systeme_bbps.Server.Directory.{view, subscribe_spec, publish_spec}
use verteilte_systeme_bbps.Server.Sending.{Network, datagram}
use verteilte_systeme_bbps.Server.Heartbeat.{check_topic_timeouts}
use verteilte_systeme_bbps.Server.Heartbeat.Keeps.{Costs, check_topic_timeouts-Invariant}
use verteilte_systeme_bbps.Server.Heartbeat.Timeliness.{IsQuiet, check_topic_timeouts-heartbeats}
use verteilte_systeme_bbps.Server.Dispatch.{answer, handle_approaching_client}
use verteilte_systeme_bbps.Server.Dispatch.Answers.{
  answer-garbage, handle_approaching_client-unnamed, answer-subscribe, answer-publish,
}
use verteilte_systeme_bbps.Server.Threads.{System, new_server, Step, Reach}
use verteilte_systeme_bbps.Server.Threads.Safety.{Reach-Invariant, Reach-sent}
use verteilte_systeme_bbps.Tests.Documents.{trees, trees-IsLawful, Tree, written}
use verteilte_systeme_bbps.Tests.States.{anna, bert, two_topics, two_topics-Invariant}

abbrev pub quiet_network : Network
quiet_network = record { open_descriptors = 6; sent = [] }

check_topic_timeouts-Invariant_example :
    (s' : Server) × (n' : Network) × (check_topic_timeouts trees 1024
        (λ k. 40 + k)
        two_topics
        quiet_network
      ≡ ok (s', n'))
    × Invariant s'
    × (view s' ≡ view two_topics)
    × Costs 1024 quiet_network n'
check_topic_timeouts-Invariant_example =
    check_topic_timeouts-Invariant trees 1024 (λ k. 40 + k) two_topics quiet_network
      two_topics-Invariant

-- The news go to both clients; the weather has no message yet.
check_topic_timeouts-heartbeats_example :
    (s' : Server) × (n' : Network) × (check_topic_timeouts trees 1024
        (λ _. 40)
        two_topics
        quiet_network
      ≡ ok (s', n'))
    × (n'.sent
        ≡ map (λ c. datagram trees 1024 c (codes "news") (codes "hi") (pos 5)) (anna ∷ bert ∷ []))
    × IsQuiet trees 1024 40 two_topics.client_connections (pos 30) s'.topics
unfolding endpoints load nat_eq text_eq
check_topic_timeouts-heartbeats_example =
    check_topic_timeouts-heartbeats trees 1024 40 two_topics quiet_network two_topics-Invariant
      (omega arith) (omega arith)

deserialize-serialize_example :
    (s : Text) × (Command.serialize trees
        (filled CommandIdentifiers.publish (codes "news" ∷ codes "hi" ∷ []))
      ≡ ok s)
    × (Command.deserialize trees s
        ≡ ok (filled CommandIdentifiers.publish (codes "news" ∷ codes "hi" ∷ [])))
deserialize-serialize_example =
    deserialize-serialize trees trees-IsLawful CommandIdentifiers.publish
      (codes "news" ∷ codes "hi" ∷ []) (IsFilled.publish_filled (codes "news") (codes "hi"))
      (((λ e. cc), tt), (((λ e. cc), tt), tt))

subscribing_answered :
    (received : Text) × (Command.serialize trees
        (filled CommandIdentifiers.subscribe (codes "news" ∷ codes "4003" ∷ []))
      ≡ ok received)
    × Returns
        (λ response s'.
          (response ≡ respond CommandIdentifiers.subscribe Statuscode.success)
          × (view s'
              ≡ (subscribe_spec 7
                  (record { address = codes "10.0.0.3"; port = pos 4003 })
                  (codes "news")
                  (view two_topics)).1))
        (answer trees 7 8 (codes "10.0.0.3") received two_topics)
unfolding subscribe_spec to_string text_eq connection_eq endpoints load nat_eq
subscribing_answered =
    answer-subscribe trees trees-IsLawful 7 8 (codes "10.0.0.3") two_topics two_topics-Invariant
      (codes "news") (λ e. cc) tt 4003 (omega arith)

publishing_answered :
    (received : Text) × (Command.serialize trees
        (filled CommandIdentifiers.publish (codes "news" ∷ codes "bye" ∷ []))
      ≡ ok received)
    × Returns
        (λ response s'.
          (response ≡ respond CommandIdentifiers.publish Statuscode.success)
          × (view s' ≡ (publish_spec 7 (codes "bye") (codes "news") (view two_topics)).1))
        (answer trees 7 8 (codes "10.0.0.3") received two_topics)
unfolding publish_spec text_eq endpoints load nat_eq
publishing_answered =
    answer-publish trees trees-IsLawful 7 8 (codes "10.0.0.3") two_topics two_topics-Invariant
      (codes "news") (λ e. cc) tt (codes "bye") (λ e. cc) tt

garbage_answered :
    answer trees 7 8 (codes "10.0.0.3") (7 ∷ []) two_topics
    ≡ ok (set_status_code Statuscode.internal_error empty_response, two_topics)
garbage_answered = answer-garbage trees 7 8 (codes "10.0.0.3") two_topics (7 ∷ []) refl

-- `{"command": 9, "arguments": null}`
abbrev command_nine : Text
command_nine = written (
    Tree.assigned (Tree.assigned Tree.null (codes "command") (Tree.int (pos 9))) (codes "arguments")
      Tree.null)

handle_approaching_client-unnamed_example :
    handle_approaching_client trees 7 8 (codes "10.0.0.3") command_nine two_topics ≡ undefined
unfolding Command.deserialize text_eq nat_eq
handle_approaching_client-unnamed_example =
    handle_approaching_client-unnamed trees 7 8 (codes "10.0.0.3") two_topics 1 _
      (filled (CommandIdentifiers.unnamed (pos 9)) []) (pos 9) refl refl

-- The bytes of Carl's request to subscribe to the news, and what the server is afterwards.
abbrev pub request_of_carl : Text
request_of_carl = written (
    Tree.assigned (Tree.assigned Tree.null (codes "command") (Tree.int (pos 0))) (codes "arguments")
      (Tree.assigned (Tree.assigned Tree.null (codes "topicName") (Tree.text (codes "news")))
        (codes "clientPort") (Tree.text (codes "4003"))))

abbrev pub with_carl : Server
with_carl = record {
  topic_timeout = pos 30;
  topics =
      (
        1,
        record {
          message = [];
          topic_name = codes "news";
          message_timestamp = pos 7;
          subscriber_list = 2 ∷ [];
          timeout_timestamp = pos 8;
        },
      )
      ∷ [];
  client_connections = (2, record { address = codes "10.0.0.3"; port = pos 4003 }) ∷ [];
  next = 3;
}

pub carl-subscribes :
    answer trees 7 8 (codes "10.0.0.3") request_of_carl (new_server (pos 30))
    ≡ ok (respond CommandIdentifiers.subscribe Statuscode.success, with_carl)
unfolding answer Command.deserialize nat_eq text_eq parameter_eq load new_server
carl-subscribes = refl

abbrev pub news_by_carl : Text
news_by_carl = written (
    Tree.assigned (Tree.assigned Tree.null (codes "command") (Tree.int (pos 2))) (codes "arguments")
      (Tree.assigned (Tree.assigned Tree.null (codes "topicName") (Tree.text (codes "news")))
        (codes "message") (Tree.text (codes "hi"))))

-- With the news of Carl, which are due when it is `due`.
abbrev pub with_news : ℕ → Server
with_news due = record with_carl {
  topics =
      (
        1,
        record {
          message = codes "hi";
          topic_name = codes "news";
          message_timestamp = pos 20;
          subscriber_list = 2 ∷ [];
          timeout_timestamp = pos due;
        },
      )
      ∷ [];
}

carl-publishes :
    answer trees 20 21 (codes "10.0.0.3") news_by_carl with_carl
    ≡ ok (respond CommandIdentifiers.publish Statuscode.success, with_news 21)
unfolding answer Command.deserialize nat_eq text_eq parameter_eq load
carl-publishes = refl

abbrev pub news_sent : Network
news_sent = record {
  open_descriptors = 7;
  sent =
      datagram trees 1024 (record { address = codes "10.0.0.3"; port = pos 4003 }) (codes "news")
        (codes "hi") (pos 20)
      ∷ [];
}

round-sends :
    check_topic_timeouts trees 1024 (λ _. 40) (with_news 21) quiet_network
    ≡ ok (with_news 70, news_sent)
unfolding check_topic_timeouts nat_eq text_eq load ◌+ℤ◌
round-sends = refl

abbrev pub after_round : System
after_round = record { server = with_news 70; network = news_sent }

carls_run : Reach trees 1024 6 (pos 30) after_round
carls_run =
    Reach.then_step
      (Reach.then_step
        (Reach.then_step Reach.start
          (Step.request 7 8 (codes "10.0.0.3") request_of_carl carl-subscribes))
        (Step.request 20 21 (codes "10.0.0.3") news_by_carl carl-publishes))
      (Step.round (λ _. 40) round-sends)

pub with_news-Invariant : Invariant (with_news 70)
with_news-Invariant = Reach-Invariant carls_run

Reach-Invariant_example : Invariant (with_news 70)
Reach-Invariant_example = Reach-Invariant carls_run

Reach-sent_example : length news_sent.sent ≤ 1024
Reach-sent_example = Reach-sent (omega arith) carls_run

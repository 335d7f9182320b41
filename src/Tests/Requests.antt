-- ===== src/Tests/Requests.antt =====
-- The requests of the clients at concrete inputs.
use verteilte_systeme_bbps.Prelude.{
  ◌≡◌, refl, [], ◌∷◌, some, codes, pos, arith, text_eq, int_eq, nat_eq, map, ok, undefined,
}
use verteilte_systeme_bbps.Protocol.Identifiers.{CommandIdentifiers, Statuscode}
use verteilte_systeme_bbps.Server.State.{connection_eq}
use verteilte_systeme_bbps.Server.Memory.{load}
use verteilte_systeme_bbps.Server.Topic.Laws.{endpoints}
use verteilte_systeme_bbps.Server.Requests.{
  handle_subscribe_request, handle_unsubscribe_request, handle_publish_request,
  handle_get_topic_status, topic_status_response, endpoint_string,
}
use verteilte_systeme_bbps.Server.Invariant.{Returns, Invariant}
use verteilte_systeme_bbps.Server.Invariant.Subscribing.{
  respond, handle_subscribe_request-Invariant,
}
use verteilte_systeme_bbps.Server.Invariant.Requests.{
  handle_unsubscribe_request-Invariant, unsubscribe_unknown,
}
use verteilte_systeme_bbps.Server.Directory.{
  TopicView, view, find_view, subscribe_spec, publish_spec, unsubscribe_spec,
  unsubscribe_first_spec,
}
use verteilte_systeme_bbps.Server.Directory.Subscribing.{handle_subscribe_request_refines}
use verteilte_systeme_bbps.Server.Directory.Unsubscribing.{handle_unsubscribe_request_lem}
use verteilte_systeme_bbps.Server.Directory.Publishing.{
  handle_publish_request_refines, handle_get_topic_status-view,
}
use verteilte_systeme_bbps.Server.Directory.Meaning.{
  handle_unsubscribe_request_refines, unsubscribe_drops_another, unsubscribe_stranger,
}
use verteilte_systeme_bbps.Tests.States.{
  anna, bert, two_topics, two_topics-Invariant, anna-known, bert-known, carl-unknown, news-found,
}

abbrev news_view : TopicView
news_view = record {
  name = codes "news";
  message = codes "hi";
  message_timestamp = pos 5;
  subscribers = anna ∷ bert ∷ [];
}

abbrev weather_view : TopicView
weather_view = record {
  name = codes "weather";
  message = [];
  message_timestamp = pos 6;
  subscribers = bert ∷ [];
}

two_topics-view : view two_topics ≡ news_view ∷ weather_view ∷ []
unfolding endpoints load nat_eq
two_topics-view = refl

-- Anna subscribes to the weather.
subscribing_specified :
    Returns
      (λ response s'.
        (response ≡ respond CommandIdentifiers.subscribe Statuscode.success)
        × (view s' ≡ news_view ∷ record weather_view { subscribers = bert ∷ anna ∷ [] } ∷ []))
      (handle_subscribe_request 7 8 (codes "10.0.0.1") (pos 4001) (codes "weather") two_topics)
unfolding subscribe_spec text_eq connection_eq endpoints load nat_eq
subscribing_specified =
    handle_subscribe_request_refines 7 8 (codes "10.0.0.1") (pos 4001) (codes "weather") two_topics
      two_topics-Invariant

carl_subscribes-Invariant :
    Returns
      (λ response s'. Invariant s')
      (handle_subscribe_request 7 8 (codes "10.0.0.3") (pos 4003) (codes "sport") two_topics)
carl_subscribes-Invariant =
    handle_subscribe_request-Invariant 7 8 (codes "10.0.0.3") (pos 4003) (codes "sport") two_topics
      two_topics-Invariant

publishing_specified :
    Returns
      (λ response s'.
        (response ≡ respond CommandIdentifiers.publish Statuscode.success)
        × (view s'
            ≡ news_view
              ∷ record weather_view { message = codes "rain"; message_timestamp = pos 7 }
              ∷ []))
      (handle_publish_request 7 8 (codes "weather") (codes "rain") two_topics)
unfolding publish_spec text_eq endpoints load nat_eq
publishing_specified =
    handle_publish_request_refines two_topics two_topics-Invariant (codes "weather") 7 8
      (codes "rain")

status_answered :
    handle_get_topic_status (codes "news") two_topics
    ≡ ok (topic_status_response (pos 5) (map endpoint_string (anna ∷ bert ∷ [])), two_topics)
unfolding text_eq endpoints load nat_eq
status_answered = handle_get_topic_status-view two_topics two_topics-Invariant (codes "news")

unsubscribed-Invariant :
    Returns
      (λ response s'. Invariant s')
      (handle_unsubscribe_request (codes "10.0.0.2") (pos 4002) (codes "weather") two_topics)
unsubscribed-Invariant =
    handle_unsubscribe_request-Invariant two_topics two_topics-Invariant (codes "weather")
      (codes "10.0.0.2") (pos 4002) 3 bert-known

-- Whoever of the two asks, it is Anna who goes.
bert_unsubscribes_anna :
    Returns
      (λ response s'.
        (response ≡ respond CommandIdentifiers.unsubscribe Statuscode.success)
        × (view s' ≡ record news_view { subscribers = bert ∷ [] } ∷ weather_view ∷ []))
      (handle_unsubscribe_request (codes "10.0.0.2") (pos 4002) (codes "news") two_topics)
unfolding unsubscribe_first_spec text_eq endpoints load nat_eq
bert_unsubscribes_anna =
    handle_unsubscribe_request_lem two_topics two_topics-Invariant (codes "news") (codes "10.0.0.2")
      (pos 4002) 3 bert-known

handle_unsubscribe_request_refines_example :
    Returns
      (λ response s'.
        (response ≡ respond CommandIdentifiers.unsubscribe Statuscode.success)
        × (view s' ≡ record news_view { subscribers = bert ∷ [] } ∷ weather_view ∷ []))
      (handle_unsubscribe_request (codes "10.0.0.1") (pos 4001) (codes "news") two_topics)
unfolding unsubscribe_spec text_eq connection_eq endpoints load nat_eq
handle_unsubscribe_request_refines_example =
    handle_unsubscribe_request_refines two_topics two_topics-Invariant (codes "news")
      (codes "10.0.0.1") (pos 4001) 2 anna-known news_view (bert ∷ []) refl refl

unsubscribe_drops_another_example :
    Returns
      (λ response s'.
        (response ≡ respond CommandIdentifiers.unsubscribe Statuscode.success)
        × (find_view (codes "news") (view s')
            ≡ some (record news_view { subscribers = bert ∷ [] })))
      (handle_unsubscribe_request (codes "10.0.0.2") (pos 4002) (codes "news") two_topics)
unfolding text_eq connection_eq endpoints load nat_eq
unsubscribe_drops_another_example =
    unsubscribe_drops_another two_topics two_topics-Invariant (codes "news") (codes "10.0.0.2")
      (pos 4002) 3 bert-known news_view anna (bert ∷ []) refl refl refl

unsubscribe_stranger_example :
    Returns
      (λ response s'.
        (response ≡ respond CommandIdentifiers.unsubscribe Statuscode.success)
        × ((unsubscribe_spec anna (codes "weather") (view two_topics)).0 ≡ Statuscode.failed))
      (handle_unsubscribe_request (codes "10.0.0.1") (pos 4001) (codes "weather") two_topics)
unfolding text_eq connection_eq endpoints load nat_eq
unsubscribe_stranger_example =
    unsubscribe_stranger two_topics two_topics-Invariant (codes "weather") (codes "10.0.0.1")
      (pos 4001) 2 anna-known weather_view refl refl

unsubscribe_unknown_example :
    handle_unsubscribe_request (codes "10.0.0.3") (pos 4003) (codes "news") two_topics ≡ undefined
unsubscribe_unknown_example =
    unsubscribe_unknown two_topics (codes "10.0.0.3") (pos 4003) (codes "news") 1
      two_topics-Invariant carl-unknown news-found (omega arith)

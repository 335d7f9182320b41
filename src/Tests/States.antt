-- ===== src/Tests/States.antt =====
-- A server with two topics and two clients, and one that has just been started.
use verteilte_systeme_bbps.Prelude.{
  ◌≡◌, refl, [], ◌∷◌, none, some, codes, pos, arith, text_eq, int_eq, nat_eq,
}
use verteilte_systeme_bbps.Server.Memory.{find_ptr, load}
use verteilte_systeme_bbps.Server.State.{ClientConnection, Topic, Server}
use verteilte_systeme_bbps.Server.Requests.{find_topic, find_connection}
use verteilte_systeme_bbps.Server.Invariant.{Invariant}

abbrev pub anna : ClientConnection
anna = record { address = codes "10.0.0.1"; port = pos 4001 }

abbrev pub bert : ClientConnection
bert = record { address = codes "10.0.0.2"; port = pos 4002 }

abbrev pub news : Topic
news = record {
  message = codes "hi";
  topic_name = codes "news";
  message_timestamp = pos 5;
  subscriber_list = 2 ∷ 3 ∷ [];
  timeout_timestamp = pos 5;
}

abbrev pub weather : Topic
weather = record {
  message = [];
  topic_name = codes "weather";
  message_timestamp = pos 6;
  subscriber_list = 3 ∷ [];
  timeout_timestamp = pos 6;
}

abbrev pub two_topics : Server
two_topics = record {
  topic_timeout = pos 30;
  topics = (1, news) ∷ (4, weather) ∷ [];
  client_connections = (2, anna) ∷ (3, bert) ∷ [];
  next = 5;
}

pub two_topics-Invariant : Invariant two_topics
unfolding text_eq int_eq nat_eq load
two_topics-Invariant = record {
  well_formed = record {
    topics_below = (omega arith, (omega arith, tt));
    connections_below = (omega arith, (omega arith, tt));
    topics_distinct = (((λ e. omega arith), tt), (tt, tt));
    connections_distinct = (((λ e. omega arith), tt), (tt, tt));
    names_distinct = (((λ e. ground arith), tt), (tt, tt));
    endpoints_distinct = (((λ e. ground arith), tt), (tt, tt));
    sound = (
      (((anna, refl), ((bert, refl), tt)), (((λ e. omega arith), tt), (tt, tt))),
      ((((bert, refl), tt), (tt, tt)), tt),
    );
  };
  populated = ((λ e. cc), ((λ e. cc), tt));
}

pub anna-known :
    find_connection (codes "10.0.0.1") (pos 4001) two_topics.client_connections ≡ some 2
unfolding find_connection find_ptr text_eq int_eq
anna-known = refl

pub bert-known :
    find_connection (codes "10.0.0.2") (pos 4002) two_topics.client_connections ≡ some 3
unfolding find_connection find_ptr text_eq int_eq
bert-known = refl

pub carl-unknown :
    find_connection (codes "10.0.0.3") (pos 4003) two_topics.client_connections ≡ none
unfolding find_connection find_ptr text_eq int_eq
carl-unknown = refl

pub news-found : find_topic (codes "news") two_topics.topics ≡ some 1
unfolding find_topic find_ptr text_eq
news-found = refl

-- ===== src/Server/Invariant/Unsubscribing.antt =====
-- `handleUnsubscribeRequest`: what it does where the client is known, and where it is not.
use verteilte_systeme_bbps.Prelude.{
  suc, ◌≤◌, ◌≡◌, ◌≢◌, refl, ap, Bool-cases, inl, inr, List, [], ◌∷◌, none, some, Distinct, ok,
  undefined, arith, ◌==◌, text_eq, nat_eq, length,
}
use verteilte_systeme_bbps.Protocol.Identifiers.{CommandIdentifiers, Statuscode}
use verteilte_systeme_bbps.Protocol.Response.{new_response, set_status_code}
use verteilte_systeme_bbps.Server.Memory.{Ptr, Cells, load}
use verteilte_systeme_bbps.Server.Memory.Finding.{addresses}
use verteilte_systeme_bbps.Server.Memory.Releasing.{release-store, length-release}
use verteilte_systeme_bbps.Server.Memory.Storing.{length-store}
use verteilte_systeme_bbps.Server.State.{ClientConnection, connection_eq, Topic, Server}
use verteilte_systeme_bbps.Server.Requests.{is_subscribed_to_other_topic, unsubscribe_pointers}
use verteilte_systeme_bbps.Server.Invariant.{Returns, Invariant}
use verteilte_systeme_bbps.Server.Invariant.Leaving.{
  is_subscribed_to_other_topic_lem, is_subscribed-null, topics_left, topic_unsubscribe_here,
  left-WellFormed, left-Populated, connections_left, connections_left-WellFormed,
}

module _ (s : Server) (v : Invariant s) (topic_ptr first : Ptr) (rest : List Ptr) (t : Topic)
    (at_topic : load s.topics topic_ptr ≡ ok t) (listed : t.subscriber_list ≡ first ∷ rest) where
  abbrev pub after_topic : Server
  after_topic = record s { topics = topics_left topic_ptr t rest s.topics }

  pub unsubscribe_pointers_lem :
      (client_ptr : Ptr) (c : ClientConnection)
      → load s.client_connections client_ptr ≡ ok c
      → unsubscribe_pointers topic_ptr (some client_ptr) s
        ≡ ok (
          set_status_code Statuscode.success (new_response CommandIdentifiers.unsubscribe),
          record after_topic {
            client_connections =
                connections_left after_topic.topics client_ptr c s.client_connections;
          },
        )
  unfolding unsubscribe_pointers
  unsubscribe_pointers_lem client_ptr c at_client =
      let left = left-WellFormed s v topic_ptr first rest t at_topic listed in
      rw (at_topic, unsubscribe_pointers)
        (rw (topic_unsubscribe_here s v topic_ptr first rest t at_topic listed (some client_ptr)) (
          rw
            (is_subscribed_to_other_topic_lem s.client_connections client_ptr c at_client
              after_topic.topics left.sound)
            (ground arith)))

  pub unsubscribe_pointers-Invariant :
      (client_ptr : Ptr) (c : ClientConnection)
      → load s.client_connections client_ptr ≡ ok c
      → Returns (λ response s'. Invariant s') (unsubscribe_pointers topic_ptr (some client_ptr) s)
  unsubscribe_pointers-Invariant client_ptr c at_client =
      rw (unsubscribe_pointers_lem client_ptr c at_client) (record {
        well_formed =
            connections_left-WellFormed after_topic
              (left-WellFormed s v topic_ptr first rest t at_topic listed) client_ptr c at_client;
        populated = left-Populated s v topic_ptr first rest t at_topic listed;
      })

  pub unsubscribe_pointers_null :
      after_topic.topics ≢ [] → unsubscribe_pointers topic_ptr none s ≡ undefined
  unfolding unsubscribe_pointers
  unsubscribe_pointers_null some_left =
      rw (at_topic, unsubscribe_pointers)
        (rw (topic_unsubscribe_here s v topic_ptr first rest t at_topic listed none)
          (rw (is_subscribed-null s.client_connections after_topic.topics some_left) refl))

  -- With no topic left the null pointer is not followed.
  pub unsubscribe_pointers-none_left :
      after_topic.topics ≡ []
      → unsubscribe_pointers topic_ptr none s
        ≡ ok (
          set_status_code Statuscode.success (new_response CommandIdentifiers.unsubscribe),
          after_topic,
        )
  unfolding unsubscribe_pointers
  unsubscribe_pointers-none_left gone =
      rw (at_topic, unsubscribe_pointers)
        (rw (topic_unsubscribe_here s v topic_ptr first rest t at_topic listed none)
          (rw (ap (is_subscribed_to_other_topic s.client_connections none) gone) refl))

length-topics_left :
    (p : Ptr) (t : Topic) (rest : List Ptr) (topics : Cells Topic)
    → Distinct (addresses topics)
    → length topics ≤ suc (length (topics_left p t rest topics))
length-topics_left p t rest topics d = elim (Bool-cases (length rest == 0)) [
  | inl empty ↦ rw (empty, release-store) (length-release p topics d)
  | inr more ↦ rw more (omega (arith, length-store p (record t { subscriber_list = rest }) topics))
]

pub topics_left-ne-nil :
    (p : Ptr) (t : Topic) (rest : List Ptr) (topics : Cells Topic)
    → Distinct (addresses topics)
    → 2 ≤ length topics
    → topics_left p t rest topics ≢ []
topics_left-ne-nil p t rest topics d two e =
    absurd (omega (arith, length-topics_left p t rest topics d, ap length e))

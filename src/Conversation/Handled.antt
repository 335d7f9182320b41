-- ===== src/Conversation/Handled.antt =====
-- What is known of the handlers' calls in one place.
use verteilte_systeme_bbps.Prelude.{
  some, ◌==◌, ==_self, ◌&&◌, text_eq, int_eq, ℕ, ◌≡◌, refl, ◌∙◌, Option-cases, inl, inr, Text, ℤ,
  Outcome, ok, throws, undefined,
}
use verteilte_systeme_bbps.Protocol.Identifiers.{CommandIdentifiers}
use verteilte_systeme_bbps.Protocol.Response.{Response}
use verteilte_systeme_bbps.Server.Memory.{Ptr, load}
use verteilte_systeme_bbps.Server.State.{Server}
use verteilte_systeme_bbps.Server.Requests.{
  find_topic, find_connection, find_or_create_topic, find_or_create_connection,
  handle_subscribe_request, handle_publish_request,
}
use verteilte_systeme_bbps.Server.Invariant.{Invariant, Returns}
use verteilte_systeme_bbps.Server.Invariant.Creating.{
  find_or_create_topic_lem, find_or_create_connection_lem,
}
use verteilte_systeme_bbps.Server.Invariant.Subscribing.{
  respond, subscribe_pointers_lem, handle_subscribe_request-Invariant,
}
use verteilte_systeme_bbps.Server.Directory.{view, subscribe_spec, publish_spec}
use verteilte_systeme_bbps.Server.Directory.Meaning.{Returns-mono}
use verteilte_systeme_bbps.Server.Directory.Subscribing.{
  handle_subscribe_request_refines, find_ptr-append_one,
}
use verteilte_systeme_bbps.Server.Directory.Publishing.{handle_publish_request_refines}

-- What a call is known to return, together with what else is known of it.
Returns-and :
    (P Q : Response → Server → Type 0) (o : Outcome (Response × Server))
    → Returns P o
    → Returns Q o
    → Returns (λ r s. P r s × Q r s) o
Returns-and P Q (ok (r, s)) h k = (h, k)
Returns-and P Q (throws e) h k = h
Returns-and P Q undefined h k = h

Returns-self :
    (P : Response → Server → Type 0) (o : Outcome (Response × Server))
    → Returns P o
    → Returns (λ r s. o ≡ ok (r, s)) o
Returns-self P (ok (r, s)) h = refl
Returns-self P (throws e) h = h
Returns-self P undefined h = h

module _ (now later : ℕ) (name : Text) where
  find_or_create_topic-topic_timeout :
      (s : Server) → (find_or_create_topic now later name s).1.topic_timeout ≡ s.topic_timeout
  unfolding find_or_create_topic
  find_or_create_topic-topic_timeout s = elim (Option-cases (find_topic name s.topics)) [
    | inl e ↦ rw (e, find_or_create_topic) refl
    | inr (p, e) ↦ rw (e, find_or_create_topic) refl
  ]

  find_or_create_connection-topic_timeout :
      (address : Text) (port : ℤ) (s : Server)
      → (find_or_create_connection address port s).1.topic_timeout ≡ s.topic_timeout
  unfolding find_or_create_connection
  find_or_create_connection-topic_timeout address port s =
      elim (Option-cases (find_connection address port s.client_connections)) [
        | inl e ↦ rw (e, find_or_create_connection) refl
        | inr (p, e) ↦ rw (e, find_or_create_connection) refl
      ]

  handle_subscribe_request-topic_timeout :
      (address : Text) (port : ℤ) (s : Server)
      → Invariant s
      → Returns
          (λ r s'. s'.topic_timeout ≡ s.topic_timeout)
          (handle_subscribe_request now later address port name s)
  unfolding handle_subscribe_request
  handle_subscribe_request-topic_timeout address port s v =
      let (tp, s') = find_or_create_topic now later name s in
      let (w', has, same) = find_or_create_topic_lem name now later s v.well_formed in
      let (cp, s'') = find_or_create_connection address port s' in
      let (w'', at_client, same_topics) = find_or_create_connection_lem address port s' w' in
      let at_topic : load s''.topics tp ≡ ok has.topic = rw same_topics has.there in
      rw
        (subscribe_pointers_lem s'' w'' tp cp has.topic (record { address = address; port = port })
          at_topic at_client)
        (find_or_create_connection-topic_timeout address port s'
          ∙ find_or_create_topic-topic_timeout s)

  find_connection-created :
      (address : Text) (port : ℤ) (s : Server)
      → (q : Ptr) × (find_connection address port
            (find_or_create_connection address port s).1.client_connections
          ≡ some q)
  unfolding find_or_create_connection find_connection
  find_connection-created address port s =
      elim (Option-cases (find_connection address port s.client_connections)) [
        | inl e ↦ (
          s.next,
          rw (e, find_or_create_connection)
              (find_ptr-append_one (λ c. c.address == address && c.port == port)
                s.client_connections s.next (record { address = address; port = port }) e
                (rw (==_self address, ==_self port) refl)),
        )
        | inr (p, e) ↦ (p, rw (e, find_or_create_connection) e)
      ]

  -- The client has a connection afterwards.
  handle_subscribe_request-find_connection :
      (address : Text) (port : ℤ) (s : Server)
      → Invariant s
      → Returns
          (λ r s'. (q : Ptr) × (find_connection address port s'.client_connections ≡ some q))
          (handle_subscribe_request now later address port name s)
  unfolding handle_subscribe_request
  handle_subscribe_request-find_connection address port s v =
      let (tp, s') = find_or_create_topic now later name s in
      let (w', has, same) = find_or_create_topic_lem name now later s v.well_formed in
      let (cp, s'') = find_or_create_connection address port s' in
      let (w'', at_client, same_topics) = find_or_create_connection_lem address port s' w' in
      let at_topic : load s''.topics tp ≡ ok has.topic = rw same_topics has.there in
      rw
        (subscribe_pointers_lem s'' w'' tp cp has.topic (record { address = address; port = port })
          at_topic at_client)
        (find_connection-created address port s')

  -- All that the delivery needs to know of a request to subscribe.
  pub subscribed :
      (address : Text) (port : ℤ) (s : Server)
      → Invariant s
      → let (status, d) =
          subscribe_spec now (record { address = address; port = port }) name (view s) in
        Returns
          (λ r s'.
            (r ≡ respond CommandIdentifiers.subscribe status)
            × ((view s' ≡ d) × Invariant s' × (s'.topic_timeout ≡ s.topic_timeout)))
          (handle_subscribe_request now later address port name s)
  subscribed address port s v =
      let o = handle_subscribe_request now later address port name s in
      Returns-mono o (λ r s' ((same, seen), (sound, kept)). (same, (seen, sound, kept)))
        (Returns-and _ _ o (handle_subscribe_request_refines now later address port name s v) (
          Returns-and _ _ o (handle_subscribe_request-Invariant now later address port name s v)
            (handle_subscribe_request-topic_timeout address port s v)))

  -- And all that a later request of that client needs to know.
  pub subscribed_client :
      (address : Text) (port : ℤ) (s : Server)
      → Invariant s
      → let (status, d) =
          subscribe_spec now (record { address = address; port = port }) name (view s) in
        Returns
          (λ r s'.
            (r ≡ respond CommandIdentifiers.subscribe status)
            × ((view s' ≡ d)
                × Invariant s'
                × ((q : Ptr) × (find_connection address port s'.client_connections ≡ some q))))
          (handle_subscribe_request now later address port name s)
  subscribed_client address port s v =
      let o = handle_subscribe_request now later address port name s in
      Returns-mono o (λ r s' ((same, seen), (sound, known)). (same, (seen, sound, known)))
        (Returns-and _ _ o (handle_subscribe_request_refines now later address port name s v) (
          Returns-and _ _ o (handle_subscribe_request-Invariant now later address port name s v)
            (handle_subscribe_request-find_connection address port s v)))

  -- And of a request to publish.
  pub handled :
      (message : Text) (s : Server)
      → Invariant s
      → let (status, d) = publish_spec now message name (view s) in
        Returns
          (λ r s'.
            (r ≡ respond CommandIdentifiers.publish status)
            × ((view s' ≡ d)
                × ((q : Response) × (handle_publish_request now later name message s
                      ≡ ok (q, s')))))
          (handle_publish_request now later name message s)
  handled message s v =
      let o = handle_publish_request now later name message s in
      let refined = handle_publish_request_refines s v name now later message in
      Returns-mono o (λ r s' ((same, seen), e). (same, (seen, (r, e))))
        (Returns-and _ _ o refined (Returns-self _ o refined))

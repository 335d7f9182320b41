-- ===== src/Conversation/Delivery.antt =====
-- From one client's publishing to another client's log.
use verteilte_systeme_bbps.Prelude.{
  Option, ℕ, ◌+◌, ◌<◌, ◌≤◌, ◌^◌, ◌≡◌, ◌≢◌, refl, sym, ap, ◌∙◌, subst, List, [], ◌∷◌, ◌++◌,
  append_assoc, map, map-append, length, some, Text, ℤ, pos, ◌≤ℤ◌, ok, arith, ◌%◌,
}
use verteilte_systeme_bbps.Protocol.Identifiers.{CommandIdentifiers, Statuscode}
use verteilte_systeme_bbps.Protocol.Json.{Json, IsLawful}
use verteilte_systeme_bbps.Protocol.Command
use verteilte_systeme_bbps.Protocol.Response.Codec
use verteilte_systeme_bbps.Protocol.Response.Codec.Answers.{answered}
use verteilte_systeme_bbps.Server.State.{ClientConnection, Server}
use verteilte_systeme_bbps.Server.Invariant.{Invariant}
use verteilte_systeme_bbps.Server.Directory.{view, find_view, subscribe_spec}
use verteilte_systeme_bbps.Server.Directory.Subscribers.{
  Among, subscribe_spec-Among, subscriptions, heartbeats_bound, publish_spec-subscriptions,
}
use verteilte_systeme_bbps.Server.Sending.{Datagram, Network, datagram, uint16_of_int}
use verteilte_systeme_bbps.Server.Heartbeat.{check_topic_timeouts}
use verteilte_systeme_bbps.Server.Heartbeat.Delivery.{
  Within, check_topic_timeouts-handle_publish_request,
}
use verteilte_systeme_bbps.Server.Dispatch.{buffer_size, handle_approaching_client}
use verteilte_systeme_bbps.Client.{subscribe_command, publish_command}
use verteilte_systeme_bbps.Client.Messages.{Reception, handle_messages}
use verteilte_systeme_bbps.Client.Messages.Published.{message_line, handle_messages-datagram}
use verteilte_systeme_bbps.Client.Log.{Logged}
use verteilte_systeme_bbps.Conversation.Returning.{subscribe_topic-Returns, publish_topic-Returns}
use verteilte_systeme_bbps.Conversation.Handled.{subscribed, handled}

-- A part of a part.
Within-trans : (a b c : List Datagram) → Within a b → Within b c → Within a c
Within-trans a b c (front, back, e) (front', back', f) =
    (front' ++ front, back ++ back', f ∙ ap (λ ds. front' ++ (ds ++ back')) e ∙ simp (append_assoc))

-- A subscriber's datagram is among those of all subscribers.
Within-Among :
    (f : ClientConnection → Datagram) (c : ClientConnection) (cs : List ClientConnection)
    → Among c cs
    → Within (f c ∷ []) (map f cs)
Within-Among f c cs (before, after, e) =
    (map f before, map f after, ap (map f) e ∙ map-append f before (c ∷ after))

module _ (J : Json) (L : IsLawful J) (format_time : ℤ → Option Text) (s : Server) (v : Invariant s)
    (name message : Text) (named : name ≢ []) (plain : L.IsPlain name) (some_text : message ≢ [])
    (plain_message : L.IsPlain message) where
  -- If the JSON library is lawful, the server's objects are in order, its timeout is at least a
  -- second, the topic's name and the message are neither empty nor beyond what JSON carries, and
  -- requests, answers and the message's datagram fit their buffers: a client's request to
  -- subscribe to the topic, then any client's request to publish the message for it, and then a
  -- round of the heartbeat that takes no time, comes no earlier than the second time that the
  -- publishing read and has descriptors for all subscribers, all end with an answer or without a
  -- fault; the round sends a datagram to the address of the subscriber and the port that it gave,
  -- which is below 2 ^ 16, and from that datagram the subscriber's thread logs the topic, the
  -- message and the time of its publishing, if that is below 2 ^ 63 and what `strftime` makes of
  -- it is shorter than the buffer of 21 bytes.
  pub subscribe-publish-handle_messages :
      (now1 later1 : ℕ) (ip1 : Text) (port : ℕ) (b1 : ℕ) (pending1 response1 : Text)
      → port < 2 ^ 16
      → length (b1 ∷ pending1) ≤ buffer_size
      → length response1 < 2048
      → Command.serialize J (subscribe_command (pos port) name) ≡ ok (b1 ∷ pending1)
      → Codec.serialize J (
          answered CommandIdentifiers.subscribe
            (subscribe_spec now1 (record { address = ip1; port = pos port }) name (view s)).0
            [])
        ≡ ok response1
      → (now2 later2 : ℕ) (ip2 : Text) (b2 : ℕ) (pending2 response2 : Text) → now2 < 2 ^ 63
      → length (b2 ∷ pending2) ≤ buffer_size
      → length response2 < 2048
      → Command.serialize J (publish_command name message) ≡ ok (b2 ∷ pending2)
      → Codec.serialize J (answered CommandIdentifiers.publish Statuscode.success []) ≡ ok response2
      → (limit at : ℕ) (n : Network) (sent : Datagram) → later2 ≤ at
      → pos 1 ≤ℤ s.topic_timeout
      → n.open_descriptors
          + subscriptions
              (subscribe_spec now1 (record { address = ip1; port = pos port }) name (view s)).1
        ≤ limit
      → sent ≡ datagram J limit (record { address = ip1; port = pos port }) name message (pos now2)
      → length sent.content < 2048
      → (shown : Text) → format_time (pos now2) ≡ some shown
      → length shown < 21
      → (s1 : Server) × (s2 : Server) × (s3 : Server) × (n' : Network) × (handle_approaching_client
            J now1 later1 ip1
            (b1 ∷ pending1)
            s
          ≡ ok (some response1, s1))
        × (handle_approaching_client J now2 later2 ip2 (b2 ∷ pending2) s1 ≡ ok (some response2, s2))
        × (check_topic_timeouts J limit (λ _. at) s2 n ≡ ok (s3, n'))
        × Within (sent ∷ []) n'.sent
        × (sent.address ≡ ip1)
        × (sent.port ≡ port)
        × (handle_messages J format_time (Reception.datagram sent.content ∷ [])
            ≡ ok (Logged.info (message_line name shown message) ∷ []))
  unfolding handle_messages datagram uint16_of_int
  subscribe-publish-handle_messages now1 later1 ip1 port b1 pending1 response1 port_small fits1
        short1 written1 answer1 now2 later2 ip2 b2 pending2 response2 now_small fits2 short2
        written2 answer2 limit at n sent passed positive room same short shown timed shown_fits =
      let c : ClientConnection = record { address = ip1; port = pos port } in
      let made = datagram J limit c name message (pos now2) in
      let (s1, e1, (seen1, v1, kept1), _) =
        subscribe_topic-Returns J L format_time now1 later1 ip1 s name named plain ip1 0 b1 pending1
          response1 fits1 short1 port [] _ (omega arith) written1 answer1
          (subscribed now1 later1 name ip1 (pos port) s v) in
      let (tv, found, among) = subscribe_spec-Among now1 c name (view s) in
      let there : find_view name (view s1) ≡ some tv = ap (find_view name) seen1 ∙ found in
      let (status, total) = publish_spec-subscriptions now2 message name (view s1) tv there in
      let (s2, e2, (seen2, (q, done)), _) =
        publish_topic-Returns J L format_time now2 later2 ip2 s1 name named plain ip1 0 b2 pending2
          response2 fits2 short2 message (record { port = pos port; subscribed_topics = [] }) _
          some_text plain_message written2 (rw status answer2)
          (handled now2 later2 name message s1 v1) in
      let bound = heartbeats_bound J limit s2.client_connections at s2.topics in
      let all_room : n.open_descriptors + subscriptions (view s1) ≤ limit =
        subst (λ d. n.open_descriptors + subscriptions d ≤ limit) (sym seen1) room in
      let same_total : subscriptions (view s2) ≡ subscriptions (view s1) =
        ap subscriptions seen2 ∙ total in
      let (s3, n', e3, part) =
        check_topic_timeouts-handle_publish_request J limit now2 later2 at name message s1 v1 tv q
          s2 n there some_text done passed (subst (λ z. pos 1 ≤ℤ z) (sym kept1) positive)
          (omega (arith, bound, all_room, same_total)) in
      (
        s1,
        s2,
        s3,
        n',
        e1,
        e2,
        e3,
        rw same (
            Within-trans (made ∷ []) _ n'.sent
              (Within-Among (λ c. datagram J limit c name message (pos now2)) c tv.subscribers
                among)
              part),
        rw same refl,
        rw same mod_small,
        rw same (
            handle_messages-datagram J L format_time limit c name message now2 plain plain_message
              now_small shown [] timed shown_fits (rw same at short)),
      )
    where
      mod_small : port % 2 ^ 16 ≡ port
      mod_small = omega arith

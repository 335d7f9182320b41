-- ===== src/Server/Heartbeat/Delivery.antt =====
-- From a publish request to the datagrams that carry its message.
use verteilte_systeme_bbps.Prelude.{
  ok-injective, ℕ, ◌+◌, ◌≤◌, ◌≡◌, ◌≢◌, refl, sym, ap, ◌∙◌, subst, true, Bool-cases, Option-cases,
  inl, inr, List, [], ◌∷◌, ◌++◌, list_laws, map, length, none, some, Text, pos, le_ℤ, ◌≤ℤ◌, nat_eq,
  text_eq, ◌==◌, ==_differ, Outcome, ok, arith,
}
use verteilte_systeme_bbps.Protocol.Json.{Json}
use verteilte_systeme_bbps.Protocol.Response.{Response}
use verteilte_systeme_bbps.Server.Memory.{Ptr, Cells, load, store}
use verteilte_systeme_bbps.Server.State.{ClientConnection, Topic, Server}
use verteilte_systeme_bbps.Server.Topic.{set_message}
use verteilte_systeme_bbps.Server.Requests.{find_topic, handle_publish_request}
use verteilte_systeme_bbps.Server.Invariant.{Returns, Invariant}
use verteilte_systeme_bbps.Server.Invariant.Requests.{
  find_topic-Found, handle_publish_request-Invariant,
}
use verteilte_systeme_bbps.Server.Directory.{TopicView, view, topic_view, find_view}
use verteilte_systeme_bbps.Server.Directory.Views.{find_view-none, find_view-some}
use verteilte_systeme_bbps.Server.Sending.{Datagram, Network, datagram}
use verteilte_systeme_bbps.Server.Heartbeat.{check_topic_timeouts}
use verteilte_systeme_bbps.Server.Heartbeat.Timeliness.{
  copies, heartbeats, check_topic_timeouts-heartbeats,
}

-- One list is a part of another.
abbrev pub Within : List Datagram → List Datagram → Type 0
Within part whole =
    (before : List Datagram) × (after : List Datagram) × (whole ≡ before ++ (part ++ after))

Within-append :
    (front part whole : List Datagram) → Within part whole → Within part (front ++ whole)
Within-append front part whole (before, after, e) =
    (front ++ before, after, ap (λ ds. front ++ ds) e ∙ simp list_laws)

module _ (J : Json) (limit : ℕ) (connections : Cells ClientConnection) (at : ℕ) where
  -- A topic that is written and due is among those that a round sends.
  heartbeats-store :
      (p : Ptr) (t b : Topic) (cells : Cells Topic)
      → load cells p ≡ ok t
      → le_ℤ b.timeout_timestamp (pos at) ≡ true
      → Within (copies J limit connections b) (heartbeats J limit connections at (store p b cells))
  unfolding load store
  heartbeats-store p t b [] there due = cc
  heartbeats-store p t b ((q, a) ∷ cells) there due = elim (Bool-cases (q == p)) [
    | inl same ↦ rw same (rw due ([], heartbeats J limit connections at (store p b cells), refl))
    | inr other ↦
        let later = heartbeats-store p t b cells (rw (other, load) at there) due in
        rw other (elim (Bool-cases (le_ℤ a.timeout_timestamp (pos at))) [
          | inl due_too ↦ rw due_too (Within-append (copies J limit connections a) _ _ later)
          | inr early ↦ rw early later
        ])
  ]

view_eq : (a b : TopicView) → some a ≡ some b → a ≡ b
view_eq a b h = cc

-- What a publish request makes of the server, if it has the topic.
published :
    (now later : ℕ) (name message : Text) (s : Server) (v : Invariant s) (tv : TopicView)
    (r : Response) (s1 : Server)
    → find_view name (view s) ≡ some tv
    → handle_publish_request now later name message s ≡ ok (r, s1)
    → (p : Ptr) × (t : Topic) × (load s.topics p ≡ ok t)
      × (t.topic_name ≡ name)
      × (topic_view s.client_connections t ≡ tv)
      × (record s { topics = store p (set_message message now later t).1 s.topics } ≡ s1)
unfolding handle_publish_request
published now later name message s v tv r s1 known e =
    elim (Option-cases (find_topic name s.topics)) [
      | inl absent ↦
          let none_there = find_view-none s.client_connections name s.topics absent in
          let clash : none ≡ some tv = sym none_there ∙ known in cc
      | inr (p, found) ↦
          let f = find_topic-Found s name p v found in
          let seen =
            find_view-some s.client_connections name s.topics p f.topic
              v.well_formed.topics_distinct found f.there in
          (
            p,
            f.topic,
            f.there,
            f.named,
            view_eq _ tv (sym seen ∙ known),
            ap (λ q. q.1)
                (ok-injective _ (r, s1) (rw f.there at (rw (found, handle_publish_request) at e))),
          )
    ]

returned :
    (P : Response → Server → Type 0) (m : Outcome (Response × Server)) (r : Response) (s : Server)
    → Returns P m
    → m ≡ ok (r, s)
    → P r s
returned P m r s h e = subst (Returns P) e h

module _ (J : Json) (limit : ℕ) (now later at : ℕ) (name message : Text) (s : Server)
    (v : Invariant s) where
  -- In a server whose objects are in order, if the directory has the topic, the message is not
  -- empty, and the publish request was answered: a round of the heartbeat that comes no earlier
  -- than the second time that the request read, takes no time and has descriptors for what it
  -- sends, with a timeout of at least a second, ends and sends the new message, with the time of
  -- the request, to each subscriber that the directory shows for the topic, in their order.
  pub check_topic_timeouts-handle_publish_request :
      (tv : TopicView) (r : Response) (s1 : Server) (n : Network)
      → find_view name (view s) ≡ some tv
      → message ≢ []
      → handle_publish_request now later name message s ≡ ok (r, s1)
      → later ≤ at
      → pos 1 ≤ℤ s.topic_timeout
      → n.open_descriptors + length (heartbeats J limit s1.client_connections at s1.topics) ≤ limit
      → (s2 : Server) × (n2 : Network) × (check_topic_timeouts J limit (λ _. at) s1 n ≡ ok (s2, n2))
        × Within (map (λ c. datagram J limit c name message (pos now)) tv.subscribers) n2.sent
  unfolding set_message
  check_topic_timeouts-handle_publish_request tv r s1 n known some_text e passed positive room =
      let (p, t, there, named, seen, same) = published now later name message s v tv r s1 known e in
      let v1 =
        returned (λ response s'. Invariant s') _ r s1
          (handle_publish_request-Invariant s v name now later message) e in
      let positive1 : pos 1 ≤ℤ s1.topic_timeout =
        subst (λ (q : Server). pos 1 ≤ℤ q.topic_timeout) same positive in
      let (s2, n2, swept, sent, _) =
        check_topic_timeouts-heartbeats J limit at s1 n v1 positive1 room in
      let b : Topic = (set_message message now later t).1 in
      let due : le_ℤ (pos later) (pos at) ≡ true = ground arith in
      let part : Within (copies J limit s.client_connections b)
          (heartbeats J limit s1.client_connections at s1.topics) =
        subst
          (λ (q : Server).
            Within (copies J limit s.client_connections b)
              (heartbeats J limit q.client_connections at q.topics))
          same (heartbeats-store J limit s.client_connections at p t b s.topics there due) in
      let all : copies J limit s.client_connections b
          ≡ map (λ c. datagram J limit c name message (pos now)) tv.subscribers =
        rw (==_differ message [] some_text) (
          rw named (
            ap
              (λ (u : TopicView).
                map (λ c. datagram J limit c name message (pos now)) u.subscribers)
              seen)) in
      (
        s2,
        n2,
        swept,
        subst (Within _) (sym sent) (
            Within-append n.sent _ _ (
              subst (λ ds. Within ds (heartbeats J limit s1.client_connections at s1.topics)) all
                part)),
      )

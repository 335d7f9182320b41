-- ===== src/Server/Directory/Changes/Origins.antt =====
-- Where the messages and the subscribers of the directory come from.
use verteilte_systeme_bbps.Prelude.{
  ℕ, ◌≡◌, ◌≢◌, ◌⊎◌, inl, inr, refl, sym, ap, subst, ◌∙◌, List, [], ◌∷◌, Option, none, some, All,
  All-append, Bool-cases, contains, Text, text_eq, ◌==◌, ℤ, pos, Outcome, ok, throws, undefined,
  ◌>>=◌, bind-ok, ok-injective,
}
use verteilte_systeme_bbps.Std.Decimal.{stoi}
use verteilte_systeme_bbps.Protocol.Identifiers.{
  CommandIdentifiers, CommunicationParameters, Statuscode, parameter_eq,
}
use verteilte_systeme_bbps.Protocol.Json.{Json}
use verteilte_systeme_bbps.Protocol.Command.{Command, get_command_argument}
use verteilte_systeme_bbps.Protocol.Command
use verteilte_systeme_bbps.Protocol.Response.{Response, empty_response, set_status_code}
use verteilte_systeme_bbps.Server.State.{ClientConnection, connection_eq}
use verteilte_systeme_bbps.Server.Directory.{TopicView, Directory, find_view, tail}
use verteilte_systeme_bbps.Server.Directory.Service.{request_spec, answer_spec}
use verteilte_systeme_bbps.Server.Directory.Changes.{
  Change, topic_of, change, put, left_with, change_topic, change-put,
}
use verteilte_systeme_bbps.Server.Directory.Changes.Commuting.{IsFor, find_view-IsFor}
use verteilte_systeme_bbps.Server.Directory.Changes.Requests.{Asks, Brings}
use verteilte_systeme_bbps.Server.Schedule.{Arrival}

-- A request leaves the directory as it was, or asks for a change and makes it.
abbrev pub Changes : (Change → Type 0) → Directory → Directory → Type 0
Changes asked d d' = (d' ≡ d) ⊎ ((x : Change) × asked x × (d' ≡ (change x d).1))

request_spec-Changes :
    (now : ℕ) (ip : Text) (c : Command) (id : CommandIdentifiers) (d d' : Directory) (r : Response)
    → c.command_identifier ≡ id
    → request_spec now ip c id d ≡ ok (r, d')
    → Changes (Asks now ip c) d d'
unfolding request_spec change
request_spec-Changes now ip c CommandIdentifiers.subscribe d d' r is e =
    let (port, e1, f1) =
      bind-ok (get_command_argument CommunicationParameters.client_port c >>= stoi) _ (r, d') e in
    let (name, e2, f2) =
      bind-ok (get_command_argument CommunicationParameters.topic_name c) _ (r, d') f1 in
    inr (
      Change.subscribe now (record { address = ip; port = port }) name,
      (is, refl, refl, e1, e2),
      sym (ap (λ q. q.1) (ok-injective _ (r, d') f2)),
    )
request_spec-Changes now ip c CommandIdentifiers.unsubscribe d d' r is e =
    let (port, e1, f1) =
      bind-ok (get_command_argument CommunicationParameters.client_port c >>= stoi) _ (r, d') e in
    let (name, e2, f2) =
      bind-ok (get_command_argument CommunicationParameters.topic_name c) _ (r, d') f1 in
    inr
      (Change.unsubscribe name, (port, is, e1, e2), sym (ap (λ q. q.1) (ok-injective _ (r, d') f2)))
request_spec-Changes now ip c CommandIdentifiers.publish d d' r is e =
    let (name, e1, f1) =
      bind-ok (get_command_argument CommunicationParameters.topic_name c) _ (r, d') e in
    let (message, e2, f2) =
      bind-ok (get_command_argument CommunicationParameters.message c) _ (r, d') f1 in
    inr (
      Change.publish now message name,
      (is, refl, e1, e2),
      sym (ap (λ q. q.1) (ok-injective _ (r, d') f2)),
    )
request_spec-Changes now ip c CommandIdentifiers.list_topics d d' r is e =
    inl (sym (ap (λ q. q.1) (ok-injective _ (r, d') e)))
request_spec-Changes now ip c CommandIdentifiers.get_topic_status d d' r is e =
    let (name, e1, f1) =
      bind-ok (get_command_argument CommunicationParameters.topic_name c) _ (r, d') e in
    inl (sym (ap (λ q. q.1) (ok-injective _ (r, d') f1)))
request_spec-Changes now ip c (CommandIdentifiers.unnamed n) d d' r is e =
    inl (sym (ap (λ q. q.1) (ok-injective _ (r, d') e)))

module _ (J : Json) (a : Arrival) (d d' : Directory) (r : Response) where
  caught :
      (o : Outcome (Response × Directory))
      → elim o [
        | ok q ↦ ok q
        | throws x ↦ ok (set_status_code Statuscode.internal_error empty_response, d)
        | undefined ↦ undefined
      ]
        ≡ ok (r, d')
      → (o ≡ ok (r, d')) ⊎ (d' ≡ d)
  caught (ok q) e = inl e
  caught (throws x) e = inr (sym (ap (λ q. q.1) (ok-injective _ (r, d') e)))
  caught undefined e = cc

  read-Changes :
      (c : Command) (read : Command.deserialize J a.received ≡ ok c)
      → Changes (Asks a.now a.ip_address c) d d'
      → Changes (Brings J a) d d'
  read-Changes c read (inl same) = inl same
  read-Changes c read (inr (x, asks, made)) = inr (x, (c, read, asks), made)

  pub answer_spec-Changes :
      answer_spec J a.now a.ip_address a.received d ≡ ok (r, d') → Changes (Brings J a) d d'
  unfolding answer_spec
  answer_spec-Changes e =
      elim (caught
        (Command.deserialize J a.received >>= λ c.
          request_spec a.now a.ip_address c c.command_identifier d)
        e) [
          | inl answered ↦
              let (c, read, e') = bind-ok (Command.deserialize J a.received) _ (r, d') answered in
              read-Changes c read
                (request_spec-Changes a.now a.ip_address c c.command_identifier d d' r refl e')
          | inr same ↦ inl same
        ]

module _ (J : Json) (P : Arrival → Type 0) where
  -- One of those connections brought the message, at that time.
  abbrev pub Published : Text → Text → ℤ → Type 0
  Published name message z =
      (a : Arrival) × P a × Brings J a (Change.publish a.now message name) × (z ≡ pos a.now)

  -- One of them asked for the client to be a subscriber.
  abbrev pub Subscribed : ClientConnection → Text → Type 0
  Subscribed c name = (a : Arrival) × P a × Brings J a (Change.subscribe a.now c name)

  abbrev pub IsGenuine : TopicView → Type 0
  IsGenuine t =
      (t.message ≢ [] → Published t.name t.message t.message_timestamp)
      × All (λ c. Subscribed c t.name) t.subscribers

  abbrev pub IsGenuineOption : Option TopicView → Type 0
  IsGenuineOption none = Unit
  IsGenuineOption (some t) = IsGenuine t

  find_view-IsGenuine :
      (name : Text) (d : Directory) → All IsGenuine d → IsGenuineOption (find_view name d)
  find_view-IsGenuine name [] h = tt
  find_view-IsGenuine name (t ∷ d) (ht, h) = elim (Bool-cases (t.name == name)) [
    | inl hit ↦ rw hit ht
    | inr miss ↦ rw miss (find_view-IsGenuine name d h)
  ]

  put-IsGenuine :
      (name : Text) (new : Option TopicView) (d : Directory)
      → IsGenuineOption new
      → All IsGenuine d
      → All IsGenuine (put name new d)
  put-IsGenuine name none [] hn h = tt
  put-IsGenuine name (some t) [] hn h = (hn, tt)
  put-IsGenuine name none (u ∷ d) hn (hu, h) = elim (Bool-cases (u.name == name)) [
    | inl hit ↦ rw hit h
    | inr miss ↦ rw miss (hu, put-IsGenuine name none d hn h)
  ]
  put-IsGenuine name (some t) (u ∷ d) hn (hu, h) = elim (Bool-cases (u.name == name)) [
    | inl hit ↦ rw hit (hn, h)
    | inr miss ↦ rw miss (hu, put-IsGenuine name (some t) d hn h)
  ]

  left_with-IsGenuine :
      (t : TopicView) (cs : List ClientConnection)
      → (t.message ≢ [] → Published t.name t.message t.message_timestamp)
      → All (λ c. Subscribed c t.name) cs
      → IsGenuineOption (left_with t cs)
  left_with-IsGenuine t [] hm hs = tt
  left_with-IsGenuine t (c ∷ cs) hm hs = (hm, hs)

  tail-All :
      (Q : ClientConnection → Type 0) (cs : List ClientConnection) → All Q cs → All Q (tail cs)
  tail-All Q [] h = tt
  tail-All Q (c ∷ cs) (_, h) = h

  change_topic-IsGenuine :
      (a : Arrival) (x : Change) (old : Option TopicView)
      → P a
      → Brings J a x
      → IsFor (topic_of x) old
      → IsGenuineOption old
      → IsGenuineOption (change_topic x old).1
  change_topic-IsGenuine a (Change.subscribe now c name) none p
        (command, read, (is, at, here, port, named)) for h =
      (
        (λ some_text. absurd (some_text refl)),
        ((a, p, (command, read, (is, refl, here, port, named))), tt),
      )
  change_topic-IsGenuine a (Change.subscribe now c name) (some t) p
        (command, read, (is, at, here, port, named)) for (hm, hs) =
      let asked : Subscribed c t.name =
        (a, p, (command, read, (is, refl, here, port, named ∙ ap ok (sym for)))) in
      elim (Bool-cases (contains t.subscribers c)) [
        | inl there ↦ rw there (hm, hs)
        | inr new ↦
            rw new (hm, All-append (λ d. Subscribed d t.name) t.subscribers (c ∷ []) hs (asked, tt))
      ]
  change_topic-IsGenuine a (Change.unsubscribe name) none p brings for h = tt
  change_topic-IsGenuine a (Change.unsubscribe name) (some t) p brings for (hm, hs) =
      left_with-IsGenuine t (tail t.subscribers) hm (tail-All _ t.subscribers hs)
  change_topic-IsGenuine a (Change.publish now message name) none p brings for h = tt
  change_topic-IsGenuine a (Change.publish now message name) (some t) p
        (command, read, (is, at, named, text)) for (hm, hs) =
      ((λ _. (a, p, (command, read, (is, refl, named ∙ ap ok (sym for), text)), ap pos at)), hs)

  -- A request that is answered keeps the directory genuine.
  pub answer_spec-IsGenuine :
      (a : Arrival) (d d' : Directory) (r : Response)
      → P a
      → All IsGenuine d
      → answer_spec J a.now a.ip_address a.received d ≡ ok (r, d')
      → All IsGenuine d'
  answer_spec-IsGenuine a d d' r p h e = elim (answer_spec-Changes J a d d' r e) [
    | inl same ↦ subst (All IsGenuine) (sym same) h
    | inr (x, brings, made) ↦
        let name = topic_of x in
        let old = find_view name d in
        subst (All IsGenuine) (sym (made ∙ ap (λ q. q.1) (change-put x d))) (
          put-IsGenuine name (change_topic x old).1 d
            (change_topic-IsGenuine a x old p brings (find_view-IsFor name d)
              (find_view-IsGenuine name d h))
            h)
  ]

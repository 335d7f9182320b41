-- ===== src/Server/Directory/Subscribers.antt =====
-- Who is a subscriber after a request to subscribe, and how many there are.
use verteilte_systeme_bbps.Prelude.{
  ℕ, ◌+◌, ◌≤◌, ◌≡◌, refl, sym, ap, true, Bool-cases, Option-cases, inl, inr, List, [], ◌∷◌, ◌++◌,
  map, length, length-append, none, some, Text, pos, text_eq, nat_eq, ◌==◌, ==_iff, contains, le_ℤ,
  arith,
}
use verteilte_systeme_bbps.Protocol.Identifiers.{Statuscode}
use verteilte_systeme_bbps.Protocol.Json.{Json}
use verteilte_systeme_bbps.Server.Memory.{Ptr, Cells}
use verteilte_systeme_bbps.Server.State.{ClientConnection, connection_eq, Topic}
use verteilte_systeme_bbps.Server.Topic.Laws.{endpoints}
use verteilte_systeme_bbps.Server.Directory.{
  TopicView, Directory, topic_view, find_view, replace_view, add_subscriber, subscribe_spec,
  publish_spec,
}
use verteilte_systeme_bbps.Server.Directory.Meaning.{find_view-replace_view, find_view-name}
use verteilte_systeme_bbps.Server.Sending.{datagram}
use verteilte_systeme_bbps.Server.Heartbeat.Timeliness.{copies, heartbeats}

-- The client stands somewhere among them.
abbrev pub Among : ClientConnection → List ClientConnection → Type 0
Among c cs =
    (before : List ClientConnection) × (after : List ClientConnection) × (cs ≡ before ++ c ∷ after)

contains-Among :
    (c : ClientConnection) (cs : List ClientConnection) → contains cs c ≡ true → Among c cs
contains-Among c [] e = cc
contains-Among c (d ∷ cs) e = elim (Bool-cases (c == d)) [
  | inl hit ↦ ([], cs, ap (λ x. x ∷ cs) (sym ((==_iff c d).0 hit)))
  | inr miss ↦
      let (before, after, split) = contains-Among c cs (rw miss at e) in
      (d ∷ before, after, ap (λ xs. d ∷ xs) split)
]

find_view-append_one :
    (name : Text) (d : Directory) (t : TopicView)
    → find_view name d ≡ none
    → t.name ≡ name
    → find_view name (d ++ t ∷ []) ≡ some t
find_view-append_one name [] t e h = ground arith
find_view-append_one name (u ∷ d) t e h = ground (arith, find_view-append_one name d t)

-- Whether the request succeeds or finds the client there: the topic is there, and the client is one
-- of its subscribers.
pub subscribe_spec-Among :
    (now : ℕ) (c : ClientConnection) (name : Text) (d : Directory)
    → (t : TopicView) × (find_view name (subscribe_spec now c name d).1 ≡ some t)
      × Among c t.subscribers
unfolding subscribe_spec
subscribe_spec-Among now c name d = elim (Option-cases (find_view name d)) [
  | inl e ↦ (
    record { name = name; message = []; message_timestamp = pos now; subscribers = c ∷ [] },
    rw (e, subscribe_spec) (find_view-append_one name d _ e refl),
    ([], [], refl),
  )
  | inr (t, e) ↦ elim (Bool-cases (contains t.subscribers c)) [
    | inl there ↦ (t, rw (e, subscribe_spec) (rw there e), contains-Among c t.subscribers there)
    | inr new ↦ (
      add_subscriber c t,
      rw (e, subscribe_spec)
          (rw new
            (find_view-replace_view name d t (add_subscriber c t) e (find_view-name name d t e))),
      (t.subscribers, [], refl),
    )
  ]
]

-- How many subscribers the topics have together.
abbrev pub subscriptions : Directory → ℕ
subscriptions [] = 0
subscriptions (t ∷ d) = length t.subscribers + subscriptions d

subscriptions-replace_view :
    (name : Text) (d : Directory) (t t' : TopicView)
    → find_view name d ≡ some t
    → t'.subscribers ≡ t.subscribers
    → subscriptions (replace_view name t' d) ≡ subscriptions d
subscriptions-replace_view name [] t t' e same = cc
subscriptions-replace_view name (u ∷ d) t t' e same =
    ground (arith, subscriptions-replace_view name d t t')

-- Publishing for a topic that is there succeeds, and subscribes nobody.
pub publish_spec-subscriptions :
    (now : ℕ) (message name : Text) (d : Directory) (t : TopicView)
    → find_view name d ≡ some t
    → ((publish_spec now message name d).0 ≡ Statuscode.success)
      × (subscriptions (publish_spec now message name d).1 ≡ subscriptions d)
unfolding publish_spec
publish_spec-subscriptions now message name d t e =
    rw (e, publish_spec)
      (
        refl,
        subscriptions-replace_view name d t
            (record t { message = message; message_timestamp = pos now }) e refl,
      )

module _ (J : Json) (limit : ℕ) (connections : Cells ClientConnection) where
  length-map_list {ℓ κ} :
      {A : Type ℓ} {B : Type κ} (f : A → B) (xs : List A) → length (map f xs) ≡ length xs
  length-map_list f [] = refl
  length-map_list f (x ∷ xs) = ground (arith, length-map_list f xs)

  copies_bound :
      (t : Topic)
      → length (copies J limit connections t) ≤ length (endpoints connections t.subscriber_list)
  copies_bound t = elim (Bool-cases (t.message == [])) [
    | inl empty ↦ rw empty (omega arith)
    | inr some_text ↦ rw some_text (
        omega (
          arith,
          length-map_list (λ c. datagram J limit c t.topic_name t.message t.message_timestamp)
              (endpoints connections t.subscriber_list),
        ))
  ]

  -- A round sends no more datagrams than there are subscribers.
  pub heartbeats_bound :
      (at : ℕ) (topics : Cells Topic)
      → length (heartbeats J limit connections at topics)
        ≤ subscriptions (map (λ (cell : Ptr × Topic). topic_view connections cell.1) topics)
  heartbeats_bound at [] = omega arith
  heartbeats_bound at ((p, t) ∷ topics) = elim (Bool-cases (le_ℤ t.timeout_timestamp (pos at))) [
    | inl due ↦ rw due (
        omega (
          arith,
          length-append (copies J limit connections t) (heartbeats J limit connections at topics),
          copies_bound t,
          heartbeats_bound at topics,
        ))
    | inr early ↦ rw early (omega (arith, heartbeats_bound at topics))
  ]

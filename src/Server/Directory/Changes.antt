-- ===== src/Server/Directory/Changes.antt =====
-- The requests that change the directory: what each makes of the one topic that it names.
pub mod Commuting
pub mod Requests
pub mod Origins
use verteilte_systeme_bbps.Prelude.{
  ℕ, ◌≡◌, refl, ap, ◌∙◌, Bool-cases, Option-cases, inl, inr, List, [], ◌∷◌, ◌++◌, Option, none,
  some, Text, pos, text_eq, ◌==◌, ==_self, contains, if◌then◌else◌, arith,
}
use verteilte_systeme_bbps.Protocol.Identifiers.{CommandIdentifiers, Statuscode}
use verteilte_systeme_bbps.Server.State.{ClientConnection, connection_eq}
use verteilte_systeme_bbps.Server.Directory.{
  TopicView, Directory, find_view, replace_view, remove_view, tail, add_subscriber,
  with_subscribers, subscribe_spec, unsubscribe_first_spec, publish_spec,
}
use verteilte_systeme_bbps.Server.Directory.Views.{replace_view_same}

pub data Change : Type 0 where
  subscribe : ℕ → ClientConnection → Text → Change
  unsubscribe : Text → Change
  publish : ℕ → Text → Text → Change

abbrev pub topic_of : Change → Text
topic_of (Change.subscribe now c name) = name
topic_of (Change.unsubscribe name) = name
topic_of (Change.publish now message name) = name

abbrev pub command_of : Change → CommandIdentifiers
command_of (Change.subscribe now c name) = CommandIdentifiers.subscribe
command_of (Change.unsubscribe name) = CommandIdentifiers.unsubscribe
command_of (Change.publish now message name) = CommandIdentifiers.publish

unfoldable pub change : Change → Directory → Statuscode × Directory
unfolding subscribe_spec unsubscribe_first_spec publish_spec
change (Change.subscribe now c name) d = subscribe_spec now c name d
change (Change.unsubscribe name) d = unsubscribe_first_spec name d
change (Change.publish now message name) d = publish_spec now message name d

-- A topic is written where the one of its name stands, or behind all others; or it is taken away.
abbrev pub put : Text → Option TopicView → Directory → Directory
put name none [] = []
put name (some t) [] = t ∷ []
put name none (u ∷ d) = if u.name == name then d else u ∷ put name none d
put name (some t) (u ∷ d) = if u.name == name then t ∷ d else u ∷ put name (some t) d

abbrev pub left_with : TopicView → List ClientConnection → Option TopicView
left_with t [] = none
left_with t (c ∷ cs) = some (record t { subscribers = c ∷ cs })

-- What a change makes of its topic, or of the lack of it.
abbrev pub change_topic : Change → Option TopicView → Statuscode × Option TopicView
change_topic (Change.subscribe now c name) none = (
  Statuscode.success,
  some (record { name = name; message = []; message_timestamp = pos now; subscribers = c ∷ [] }),
)
change_topic (Change.subscribe now c name) (some t) =
    if contains t.subscribers c
    then (Statuscode.failed, some t)
    else (Statuscode.success, some (add_subscriber c t))
change_topic (Change.unsubscribe name) none = (Statuscode.invalid_parameter, none)
change_topic (Change.unsubscribe name) (some t) =
    (Statuscode.success, left_with t (tail t.subscribers))
change_topic (Change.publish now message name) none = (Statuscode.invalid_parameter, none)
change_topic (Change.publish now message name) (some t) =
    (Statuscode.success, some (record t { message = message; message_timestamp = pos now }))

put-found :
    (name : Text) (d : Directory) (t t' : TopicView)
    → find_view name d ≡ some t
    → put name (some t') d ≡ replace_view name t' d
put-found name [] t t' e = cc
put-found name (u ∷ d) t t' e = ground (arith, put-found name d t t')

put-absent :
    (name : Text) (d : Directory) (t' : TopicView)
    → find_view name d ≡ none
    → put name (some t') d ≡ d ++ t' ∷ []
put-absent name [] t' e = refl
put-absent name (u ∷ d) t' e = ground (arith, put-absent name d t')

put-remove_view : (name : Text) (d : Directory) → put name none d ≡ remove_view name d
put-remove_view name [] = refl
put-remove_view name (u ∷ d) = ground (arith, put-remove_view name d)

put-none : (name : Text) (d : Directory) → find_view name d ≡ none → put name none d ≡ d
put-none name [] e = refl
put-none name (u ∷ d) e = ground (arith, put-none name d)

put-with_subscribers :
    (name : Text) (d : Directory) (t : TopicView) (cs : List ClientConnection)
    → find_view name d ≡ some t
    → put name (left_with t cs) d ≡ with_subscribers name t cs d
unfolding with_subscribers
put-with_subscribers name d t [] e = put-remove_view name d
put-with_subscribers name d t (c ∷ cs) e = put-found name d t (record t { subscribers = c ∷ cs }) e

-- Every change looks at its own topic alone, and writes it alone.
pub change-put :
    (x : Change) (d : Directory)
    → let (status, new) = change_topic x (find_view (topic_of x) d) in
      change x d ≡ (status, put (topic_of x) new d)
unfolding change subscribe_spec unsubscribe_first_spec publish_spec
change-put (Change.subscribe now c name) d = elim (Option-cases (find_view name d)) [
  | inl e ↦ rw (e, subscribe_spec) (rw (put-absent name d _ e) refl)
  | inr (t, e) ↦ elim (Bool-cases (contains t.subscribers c)) [
    | inl there ↦
        rw (e, subscribe_spec)
          (rw there (rw (put-found name d t t e, replace_view_same name d t e) refl))
    | inr new ↦
        rw (e, subscribe_spec) (rw new (rw (put-found name d t (add_subscriber c t) e) refl))
  ]
]
change-put (Change.unsubscribe name) d = elim (Option-cases (find_view name d)) [
  | inl e ↦ rw (e, unsubscribe_first_spec) (rw (put-none name d e) refl)
  | inr (t, e) ↦
      rw (e, unsubscribe_first_spec)
        (rw (put-with_subscribers name d t (tail t.subscribers) e) refl)
]
change-put (Change.publish now message name) d = elim (Option-cases (find_view name d)) [
  | inl e ↦ rw (e, publish_spec) (rw (put-none name d e) refl)
  | inr (t, e) ↦ rw (e, publish_spec) (rw (put-found name d t _ e) refl)
]

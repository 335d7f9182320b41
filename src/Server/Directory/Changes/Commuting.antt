-- ===== src/Server/Directory/Changes/Commuting.antt =====
-- Changes of different topics do not meet.
use verteilte_systeme_bbps.Prelude.{
  ◌≡◌, ◌≢◌, refl, sym, ap, ◌∙◌, true, false, Bool-cases, inl, inr, List, [], ◌∷◌, Option, none,
  some, Text, text_eq, nat_eq, ◌==◌, ==_differ, contains, arith,
}
use mathlib.Core.Path.{subst₂}
use mathlib.Core.List.{Perm}
use mathlib.Core.List.Perm
use verteilte_systeme_bbps.Server.State.{ClientConnection, connection_eq}
use verteilte_systeme_bbps.Server.Directory.{TopicView, Directory, find_view, tail}
use verteilte_systeme_bbps.Server.Directory.Changes.{
  Change, topic_of, change, put, left_with, change_topic, change-put,
}

-- The topic, if there is one, has that name.
abbrev pub IsFor : Text → Option TopicView → Type 0
IsFor name none = Unit
IsFor name (some t) = t.name ≡ name

pub find_view-IsFor : (name : Text) (d : Directory) → IsFor name (find_view name d)
find_view-IsFor name [] = tt
find_view-IsFor name (u ∷ d) = elim (Bool-cases (u.name == name)) [
  | inl hit ↦ rw hit (ground arith)
  | inr miss ↦ rw miss (find_view-IsFor name d)
]

left_with-IsFor :
    (name : Text) (t : TopicView) (cs : List ClientConnection)
    → t.name ≡ name
    → IsFor name (left_with t cs)
left_with-IsFor name t [] e = tt
left_with-IsFor name t (c ∷ cs) e = e

change_topic-IsFor :
    (x : Change) (old : Option TopicView)
    → IsFor (topic_of x) old
    → IsFor (topic_of x) (change_topic x old).1
change_topic-IsFor (Change.subscribe now c name) none h = refl
change_topic-IsFor (Change.subscribe now c name) (some t) h =
    elim (Bool-cases (contains t.subscribers c)) [ inl there ↦ rw there h | inr new ↦ rw new h ]
change_topic-IsFor (Change.unsubscribe name) none h = tt
change_topic-IsFor (Change.unsubscribe name) (some t) h =
    left_with-IsFor name t (tail t.subscribers) h
change_topic-IsFor (Change.publish now message name) none h = tt
change_topic-IsFor (Change.publish now message name) (some t) h = h

module _ (m n : Text) (apart : m ≢ n) where
  find_view-put :
      (new : Option TopicView) (d : Directory)
      → IsFor n new
      → find_view m (put n new d) ≡ find_view m d
  find_view-put none [] h = refl
  find_view-put (some t) [] h = rw (h, ==_differ n m (λ e. apart (sym e))) refl
  find_view-put none (u ∷ d) h = ground (arith, apart, find_view-put none d h)
  find_view-put (some t) (u ∷ d) h = ground (arith, apart, find_view-put (some t) d h)

-- A topic, if there is one, before the others.
abbrev before : Option TopicView → Directory → Directory
before none d = d
before (some t) d = t ∷ d

put-nil : (n : Text) (new : Option TopicView) → put n new [] ≡ before new []
put-nil n none = refl
put-nil n (some t) = refl

module _ (n : Text) (new : Option TopicView) (x : TopicView) (d : Directory) where
  put-here : (x.name == n) ≡ true → put n new (x ∷ d) ≡ before new d
  put-here hit = elim new as (λ o. put n o (x ∷ d) ≡ before o d) [
    | none ↦ rw hit refl
    | some t ↦ rw hit refl
  ]

  put-later : (x.name == n) ≡ false → put n new (x ∷ d) ≡ x ∷ put n new d
  put-later miss = elim new as (λ o. put n o (x ∷ d) ≡ x ∷ put n o d) [
    | none ↦ rw miss refl
    | some t ↦ rw miss refl
  ]

before-swap :
    (a b : Option TopicView) (d : Directory) → Perm (before a (before b d)) (before b (before a d))
before-swap none b d = Perm.rfl
before-swap (some t) none d = Perm.rfl
before-swap (some t) (some u) d = Perm.swap u t d

module _ (m n : Text) (apart : m ≢ n) (a : Option TopicView) where
  put-before :
      (b : Option TopicView) (d : Directory)
      → IsFor n b
      → put m a (before b d) ≡ before b (put m a d)
  put-before none d h = refl
  put-before (some t) d h = put-later m a t d (ground (arith, apart))

-- Writing topics of different names.
put_comm :
    (m n : Text) (a b : Option TopicView)
    → m ≢ n
    → IsFor m a
    → IsFor n b
    → (d : Directory) → Perm (put m a (put n b d)) (put n b (put m a d))
put_comm m n a b apart ha hb [] =
    rw (put-nil n b, put-nil m a, put-before m n apart a b [] hb, put-nil m a)
      (rw (put-before n m (λ e. apart (sym e)) b a [] ha, put-nil n b) (before-swap b a []))
put_comm m n a b apart ha hb (x ∷ d) = elim (Bool-cases (x.name == n)) [
  | inl hit ↦
      let other : (x.name == m) ≡ false = ground (arith, apart) in
      rw (put-here n b x d hit, put-before m n apart a b d hb)
        (rw (put-later m a x d other, put-here n b x (put m a d) hit) Perm.rfl)
  | inr miss ↦ elim (Bool-cases (x.name == m)) [
    | inl hit ↦
        rw (put-later n b x d miss, put-here m a x (put n b d) hit)
          (rw (put-here m a x d hit, put-before n m (λ e. apart (sym e)) b a d ha) Perm.rfl)
    | inr other ↦
        rw (put-later n b x d miss, put-later m a x (put n b d) other)
          (rw (put-later m a x d other, put-later n b x (put m a d) miss)
            (Perm.cons x (put_comm m n a b apart ha hb d)))
  ]
]

-- The second of two changes of different topics has the status and the topic that it would have
-- without the first.
change-put_after :
    (x y : Change) (d : Directory)
    → topic_of x ≢ topic_of y
    → let (status, new) = change_topic x (find_view (topic_of x) d) in
      change x (change y d).1 ≡ (status, put (topic_of x) new (change y d).1)
change-put_after x y d apart =
    let new = (change_topic y (find_view (topic_of y) d)).1 in
    let seen : find_view (topic_of x) (change y d).1 ≡ find_view (topic_of x) d =
      ap (λ p. find_view (topic_of x) p.1) (change-put y d)
      ∙ find_view-put (topic_of x) (topic_of y) apart new d
          (change_topic-IsFor y _ (find_view-IsFor (topic_of y) d)) in
    change-put x (change y d).1
    ∙ ap (λ old. ((change_topic x old).0, put (topic_of x) (change_topic x old).1 (change y d).1))
        seen

-- Two changes of different topics come to the same topics and have the same statuses in either
-- order; the topics may only stand in another order.
pub change_comm :
    (x y : Change) (d : Directory)
    → topic_of x ≢ topic_of y
    → ((change x (change y d).1).0 ≡ (change x d).0)
      × Perm (change x (change y d).1).1 (change y (change x d).1).1
change_comm x y d apart =
    let a = change_topic x (find_view (topic_of x) d) in
    let b = change_topic y (find_view (topic_of y) d) in
    let x_later = change-put_after x y d apart in
    let y_later = change-put_after y x d (λ e. apart (sym e)) in
    let x_first = change-put x d in
    let y_first = change-put y d in
    (
      ap (λ p. p.0) x_later ∙ ap (λ p. p.0) (sym x_first),
      subst₂ Perm (sym (ap (λ p. p.1) x_later ∙ ap (λ p. put (topic_of x) a.1 p.1) y_first))
          (sym (ap (λ p. p.1) y_later ∙ ap (λ p. put (topic_of y) b.1 p.1) x_first))
          (put_comm (topic_of x) (topic_of y) a.1 b.1 apart
            (change_topic-IsFor x _ (find_view-IsFor (topic_of x) d))
            (change_topic-IsFor y _ (find_view-IsFor (topic_of y) d)) d),
    )

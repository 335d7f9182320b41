-- ===== src/Server/Directory/Views.antt =====
-- Searching, writing and deleting topics, seen in the directory.
use verteilte_systeme_bbps.Prelude.{
  ap, ◌≡◌, ◌≢◌, refl, subst, false, Bool-cases, inl, inr, [], ◌∷◌, ◌++◌, map, none, some, All,
  Distinct, Text, ok, arith, ◌==◌, text_eq, nat_eq,
}
use verteilte_systeme_bbps.Server.Memory.{Ptr, Cells, load, store, release}
use verteilte_systeme_bbps.Server.Memory.Finding.{addresses, load-find_ptr, ne_of_load}
use verteilte_systeme_bbps.Server.Memory.Storing.{store_fresh}
use verteilte_systeme_bbps.Server.Memory.Releasing.{release_fresh}
use verteilte_systeme_bbps.Server.State.{ClientConnection, Topic}
use verteilte_systeme_bbps.Server.Topic.Laws.{endpoints-append_new, endpoints-release}
use verteilte_systeme_bbps.Server.Requests.{find_topic}
use verteilte_systeme_bbps.Server.Invariant.{IsSound}
use verteilte_systeme_bbps.Server.Directory.{
  TopicView, Directory, topic_view, find_view, replace_view, remove_view,
}

module _ (connections : Cells ClientConnection) (name : Text) where
  abbrev views : Cells Topic → Directory
  views = map (λ cell. topic_view connections cell.1)

  -- The first topic is not the one, so the search went on, and found another address.
  found_later :
      (q p : Ptr) (a : Topic) (topics : Cells Topic)
      → All (λ r. r ≢ q) (addresses topics)
      → Distinct (addresses topics)
      → (a.topic_name == name) ≡ false
      → find_topic name ((q, a) ∷ topics) ≡ some p
      → (find_topic name topics ≡ some p) × (p ≢ q)
  unfolding find_topic
  found_later q p a topics new d miss e =
      let later : find_topic name topics ≡ some p = ground arith in
      let (b, there, _) = load-find_ptr (λ t. t.topic_name == name) topics p d later in
      (later, ne_of_load p q b topics new there)

  pub find_view-none :
      (topics : Cells Topic) → find_topic name topics ≡ none → find_view name (views topics) ≡ none
  unfolding find_topic
  find_view-none [] e = refl
  find_view-none ((q, t) ∷ topics) e = ground (arith, find_view-none topics)

  pub find_view-some :
      (topics : Cells Topic) (p : Ptr) (t : Topic)
      → Distinct (addresses topics)
      → find_topic name topics ≡ some p
      → load topics p ≡ ok t
      → find_view name (views topics) ≡ some (topic_view connections t)
  unfolding find_topic load
  find_view-some [] p t d e there = cc
  find_view-some ((q, a) ∷ topics) p t (new, d) e there = elim (Bool-cases (a.topic_name == name)) [
    | inl hit ↦ ground arith
    | inr miss ↦ ground (arith, found_later q p a topics new d miss e, find_view-some topics p t d)
  ]

  -- Writing a topic replaces its view.
  pub views-store :
      (topics : Cells Topic) (p : Ptr) (b : Topic)
      → Distinct (addresses topics)
      → find_topic name topics ≡ some p
      → views (store p b topics) ≡ replace_view name (topic_view connections b) (views topics)
  unfolding find_topic store
  views-store [] p b d e = refl
  views-store ((q, a) ∷ topics) p b (new, d) e = elim (Bool-cases (a.topic_name == name)) [
    | inl hit ↦
        let same : q ≡ p = ground arith in
        ground (
          arith,
          store_fresh p b topics (subst (λ r. All (λ y. y ≢ r) (addresses topics)) same new),
        )
    | inr miss ↦ ground (arith, found_later q p a topics new d miss e, views-store topics p b d)
  ]

  pub views-release :
      (topics : Cells Topic) (p : Ptr)
      → Distinct (addresses topics)
      → find_topic name topics ≡ some p
      → views (release p topics) ≡ remove_view name (views topics)
  unfolding find_topic release
  views-release [] p d e = refl
  views-release ((q, a) ∷ topics) p (new, d) e = elim (Bool-cases (a.topic_name == name)) [
    | inl hit ↦
        let same : q ≡ p = ground arith in
        ground (
          arith,
          release_fresh p topics (subst (λ r. All (λ y. y ≢ r) (addresses topics)) same new),
        )
    | inr miss ↦ ground (arith, found_later q p a topics new d miss e, views-release topics p d)
  ]

-- A new connection changes no view.
pub views-append_new :
    (connections : Cells ClientConnection) (q : Ptr) (c : ClientConnection) (topics : Cells Topic)
    → All (IsSound connections) topics
    → map (λ (cell : Ptr × Topic). topic_view (connections ++ (q, c) ∷ []) cell.1) topics
      ≡ map (λ cell. topic_view connections cell.1) topics
views-append_new connections q c [] _ = refl
views-append_new connections q c ((_, t) ∷ topics) ((live, _), h) = ground (
  arith,
  endpoints-append_new connections q c t.subscriber_list live,
  views-append_new connections q c topics h,
)

-- Nor does the end of one that is nobody's subscriber.
pub views-release_connection :
    (connections : Cells ClientConnection) (q : Ptr) (topics : Cells Topic)
    → All (λ cell. All (λ p. p ≢ q) cell.1.subscriber_list) topics
    → map (λ (cell : Ptr × Topic). topic_view (release q connections) cell.1) topics
      ≡ map (λ cell. topic_view connections cell.1) topics
views-release_connection connections q [] _ = refl
views-release_connection connections q ((_, t) ∷ topics) (apart, h) = ground (
  arith,
  endpoints-release connections q t.subscriber_list apart,
  views-release_connection connections q topics h,
)

-- Writing a topic back as it is.
pub replace_view_same :
    (name : Text) (d : Directory) (t : TopicView)
    → find_view name d ≡ some t
    → replace_view name t d ≡ d
replace_view_same name [] t e = refl
replace_view_same name (u ∷ d) t e = ground (arith, replace_view_same name d t)

-- The directory's names are those of the server's topics.
pub names_seen :
    (connections : Cells ClientConnection) (topics : Cells Topic)
    → map
        (λ (t : TopicView). t.name)
        (map (λ (cell : Ptr × Topic). topic_view connections cell.1) topics)
      ≡ map (λ cell. cell.1.topic_name) topics
names_seen connections [] = refl
names_seen connections (cell ∷ topics) =
    ap (λ ns. cell.1.topic_name ∷ ns) (names_seen connections topics)

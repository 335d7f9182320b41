-- ===== src/Server/Heartbeat/Kept.antt =====
-- Topics that differ in their timeouts alone.
use verteilte_systeme_bbps.Prelude.{
  ◌≡◌, ◌≢◌, refl, sym, subst, ◌∙◌, [], ◌∷◌, map, All, Distinct, ℤ, text_eq, arith,
}
use mathlib.Core.Path.{ap₂, subst₂}
use verteilte_systeme_bbps.Server.Memory.{Ptr, Cells}
use verteilte_systeme_bbps.Server.Memory.Finding.{Below}
use verteilte_systeme_bbps.Server.State.{Topic, Server}
use verteilte_systeme_bbps.Server.Invariant.{IsSound, Invariant}
use verteilte_systeme_bbps.Server.Directory.{view, topic_view}

-- The same topics at the same addresses, but for their timeouts.
abbrev pub Kept : Cells Topic → Cells Topic → Type 0
Kept [] [] = Unit
Kept [] (_ ∷ _) = ⊥
Kept (_ ∷ _) [] = ⊥
Kept ((p, t) ∷ cells) ((q, u) ∷ cells') =
    (q ≡ p) × (u ≡ record t { timeout_timestamp = u.timeout_timestamp }) × Kept cells cells'

-- Whatever does not look at a topic's timeout is the same.
Kept-map {ℓ} :
    {B : Type ℓ} (f : Ptr × Topic → B)
    → ((p : Ptr) (t : Topic) (z : ℤ) → f (p, record t { timeout_timestamp = z }) ≡ f (p, t))
    → (cells cells' : Cells Topic) → Kept cells cells'
    → map f cells' ≡ map f cells
Kept-map f blind [] [] k = refl
Kept-map f blind [] (_ ∷ _) k = absurd k
Kept-map f blind (_ ∷ _) [] k = absurd k
Kept-map f blind ((p, t) ∷ cells) ((q, u) ∷ cells') (same, kind, k) =
    ap₂ (λ b bs. b ∷ bs) (ap₂ (λ r v. f (r, v)) same kind ∙ blind p t u.timeout_timestamp)
      (Kept-map f blind cells cells' k)

Kept-All {ℓ} :
    (P : Ptr × Topic → Type ℓ)
    → ((p : Ptr) (t : Topic) (z : ℤ) → P (p, t) → P (p, record t { timeout_timestamp = z }))
    → (cells cells' : Cells Topic) → Kept cells cells'
    → All P cells
    → All P cells'
Kept-All P blind [] [] k h = tt
Kept-All P blind [] (_ ∷ _) k h = absurd k
Kept-All P blind (_ ∷ _) [] k h = absurd k
Kept-All P blind ((p, t) ∷ cells) ((q, u) ∷ cells') (same, kind, k) (pt, h) = (
  subst₂ (λ r v. P (r, v)) (sym same) (sym kind) (blind p t u.timeout_timestamp pt),
  Kept-All P blind cells cells' k h,
)

Kept-Below :
    (n : Ptr) (cells cells' : Cells Topic) → Kept cells cells' → Below n cells → Below n cells'
Kept-Below n [] [] k b = tt
Kept-Below n [] (_ ∷ _) k b = absurd k
Kept-Below n (_ ∷ _) [] k b = absurd k
Kept-Below n ((p, t) ∷ cells) ((q, u) ∷ cells') (same, kind, k) (lt, b) =
    (omega arith, Kept-Below n cells cells' k b)

pub Kept-Invariant :
    (s : Server) (cells : Cells Topic)
    → Invariant s
    → Kept s.topics cells
    → Invariant (record s { topics = cells })
Kept-Invariant s cells v k =
    let w = v.well_formed in
    record {
      well_formed = record {
        topics_below = Kept-Below s.next s.topics cells k w.topics_below;
        connections_below = w.connections_below;
        topics_distinct =
            subst Distinct (sym (Kept-map (λ cell. cell.0) (λ p t z. refl) s.topics cells k))
              w.topics_distinct;
        connections_distinct = w.connections_distinct;
        names_distinct =
            subst Distinct
              (sym (Kept-map (λ cell. cell.1.topic_name) (λ p t z. refl) s.topics cells k))
              w.names_distinct;
        endpoints_distinct = w.endpoints_distinct;
        sound = Kept-All (IsSound s.client_connections) (λ p t z h. h) s.topics cells k w.sound;
      };
      populated =
          Kept-All (λ cell. cell.1.subscriber_list ≢ []) (λ p t z h. h) s.topics cells k
            v.populated;
    }

pub Kept-view :
    (s : Server) (cells : Cells Topic)
    → Kept s.topics cells
    → view (record s { topics = cells }) ≡ view s
Kept-view s cells =
    Kept-map (λ cell. topic_view s.client_connections cell.1) (λ p t z. refl) s.topics cells

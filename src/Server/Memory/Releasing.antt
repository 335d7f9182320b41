-- ===== src/Server/Memory/Releasing.antt =====
-- What deleting an object keeps and gives.
use verteilte_systeme_bbps.Prelude.{
  ◌≡◌, refl, subst, ◌≢◌, ℕ_discrete, suc, ◌≤◌, [], ◌∷◌, map, All, Distinct, length, nat_eq,
  undefined, arith,
}
use verteilte_systeme_bbps.Server.Memory.{Ptr, Cells, load, store, release}
use verteilte_systeme_bbps.Server.Memory.Finding.{addresses, Below}

module _ {ℓ} {A : Type ℓ} where
  pub All-release {κ} :
      (P : Ptr × A → Type κ) (p : Ptr) (cells : Cells A) → All P cells → All P (release p cells)
  unfolding release
  All-release P p [] h = tt
  All-release P p ((q, a) ∷ cells) (pa, h) = ground (arith, All-release P p cells h)

  pub Below-release : (n p : Ptr) (cells : Cells A) → Below n cells → Below n (release p cells)
  unfolding release
  Below-release n p [] h = tt
  Below-release n p ((q, a) ∷ cells) (lt, h) = ground (arith, Below-release n p cells h)

  pub load-release : (p q : Ptr) (cells : Cells A) → q ≢ p → load (release p cells) q ≡ load cells q
  unfolding load release
  load-release p q [] h = refl
  load-release p q ((r, a) ∷ cells) h = ground (arith, load-release p q cells h)

  -- Deleting an object undoes what was written to it.
  pub release-store :
      (p : Ptr) (b : A) (cells : Cells A) → release p (store p b cells) ≡ release p cells
  unfolding release store
  release-store p b [] = refl
  release-store p b ((r, a) ∷ cells) = ground (arith, release-store p b cells)

  pub release_fresh :
      (p : Ptr) (cells : Cells A) → All (λ q. q ≢ p) (addresses cells) → release p cells ≡ cells
  unfolding release
  release_fresh p [] h = refl
  release_fresh p ((q, a) ∷ cells) (q≢p, h) = ground (arith, release_fresh p cells h)

  -- At most one object goes.
  pub length-release :
      (p : Ptr) (cells : Cells A)
      → Distinct (addresses cells)
      → length cells ≤ suc (length (release p cells))
  unfolding release
  length-release p [] d = omega arith
  length-release p ((q, a) ∷ cells) (new, d) = elim (ℕ_discrete q p) [
    | yes same ↦
        ground
          (arith, release_fresh p cells (subst (λ r. All (λ y. y ≢ r) (addresses cells)) same new))
    | no other ↦ ground (arith, length-release p cells d)
  ]

  pub load-release_self : (p : Ptr) (cells : Cells A) → load (release p cells) p ≡ undefined
  unfolding load release
  load-release_self p [] = refl
  load-release_self p ((r, a) ∷ cells) = ground (arith, load-release_self p cells)

module _ {ℓ κ} {A : Type ℓ} {B : Type κ} (f : Ptr × A → B) where
  All-map-release :
      (P : B → Type κ) (p : Ptr) (cells : Cells A)
      → All P (map f cells)
      → All P (map f (release p cells))
  unfolding release
  All-map-release P p [] h = tt
  All-map-release P p ((q, a) ∷ cells) (pa, h) = ground (arith, All-map-release P p cells h)

  -- Fewer objects have distinct projections too.
  pub Distinct-release :
      (p : Ptr) (cells : Cells A) → Distinct (map f cells) → Distinct (map f (release p cells))
  unfolding release
  Distinct-release p [] h = tt
  Distinct-release p ((q, a) ∷ cells) (new, h) =
      ground (arith, Distinct-release p cells h, All-map-release (λ y. y ≢ f (q, a)) p cells new)

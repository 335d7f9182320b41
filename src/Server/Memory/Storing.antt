-- ===== src/Server/Memory/Storing.antt =====
-- What writing to an object keeps and gives.
use verteilte_systeme_bbps.Prelude.{
  ◌≡◌, refl, ap, subst, sym, ◌≢◌, ℕ_discrete, suc, [], ◌∷◌, map, All, Distinct, length, nat_eq,
  ◌==◌, if◌then◌else◌, ok, arith,
}
use verteilte_systeme_bbps.Server.Memory.{Ptr, Cells, load, store}
use verteilte_systeme_bbps.Server.Memory.Finding.{addresses, Below}

module _ {ℓ} {A : Type ℓ} where
  pub addresses-store :
      (p : Ptr) (b : A) (cells : Cells A) → addresses (store p b cells) ≡ addresses cells
  unfolding store
  addresses-store p b [] = refl
  addresses-store p b ((q, _) ∷ cells) = ap (◌∷◌ q) (addresses-store p b cells)

  pub Below-store :
      (n p : Ptr) (b : A) (cells : Cells A) → Below n cells → Below n (store p b cells)
  unfolding store
  Below-store n p b [] h = tt
  Below-store n p b ((q, _) ∷ cells) (lt, h) = (lt, Below-store n p b cells h)

  pub store_fresh :
      (p : Ptr) (b : A) (cells : Cells A)
      → All (λ q. q ≢ p) (addresses cells)
      → store p b cells ≡ cells
  unfolding store
  store_fresh p b [] h = refl
  store_fresh p b ((q, _) ∷ cells) (q≢p, h) = ground (arith, store_fresh p b cells h)

  -- A property of the objects that the new value has too.
  pub All-store {κ} :
      (P : Ptr × A → Type κ) (p : Ptr) (b : A) (cells : Cells A)
      → P (p, b)
      → All (λ cell. cell.0 ≢ p → P cell) cells
      → All P (store p b cells)
  unfolding store
  All-store P p b [] pb h = tt
  All-store P p b ((q, a) ∷ cells) pb (pa, h) = elim (ℕ_discrete q p) [
    | yes same ↦ (
      subst (λ c. P (q, c)) (sym (at same)) (subst (λ r. P (r, b)) (sym same) pb),
      All-store P p b cells pb h,
    )
    | no other ↦ (subst (λ c. P (q, c)) (sym (off other)) (pa other), All-store P p b cells pb h)
  ]
    where
      at : q ≡ p → (if q == p then b else a) ≡ b
      at e = ground arith

      off : q ≢ p → (if q == p then b else a) ≡ a
      off e = ground arith

  -- A projection that the new value leaves alone is the same for all objects.
  pub map-store {κ} :
      {B : Type κ} (f : A → B) (p : Ptr) (a b : A) (cells : Cells A)
      → Distinct (addresses cells)
      → load cells p ≡ ok a
      → f b ≡ f a
      → map (λ cell. f cell.1) (store p b cells) ≡ map (λ cell. f cell.1) cells
  unfolding store load
  map-store f p a b [] d h e = refl
  map-store f p a b ((q, c) ∷ cells) (new, d) h e = elim (ℕ_discrete q p) [
    | yes same ↦
        ground
          (arith, store_fresh p b cells (subst (λ r. All (λ y. y ≢ r) (addresses cells)) same new))
    | no other ↦ ground (arith, map-store f p a b cells d)
  ]

  pub load-store :
      (p : Ptr) (a b : A) (cells : Cells A) → load cells p ≡ ok a → load (store p b cells) p ≡ ok b
  unfolding load store
  load-store p a b [] h = cc
  load-store p a b ((q, c) ∷ cells) h = ground (arith, load-store p a b cells)

  pub length-store : (p : Ptr) (b : A) (cells : Cells A) → length (store p b cells) ≡ length cells
  unfolding store
  length-store p b [] = refl
  length-store p b (_ ∷ cells) = ap suc (length-store p b cells)

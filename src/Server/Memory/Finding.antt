-- ===== src/Server/Memory/Finding.antt =====
-- The addresses of the objects in memory, and what following and searching give.
use verteilte_systeme_bbps.Prelude.{
  ◌≡◌, refl, ap, subst, ◌≢◌, Bool-cases, ℕ_discrete, suc, ◌<◌, ◌≤◌, inl, inr, Bool, true, false,
  List, [], ◌∷◌, ◌++◌, map, none, some, All, Distinct, nat_eq, ok, undefined, arith,
}
use verteilte_systeme_bbps.Server.Memory.{Ptr, Cells, load, find_ptr}

abbrev pub addresses {ℓ} : {A : Type ℓ} → Cells A → List Ptr
addresses = map (λ cell. cell.0)

-- Every address is below the next one.
abbrev pub Below {ℓ} : {A : Type ℓ} → Ptr → Cells A → Type 0
Below next [] = Unit
Below next ((p, _) ∷ cells) = (p < next) × Below next cells

module _ {ℓ} {A : Type ℓ} where
  pub Below-mono : (m n : Ptr) (cells : Cells A) → m ≤ n → Below m cells → Below n cells
  Below-mono m n [] h b = tt
  Below-mono m n (_ ∷ cells) h (lt, b) = (omega arith, Below-mono m n cells h b)

  pub Below-append_one :
      (n : Ptr) (cells : Cells A) (a : A) → Below n cells → Below (suc n) (cells ++ (n, a) ∷ [])
  Below-append_one n [] a b = (omega arith, tt)
  Below-append_one n (_ ∷ cells) a (lt, b) = (omega arith, Below-append_one n cells a b)

  pub addresses-append_one :
      (cells : Cells A) (p : Ptr) (a : A)
      → addresses (cells ++ (p, a) ∷ []) ≡ addresses cells ++ p ∷ []
  addresses-append_one [] p a = refl
  addresses-append_one ((q, _) ∷ cells) p a = ap (◌∷◌ q) (addresses-append_one cells p a)

  pub Below-fresh : (n : Ptr) (cells : Cells A) → Below n cells → All (λ q. q ≢ n) (addresses cells)
  Below-fresh n [] b = tt
  Below-fresh n ((q, _) ∷ cells) (lt, b) = (omega arith, Below-fresh n cells b)

  pub load_fresh : (n : Ptr) (cells : Cells A) → Below n cells → load cells n ≡ undefined
  unfolding load
  load_fresh n [] b = refl
  load_fresh n ((q, _) ∷ cells) (lt, b) = ground (arith, load_fresh n cells b)

  -- A new object leaves the others where they are.
  pub load-append_one :
      (p q : Ptr) (a b : A) (cells : Cells A)
      → load cells p ≡ ok b
      → load (cells ++ (q, a) ∷ []) p ≡ ok b
  unfolding load
  load-append_one p q a b [] h = cc
  load-append_one p q a b ((r, c) ∷ cells) h = ground (arith, load-append_one p q a b cells)

  pub load_last :
      (n : Ptr) (a : A) (cells : Cells A) → Below n cells → load (cells ++ (n, a) ∷ []) n ≡ ok a
  unfolding load
  load_last n a [] b = ground arith
  load_last n a ((r, _) ∷ cells) (lt, b) = ground (arith, load_last n a cells b)

  -- An address that no object has is not followed.
  pub ne_of_load :
      (p q : Ptr) (a : A) (cells : Cells A)
      → All (λ r. r ≢ q) (addresses cells)
      → load cells p ≡ ok a
      → p ≢ q
  unfolding load
  ne_of_load p q a [] new h = cc
  ne_of_load p q a ((r, c) ∷ cells) (r≢q, new) h = ground (arith, ne_of_load p q a cells new)

  pub All-load {κ} :
      (P : Ptr × A → Type κ) (p : Ptr) (a : A) (cells : Cells A)
      → load cells p ≡ ok a
      → All P cells
      → P (p, a)
  unfolding load
  All-load P p a [] e h = cc
  All-load P p a ((q, b) ∷ cells) e (pb, h) = elim (ℕ_discrete q p) [
    | yes same ↦ subst P (ground arith) pb
    | no other ↦ All-load P p a cells (ground arith) h
  ]

  -- What a search finds is there and passes the test.
  pub load-find_ptr :
      (test : A → Bool) (cells : Cells A) (p : Ptr)
      → Distinct (addresses cells)
      → find_ptr test cells ≡ some p
      → (a : A) × (load cells p ≡ ok a) × (test a ≡ true)
  unfolding find_ptr load
  load-find_ptr test [] p d h = cc
  load-find_ptr test ((q, a) ∷ cells) p (new, d) h = elim (Bool-cases (test a)) [
    | inl hit ↦ (a, ground arith, hit)
    | inr miss ↦
        let (b, there, hit) = load-find_ptr test cells p d (ground arith) in
        (b, ground (arith, ne_of_load p q b cells new there), hit)
  ]

  pub find_ptr-none :
      (test : A → Bool) (cells : Cells A)
      → find_ptr test cells ≡ none
      → All (λ cell. test cell.1 ≡ false) cells
  unfolding find_ptr
  find_ptr-none test [] h = tt
  find_ptr-none test ((q, a) ∷ cells) h = (ground arith, find_ptr-none test cells (ground arith))

-- ===== src/Server/Memory.antt =====
-- Objects made by `new` and held through pointers. A vector of pointers to objects that it owns is
-- the list of those objects with their addresses: the code allocates an object exactly where it
-- pushes its address, and deletes it exactly where it erases the address. An address is never
-- used again, so that a dangling pointer is always noticed.
pub mod Finding
pub mod Storing
pub mod Releasing
use verteilte_systeme_bbps.Prelude.{
  ℕ, ◌≡◌, Bool, List, [], ◌∷◌, map, Option, none, some, Eq, nat_eq, ◌==◌, if◌then◌else◌, Outcome,
  ok, undefined,
}

abbrev pub Ptr : Type 0
Ptr = ℕ

abbrev pub Cells {ℓ} : Type ℓ → Type ℓ
Cells A = List (Ptr × A)

module _ {ℓ} {A : Type ℓ} where
  -- `*ptr`
  unfoldable pub load : Cells A → Ptr → Outcome A
  load [] p = undefined
  load ((q, a) ∷ cells) p = if q == p then ok a else load cells p

  -- `*ptr` where `ptr` may be null
  unfoldable pub load_nullable : Cells A → Option Ptr → Outcome A
  load_nullable cells none = undefined
  load_nullable cells (some p) = load cells p

  -- What a member function leaves in `*ptr`.
  unfoldable pub store : Ptr → A → Cells A → Cells A
  store p b [] = []
  store p b ((q, a) ∷ cells) = (q, if q == p then b else a) ∷ store p b cells

  -- `v.erase(remove(v.begin(), v.end(), ptr), v.end()); delete ptr`
  unfoldable pub release : Ptr → Cells A → Cells A
  release p [] = []
  release p ((q, a) ∷ cells) = let rest = release p cells in if q == p then rest else (q, a) ∷ rest

  -- The address of the first object that passes the test; `none` is `nullptr`.
  unfoldable pub find_ptr : (A → Bool) → Cells A → Option Ptr
  find_ptr test [] = none
  find_ptr test ((q, a) ∷ cells) = if test a then some q else find_ptr test cells

-- `v.erase(remove(v.begin(), v.end(), ptr), v.end())`
unfoldable pub erase_ptr : Ptr → List Ptr → List Ptr
erase_ptr p [] = []
erase_ptr p (q ∷ qs) = let rest = erase_ptr p qs in if q == p then rest else q ∷ rest

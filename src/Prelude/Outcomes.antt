-- ===== src/Prelude/Outcomes.antt =====
-- What a C++ call may do: return, throw, or run into undefined behaviour (a null or dangling
-- pointer that is followed).
use mathlib.Core.Path.{◌≡◌, refl}
use mathlib.Core.Logic.{◌≢◌}
use mathlib.Core.List.{List}
use mathlib.Core.Bool.{Bool, true, false}
use verteilte_systeme_bbps.Prelude.Tests.{if◌then◌else◌}
use Prim.Native.Nat.{ℕ}

-- The classes of `std::exception` that the program meets. `json_error` is `Json::Exception`, which
-- derives from `std::exception` directly, as no class of the standard library does here.
pub data Exception : Type 0 where
  runtime_error : List ℕ → Exception
  invalid_argument out_of_range json_error : Exception

pub data Outcome {ℓ} (A : Type ℓ) : Type ℓ where
  ok : A → Outcome A
  throws : Exception → Outcome A
  undefined : Outcome A

-- One statement after the other: what ends the first ends both.
infixl 5 ◌>>=◌
abbrev pub ◌>>=◌ {κ ℓ} : {B : Type ℓ} {A : Type κ} → Outcome B → (B → Outcome A) → Outcome A
undefined >>= continue = undefined
throws exception >>= continue = throws exception
ok value >>= continue = continue value

-- What is returned has the property, or an exception is thrown.
abbrev pub Gives {ℓ} : {A : Type ℓ} → (A → Type 0) → Outcome A → Type 0
Gives P (ok a) = P a
Gives P (throws e) = Unit
Gives P undefined = ⊥

pub Gives-bind {ℓ κ} :
    {A : Type ℓ} {B : Type κ} (P : A → Type 0) (Q : B → Type 0) (m : Outcome A) (f : A → Outcome B)
    → Gives P m
    → ((a : A) → P a → Gives Q (f a))
    → Gives Q (m >>= f)
Gives-bind P Q (ok a) f h k = k a h
Gives-bind P Q (throws e) f h k = tt
Gives-bind P Q undefined f h k = absurd h

pub Gives-if {ℓ} :
    {A : Type ℓ} (P : A → Type 0) (b : Bool) (x y : Outcome A)
    → Gives P x
    → Gives P y
    → Gives P (if b then x else y)
Gives-if P true x y hx hy = hx
Gives-if P false x y hx hy = hy

-- The call returns or throws.
abbrev pub IsDefined {ℓ} : {A : Type ℓ} → Outcome A → Type 0
IsDefined o = Gives (λ _. Unit) o

pub >>=-assoc {ℓ κ μ} :
    {A : Type ℓ} {B : Type κ} {C : Type μ} (m : Outcome A) (f : A → Outcome B) (g : B → Outcome C)
    → ((m >>= f) >>= g) ≡ (m >>= λ a. f a >>= g)
>>=-assoc (ok a) f g = refl
>>=-assoc (throws e) f g = refl
>>=-assoc undefined f g = refl

-- What comes of two calls, one after the other.
pub bind-ok {ℓ κ} :
    {A : Type ℓ} {B : Type κ} (m : Outcome A) (f : A → Outcome B) (b : B)
    → (m >>= f) ≡ ok b
    → (a : A) × (m ≡ ok a) × (f a ≡ ok b)
bind-ok (ok a) f b h = (a, refl, h)
bind-ok (throws e) f b h = cc
bind-ok undefined f b h = cc

pub ok-injective {ℓ} : {A : Type ℓ} (a b : A) → ok a ≡ ok b → a ≡ b
ok-injective a b h = cc

pub throws-ne-ok {ℓ} : {A : Type ℓ} (x : Exception) (a : A) → throws x ≢ ok a
throws-ne-ok x a e = cc

pub undefined-ne-ok {ℓ} : {A : Type ℓ} (a : A) → undefined ≢ ok a
undefined-ne-ok a e = cc

-- ===== src/Std/Decimal/RoundTrip.antt =====
-- A number that is printed by `to_string` is read back by `stoi` and `stoll`.
use verteilte_systeme_bbps.Prelude.{
  negsuc, ◌-◌, All-map, throws, out_of_range, ◌≡◌, refl, ◌∙◌, ℕ, zero, suc, ◌+◌, ◌/◌, ◌%◌, ◌^◌, ◌≤◌,
  ◌<◌, true, [], ◌∷◌, pos, Text, arith, ok, ltb, ap, sym, Bool-cases, inl, inr, All, ◌≢◌,
}
use verteilte_systeme_bbps.Std.Decimal.{
  is_digit, digits, to_string_ℕ, to_string, value, strto, stoi, stoll,
}

-- `digits` only puts digits before `out`, and reading them on from 0 gives `n`.
value-digits : (fuel n : ℕ) (out : Text) → n ≤ fuel → value 0 (digits fuel n out) ≡ value n out
unfolding value digits
value-digits zero n out h = ground arith
value-digits (suc fuel) n out h = ground (arith, value-digits fuel (n / 10) ((b'0' + n % 10) ∷ out))

-- A text that begins with a digit.
abbrev Leads : Text → Type 0
Leads s = (c : ℕ) × (r : Text) × (s ≡ c ∷ r) × (is_digit c ≡ true)

digits-Leads : (fuel n : ℕ) (out : Text) → Leads (digits fuel n out)
unfolding digits
digits-Leads zero n out = (b'0' + n % 10, out, refl, ground arith)
digits-Leads (suc fuel) n out = elim (Bool-cases (ltb n 10)) [
  | inl last ↦ (b'0' + n, out, rw last refl, ground arith)
  | inr more ↦ rw more (digits-Leads fuel (n / 10) ((b'0' + n % 10) ∷ out))
]

strto-digit :
    (limit c : ℕ) (r : Text)
    → is_digit c ≡ true
    → value 0 (c ∷ r) < limit
    → strto limit (c ∷ r) ≡ ok (pos (value 0 (c ∷ r)))
unfolding strto
strto-digit limit c r h fits = ground arith

strto-to_string_ℕ : (limit n : ℕ) → n < limit → strto limit (to_string_ℕ n) ≡ ok (pos n)
unfolding to_string_ℕ value
strto-to_string_ℕ limit n fits =
    let (c, r, e, digit) = digits-Leads n n [] in
    let exact : value 0 (c ∷ r) ≡ n = ap (value 0) (sym e) ∙ value-digits n n [] (omega arith) in
    rw e (strto-digit limit c r digit (rw exact fits) ∙ ap (λ m. ok (pos m)) exact)

-- Every number below 2^31 that is printed is read back by `stoi`.
pub stoi-to_string : (n : ℕ) → n < 2 ^ 31 → stoi (to_string (pos n)) ≡ ok (pos n)
unfolding stoi to_string
stoi-to_string n fits = strto-to_string_ℕ (2 ^ 31) n fits

strto-minus :
    (limit c : ℕ) (r : Text)
    → is_digit c ≡ true
    → value 0 (c ∷ r) ≤ limit
    → 1 ≤ value 0 (c ∷ r)
    → strto limit (b'-' ∷ c ∷ r) ≡ ok (negsuc (value 0 (c ∷ r) - 1))
unfolding strto
strto-minus limit c r h fits some = ground arith

-- A negative number that is printed is read back by `stoi`, down to -2^31.
pub stoi-to_string_negsuc : (n : ℕ) → n < 2 ^ 31 → stoi (to_string (negsuc n)) ≡ ok (negsuc n)
unfolding stoi to_string to_string_ℕ value
stoi-to_string_negsuc n fits =
    let (c, r, e, digit) = digits-Leads (n + 1) (n + 1) [] in
    let exact : value 0 (c ∷ r) ≡ n + 1 =
      ap (value 0) (sym e) ∙ value-digits (n + 1) (n + 1) [] (omega arith) in
    let same : value 0 (c ∷ r) - 1 ≡ n = omega (arith, exact) in
    rw e (
      strto-minus (2 ^ 31) c r digit (omega (arith, exact)) (omega (arith, exact))
      ∙ ap (λ m. ok (negsuc m)) same)

strto_out :
    (limit c : ℕ) (r : Text)
    → is_digit c ≡ true
    → limit ≤ value 0 (c ∷ r)
    → strto limit (c ∷ r) ≡ throws out_of_range
unfolding strto
strto_out limit c r h large = ground arith

strto-to_string_out : (limit n : ℕ) → limit ≤ n → strto limit (to_string_ℕ n) ≡ throws out_of_range
unfolding to_string_ℕ value
strto-to_string_out limit n large =
    let (c, r, e, digit) = digits-Leads n n [] in
    let exact : value 0 (c ∷ r) ≡ n = ap (value 0) (sym e) ∙ value-digits n n [] (omega arith) in
    rw e (strto_out limit c r digit (rw exact large))

-- Every number from 2^31 on is out of range, and from 2^63 on for `stoll`.
pub stoi-to_string_out : (n : ℕ) → 2 ^ 31 ≤ n → stoi (to_string (pos n)) ≡ throws out_of_range
unfolding stoi to_string
stoi-to_string_out n large = strto-to_string_out (2 ^ 31) n large

pub stoll-to_string_out : (n : ℕ) → 2 ^ 63 ≤ n → stoll (to_string_ℕ n) ≡ throws out_of_range
unfolding stoll
stoll-to_string_out n large = strto-to_string_out (2 ^ 63) n large

-- And every number below 2^63 by `stoll`.
pub stoll-to_string_ℕ : (n : ℕ) → n < 2 ^ 63 → stoll (to_string_ℕ n) ≡ ok (pos n)
unfolding stoll
stoll-to_string_ℕ n fits = strto-to_string_ℕ (2 ^ 63) n fits

to_string_ℕ-Leads : (n : ℕ) → Leads (to_string_ℕ n)
unfolding to_string_ℕ
to_string_ℕ-Leads n = digits-Leads n n []

digits-IsDigit :
    (fuel n : ℕ) (out : Text)
    → All (λ c. is_digit c ≡ true) out
    → All (λ c. is_digit c ≡ true) (digits fuel n out)
unfolding digits
digits-IsDigit zero n out h = (ground arith, h)
digits-IsDigit (suc fuel) n out h = elim (Bool-cases (ltb n 10)) [
  | inl last ↦ rw last (ground arith, h)
  | inr more ↦ rw more (digits-IsDigit fuel (n / 10) ((b'0' + n % 10) ∷ out) (ground arith, h))
]

pub to_string_ℕ-digits : (n : ℕ) → All (λ c. is_digit c ≡ true) (to_string_ℕ n)
unfolding to_string_ℕ
to_string_ℕ-digits n = digits-IsDigit n n [] tt

pub to_string_ℕ-ascii : (n : ℕ) → All (λ c. c < 128) (to_string_ℕ n)
to_string_ℕ-ascii n = All-map (λ c h. ground arith) (to_string_ℕ n) (to_string_ℕ-digits n)

pub to_string_ℕ-ne-nil : (n : ℕ) → to_string_ℕ n ≢ []
to_string_ℕ-ne-nil n h = let (c, r, e, _) = to_string_ℕ-Leads n in cc

-- ===== src/Std/Decimal.antt =====
-- `to_string` on integers and `stoi`, `stoll`.
pub mod RoundTrip
pub mod Defined
use verteilte_systeme_bbps.Prelude.{
  ℕ, zero, suc, ◌+◌, ◌-◌, ◌*◌, ◌/◌, ◌%◌, ◌^◌, ◌≤◌, Bool, true, false, ◌&&◌, ◌||◌, [], ◌∷◌, ℤ, pos,
  negsuc, Text, ltb, leb, ◌==◌, nat_eq, if◌then◌else◌, Outcome, ok, throws, invalid_argument,
  out_of_range,
}

-- The digits of `n` before `out`. Each round divides by ten, so `n` rounds are enough.
digits : ℕ → ℕ → Text → Text
digits zero n out = (b'0' + n % 10) ∷ out
digits (suc fuel) n out =
    let rest = digits fuel (n / 10) ((b'0' + n % 10) ∷ out) in
    if ltb n 10 then (b'0' + n) ∷ out else rest

-- `std::to_string` of an unsigned integer
unfoldable pub to_string_ℕ : ℕ → Text
unfolding digits
to_string_ℕ n = digits n n []

-- `std::to_string` of a signed integer
unfoldable pub to_string : ℤ → Text
unfolding to_string_ℕ
to_string (pos n) = to_string_ℕ n
to_string (negsuc n) = b'-' ∷ to_string_ℕ (n + 1)

abbrev pub is_digit : ℕ → Bool
is_digit c = leb b'0' c && leb c b'9'

-- `isspace` of the C locale
abbrev is_space : ℕ → Bool
is_space c = leb 9 c && leb c 13 || leb b' ' c && leb c b' '

-- The value that the leading digits spell behind `n`.
value : ℕ → Text → ℕ
value n [] = n
value n (c ∷ s) = if is_digit c then value (n * 10 + (c - b'0')) s else n

-- `strtol` after the sign. A number outside the range of the type is `out_of_range`.
convert : (limit : ℕ) → Bool → Text → Outcome ℤ
unfolding value
convert limit negative [] = throws invalid_argument
convert limit negative (c ∷ s) =
    let n = value 0 (c ∷ s) in
    if is_digit c
    then (if negative
        then (if leb n limit
            then ok (if leb 1 n then negsuc (n - 1) else pos 0)
            else throws out_of_range)
        else (if ltb n limit then ok (pos n) else throws out_of_range))
    else throws invalid_argument

sign : (limit : ℕ) → Text → Outcome ℤ
unfolding convert
sign limit [] = throws invalid_argument
sign limit (c ∷ s) =
    if leb b'-' c && leb c b'-'
    then convert limit true s
    else if leb b'+' c && leb c b'+'
    then convert limit false s
    else convert limit false (c ∷ s)

strto : (limit : ℕ) → Text → Outcome ℤ
unfolding sign
strto limit [] = throws invalid_argument
strto limit (c ∷ s) = let rest = strto limit s in if is_space c then rest else sign limit (c ∷ s)

-- What stands behind the number is left unread.
unfoldable pub stoi : Text → Outcome ℤ
unfolding strto
stoi = strto (2 ^ 31)

unfoldable pub stoll : Text → Outcome ℤ
unfolding strto
stoll = strto (2 ^ 63)

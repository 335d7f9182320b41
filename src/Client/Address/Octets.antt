-- ===== src/Client/Address/Octets.antt =====
-- Which addresses are taken.
use verteilte_systeme_bbps.Prelude.{
  subst, ℕ, suc, ◌+◌, ◌≡◌, ◌≢◌, ◌≤◌, refl, ap, sym, ◌∙◌, Bool, true, false, Bool-cases, inl, inr,
  List, [], ◌∷◌, ◌++◌, map, length, All, All-map, Text, ℤ, pos, negsuc, ltb, nat_eq, ◌==◌, Outcome,
  ok, throws, undefined, runtime_error, invalid_argument, out_of_range, json_error, ◌>>=◌,
  if◌then◌else◌, arith, ◌↔◌,
}
use verteilte_systeme_bbps.Std.Decimal.{stoi, to_string_ℕ, to_string, is_digit}
use verteilte_systeme_bbps.Std.Decimal.RoundTrip.{
  stoi-to_string, to_string_ℕ-ne-nil, to_string_ℕ-digits,
}
use verteilte_systeme_bbps.Std.Getline.{split_tokens}
use verteilte_systeme_bbps.Std.Getline.Tokens.{joined, IsToken, split_tokens-joined}
use verteilte_systeme_bbps.Client.Address.{octet_round, count_octets, back, is_valid_ipv4_address}

-- `stoi` finds a number from 0 to 255 at its beginning.
abbrev pub IsOctet : Text → Type 0
IsOctet t = (n : ℕ) × (stoi t ≡ ok (pos n)) × (n ≤ 255)

octet_round-true :
    (o : Outcome ℤ) (rest : Outcome Bool)
    → octet_round o rest ≡ ok true
    → ((n : ℕ) × (o ≡ ok (pos n)) × (n ≤ 255)) × (rest ≡ ok true)
unfolding octet_round
octet_round-true (ok (pos n)) rest h = elim (Bool-cases (ltb 255 n)) [
  | inl large ↦ let e : ok false ≡ ok true = rw large at h in cc
  | inr fits ↦ ((n, refl, ground arith), rw fits at h)
]
octet_round-true (ok (negsuc n)) rest h = cc
octet_round-true (throws (runtime_error w)) rest h = cc
octet_round-true (throws invalid_argument) rest h = cc
octet_round-true (throws out_of_range) rest h = cc
octet_round-true (throws json_error) rest h = cc
octet_round-true undefined rest h = cc

octet_round-IsOctet :
    (t : Text) (rest : Outcome Bool) → IsOctet t → octet_round (stoi t) rest ≡ rest
unfolding octet_round
octet_round-IsOctet t rest (n, e, fits) = rw e (ground arith)

count_octets-true :
    (k : ℕ) (ts : List Text) → count_octets k ts ≡ ok true → (k + length ts ≡ 4) × All IsOctet ts
unfolding count_octets
count_octets-true k [] h = (ground arith, tt)
count_octets-true k (t ∷ ts) h =
    let (octet, rest) = octet_round-true (stoi t) (count_octets (suc k) ts) h in
    let (four, octets) = count_octets-true (suc k) ts rest in (omega arith, (octet, octets))

count_octets-IsOctet :
    (k : ℕ) (ts : List Text) → All IsOctet ts → k + length ts ≡ 4 → count_octets k ts ≡ ok true
unfolding count_octets
count_octets-IsOctet k [] _ four = ground arith
count_octets-IsOctet k (t ∷ ts) (octet, octets) four =
    octet_round-IsOctet t (count_octets (suc k) ts) octet
    ∙ count_octets-IsOctet (suc k) ts octets (omega arith)

-- The text does not end with a dot.
abbrev pub IsOpen : Text → Type 0
IsOpen s = (c : ℕ) × (back s ≡ ok c) × (c ≢ b'.')

-- An address is accepted if and only if it is not empty, does not end in a dot, and falls at its
-- dots into four parts, each of which `stoi` reads as a number from 0 to 255.
pub is_valid_ipv4_address_lem :
    (s : Text)
    → (is_valid_ipv4_address s ≡ ok true)
      ↔ (IsOpen s × (length (split_tokens b'.' s) ≡ 4) × All IsOctet (split_tokens b'.' s))
unfolding is_valid_ipv4_address
is_valid_ipv4_address_lem s = (forward (back s) refl, backward)
  where
    forward :
        (o : Outcome ℕ)
        → back s ≡ o
        → (o >>= λ last. if last == b'.' then ok false else count_octets 0 (split_tokens b'.' s))
          ≡ ok true
        → IsOpen s × (length (split_tokens b'.' s) ≡ 4) × All IsOctet (split_tokens b'.' s)
    forward (ok c) e h = elim (Bool-cases (c == b'.')) [
      | inl dot ↦ let f : ok false ≡ ok true = rw dot at h in cc
      | inr no_dot ↦
          let (four, octets) = count_octets-true 0 (split_tokens b'.' s) (rw no_dot at h) in
          ((c, e, ground arith), omega (arith, four), octets)
    ]
    forward (throws x) e h = cc
    forward undefined e h = cc

    backward :
        IsOpen s × (length (split_tokens b'.' s) ≡ 4) × All IsOctet (split_tokens b'.' s)
        → is_valid_ipv4_address s ≡ ok true
    backward ((c, e, no_dot), four, octets) =
        let differ : (c == b'.') ≡ false = ground arith in
        rw (e, is_valid_ipv4_address)
          (rw differ (count_octets-IsOctet 0 (split_tokens b'.' s) octets (omega (arith, four))))

IsOpen-cons : (c : ℕ) (s : Text) → IsOpen s → IsOpen (c ∷ s)
unfolding back
IsOpen-cons c [] (d, e, h) = absurd (cc)
IsOpen-cons c (d ∷ s) h = h

IsOpen-append : (t s : Text) → IsOpen s → IsOpen (t ++ s)
IsOpen-append [] s h = h
IsOpen-append (c ∷ t) s h = IsOpen-cons c (t ++ s) (IsOpen-append t s h)

digits-IsOpen : (t : Text) → t ≢ [] → All (λ c. is_digit c ≡ true) t → IsOpen t
unfolding back
digits-IsOpen [] some_text h = absurd (some_text refl)
digits-IsOpen (c ∷ []) some_text h = (c, refl, ground arith)
digits-IsOpen (c ∷ d ∷ t) some_text h = digits-IsOpen (d ∷ t) (λ e. cc) h.1

abbrev pub dotted : List ℕ → Text
dotted ns = joined b'.' (map to_string_ℕ ns)

dotted-IsOpen : (n : ℕ) (ns : List ℕ) → IsOpen (dotted (n ∷ ns))
dotted-IsOpen n [] = digits-IsOpen (to_string_ℕ n) (to_string_ℕ-ne-nil n) (to_string_ℕ-digits n)
dotted-IsOpen n (m ∷ ns) =
    IsOpen-append (to_string_ℕ n) (b'.' ∷ dotted (m ∷ ns))
      (IsOpen-cons b'.' (dotted (m ∷ ns)) (dotted-IsOpen m ns))

tokens_of : (ns : List ℕ) → All (IsToken b'.') (map to_string_ℕ ns)
tokens_of [] = tt
tokens_of (n ∷ ns) = (
  (to_string_ℕ-ne-nil n, All-map (λ c h. ground arith) (to_string_ℕ n) (to_string_ℕ-digits n)),
  tokens_of ns,
)

octets_of : (ns : List ℕ) → All (λ n. n ≤ 255) ns → All IsOctet (map to_string_ℕ ns)
unfolding to_string
octets_of [] _ = tt
octets_of (n ∷ ns) (fits, h) = ((n, stoi-to_string n (omega arith), fits), octets_of ns h)

-- Four.
pub is_valid_ipv4_address-dotted :
    (a b c d : ℕ)
    → All (λ n. n ≤ 255) (a ∷ b ∷ c ∷ d ∷ [])
    → is_valid_ipv4_address (dotted (a ∷ b ∷ c ∷ d ∷ [])) ≡ ok true
is_valid_ipv4_address-dotted a b c d small =
    let ns = a ∷ b ∷ c ∷ d ∷ [] in
    let e = split_tokens-joined b'.' (map to_string_ℕ ns) (tokens_of ns) in
    (is_valid_ipv4_address_lem (dotted ns)).1 (
      dotted-IsOpen a (b ∷ c ∷ d ∷ []),
      ap length e,
      subst (All IsOctet) (sym e) (octets_of ns small),
    )

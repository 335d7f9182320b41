-- ===== src/Client/Received.antt =====
-- Texts without a zero byte go through a buffer unchanged.
use verteilte_systeme_bbps.Prelude.{
  ℕ, zero, suc, ◌<◌, ◌≡◌, ◌≢◌, refl, ap, false, [], ◌∷◌, length, All, Text, nat_eq, ◌==◌, ok, ◌>>=◌,
  arith,
}
use verteilte_systeme_bbps.Client.{c_string, until_zero}

pub c_string-fits : (n : ℕ) (s : Text) → All (λ c. c ≢ 0) s → length s < n → c_string n s ≡ ok s
unfolding c_string
c_string-fits zero s _ h = absurd (omega arith)
c_string-fits (suc n) [] _ h = refl
c_string-fits (suc n) (c ∷ s) (hc, hs) h =
    let differ : (c == 0) ≡ false = ground arith in
    rw (differ, c_string)
      (ap (λ o. o >>= λ rest. ok (c ∷ rest)) (c_string-fits n s hs (omega arith)))

pub until_zero_whole : (s : Text) → All (λ c. c ≢ 0) s → until_zero s ≡ s
unfolding until_zero
until_zero_whole [] _ = refl
until_zero_whole (c ∷ s) (hc, hs) = ground (arith, until_zero_whole s hs)

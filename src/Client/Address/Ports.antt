-- ===== src/Client/Address/Ports.antt =====
-- Which port numbers are taken.
use verteilte_systeme_bbps.Prelude.{
  ℕ, ◌^◌, ◌≡◌, ap, ◌∙◌, Bool-cases, inl, inr, pos, negsuc, leb, ltb, ok, if◌then◌else◌, arith,
}
use verteilte_systeme_bbps.Std.Decimal.{to_string_ℕ, to_string}
use verteilte_systeme_bbps.Std.Decimal.RoundTrip.{stoi-to_string, stoi-to_string_out}
use verteilte_systeme_bbps.Client.Address.{port_of, get_port_number}

-- The decimal digits of a natural number, however large, are read as the port of that number if it
-- is at most 65535, and as -1 otherwise.
pub get_port_number-to_string_ℕ :
    (n : ℕ) → get_port_number (to_string_ℕ n) ≡ ok (if leb n 65535 then pos n else negsuc 0)
unfolding get_port_number port_of to_string
get_port_number-to_string_ℕ n = elim (Bool-cases (ltb n (2 ^ 31))) [
  | inl fits ↦ ap port_of (stoi-to_string n (ground arith)) ∙ ground arith
  | inr large ↦ ap port_of (stoi-to_string_out n (ground arith)) ∙ ground arith
]

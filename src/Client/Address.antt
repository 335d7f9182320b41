-- ===== src/Client/Address.antt =====
-- `getPortNumber` and `isValidIPv4Address` of client/main.cpp.
pub mod Ports
pub mod Octets
use verteilte_systeme_bbps.Prelude.{
  ℕ, zero, suc, Bool, true, false, ◌||◌, List, [], ◌∷◌, Text, ℤ, pos, negsuc, le_ℤ, nat_eq, ◌==◌,
  if◌then◌else◌, ltb, Outcome, ok, throws, undefined, runtime_error, invalid_argument, out_of_range,
  json_error, ◌>>=◌,
}
use verteilte_systeme_bbps.Std.Decimal.{stoi}
use verteilte_systeme_bbps.Std.Getline.{split_tokens}

-- `port > 65535 || port < 0`
abbrev out_of_ports : ℤ → Bool
out_of_ports (pos n) = ltb 65535 n
out_of_ports (negsuc n) = true

-- What `stoi` gave, or -1 for whatever it threw.
unfoldable pub port_of : Outcome ℤ → Outcome ℤ
port_of (ok port) = ok (if out_of_ports port then negsuc 0 else port)
port_of (throws e) = ok (negsuc 0)
port_of undefined = undefined

unfoldable pub get_port_number : Text → Outcome ℤ
unfolding port_of stoi
get_port_number port_str = port_of (stoi port_str)

-- `value < 0 || value > 255`
abbrev out_of_octets : ℤ → Bool
out_of_octets (pos n) = ltb 255 n
out_of_octets (negsuc n) = true

-- The body of the `while` loop for what `stoi` gave; `rest` is what the rounds behind it give.
unfoldable pub octet_round : Outcome ℤ → Outcome Bool → Outcome Bool
octet_round (ok value) rest = if out_of_octets value then ok false else rest
octet_round (throws (runtime_error what)) rest = throws (runtime_error what)
octet_round (throws invalid_argument) rest = ok false
octet_round (throws out_of_range) rest = ok false
octet_round (throws json_error) rest = throws json_error
octet_round undefined rest = undefined

-- The `while` loop over the octets that are left, and the test of their number behind it.
unfoldable pub count_octets : ℕ → List Text → Outcome Bool
unfolding octet_round stoi
count_octets octet_count [] = ok (octet_count == 4)
count_octets octet_count (octet ∷ octets) =
    octet_round (stoi octet) (count_octets (suc octet_count) octets)

-- `back()`, which the empty text does not have
unfoldable pub back : Text → Outcome ℕ
back [] = undefined
back (c ∷ []) = ok c
back (c ∷ d ∷ s) = back (d ∷ s)

unfoldable pub is_valid_ipv4_address : Text → Outcome Bool
unfolding back count_octets split_tokens
is_valid_ipv4_address ip_address = do
  last ← back ip_address
  if last == b'.' then ok false else count_octets 0 (split_tokens b'.' ip_address)

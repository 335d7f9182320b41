-- ===== src/Server/CommandLine/Settings.antt =====
-- What the server's arguments set.
use verteilte_systeme_bbps.Prelude.{
  ◌⊎◌, ℕ, ◌^◌, ◌≤◌, ◌<◌, ◌≡◌, refl, ap, subst, Bool, true, false, inl, inr, List, [], ◌∷◌, ◌++◌,
  Text, codes, ℤ, pos, negsuc, ltb, text_eq, if◌then◌else◌, Outcome, ok, throws, undefined, arith,
}
use verteilte_systeme_bbps.Std.Decimal.{stoi, to_string}
use verteilte_systeme_bbps.Std.Decimal.RoundTrip.{stoi-to_string, stoi-to_string_negsuc}
use verteilte_systeme_bbps.Server.CommandLine.{
  Options, default_options, Parsed, Word, word_of, out_of_range_port, with_number, last_round,
  value_round, parse_from, parse,
}

abbrev Starts : Outcome Parsed → Options → Type 0
Starts m o = m ≡ ok (Parsed.start o)

with_number-start :
    (m : Outcome ℤ) (next : ℤ → Outcome Parsed) (o : Options)
    → Starts (with_number m next) o
    → (n : ℤ) × (m ≡ ok n) × Starts (next n) o
unfolding with_number
with_number-start (ok n) next o h = (n, refl, h)
with_number-start (throws e) next o h = cc
with_number-start undefined next o h = cc

-- A port that `main` lets through.
abbrev pub IsPort : ℤ → Type 0
IsPort z = (n : ℕ) × (z ≡ pos n) × (n ≤ 65535)

IsPort-checked : (z : ℤ) → out_of_range_port z ≡ false → IsPort z
IsPort-checked (pos n) h = (n, refl, ground arith)
IsPort-checked (negsuc n) h = cc

checked-start :
    (bad : Bool) (m : Outcome Parsed) (o : Options)
    → Starts (if bad then ok Parsed.refused else m) o
    → (bad ≡ false) × Starts m o
checked-start true m o h = cc
checked-start false m o h = (refl, h)

module _ (value : Text) (behind at_value : Options → Outcome Parsed) (o' : Options) where
  -- The round goes on to one of the two loops.
  value_round-start :
      (w : Word) (o : Options)
      → Starts (value_round w value behind at_value o) o'
      → (behind2 at_value2 : Options → Outcome Parsed) (m : Outcome Parsed)
      → ((o1 : Options) → Starts (behind o1) o' → behind2 o1 ≡ m)
      → ((o1 : Options) → Starts (at_value o1) o' → at_value2 o1 ≡ m)
      → value_round w value behind2 at_value2 o ≡ m
  unfolding value_round with_number
  value_round-start Word.help_word o h _ _ m f g = cc
  value_round-start Word.port_word o h behind2 _ m f g =
      let (port, e, k) = with_number-start (stoi value) _ o' h in
      let (good, l) = checked-start (out_of_range_port port) _ o' k in
      rw e (rw good (f (record o { port = port }) l))
  value_round-start Word.timeout_word o h behind2 _ m f g =
      let (timeout, e, k) = with_number-start (stoi value) _ o' h in
      rw e (f (record o { topic_timeout = timeout }) k)
  value_round-start Word.debug_word o h _ at_value2 m f g = g o h
  value_round-start Word.other_word o h _ _ m f g = cc

  value_round-IsPort :
      (w : Word) (o : Options)
      → IsPort o.port
      → Starts (value_round w value behind at_value o) o'
      → ((o1 : Options) → IsPort o1.port → Starts (behind o1) o' → IsPort o'.port)
      → ((o1 : Options) → IsPort o1.port → Starts (at_value o1) o' → IsPort o'.port)
      → IsPort o'.port
  unfolding value_round
  value_round-IsPort Word.help_word o p h f g = cc
  value_round-IsPort Word.port_word o p h f g =
      let (port, e, k) = with_number-start (stoi value) _ o' h in
      let (good, l) = checked-start (out_of_range_port port) _ o' k in
      f (record o { port = port }) (IsPort-checked port good) l
  value_round-IsPort Word.timeout_word o p h f g =
      let (timeout, e, k) = with_number-start (stoi value) _ o' h in
      f (record o { topic_timeout = timeout }) p k
  value_round-IsPort Word.debug_word o p h f g = g o p h
  value_round-IsPort Word.other_word o p h f g = cc

last_round-start :
    (w : Word) (o o' : Options) → Starts (last_round w o) o' → (w ≡ Word.debug_word) × (o ≡ o')
unfolding last_round
last_round-start Word.help_word o o' h = cc
last_round-start Word.port_word o o' h = cc
last_round-start Word.timeout_word o o' h = cc
last_round-start Word.debug_word o o' h = (refl, cc)
last_round-start Word.other_word o o' h = cc

start-injective : (o o' : Options) → Starts (ok (Parsed.start o)) o' → o ≡ o'
start-injective o o' h = cc

-- Append.
pub parse_from-append :
    (xs ys : List Text) (o o' : Options)
    → parse_from xs o ≡ ok (Parsed.start o')
    → parse_from (xs ++ ys) o ≡ parse_from ys o'
unfolding parse_from value_round
parse_from-append [] ys o o' h = ap (parse_from ys) (start-injective o o' h)
parse_from-append (arg ∷ []) [] o o' h = h
parse_from-append (arg ∷ []) (y ∷ ys) o o' h =
    let (e, same) = last_round-start (word_of arg) o o' h in rw e (ap (parse_from (y ∷ ys)) same)
parse_from-append (arg ∷ value ∷ rest) ys o o' h =
    value_round-start value (parse_from rest) (parse_from (value ∷ rest)) o' (word_of arg) o h
      (parse_from (rest ++ ys)) (parse_from (value ∷ (rest ++ ys))) (parse_from ys o')
      (λ o1 k. parse_from-append rest ys o1 o' k)
      (λ o1 k. parse_from-append (value ∷ rest) ys o1 o' k)

parse_from-IsPort :
    (xs : List Text) (o o' : Options)
    → IsPort o.port
    → parse_from xs o ≡ ok (Parsed.start o')
    → IsPort o'.port
unfolding parse_from
parse_from-IsPort [] o o' p h = subst (λ q. IsPort q.port) (start-injective o o' h) p
parse_from-IsPort (arg ∷ []) o o' p h =
    subst (λ q. IsPort q.port) (last_round-start (word_of arg) o o' h).1 p
parse_from-IsPort (arg ∷ value ∷ rest) o o' p h =
    value_round-IsPort value (parse_from rest) (parse_from (value ∷ rest)) o' (word_of arg) o p h
      (λ o1 q k. parse_from-IsPort rest o1 o' q k)
      (λ o1 q k. parse_from-IsPort (value ∷ rest) o1 o' q k)

-- Port.
pub parse-IsPort :
    (args : List Text) (o : Options) → parse args ≡ ok (Parsed.start o) → IsPort o.port
unfolding parse
parse-IsPort args o h = parse_from-IsPort args default_options o (8080, refl, omega arith) h

-- If the server accepts some arguments, then with `--port` or `--topic-timeout` behind them, and no
-- value, its behaviour is undefined.
pub parse_missing :
    (args : List Text) (o : Options)
    → parse args ≡ ok (Parsed.start o)
    → (parse (args ++ codes "--port" ∷ []) ≡ undefined)
      × (parse (args ++ codes "--topic-timeout" ∷ []) ≡ undefined)
unfolding parse parse_from last_round word_of text_eq
parse_missing args o h = (
  parse_from-append args (codes "--port" ∷ []) default_options o h,
  parse_from-append args (codes "--topic-timeout" ∷ []) default_options o h,
)

stoi-to_string_int :
    (z : ℤ) (n : ℕ) → ((z ≡ pos n) ⊎ (z ≡ negsuc n)) → n < 2 ^ 31 → stoi (to_string z) ≡ ok z
stoi-to_string_int z n (inl e) fits = rw e (stoi-to_string n fits)
stoi-to_string_int z n (inr e) fits = rw e (stoi-to_string_negsuc n fits)

-- Settings.
pub parse_settings :
    (port : ℕ) (timeout : ℤ) (n : ℕ)
    → port ≤ 65535
    → (timeout ≡ pos n) ⊎ (timeout ≡ negsuc n)
    → n < 2 ^ 31
    → parse
        (codes "--port" ∷ to_string (pos port) ∷ codes "--topic-timeout" ∷ to_string timeout ∷ [])
      ≡ ok (Parsed.start (record { port = pos port; topic_timeout = timeout }))
unfolding parse parse_from value_round with_number word_of text_eq
parse_settings port timeout n small either fits =
    let good : ltb 65535 port ≡ false = ground arith in
    rw (stoi-to_string port (omega arith), parse)
      (rw good (rw (stoi-to_string_int timeout n either fits) refl))

-- ===== src/Protocol/ArrayStrings.antt =====
-- arrayStringToVectorString.h: the reading of a vector that was sent as a text.
pub mod RoundTrip
pub mod Commas
use verteilte_systeme_bbps.Std.Getline.{split_tokens}
use verteilte_systeme_bbps.Prelude.{
  ℕ, Bool, true, false, List, [], ◌∷◌, map, Text, nat_eq, text_eq, ◌==◌, if◌then◌else◌, Outcome, ok,
  throws, ◌>>=◌, out_of_range,
}

-- All but the last.
unfoldable pub drop_last : Text → Text
drop_last [] = []
drop_last (c ∷ s) = let rest = drop_last s in if s == [] then [] else c ∷ rest

-- `substr(1, length() - 2)`, which throws for the empty text. Of a text of one byte the length minus 2
-- wraps around, and nothing is left of it in any case.
unfoldable pub without_brackets : Text → Outcome Text
unfolding drop_last
without_brackets [] = throws out_of_range
without_brackets (c ∷ s) = ok (drop_last s)

-- `erase(0, find_first_not_of(" "))`
unfoldable pub drop_spaces : Text → Text
drop_spaces [] = []
drop_spaces (c ∷ s) = let rest = drop_spaces s in if c == b' ' then rest else c ∷ s

-- `erase(find_last_not_of(" ") + 1)`
unfoldable pub drop_last_spaces : Text → Text
drop_last_spaces [] = []
drop_last_spaces (c ∷ s) =
    let rest = drop_last_spaces s in
    if c == b' ' then (if rest == [] then [] else c ∷ rest) else c ∷ rest

unfoldable pub array_string_to_vector_string : Text → Outcome (List Text)
unfolding without_brackets split_tokens drop_spaces drop_last_spaces
array_string_to_vector_string string_to_convert = do
  str ← without_brackets string_to_convert
  ok (map (λ token. drop_last_spaces (drop_spaces token)) (split_tokens b',' str))

-- ===== src/Std/Getline.antt =====
-- `getline` with a delimiter on a `stringstream`, called until it fails.
pub mod Tokens
use verteilte_systeme_bbps.Prelude.{
  ℕ, true, false, List, [], ◌∷◌, Text, nat_eq, text_eq, ◌==◌, if◌then◌else◌,
}

-- The token that is being read, and those behind it. There is none behind a delimiter that ends the
-- text.
unfoldable pub open_token : ℕ → Text → Text × List Text
open_token delimiter [] = ([], [])
open_token delimiter (c ∷ s) =
    let (token, tokens) = open_token delimiter s in
    if c == delimiter then ([], if s == [] then [] else token ∷ tokens) else (c ∷ token, tokens)

unfoldable pub split_tokens : ℕ → Text → List Text
unfolding open_token
split_tokens delimiter [] = []
split_tokens delimiter (c ∷ s) =
    let (token, tokens) = open_token delimiter (c ∷ s) in token ∷ tokens

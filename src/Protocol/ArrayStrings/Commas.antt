-- ===== src/Protocol/ArrayStrings/Commas.antt =====
-- An element with a comma is read back as two.
use verteilte_systeme_bbps.Prelude.{
  ℕ, ◌≡◌, refl, ap, sym, ◌∙◌, List, [], ◌∷◌, ◌++◌, append_assoc, All, All-append, Text, ok,
}
use verteilte_systeme_bbps.Std.Getline.Tokens.{joined}
use verteilte_systeme_bbps.Protocol.Response.{vector_to_array_string}
use verteilte_systeme_bbps.Protocol.ArrayStrings.{array_string_to_vector_string}
use verteilte_systeme_bbps.Protocol.ArrayStrings.RoundTrip.{
  IsElement, join_elements-joined, array_string_to_vector_string-vector_to_array_string,
}

joined_split :
    (d : ℕ) (x y : Text) (after : List Text)
    → joined d ((x ++ d ∷ y) ∷ after) ≡ joined d (x ∷ y ∷ after)
joined_split d x y [] = refl
joined_split d x y (z ∷ after) = append_assoc x (d ∷ y) (d ∷ joined d (z ∷ after))

joined_split_behind :
    (d : ℕ) (x y : Text) (before after : List Text)
    → joined d (before ++ (x ++ d ∷ y) ∷ after) ≡ joined d (before ++ x ∷ y ∷ after)
joined_split_behind d x y [] after = joined_split d x y after
joined_split_behind d x y (t ∷ []) after = ap (λ s. t ++ d ∷ s) (joined_split d x y after)
joined_split_behind d x y (t ∷ u ∷ before) after =
    ap (λ s. t ++ d ∷ s) (joined_split_behind d x y (u ∷ before) after)

-- A list of texts that the server sends as a text, one of them two elements with a comma between
-- them, is read back by the client with that one as two: it is written as the list that has the
-- two. Each of the two, and every other text of the list, is without a comma and begins and ends
-- with something else than a space.
pub array_string_to_vector_string-comma :
    (before after : List Text) (x y : Text)
    → All IsElement before
    → IsElement x
    → IsElement y
    → All IsElement after
    → (vector_to_array_string (before ++ (x ++ b',' ∷ y) ∷ after)
        ≡ vector_to_array_string (before ++ x ∷ y ∷ after))
      × (array_string_to_vector_string (vector_to_array_string (before ++ (x ++ b',' ∷ y) ∷ after))
          ≡ ok (before ++ x ∷ y ∷ after))
unfolding vector_to_array_string
array_string_to_vector_string-comma before after x y hb hx hy ha =
    let same =
      ap (λ s. b'[' ∷ (s ++ b']' ∷ []))
        (join_elements-joined (before ++ (x ++ b',' ∷ y) ∷ after)
          ∙ joined_split_behind b',' x y before after
          ∙ sym (join_elements-joined (before ++ x ∷ y ∷ after))) in
    (
      same,
      ap array_string_to_vector_string same
          ∙ array_string_to_vector_string-vector_to_array_string (before ++ x ∷ y ∷ after)
              (All-append IsElement before (x ∷ y ∷ after) hb (hx, (hy, ha))),
    )

-- ===== src/Protocol/ArrayStrings/RoundTrip.antt =====
-- A vector that was sent as a text is read back.
use verteilte_systeme_bbps.Prelude.{
  ℕ, ◌≡◌, ◌≢◌, refl, ap, sym, ◌∙◌, List, [], ◌∷◌, ◌++◌, map, All, All-map, Text, nat_eq, text_eq,
  ok, arith,
}
use mathlib.Core.Path.{ap₂}
use verteilte_systeme_bbps.Std.Getline.{split_tokens}
use verteilte_systeme_bbps.Std.Getline.Tokens.{joined, split_tokens-joined}
use verteilte_systeme_bbps.Protocol.Response.{join_elements, vector_to_array_string}
use verteilte_systeme_bbps.Protocol.ArrayStrings.{
  drop_last, drop_spaces, drop_last_spaces, array_string_to_vector_string,
}

-- An element that survives: it has no comma, and it begins and ends with something else than a space.
pub record IsElement (t : Text) : Type 0 where
  pub no_comma : All (λ c. c ≢ b',') t
  pub head : ℕ
  pub behind : Text
  pub begins : t ≡ head ∷ behind
  pub head_visible : head ≢ b' '
  pub before : Text
  pub last : ℕ
  pub ends : t ≡ before ++ last ∷ []
  pub last_visible : last ≢ b' '

append-ne-nil : (s : Text) (d : ℕ) → (s ++ d ∷ []) ≢ []
append-ne-nil [] d e = cc
append-ne-nil (c ∷ s) d e = cc

drop_last-append : (s : Text) (d : ℕ) → drop_last (s ++ d ∷ []) ≡ s
unfolding drop_last text_eq
drop_last-append [] d = refl
drop_last-append (c ∷ s) d = ground (arith, drop_last-append s d, append-ne-nil s d)

drop_last_spaces-append :
    (s : Text) (d : ℕ) → d ≢ b' ' → drop_last_spaces (s ++ d ∷ []) ≡ s ++ d ∷ []
unfolding drop_last_spaces
drop_last_spaces-append [] d h = ground arith
drop_last_spaces-append (c ∷ s) d h =
    ground (arith, drop_last_spaces-append s d h, append-ne-nil s d)

drop_spaces-cons : (c : ℕ) (s : Text) → c ≢ b' ' → drop_spaces (c ∷ s) ≡ c ∷ s
unfolding drop_spaces
drop_spaces-cons c s h = ground arith

trimmed : (t : Text) → IsElement t → drop_last_spaces (drop_spaces t) ≡ t
trimmed t h =
    ap drop_last_spaces
      (ap drop_spaces h.begins ∙ drop_spaces-cons h.head h.behind h.head_visible ∙ sym h.begins)
    ∙ ap drop_last_spaces h.ends
    ∙ drop_last_spaces-append h.before h.last h.last_visible
    ∙ sym h.ends

IsElement-ne-nil : (t : Text) → IsElement t → t ≢ []
IsElement-ne-nil t h e = let b = h.begins in cc

pub join_elements-joined : (ts : List Text) → join_elements ts ≡ joined b',' ts
unfolding join_elements
join_elements-joined [] = refl
join_elements-joined (t ∷ []) = refl
join_elements-joined (t ∷ u ∷ ts) = ap (λ s. t ++ b',' ∷ s) (join_elements-joined (u ∷ ts))

split_tokens-join : (ts : List Text) → All IsElement ts → split_tokens b',' (join_elements ts) ≡ ts
split_tokens-join ts h =
    ap (split_tokens b',') (join_elements-joined ts)
    ∙ split_tokens-joined b',' ts (All-map (λ t e. (IsElement-ne-nil t e, e.no_comma)) ts h)

trimmed_each :
    (ts : List Text) → All IsElement ts → map (λ t. drop_last_spaces (drop_spaces t)) ts ≡ ts
trimmed_each [] _ = refl
trimmed_each (t ∷ ts) (h, hs) = ap₂ (λ u us. u ∷ us) (trimmed t h) (trimmed_each ts hs)

-- A list of texts that the server sends as a text is read back by the client as it was, if each of
-- the texts is without a comma and begins and ends with something else than a space.
pub array_string_to_vector_string-vector_to_array_string :
    (ts : List Text)
    → All IsElement ts
    → array_string_to_vector_string (vector_to_array_string ts) ≡ ok ts
unfolding array_string_to_vector_string vector_to_array_string
array_string_to_vector_string-vector_to_array_string ts h =
    ap (λ s. ok (map (λ t. drop_last_spaces (drop_spaces t)) (split_tokens b',' s)))
      (drop_last-append (join_elements ts) b']')
    ∙ ap (λ us. ok (map (λ t. drop_last_spaces (drop_spaces t)) us)) (split_tokens-join ts h)
    ∙ ap ok (trimmed_each ts h)

-- ===== src/Std/Getline/Tokens.antt =====
-- Tokens that are joined by the delimiter are the tokens that `getline` reads.
use verteilte_systeme_bbps.Prelude.{
  ℕ, ◌≡◌, ◌≢◌, refl, ap, ◌∙◌, List, [], ◌∷◌, ◌++◌, All, Text, nat_eq, text_eq, arith,
}
use verteilte_systeme_bbps.Std.Getline.{open_token, split_tokens}

abbrev pub joined : ℕ → List Text → Text
joined delimiter [] = []
joined delimiter (t ∷ []) = t
joined delimiter (t ∷ u ∷ ts) = t ++ delimiter ∷ joined delimiter (u ∷ ts)

-- What can stand between delimiters, not empty.
abbrev pub IsToken : ℕ → Text → Type 0
IsToken delimiter t = (t ≢ []) × All (λ c. c ≢ delimiter) t

append-ne-nil-front : (t s : Text) → t ≢ [] → (t ++ s) ≢ []
append-ne-nil-front [] s h e = h refl
append-ne-nil-front (c ∷ t) s h e = cc

module _ (d : ℕ) where
  open_token_whole : (t : Text) → All (λ c. c ≢ d) t → open_token d t ≡ (t, [])
  unfolding open_token
  open_token_whole [] h = refl
  open_token_whole (c ∷ t) (hc, h) = rw (open_token_whole t h) (ground arith)

  -- A token that a delimiter ends, with something behind it.
  open_token-delimiter :
      (t s : Text)
      → All (λ c. c ≢ d) t
      → s ≢ []
      → open_token d (t ++ d ∷ s) ≡ (t, (open_token d s).0 ∷ (open_token d s).1)
  unfolding open_token
  open_token-delimiter [] s h some_text = ground arith
  open_token-delimiter (c ∷ t) s (hc, h) some_text =
      rw (open_token-delimiter t s h some_text) (ground arith)

  joined-ne-nil : (t : Text) (ts : List Text) → t ≢ [] → joined d (t ∷ ts) ≢ []
  joined-ne-nil t [] h = h
  joined-ne-nil t (u ∷ ts) h = append-ne-nil-front t (d ∷ joined d (u ∷ ts)) h

  open_token-joined :
      (t : Text) (ts : List Text)
      → All (IsToken d) (t ∷ ts)
      → open_token d (joined d (t ∷ ts)) ≡ (t, ts)
  open_token-joined t [] (h, _) = open_token_whole t h.1
  open_token-joined t (u ∷ ts) (h, hs) =
      open_token-delimiter t (joined d (u ∷ ts)) h.1 (joined-ne-nil u ts hs.0.0)
      ∙ ap (λ p. (t, p.0 ∷ p.1)) (open_token-joined u ts hs)

  pub split_tokens-some :
      (s : Text) → s ≢ [] → split_tokens d s ≡ (open_token d s).0 ∷ (open_token d s).1
  unfolding split_tokens
  split_tokens-some [] h = absurd (h refl)
  split_tokens-some (c ∷ s) h = refl

  pub split_tokens-joined :
      (ts : List Text) → All (IsToken d) ts → split_tokens d (joined d ts) ≡ ts
  unfolding split_tokens
  split_tokens-joined [] _ = refl
  split_tokens-joined (t ∷ ts) (h, hs) =
      split_tokens-some (joined d (t ∷ ts)) (joined-ne-nil t ts h.0)
      ∙ ap (λ p. p.0 ∷ p.1) (open_token-joined t ts (h, hs))

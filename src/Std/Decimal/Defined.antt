-- ===== src/Std/Decimal/Defined.antt =====
-- Reading a number returns or throws.
use verteilte_systeme_bbps.Prelude.{
  ℕ, ◌^◌, Bool, true, false, [], ◌∷◌, ◌&&◌, Text, leb, ltb, ℤ, if◌then◌else◌, Outcome, ok, throws,
  IsDefined,
}
use verteilte_systeme_bbps.Std.Decimal.{value, is_digit, is_space, convert, sign, strto, stoi}

-- Both branches of a conditional are defined.
IsDefined-if :
    (b : Bool) (x y : Outcome ℤ) → IsDefined x → IsDefined y → IsDefined (if b then x else y)
IsDefined-if true x y hx hy = hx
IsDefined-if false x y hx hy = hy

IsDefined-ok : (b : Bool) (z : ℤ) (e : Outcome ℤ) → IsDefined e → IsDefined (if b then ok z else e)
IsDefined-ok true z e h = tt
IsDefined-ok false z e h = h

convert-IsDefined : (limit : ℕ) (negative : Bool) (s : Text) → IsDefined (convert limit negative s)
unfolding convert
convert-IsDefined limit negative [] = tt
convert-IsDefined limit true (c ∷ s) =
    IsDefined-if (is_digit c) (if leb (value 0 (c ∷ s)) limit then ok _ else throws _) (throws _)
      (IsDefined-ok (leb (value 0 (c ∷ s)) limit) _ (throws _) tt) tt
convert-IsDefined limit false (c ∷ s) =
    IsDefined-if (is_digit c) (if ltb (value 0 (c ∷ s)) limit then ok _ else throws _) (throws _)
      (IsDefined-ok (ltb (value 0 (c ∷ s)) limit) _ (throws _) tt) tt

sign-IsDefined : (limit : ℕ) (s : Text) → IsDefined (sign limit s)
unfolding sign
sign-IsDefined limit [] = tt
sign-IsDefined limit (c ∷ s) =
    IsDefined-if (leb b'-' c && leb c b'-') (convert limit true s) _
      (convert-IsDefined limit true s)
      (IsDefined-if (leb b'+' c && leb c b'+') (convert limit false s) (convert limit false (c ∷ s))
        (convert-IsDefined limit false s) (convert-IsDefined limit false (c ∷ s)))

strto-IsDefined : (limit : ℕ) (s : Text) → IsDefined (strto limit s)
unfolding strto
strto-IsDefined limit [] = tt
strto-IsDefined limit (c ∷ s) =
    IsDefined-if (is_space c) (strto limit s) (sign limit (c ∷ s)) (strto-IsDefined limit s)
      (sign-IsDefined limit (c ∷ s))

pub stoi-IsDefined : (s : Text) → IsDefined (stoi s)
unfolding stoi
stoi-IsDefined s = strto-IsDefined (2 ^ 31) s

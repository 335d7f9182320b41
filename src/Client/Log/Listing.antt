-- ===== src/Client/Log/Listing.antt =====
-- How a list stands in the log.
use verteilte_systeme_bbps.Prelude.{
  Distinct, sym, ◌≡◌, ◌≢◌, refl, ap, ◌∙◌, List, [], ◌∷◌, ◌++◌, Text, codes, All, text_eq, ==_self,
  ==_differ, append-nil,
}
use verteilte_systeme_bbps.Client.Log.{back, listed, listing}

-- The elements with a comma between each two.
abbrev pub comma_separated : Text → List Text → Text
comma_separated t [] = t
comma_separated t (u ∷ us) = t ++ (codes ", " ++ comma_separated u us)

back-append : (t last : Text) (ts : List Text) → back t (ts ++ last ∷ []) ≡ last
unfolding back
back-append t last [] = refl
back-append t last (u ∷ us) = back-append u last us

listed-comma_separated :
    (last t : Text) (ts : List Text)
    → All (λ u. u ≢ last) (t ∷ ts)
    → listed last (t ∷ (ts ++ last ∷ [])) ≡ comma_separated t (ts ++ last ∷ [])
unfolding listed
listed-comma_separated last t [] (h, _) =
    rw (==_differ t last h, ==_self last) (ap (λ s. t ++ (codes ", " ++ s)) (append-nil last))
listed-comma_separated last t (u ∷ us) (h, hs) =
    rw (==_differ t last h) (ap (λ s. t ++ (codes ", " ++ s)) (listed-comma_separated last u us hs))

-- A list of at least two elements, the last of which is different from the others, stands in the
-- log with a comma between each two of them and none at the end.
pub listing-comma_separated :
    (t last : Text) (ts : List Text)
    → All (λ u. u ≢ last) (t ∷ ts)
    → listing (t ∷ (ts ++ last ∷ [])) ≡ comma_separated t (ts ++ last ∷ [])
unfolding listing
listing-comma_separated t last ts h =
    ap (λ l. listed l (t ∷ (ts ++ last ∷ []))) (back-append t last ts)
    ∙ listed-comma_separated last t ts h

-- The same for any list; the empty one leaves nothing.
abbrev pub comma_list : List Text → Text
comma_list [] = []
comma_list (t ∷ ts) = comma_separated t ts

back-ne : (x t : Text) (ts : List Text) → All (λ u. u ≢ x) (t ∷ ts) → x ≢ back t ts
unfolding back
back-ne x t [] (h, _) = λ e. h (sym e)
back-ne x t (u ∷ us) (_, h) = back-ne x u us h

listed-Distinct :
    (t : Text) (ts : List Text)
    → Distinct (t ∷ ts)
    → listed (back t ts) (t ∷ ts) ≡ comma_separated t ts
unfolding listed back
listed-Distinct t [] d = rw (==_self t) (append-nil t)
listed-Distinct t (u ∷ us) (new, d) =
    rw (==_differ t (back u us) (back-ne t u us new))
      (ap (λ s. t ++ (codes ", " ++ s)) (listed-Distinct u us d))

-- Elements that are all different stand in the log with a comma between each two of them.
pub listing-Distinct : (ts : List Text) → Distinct ts → listing ts ≡ comma_list ts
unfolding listing
listing-Distinct [] d = refl
listing-Distinct (t ∷ ts) d = listed-Distinct t ts d

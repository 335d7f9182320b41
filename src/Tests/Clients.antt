-- ===== src/Tests/Clients.antt =====
-- The client's reading of lists, and its end, at concrete inputs.
use verteilte_systeme_bbps.Prelude.{◌≡◌, refl, [], ◌∷◌, codes, pos, ok, arith}
use verteilte_systeme_bbps.Protocol.Response.{vector_to_array_string}
use verteilte_systeme_bbps.Protocol.ArrayStrings.{array_string_to_vector_string}
use verteilte_systeme_bbps.Protocol.ArrayStrings.RoundTrip.{
  IsElement, array_string_to_vector_string-vector_to_array_string,
}
use verteilte_systeme_bbps.Protocol.ArrayStrings.Commas.{array_string_to_vector_string-comma}
use verteilte_systeme_bbps.Client.{Client}
use verteilte_systeme_bbps.Client.Log.{listing}
use verteilte_systeme_bbps.Client.Log.Listing.{listing-comma_separated}

abbrev ab-IsElement : IsElement (codes "a b")
ab-IsElement = record {
  no_comma = omega arith;
  head = b'a';
  behind = codes " b";
  begins = refl;
  head_visible = λ e. omega arith;
  before = codes "a ";
  last = b'b';
  ends = refl;
  last_visible = λ e. omega arith;
}

abbrev c-IsElement : IsElement (codes "c")
c-IsElement = record {
  no_comma = omega arith;
  head = b'c';
  behind = [];
  begins = refl;
  head_visible = λ e. omega arith;
  before = [];
  last = b'c';
  ends = refl;
  last_visible = λ e. omega arith;
}

array_string_to_vector_string-vector_to_array_string_example :
    array_string_to_vector_string (vector_to_array_string (codes "a b" ∷ codes "c" ∷ []))
    ≡ ok (codes "a b" ∷ codes "c" ∷ [])
array_string_to_vector_string-vector_to_array_string_example =
    array_string_to_vector_string-vector_to_array_string (codes "a b" ∷ codes "c" ∷ [])
      (ab-IsElement, (c-IsElement, tt))

abbrev subscriber : Client
subscriber = record {
  port = pos 4003;
  subscribed_topics = codes "news" ∷ codes "sport" ∷ codes "news" ∷ [];
}

log_listing : listing (codes "a" ∷ codes "b" ∷ codes "c" ∷ []) ≡ codes "a, b, c"
log_listing =
    listing-comma_separated (codes "a") (codes "c") (codes "b" ∷ [])
      ((λ e. ground arith), ((λ e. ground arith), tt))

-- The topics `c` and `c,c`.
array_string_to_vector_string-comma_example :
    (vector_to_array_string (codes "c" ∷ codes "c,c" ∷ [])
      ≡ vector_to_array_string (codes "c" ∷ codes "c" ∷ codes "c" ∷ []))
    × (array_string_to_vector_string (vector_to_array_string (codes "c" ∷ codes "c,c" ∷ []))
        ≡ ok (codes "c" ∷ codes "c" ∷ codes "c" ∷ []))
array_string_to_vector_string-comma_example =
    array_string_to_vector_string-comma (codes "c" ∷ []) [] (codes "c") (codes "c")
      (c-IsElement, tt) c-IsElement c-IsElement tt

-- ===== src/Protocol/Json.antt =====
-- What the program uses of JsonCpp, which is not its own: the operations of `Json::Value`, the reader
-- and the writer, and what they are documented to do.
use verteilte_systeme_bbps.Prelude.{
  ℕ, ◌<◌, ◌^◌, ◌≡◌, ◌≢◌, Bool, true, false, List, [], ◌∷◌, Option, some, Text, ℤ, pos, All, ◌==◌,
  ltb, text_eq, nat_eq, if◌then◌else◌, Outcome, ok, ◌>>=◌,
}
use verteilte_systeme_bbps.Std.Decimal.{to_string_ℕ}

pub record Json : Type 1 where
  pub Value : Type 0
  -- `Json::Value()`, and the constructors from a string, an int and a uint64_t
  pub null : Value
  pub of_text : Text → Value
  pub of_int : ℤ → Value
  pub of_uint64 : ℕ → Value
  -- `v[key] = a`, where `v` is null or an object
  pub assign : Value → Text → Value → Value
  pub is_member : Value → Text → Outcome Bool
  -- `v[key]` that is read
  pub member : Value → Text → Outcome Value
  pub member_names : Value → Outcome (List Text)
  pub as_string : Value → Outcome Text
  pub as_int : Value → Outcome ℤ
  -- `CharReader::parse` and `writeString` with no indentation. `none` where the bytes are no
  -- document; a document that is nested too deep makes `parse` throw.
  pub parse : Text → Outcome (Option Value)
  pub write : Value → Text

-- The order of `std::string`.
abbrev pub text_lt : Text → Text → Bool
text_lt [] [] = false
text_lt [] (d ∷ t) = true
text_lt (c ∷ s) [] = false
text_lt (c ∷ s) (d ∷ t) = if ltb c d then true else if c == d then text_lt s t else false

-- A key goes to its place in the map.
abbrev pub insert_name : Text → List Text → List Text
insert_name k [] = k ∷ []
insert_name k (j ∷ js) =
    let rest = insert_name k js in
    if k == j then j ∷ js else if text_lt k j then k ∷ j ∷ js else j ∷ rest

-- What is written is read back. `reread v` is the value that the reader makes of what the writer
-- wrote for `v`; a text comes back as it is if it is well-formed UTF-8, `IsPlain`.
module _ (J : Json) where
  open J use {
    Value, null, of_text, of_int, of_uint64, assign, is_member, member, member_names, as_string,
    as_int, parse, write,
  }

  pub record IsLawful : Type 1 where
    pub reread : Value → Value
    pub parse-write : (v : Value) → parse (write v) ≡ ok (some (reread v))
    -- The writer escapes control characters.
    pub write_no_zero : (v : Value) → All (λ c. c ≢ 0) (write v)
    pub IsPlain : Text → Type 0
    pub ascii-IsPlain : (s : Text) → All (λ c. c < 128) s → IsPlain s
    -- Values made from null by assignments to plain keys.
    pub IsObject : Value → Type 0
    pub null-IsObject : IsObject null
    pub assign-IsObject :
        (v : Value) (k : Text) (a : Value) → IsObject v → IsPlain k → IsObject (assign v k a)
    pub is_member-null : (k : Text) → is_member (reread null) k ≡ ok false
    pub is_member-assign :
        (v : Value) (k : Text) (a : Value) (j : Text)
        → IsObject v
        → IsPlain k
        → is_member (reread (assign v k a)) j ≡ (if j == k then ok true else is_member (reread v) j)
    pub member-assign :
        (v : Value) (k : Text) (a : Value) (j : Text)
        → IsObject v
        → IsPlain k
        → member (reread (assign v k a)) j ≡ (if j == k then ok (reread a) else member (reread v) j)
    pub member_names-null : member_names (reread null) ≡ ok []
    pub member_names-assign :
        (v : Value) (k : Text) (a : Value)
        → IsObject v
        → IsPlain k
        → member_names (reread (assign v k a))
          ≡ (member_names (reread v) >>= λ ks. ok (insert_name k ks))
    pub as_string-text : (s : Text) → IsPlain s → as_string (reread (of_text s)) ≡ ok s
    pub as_string-uint64 :
        (n : ℕ) → n < 2 ^ 64 → as_string (reread (of_uint64 n)) ≡ ok (to_string_ℕ n)
    pub as_int-int : (n : ℕ) → n < 2 ^ 31 → as_int (reread (of_int (pos n))) ≡ ok (pos n)

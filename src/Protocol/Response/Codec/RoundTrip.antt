-- ===== src/Protocol/Response/Codec/RoundTrip.antt =====
-- What `Response::deserialize` makes of what `Response::serialize` wrote.
use verteilte_systeme_bbps.Prelude.{
  ℕ, ◌<◌, ◌≡◌, refl, ap, List, [], ◌∷◌, Text, codes, ◌==◌, ==_self, false, text_eq, nat_eq, ok,
  runtime_error, ◌>>=◌, pos, arith, All,
}
use verteilte_systeme_bbps.Protocol.Identifiers.{
  CommandIdentifiers, Statuscode, parameter_eq, communication_parameter_to_string,
}
use verteilte_systeme_bbps.Protocol.Json.{Json, IsLawful}
use verteilte_systeme_bbps.Protocol.Message.{catch_invalid_argument}
use verteilte_systeme_bbps.Protocol.Response.{
  Response, response_dictionary, new_response, set_response_argument, set_status_code, index_of,
}
use verteilte_systeme_bbps.Protocol.Response.Codec.{
  response_members, serialize, read_arguments, response_of_value, deserialize,
}
use verteilte_systeme_bbps.Protocol.Response.Codec.Answers.{
  answered, IsAnswer, IsNamed, named-int, int-named, named-lt, subscribe_answer, unsubscribe_answer,
  publish_answer, list_topics_answer, get_topic_status_answer,
}

module _ (J : Json) (L : IsLawful J) (code : Statuscode) (k : ℕ) (named : IsNamed code k) where
  open J use {Value, null, of_text, of_int, assign, member, as_int, as_string}

  abbrev with_status : Value
  with_status = assign null (codes "statusCode") (of_int (pos k))

  abbrev with_one : Text → Text → Value
  with_one key a = assign with_status key (of_text a)

  abbrev with_two : Text → Text → Text → Text → Value
  with_two key a key' b = assign (with_one key a) key' (of_text b)

  abbrev IsKey : Text → Type 0
  IsKey key = L.IsPlain key × ((codes "statusCode" == key) ≡ false)

  status_plain : L.IsPlain (codes "statusCode")
  status_plain = L.ascii-IsPlain (codes "statusCode") (omega arith)

  with_status-IsObject : L.IsObject with_status
  with_status-IsObject = L.assign-IsObject null (codes "statusCode") _ L.null-IsObject status_plain

  status_alone : (member (L.reread with_status) (codes "statusCode") >>= as_int) ≡ ok (pos k)
  unfolding text_eq
  status_alone =
      rw
        (L.member-assign null (codes "statusCode") (of_int (pos k)) (codes "statusCode")
          L.null-IsObject status_plain)
        (L.as_int-int k (named-lt named))

  -- The status is found behind another member.
  status_behind :
      (v : Value) (key a : Text)
      → L.IsObject v
      → IsKey key
      → (member (L.reread v) (codes "statusCode") >>= as_int) ≡ ok (pos k)
      → (member (L.reread (assign v key (of_text a))) (codes "statusCode") >>= as_int) ≡ ok (pos k)
  status_behind v key a object (plain, differ) found =
      rw (L.member-assign v key (of_text a) (codes "statusCode") object plain) (rw differ found)

  text_found :
      (v : Value) (key a : Text)
      → L.IsObject v
      → L.IsPlain key
      → L.IsPlain a
      → (member (L.reread (assign v key (of_text a))) key >>= as_string) ≡ ok a
  text_found v key a object plain plain_a =
      rw (L.member-assign v key (of_text a) key object plain)
        (rw (==_self key) (L.as_string-text a plain_a))

  text_behind :
      (v : Value) (key a j : Text) (b : Text)
      → L.IsObject v
      → L.IsPlain key
      → (j == key) ≡ false
      → (member (L.reread v) j >>= as_string) ≡ ok b
      → (member (L.reread (assign v key (of_text a))) j >>= as_string) ≡ ok b
  text_behind v key a j b object plain differ found =
      rw (L.member-assign v key (of_text a) j object plain) (rw differ found)

  -- What is read of a document, once its members are known.
  reads_back :
      (id : CommandIdentifiers) (root : Value) (texts : List Text)
      → (member (L.reread root) (codes "statusCode") >>= as_int) ≡ ok (pos k)
      → read_arguments J
          (L.reread root)
          (response_dictionary id)
          (set_status_code code (new_response id))
        ≡ ok (answered id code texts)
      → deserialize J id (J.write root) ≡ ok (answered id code texts)
  unfolding deserialize response_of_value new_response set_status_code
  reads_back id root texts status arguments =
      let value : response_of_value J id (L.reread root) ≡ ok (answered id code texts) =
        rw (status, response_of_value) (rw (int-named named) arguments) in
      rw (L.parse-write root, deserialize)
        (ap (catch_invalid_argument (runtime_error (codes "Invalid or missing arguments."))) value)

  abbrev pub ReadsBack : CommandIdentifiers → Response → Type 0
  ReadsBack id r = (s : Text) × (serialize J r ≡ ok s) × (deserialize J id s ≡ ok r)

  plain_key : (key : Text) → All (λ c. c < 128) key → L.IsPlain key
  plain_key = L.ascii-IsPlain

  topics-ReadsBack :
      (a : Text)
      → L.IsPlain a
      → ReadsBack CommandIdentifiers.list_topics
          (answered CommandIdentifiers.list_topics code (a ∷ []))
  unfolding serialize response_members response_dictionary communication_parameter_to_string
      read_arguments set_response_argument new_response set_status_code index_of parameter_eq
      text_eq
  topics-ReadsBack a plain_a =
      let plain = plain_key (codes "topics") (omega arith) in
      let root = with_one (codes "topics") a in
      (
        J.write root,
        rw (named-int named) refl,
        reads_back CommandIdentifiers.list_topics root (a ∷ [])
            (status_behind with_status (codes "topics") a with_status-IsObject (plain, refl)
              status_alone)
            (rw (text_found with_status (codes "topics") a with_status-IsObject plain plain_a)
              refl),
      )

  status-ReadsBack :
      (a b : Text)
      → L.IsPlain a
      → L.IsPlain b
      → ReadsBack CommandIdentifiers.get_topic_status
          (answered CommandIdentifiers.get_topic_status code (a ∷ b ∷ []))
  unfolding serialize response_members response_dictionary communication_parameter_to_string
      read_arguments set_response_argument new_response set_status_code index_of parameter_eq
      text_eq
  status-ReadsBack a b plain_a plain_b =
      let time : Text = codes "messageTimestamp" in
      let subs : Text = codes "subscribers" in
      let plain = plain_key time (omega arith) in
      let plain' = plain_key subs (omega arith) in
      let one = with_one time a in
      let one-IsObject =
        L.assign-IsObject with_status time (of_text a) with_status-IsObject plain in
      (
        J.write (with_two time a subs b),
        rw (named-int named) refl,
        reads_back CommandIdentifiers.get_topic_status (with_two time a subs b) (a ∷ b ∷ [])
            (status_behind one subs b one-IsObject (plain', refl)
              (status_behind with_status time a with_status-IsObject (plain, refl) status_alone))
            (rw
              (text_behind one subs b time a one-IsObject plain' refl
                (text_found with_status time a with_status-IsObject plain plain_a))
              (rw (text_found one subs b one-IsObject plain' plain_b) refl)),
      )

  -- If the JSON library is lawful, every response to one of the five commands, with a status code
  -- that has a name and as many texts as it has arguments, none of them beyond what JSON carries,
  -- is read back as it was: `serialize` succeeds, and `deserialize` for that command makes the
  -- same response of what it wrote.
  pub deserialize-serialize_response :
      (id : CommandIdentifiers) (texts : List Text)
      → IsAnswer id texts
      → All L.IsPlain texts
      → ReadsBack id (answered id code texts)
  unfolding serialize response_members response_dictionary read_arguments new_response
      set_status_code
  deserialize-serialize_response _ _ subscribe_answer h = (
    J.write with_status,
    rw (named-int named) refl,
    reads_back CommandIdentifiers.subscribe with_status [] status_alone refl,
  )
  deserialize-serialize_response _ _ unsubscribe_answer h = (
    J.write with_status,
    rw (named-int named) refl,
    reads_back CommandIdentifiers.unsubscribe with_status [] status_alone refl,
  )
  deserialize-serialize_response _ _ publish_answer h = (
    J.write with_status,
    rw (named-int named) refl,
    reads_back CommandIdentifiers.publish with_status [] status_alone refl,
  )
  deserialize-serialize_response _ _ (list_topics_answer a) h = topics-ReadsBack a h.0
  deserialize-serialize_response _ _ (get_topic_status_answer a b) h =
      status-ReadsBack a b h.0 h.1.0

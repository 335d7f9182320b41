-- ===== src/Server/Directory/Meaning.antt =====
-- Where unsubscribing does what it is for, and where it does not.
use verteilte_systeme_bbps.Prelude.{
  ◌≡◌, refl, ap, ◌∙◌, true, false, List, [], ◌∷◌, some, Text, ℤ, ok, throws, undefined, Outcome,
  arith, text_eq, contains,
}
use verteilte_systeme_bbps.Protocol.Identifiers.{CommandIdentifiers, Statuscode}
use verteilte_systeme_bbps.Protocol.Response.{Response}
use verteilte_systeme_bbps.Server.Memory.{Ptr}
use verteilte_systeme_bbps.Server.State.{ClientConnection, connection_eq, Server}
use verteilte_systeme_bbps.Server.Requests.{find_connection, handle_unsubscribe_request}
use verteilte_systeme_bbps.Server.Invariant.{Returns, Invariant}
use verteilte_systeme_bbps.Server.Invariant.Subscribing.{respond}
use verteilte_systeme_bbps.Server.Directory.{
  TopicView, Directory, view, find_view, replace_view, with_subscribers, unsubscribe_first_spec,
  unsubscribe_spec,
}
use verteilte_systeme_bbps.Server.Directory.Unsubscribing.{handle_unsubscribe_request_lem}

pub Returns-mono :
    {P Q : Response → Server → Type 0} (o : Outcome (Response × Server))
    → ((r : Response) (s : Server) → P r s → Q r s)
    → Returns P o
    → Returns Q o
Returns-mono (ok (r, s)) f h = f r s h
Returns-mono (throws e) f h = h
Returns-mono undefined f h = h

first-unsubscribe_spec :
    (c : ClientConnection) (name : Text) (d : Directory) (t : TopicView)
    (others : List ClientConnection)
    → find_view name d ≡ some t
    → t.subscribers ≡ c ∷ others
    → unsubscribe_first_spec name d ≡ unsubscribe_spec c name d
unfolding unsubscribe_first_spec unsubscribe_spec
first-unsubscribe_spec c name d t others seen listed =
    rw (seen, unsubscribe_first_spec, unsubscribe_spec) (rw listed (ground arith))

pub find_view-replace_view :
    (name : Text) (d : Directory) (t t' : TopicView)
    → find_view name d ≡ some t
    → t'.name ≡ name
    → find_view name (replace_view name t' d) ≡ some t'
find_view-replace_view name [] t t' seen named = cc
find_view-replace_view name (u ∷ d) t t' seen named =
    ground (arith, find_view-replace_view name d t t')

pub find_view-name :
    (name : Text) (d : Directory) (t : TopicView) → find_view name d ≡ some t → t.name ≡ name
find_view-name name [] t seen = cc
find_view-name name (u ∷ d) t seen = ground (arith, find_view-name name d t)

module _ (s : Server) (v : Invariant s) (name : Text) (address : Text) (port : ℤ) (client_ptr : Ptr)
    (known : find_connection address port s.client_connections ≡ some client_ptr) where
  abbrev client : ClientConnection
  client = record { address = address; port = port }

  -- In a server whose objects are in order, if the client has a connection and is the first
  -- subscriber of the topic, an unsubscribe request is answered as the directory's specification
  -- of unsubscribing says, which also gives the directory afterwards.
  pub handle_unsubscribe_request_refines :
      (t : TopicView) (others : List ClientConnection)
      → find_view name (view s) ≡ some t
      → t.subscribers ≡ record { address = address; port = port } ∷ others
      → let (status, d) =
          unsubscribe_spec (record { address = address; port = port }) name (view s) in
        Returns
          (λ response s'.
            (response ≡ respond CommandIdentifiers.unsubscribe status) × (view s' ≡ d))
          (handle_unsubscribe_request address port name s)
  handle_unsubscribe_request_refines t others seen listed =
      rw (← first-unsubscribe_spec client name (view s) t others seen listed)
        (handle_unsubscribe_request_lem s v name address port client_ptr known)

  -- In a server whose objects are in order, if the client has a connection, is a subscriber of
  -- the topic, and another stands before it, then an unsubscribe request is answered by success,
  -- and the topic has the subscribers that stood behind the first: the client that asked among
  -- them, the first not.
  pub unsubscribe_drops_another :
      (t : TopicView) (first : ClientConnection) (others : List ClientConnection)
      → find_view name (view s) ≡ some t
      → t.subscribers ≡ first ∷ others
      → contains others (record { address = address; port = port }) ≡ true
      → Returns
          (λ response s'.
            (response ≡ respond CommandIdentifiers.unsubscribe Statuscode.success)
            × (find_view name (view s') ≡ some (record t { subscribers = others })))
          (handle_unsubscribe_request address port name s)
  unsubscribe_drops_another t first [] seen listed there = cc
  unsubscribe_drops_another t first (c ∷ cs) seen listed there =
      Returns-mono (handle_unsubscribe_request address port name s)
        (λ r s' (a, b). (a ∙ status, ap (find_view name) (b ∙ result) ∙ found))
        (handle_unsubscribe_request_lem s v name address port client_ptr known)
    where
      left : TopicView
      left = record t { subscribers = c ∷ cs }

      spec :
          unsubscribe_first_spec name (view s)
          ≡ (Statuscode.success, replace_view name left (view s))
      spec =
          unfold unsubscribe_first_spec with_subscribers in
          rw (seen, unsubscribe_first_spec) (rw listed refl)

      status :
          respond CommandIdentifiers.unsubscribe (unsubscribe_first_spec name (view s)).0
          ≡ respond CommandIdentifiers.unsubscribe Statuscode.success
      status = ap (λ p. respond CommandIdentifiers.unsubscribe p.0) spec

      result : (unsubscribe_first_spec name (view s)).1 ≡ replace_view name left (view s)
      result = ap (λ p. p.1) spec

      found : find_view name (replace_view name left (view s)) ≡ some left
      found = find_view-replace_view name (view s) t left seen (find_view-name name (view s) t seen)

  -- In a server whose objects are in order, an unsubscribe request of a client that has a
  -- connection and is no subscriber of the topic, which is there, is answered by success, where
  -- the directory's specification of unsubscribing says failed.
  pub unsubscribe_stranger :
      (t : TopicView)
      → find_view name (view s) ≡ some t
      → contains t.subscribers (record { address = address; port = port }) ≡ false
      → Returns
          (λ response s'.
            (response ≡ respond CommandIdentifiers.unsubscribe Statuscode.success)
            × ((unsubscribe_spec (record { address = address; port = port }) name (view s)).0
                ≡ Statuscode.failed))
          (handle_unsubscribe_request address port name s)
  unfolding unsubscribe_first_spec unsubscribe_spec
  unsubscribe_stranger t seen stranger =
      Returns-mono (handle_unsubscribe_request address port name s)
        (λ r s' (a, _). (
          a ∙ rw (seen, unsubscribe_first_spec) refl,
          rw (seen, unsubscribe_spec) (rw stranger refl),
        ))
        (handle_unsubscribe_request_lem s v name address port client_ptr known)

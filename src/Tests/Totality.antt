-- ===== src/Tests/Totality.antt =====
-- The library of Tests/Documents returns or throws, and a request that is answered.
use verteilte_systeme_bbps.Prelude.{
  ok-injective, ◌≡◌, ◌≢◌, refl, sym, ap, ◌∙◌, Text, codes, nat_eq, text_eq, List, [], ◌∷◌, true,
  pos, ◌==◌, Gives-bind, Gives-if, IsDefined, ok,
}
use verteilte_systeme_bbps.Protocol.Identifiers.{CommandIdentifiers, parameter_eq}
use verteilte_systeme_bbps.Protocol.Json.{insert_name}
use verteilte_systeme_bbps.Protocol.Command.{deserialize}
use verteilte_systeme_bbps.Protocol.Command.RoundTrip.{filled}
use verteilte_systeme_bbps.Protocol.Command.Defined.{IsTotal}
use verteilte_systeme_bbps.Protocol.Response.{Response}
use verteilte_systeme_bbps.Server.State.{Server}
use verteilte_systeme_bbps.Server.Invariant.{Invariant}
use verteilte_systeme_bbps.Server.Dispatch.{answer}
use verteilte_systeme_bbps.Server.Dispatch.Defined.{answer-Known}
use verteilte_systeme_bbps.Tests.Documents.{
  Tree, trees, tree_is_member, tree_member, tree_member_names, tree_as_string, tree_as_int,
}
use verteilte_systeme_bbps.Tests.States.{two_topics, two_topics-Invariant}
use verteilte_systeme_bbps.Tests.Runs.{request_of_carl, news_by_carl}
use verteilte_systeme_bbps.Server.CommandLine.{parse}
use verteilte_systeme_bbps.Server.Program.{Event, Running}
use verteilte_systeme_bbps.Server.Program.Served.{accepted}
use verteilte_systeme_bbps.Server.Threads.{new_server}

is_member-IsDefined : (v : Tree) (j : Text) → IsDefined (tree_is_member v j)
is_member-IsDefined Tree.null j = tt
is_member-IsDefined (Tree.text s) j = tt
is_member-IsDefined (Tree.int z) j = tt
is_member-IsDefined (Tree.uint64 n) j = tt
is_member-IsDefined (Tree.assigned v k a) j =
    Gives-if (λ _. Unit) (j == k) (ok _) (tree_is_member v j) tt (is_member-IsDefined v j)

member-IsDefined : (v : Tree) (j : Text) → IsDefined (tree_member v j)
member-IsDefined Tree.null j = tt
member-IsDefined (Tree.text s) j = tt
member-IsDefined (Tree.int z) j = tt
member-IsDefined (Tree.uint64 n) j = tt
member-IsDefined (Tree.assigned v k a) j =
    Gives-if (λ _. Unit) (j == k) (ok a) (tree_member v j) tt (member-IsDefined v j)

member_names-IsDefined : (v : Tree) → IsDefined (tree_member_names v)
member_names-IsDefined Tree.null = tt
member_names-IsDefined (Tree.text s) = tt
member_names-IsDefined (Tree.int z) = tt
member_names-IsDefined (Tree.uint64 n) = tt
member_names-IsDefined (Tree.assigned v k a) =
    Gives-bind (λ _. Unit) (λ _. Unit) (tree_member_names v) (λ ks. ok (insert_name k ks))
      (member_names-IsDefined v) (λ _ _. tt)

as_string-IsDefined : (v : Tree) → IsDefined (tree_as_string v)
as_string-IsDefined Tree.null = tt
as_string-IsDefined (Tree.text s) = tt
as_string-IsDefined (Tree.int z) = tt
as_string-IsDefined (Tree.uint64 n) = tt
as_string-IsDefined (Tree.assigned v k a) = tt

as_int-IsDefined : (v : Tree) → IsDefined (tree_as_int v)
as_int-IsDefined Tree.null = tt
as_int-IsDefined (Tree.text s) = tt
as_int-IsDefined (Tree.int z) = tt
as_int-IsDefined (Tree.uint64 n) = tt
as_int-IsDefined (Tree.assigned v k a) = tt

trees-IsTotal : IsTotal trees
trees-IsTotal = record {
  is_member = is_member-IsDefined;
  member = member-IsDefined;
  member_names = member_names-IsDefined;
  as_string = as_string-IsDefined;
  as_int = as_int-IsDefined;
  parse = λ s. tt;
}

news_by_carl-read :
    deserialize trees news_by_carl
    ≡ ok (filled CommandIdentifiers.publish (codes "news" ∷ codes "hi" ∷ []))
unfolding deserialize nat_eq text_eq parameter_eq
news_by_carl-read = refl

publish-ne-unsubscribe : CommandIdentifiers.publish ≢ CommandIdentifiers.unsubscribe
publish-ne-unsubscribe e = cc

answer-Known_example :
    (r : Response) × (s' : Server) × (answer trees 7 8 (codes "10.0.0.3") news_by_carl two_topics
      ≡ ok (r, s'))
    × Invariant s'
answer-Known_example =
    answer-Known 7 8 (codes "10.0.0.3") two_topics two_topics-Invariant trees news_by_carl
      trees-IsTotal
      (λ c read port asks _. absurd (
        publish-ne-unsubscribe (
          ap (λ d. d.command_identifier) (ok-injective _ c (sym news_by_carl-read ∙ read)) ∙ asks)))

-- Carl's two connections, which bring no request to unsubscribe, and none has had its turn.
abbrev unanswered : List Event
unanswered =
    Event.accept_connection
      (record { now = 7; later = 8; ip_address = codes "10.0.0.3"; received = request_of_carl })
    ∷ Event.heartbeat_turn (λ _. 9)
    ∷ Event.accept_connection
        (record { now = 20; later = 21; ip_address = codes "10.0.0.3"; received = news_by_carl })
    ∷ []

-- Both wait; the second that came has its turn first.
abbrev both_wait : Running
both_wait = record {
  accepting = true;
  threads = accepted true unanswered;
  finished = [];
  system = record {
    server = new_server (pos 30);
    network = record { open_descriptors = 6; sent = [] };
  };
}

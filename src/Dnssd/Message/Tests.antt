-- ===== src/Dnssd/Message/Tests.antt =====
-- A question in the traffic of the server of src/dnssd.rs.
use alt_keeper.Dnssd.Tests.{zone}
use alt_keeper.Dnssd.Message.Asked.{query_wire, reply_wire, IsAsked, serve-query_wire}
use alt_keeper.Base.Outcome.{ok}
use alt_keeper.Dnssd.Zone.{type_a, answer, Record}
use alt_keeper.Base.{◌++◌, arith, inl, List, ◌∷◌, [], ◌≡◌, refl, true, All, ℕ, Option}
use alt_keeper.Dnssd.Message.Layout.{question_wire}
use alt_keeper.Base.Text.{lower_byte, join, codes, Str, split}
use alt_keeper.Dnssd.Message.{Query, class_in, serve}
use alt_keeper.Dnssd.Name.{write_name}
use alt_keeper.Dnssd.Name.RoundTrip.{IsLabel}
use alt_keeper.Base.Bytes.{Bytes}

abbrev host_labels : List Str
host_labels = codes "altkeeper-8e68e3c9" ∷ codes "casa" ∷ codes "internal" ∷ []

abbrev host_query : Query
host_query = record {
  id = 0x4321;
  recursion_desired = true;
  name = codes "altkeeper-8e68e3c9.casa.internal";
  qtype = type_a;
  qclass = class_in;
}

host_labels-IsLabel : All IsLabel host_labels
unfolding lower_byte
host_labels-IsLabel = (
  record { not_nil = λ e. cc e; short = omega arith; plain = omega arith },
  (
    record { not_nil = λ e. cc e; short = omega arith; plain = omega arith },
    (record { not_nil = λ e. cc e; short = omega arith; plain = omega arith }, tt),
  ),
)

host_query-IsAsked : IsAsked 0x0100 host_labels host_query
unfolding join
host_query-IsAsked = record {
  named = refl;
  labels = host_labels-IsLabel;
  few = omega arith;
  id_fits = omega arith;
  type_fits = omega arith;
  class_known = inl refl;
  flags_fit = omega arith;
  is_query = refl;
  is_standard = refl;
  recursion = refl;
}

abbrev junk : List (Bytes × ℕ)
junk = (codes "junk", 1) ∷ []

abbrev none_after : List (Bytes × ℕ)
none_after = []

-- The bytes after the question are an EDNS record, and a datagram of no sense comes first.
serve-query_wire_example :
    (found : Option (List Record)) × (answer zone host_query.name type_a ≡ ok found)
    × (serve zone (junk ++ (query_wire 0x0100 0 0 1 host_query ++ 0 ∷ 0 ∷ 41 ∷ [], 2) ∷ none_after)
        ≡ serve zone junk ++ (reply_wire host_query found, 2) ∷ serve zone none_after)
unfolding query_wire question_wire write_name split
serve-query_wire_example =
    serve-query_wire zone junk none_after 2 0x0100 0 0 1 host_query host_labels (0 ∷ 0 ∷ 41 ∷ [])
      host_query-IsAsked (omega arith)

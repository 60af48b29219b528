-- ===== src/Dnssd/Tests.antt =====
-- Runs of src/dnssd.rs on the zone and the questions of its own tests.
use alt_keeper.Base.{
  ◌≤◌, true, ◌++◌, ◌≡◌, bit_and, none, ◌∷◌, Option, some, ◌↔◌, refl, ◌≢◌, arith, List, [], length,
  ℕ, All, get_or,
}
use alt_keeper.Base.Bytes.{Bytes, from_be16, to_be16}
use alt_keeper.Base.Text.{
  Str, lower_byte, codes, trim_matches, split, join, strip_prefix, str_eq, strip_suffix,
  parse_unsigned,
}
use alt_keeper.Base.Outcome.{Returned, Outcome, ok}
use alt_keeper.Dnssd.Message.{
  Query, build_reply, parse_query, handle, max_reply, class_in, rcode_nxdomain, write_record,
}
use alt_keeper.Dnssd.Zone.{
  new, Zone, answer, covers_reverse, type_txt, type_a, type_ptr, Ipv4Addr, after_prefix, Record,
}
use alt_keeper.Dnssd.Zone.Sound.{IsOurs, answer-ne-none}
use alt_keeper.Dnssd.Name.{read_name, write_name}
use alt_keeper.Dnssd.Zone.Discovery.{IsFound, new-IsFound}
use alt_keeper.Base.Utf8.{within, from_utf8_lossy}
use alt_keeper.Dnssd.Message.Safety.{handle-Returned}
use alt_keeper.Dnssd.Zone.Reverse.{reverse_name, shares_network, covers_reverse-reverse_name}
use alt_keeper.Dnssd.Message.Size.{handle_fits}
use alt_keeper.Dnssd.Name.RoundTrip.{IsLabel, read_name-write_name}

abbrev ip : ℕ → ℕ → ℕ → ℕ → Ipv4Addr
ip w x y z = record { a = w; b = x; c = y; d = z }

abbrev domain : Str
domain = codes "casa.internal"

abbrev server_id : Str
server_id = codes "8e68e3c9e57288e9f7260efb6ea76c93"

abbrev pub zone : Zone
zone = record {
  domain = domain;
  browse = codes "_altserver._tcp.casa.internal";
  instance_name = codes "altkeeper-casa2._altserver._tcp.casa.internal";
  host = codes "altkeeper-8e68e3c9.casa.internal";
  server_id = server_id;
  port = 49500;
  address = ip 10 0 0 5;
  clients = (ip 10 0 0 0, 24);
}

new-zone :
    new domain (codes "altkeeper-" ++ codes "Casa2") server_id 49500 (ip 10 0 0 5) (ip 10 0 0 0, 24)
    ≡ ok zone
unfolding new within trim_matches lower_byte
new-zone = refl

-- `domanda` of the program's tests.
abbrev question : Str → ℕ → Bytes
question name qtype =
    (write_name (0x12 ∷ 0x34 ∷ 0x01 ∷ 0x00 ∷ 0 ∷ 1 ∷ 0 ∷ 0 ∷ 0 ∷ 0 ∷ 0 ∷ 0 ∷ []) name
      ++ to_be16 qtype)
    ++ to_be16 1

-- The low bits of the flags, and the number of answers.
abbrev summary : Outcome Bytes → Option (ℕ × ℕ)
summary (ok m) =
    some (
      bit_and (from_be16 (get_or m 2 0) (get_or m 3 0)) 0xf,
      from_be16 (get_or m 6 0) (get_or m 7 0),
    )
summary _ = none

-- Runs the server on one question.
ask : Str → ℕ → Option (ℕ × ℕ)
unfolding handle write_name parse_query split read_name build_reply answer after_prefix strip_prefix
    join from_utf8_lossy lower_byte str_eq covers_reverse strip_suffix parse_unsigned write_record
ask name qtype = summary (handle zone (question name qtype))

capitals_do_not_count : ask (codes "_ALTSERVER._TCP.CASA.INTERNAL") type_ptr ≡ some (0, 1)
unfolding ask
capitals_do_not_count = refl

found_by_reversed_address :
    ask (codes "lb._dns-sd._udp.7.0.0.10.in-addr.arpa") type_ptr ≡ some (0, 1)
unfolding ask
found_by_reversed_address = refl

found_by_reversed_network : ask (codes "lb._dns-sd._udp.0.0.10.in-addr.arpa") type_ptr ≡ some (0, 1)
unfolding ask
found_by_reversed_network = refl

other_network : ask (codes "lb._dns-sd._udp.4.9.168.192.in-addr.arpa") type_ptr ≡ some (3, 0)
unfolding ask
other_network = refl

malformed_reverse : ask (codes "lb._dns-sd._udp.999.0.0.10.in-addr.arpa") type_ptr ≡ some (3, 0)
unfolding ask
malformed_reverse = refl

wrong_type : ask (codes "altkeeper-8e68e3c9.casa.internal") type_txt ≡ some (0, 0)
unfolding ask
wrong_type = refl

host_address : ask (codes "altkeeper-8e68e3c9.casa.internal") type_a ≡ some (0, 1)
unfolding ask
host_address = refl

abbrev labels : List Str
labels = codes "casa2" ∷ codes "_tcp" ∷ codes "internal" ∷ []

labels-IsLabel : All IsLabel labels
unfolding lower_byte
labels-IsLabel = (
  record { not_nil = λ e. cc e; short = omega arith; plain = omega arith },
  (
    record { not_nil = λ e. cc e; short = omega arith; plain = omega arith },
    (record { not_nil = λ e. cc e; short = omega arith; plain = omega arith }, tt),
  ),
)

read_name-write_name_example :
    read_name (write_name (7 ∷ 8 ∷ []) (join b'.' labels) ++ 9 ∷ []) 2
    ≡ ok (join b'.' labels, length (write_name (7 ∷ 8 ∷ []) (join b'.' labels)))
read_name-write_name_example =
    read_name-write_name (7 ∷ 8 ∷ []) (9 ∷ []) labels labels-IsLabel (omega arith)

handle-Returned_example : Returned (handle zone (0x12 ∷ 0x34 ∷ 1 ∷ []))
handle-Returned_example = handle-Returned zone (0x12 ∷ 0x34 ∷ 1 ∷ [])

abbrev query : Query
query = record {
  id = 0x1234;
  recursion_desired = true;
  name = codes "casa.internal";
  qtype = type_a;
  qclass = class_in;
}

abbrev browsing : Bytes
browsing =
    0x12
    ∷ 0x34
    ∷ 0x01
    ∷ 0x00
    ∷ 0
    ∷ 1
    ∷ 0
    ∷ 0
    ∷ 0
    ∷ 0
    ∷ 0
    ∷ 0
    ∷ 4
    ∷ (codes "casa" ++ (8 ∷ (codes "internal" ++ (0 ∷ 0 ∷ 1 ∷ 0 ∷ 1 ∷ []))))

parse_query-browsing : parse_query browsing ≡ ok query
unfolding parse_query read_name from_utf8_lossy lower_byte join
parse_query-browsing = refl

abbrev reply_or_nothing : Outcome Bytes → Bytes
reply_or_nothing (ok m) = m
reply_or_nothing _ = []

refused_reply : Bytes
unfolding build_reply write_name split
refused_reply = reply_or_nothing (build_reply query rcode_nxdomain [])

handle-browsing : handle zone browsing ≡ ok refused_reply
unfolding handle parse_query read_name from_utf8_lossy lower_byte join answer after_prefix
    strip_prefix str_eq refused_reply
handle-browsing = refl

handle_fits_example : length refused_reply ≤ max_reply
handle_fits_example =
    handle_fits zone browsing refused_reply query (omega arith) parse_query-browsing (omega arith)
      handle-browsing

new-IsFound_example : IsFound zone domain server_id 49500 (ip 10 0 0 5)
new-IsFound_example =
    new-IsFound domain (codes "Casa2") server_id 49500 (ip 10 0 0 5) (ip 10 0 0 0, 24) zone new-zone

answer-ne-none_example :
    ((o : Option (List Record)) × (answer zone zone.host type_txt ≡ ok o))
    × ((answer zone zone.host type_txt ≢ ok none) ↔ IsOurs zone zone.host)
answer-ne-none_example = answer-ne-none zone zone.host type_txt

covers_reverse-reverse_name_example :
    covers_reverse zone (reverse_name (ip 10 0 0 7))
    ≡ ok (shares_network (ip 10 0 0 7) (ip 10 0 0 0) 24)
covers_reverse-reverse_name_example =
    covers_reverse-reverse_name zone (ip 10 0 0 7) (omega arith) (omega arith) (omega arith)

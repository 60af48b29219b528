-- ===== src/Dnssd/Message/Layout.antt =====
-- The layout of the records and replies that src/dnssd.rs writes, with no accumulator.
use alt_keeper.Base.{
  refl, ◌^◌, ◌++◌, ◌+◌, List, ◌∙◌, arith, [], ap, ◌%◌, ℕ, ◌≡◌, ◌∷◌, append_assoc, ◌/◌, set, length,
  ◌-◌, length-append, append-nil, sym, false, ltb, take,
}
use alt_keeper.Dnssd.Zone.{Record, a, ptr, txt, srv}
use alt_keeper.Dnssd.Message.{
  write_record, write_data, patch, record_name, record_type, class_in, ttl, Query, build_reply,
  write_records, reply_flags,
}
use alt_keeper.Base.Bytes.{Bytes, to_be16, to_be32}
use alt_keeper.Base.Outcome.{ok}
use Prim.Native.Nat.{min}
use alt_keeper.Dnssd.Name.{write_name}
use alt_keeper.Base.Text.{Str}
use alt_keeper.Dnssd.Name.Pieces.{write_name-pieces}

pub write_name-append : (out : Bytes) (name : Str) → write_name out name ≡ out ++ write_name [] name
write_name-append out name = rw (write_name-pieces out name) (rw (write_name-pieces [] name) refl)

-- The data of a record of RFC 1035: an address, a name, a text behind its length, which stops at 255, or
-- the priority, the weight, the port and the name of a host.
unfoldable pub data_wire : Record → Bytes
data_wire (a _ ip) = ip.a ∷ ip.b ∷ ip.c ∷ ip.d ∷ []
data_wire (ptr _ target) = write_name [] target
data_wire (txt _ text) = min (length text) 255 % 256 ∷ take (min (length text) 255) text
data_wire (srv _ port target) = to_be16 0 ++ (to_be16 0 ++ (to_be16 port ++ write_name [] target))

-- The number of its type.
abbrev pub type_wire : Record → ℕ
type_wire (a _ _) = 1
type_wire (ptr _ _) = 12
type_wire (txt _ _) = 16
type_wire (srv _ _ _) = 33

record_type-wire : (r : Record) → record_type r ≡ type_wire r
record_type-wire (a _ _) = refl
record_type-wire (ptr _ _) = refl
record_type-wire (txt _ _) = refl
record_type-wire (srv _ _ _) = refl

write_data-append : (out : Bytes) (r : Record) → write_data out r ≡ out ++ data_wire r
unfolding write_data data_wire
write_data-append out (a name address) = refl
write_data-append out (ptr name target) = write_name-append out target
write_data-append out (txt name text) = append_assoc out _ _
write_data-append out (srv name port target) =
    write_name-append (((out ++ to_be16 0) ++ to_be16 0) ++ to_be16 port) target ∙ simp append_assoc

set-append : (xs : Bytes) (y v : ℕ) (ys : Bytes) → set (xs ++ y ∷ ys) (length xs) v ≡ xs ++ v ∷ ys
set-append [] y v ys = refl
set-append (x ∷ xs) y v ys = ap (◌∷◌ x) (set-append xs y v ys)

set_suc-append :
    (xs : Bytes) (y z v : ℕ) (ys : Bytes)
    → set (xs ++ y ∷ z ∷ ys) (length xs + 1) v ≡ xs ++ y ∷ v ∷ ys
set_suc-append [] y z v ys = refl
set_suc-append (x ∷ xs) y z v ys = ground (arith, set_suc-append xs y z v ys)

patch-append :
    (xs : Bytes) (y z v : ℕ) (ys : Bytes)
    → patch (xs ++ y ∷ z ∷ ys) (length xs) v ≡ ok (xs ++ (to_be16 v ++ ys))
unfolding patch
patch-append xs y z v ys =
    let room : ltb (length (xs ++ y ∷ z ∷ ys)) (length xs + 2) ≡ false =
      ground (arith, length-append xs (y ∷ z ∷ ys)) in
    rw room (
      rw (set-append xs y (v / 256 % 256) (z ∷ ys))
        (ap ok (set_suc-append xs (v / 256 % 256) z (v % 256) ys)))

-- A resource record of RFC 1035, with its data behind their length.
unfoldable pub record_wire : Record → Bytes
record_wire r =
    write_name [] (record_name r)
    ++ (to_be16 (type_wire r)
        ++ (to_be16 1 ++ (to_be32 120 ++ (to_be16 (length (data_wire r) % 2 ^ 16) ++ data_wire r))))

unfoldable pub record_wires : List Record → Bytes
record_wires [] = []
record_wires (r ∷ rs) = record_wire r ++ record_wires rs

-- The end of `write_record`: the length of the data goes where two zeros were left for it.
length-patch :
    (front body : Bytes)
    → patch
        ((front ++ to_be16 0) ++ body)
        (length front)
        ((length ((front ++ to_be16 0) ++ body) - length (front ++ to_be16 0)) % 2 ^ 16)
      ≡ ok (front ++ (to_be16 (length body % 2 ^ 16) ++ body))
length-patch front body =
    let n : length ((front ++ to_be16 0) ++ body) - length (front ++ to_be16 0) ≡ length body =
      omega (arith, length-append (front ++ to_be16 0) body) in
    rw (n, append_assoc front (to_be16 0) body) (patch-append front 0 0 (length body % 2 ^ 16) body)

header_first :
    (out : Bytes) (r : Record)
    → (((write_name out (record_name r) ++ to_be16 (record_type r)) ++ to_be16 class_in)
          ++ to_be32 ttl)
        ++ (to_be16 (length (data_wire r) % 2 ^ 16) ++ data_wire r)
      ≡ out ++ record_wire r
unfolding record_wire
header_first out r =
    rw (write_name-append out (record_name r), record_type-wire r) (simp append_assoc)

pub write_record-wire : (out : Bytes) (r : Record) → write_record out r ≡ ok (out ++ record_wire r)
unfolding write_record record_wire
write_record-wire out r =
    let fixed =
      ((write_name out (record_name r) ++ to_be16 (record_type r)) ++ to_be16 class_in)
      ++ to_be32 ttl in
    rw (write_data-append (fixed ++ to_be16 0) r)
      (length-patch fixed (data_wire r) ∙ ap ok (header_first out r))

write_records-wires :
    (out : Bytes) (rs : List Record) → write_records out rs ≡ ok (out ++ record_wires rs)
unfolding write_records record_wires
write_records-wires out [] = ap ok (sym (append-nil out))
write_records-wires out (r ∷ rs) = rw (write_record-wire out r) (
    write_records-wires (out ++ record_wire r) rs
    ∙ ap ok (append_assoc out (record_wire r) (record_wires rs)))

-- The header of a reply: the question's id, the flags, and the four counts.
unfoldable pub header_wire : Query → ℕ → ℕ → Bytes
header_wire q rcode answers =
    to_be16 q.id
    ++ (to_be16 (reply_flags q.recursion_desired rcode)
        ++ (to_be16 1 ++ (to_be16 (answers % 2 ^ 16) ++ (to_be16 0 ++ to_be16 0))))

-- A question on the wire.
unfoldable pub question_wire : Query → Bytes
question_wire q = write_name [] q.name ++ (to_be16 q.qtype ++ to_be16 q.qclass)

-- A reply is, byte for byte, the header with the question's id and the number of records, then the
-- question, then each record in turn: its name, type, class and time to live, the length of its data
-- in two bytes, and the data.
pub build_reply_layout :
    (q : Query) (rcode : ℕ) (records : List Record)
    → build_reply q rcode records
      ≡ ok (header_wire q rcode (length records) ++ (question_wire q ++ record_wires records))
unfolding build_reply header_wire question_wire
build_reply_layout q rcode records =
    let header = header_wire q rcode (length records) in
    write_records-wires ((write_name header q.name ++ to_be16 q.qtype) ++ to_be16 q.qclass) records
    ∙ ap ok (rw (write_name-append header q.name) (simp append_assoc))

-- ===== src/Dnssd/Message.antt =====
-- Messages of src/dnssd.rs: a question is read, its reply is written, and the server's loop.
pub mod Layout
pub mod Safety
pub mod Size
pub mod Asked
mod Tests
use alt_keeper.Base.{
  ℕ, ◌+◌, ◌-◌, ◌/◌, ◌%◌, ◌^◌, bit_or, Bool, true, false, not, ◌&&◌, Option, none, some, List, [],
  ◌∷◌, ◌++◌, length, get_elem?, set, take, ltb, ◌==◌, if◌then◌else◌,
}
use alt_keeper.Base.Outcome.{Outcome, ok, refused, panic, stuck, or_panic, ◌>>=◌}
use alt_keeper.Base.Bytes.{Bytes, to_be16, from_be16, to_be32, has_bit}
use alt_keeper.Base.Text.{Str}
use alt_keeper.Dnssd.Name.{read_name, write_name}
use alt_keeper.Dnssd.Zone.{
  Zone, Record, a, ptr, txt, srv, octets_of, type_a, type_ptr, type_txt, type_srv, type_any, answer,
}
use Prim.Native.Nat.{min}

abbrev pub ttl : ℕ
ttl = 120

abbrev pub class_in : ℕ
class_in = 1

-- `FLAG_TRUNCATED`
abbrev pub flag_truncated : ℕ
flag_truncated = 0x0200

abbrev pub rcode_ok : ℕ
rcode_ok = 0

abbrev pub rcode_nxdomain : ℕ
rcode_nxdomain = 3

abbrev pub max_reply : ℕ
max_reply = 512

pub record Query : Type 0 where
  pub id : ℕ
  pub recursion_desired : Bool
  pub name : Str
  pub qtype : ℕ
  pub qclass : ℕ

-- `u16::from_be_bytes([buf[i], buf[i + 1]])`
unfoldable pub word_at : Bytes → ℕ → Outcome ℕ
word_at buf i = do
  hi ← or_panic (get_elem? buf i)
  lo ← or_panic (get_elem? buf (i + 1))
  ok (from_be16 hi lo)

-- `if test { return None; }`
abbrev pub refuse_if : Bool → Outcome (Unit {0})
refuse_if true = refused
refuse_if false = ok tt

-- `parse_query`, after the header: the type and the class behind the name.
parse_question : Bytes → ℕ → ℕ → Str × ℕ → Outcome Query
unfolding word_at
parse_question buf id flags (name, next) = do
  _ ← refuse_if (ltb (length buf) (next + 4))
  qtype ← word_at buf next
  qclass ← word_at buf (next + 2)
  _ ← refuse_if (not (qclass == class_in) && not (qclass == type_any))
  ok (record {
    id = id;
    recursion_desired = has_bit flags 8;
    name = name;
    qtype = qtype;
    qclass = qclass;
  })

unfoldable pub parse_query : Bytes → Outcome Query
unfolding word_at parse_question
parse_query buf = do
  _ ← refuse_if (ltb (length buf) 12)
  id ← word_at buf 0
  flags ← word_at buf 2
  _ ← refuse_if (has_bit flags 15)
  _ ← refuse_if (not (flags / 2 ^ 11 % 16 == 0))
  questions ← word_at buf 4
  _ ← refuse_if (not (questions == 1))
  named ← read_name buf 12
  parse_question buf id flags named

abbrev pub record_name : Record → Str
record_name (a name _) = name
record_name (ptr name _) = name
record_name (txt name _) = name
record_name (srv name _ _) = name

abbrev pub record_type : Record → ℕ
record_type (a _ _) = type_a
record_type (ptr _ _) = type_ptr
record_type (txt _ _) = type_txt
record_type (srv _ _ _) = type_srv

-- The second `match` of `write_record`: the data of a record.
unfoldable pub write_data : Bytes → Record → Bytes
write_data out (a _ address) = out ++ octets_of address
write_data out (ptr _ target) = write_name out target
write_data out (txt _ text) =
    let len = min (length text) 255 in (out ++ len % 256 ∷ []) ++ take len text
write_data out (srv _ port target) =
    write_name (((out ++ to_be16 0) ++ to_be16 0) ++ to_be16 port) target

-- `out[at..at + 2].copy_from_slice(&v.to_be_bytes())`
unfoldable pub patch : Bytes → ℕ → ℕ → Outcome Bytes
patch out at v =
    if ltb (length out) (at + 2)
    then panic
    else ok (set (set out at (v / 256 % 256)) (at + 1) (v % 256))

unfoldable pub write_record : Bytes → Record → Outcome Bytes
unfolding write_data patch
write_record out r =
    let named = write_name out (record_name r) in
    let fixed = ((named ++ to_be16 (record_type r)) ++ to_be16 class_in) ++ to_be32 ttl in
    let start = fixed ++ to_be16 0 in
    let written = write_data start r in
    let len = length written - length start in patch written (length fixed) (len % 2 ^ 16)

unfoldable pub write_records : Bytes → List Record → Outcome Bytes
write_records out [] = ok out
write_records out (r ∷ rs) = write_record out r >>= λ longer. write_records longer rs

unfoldable pub reply_flags : Bool → ℕ → ℕ
reply_flags rd rcode = bit_or (bit_or 0x8400 (if rd then 0x0100 else 0)) rcode

unfoldable pub build_reply : Query → ℕ → List Record → Outcome Bytes
unfolding write_records reply_flags
build_reply q rcode records =
    let header =
      ((((to_be16 q.id ++ to_be16 (reply_flags q.recursion_desired rcode)) ++ to_be16 1)
          ++ to_be16 (length records % 2 ^ 16))
        ++ to_be16 0)
      ++ to_be16 0 in
    let asked = (write_name header q.name ++ to_be16 q.qtype) ++ to_be16 q.qclass in
    write_records asked records

-- `out[2] |= (FLAG_TRUNCATED >> 8) as u8`
unfoldable pub mark_truncated : Bytes → Outcome Bytes
mark_truncated out = do
  flags ← or_panic (get_elem? out 2)
  ok (set out 2 (bit_or flags (flag_truncated / 2 ^ 8 % 256)))

abbrev pub rcode_of : Option (List Record) → ℕ
rcode_of none = rcode_nxdomain
rcode_of (some _) = rcode_ok

abbrev pub records_of : Option (List Record) → List Record
records_of none = []
records_of (some rs) = rs

-- `handle`, once the question is read.
unfoldable pub reply_to : Zone → Query → Outcome Bytes
unfolding mark_truncated
reply_to zone q = do
  answers ← answer zone q.name q.qtype
  out ← build_reply q (rcode_of answers) (records_of answers)
  let cut = build_reply q rcode_ok [] >>= mark_truncated
  if ltb max_reply (length out) then cut else ok out

unfoldable pub handle : Zone → Bytes → Outcome Bytes
unfolding reply_to
handle zone query = do q ← parse_query query; reply_to zone q

-- The loop of the server's thread over the datagrams that arrive, each with its sender:
-- `recv_from` keeps what fits the buffer of 512 bytes. Errors of the socket are skipped.
unfoldable pub serve {ℓ} : {Addr : Type ℓ} → Zone → List (Bytes × Addr) → List (Bytes × Addr)
serve zone [] = []
serve zone ((datagram, from) ∷ more) =
    let rest = serve zone more in
    elim (handle zone (take max_reply datagram)) [
      | ok reply ↦ (reply, from) ∷ rest
      | refused ↦ rest
      | panic ↦ []
      | stuck ↦ []
    ]

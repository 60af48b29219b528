-- ===== src/Dnssd/Message/Size.antt =====
-- How long the replies of src/dnssd.rs are.
use alt_keeper.Base.{
  not, ◌++◌, ◌%◌, ◌≤◌, ◌^◌, inl, ◌&&◌, ◌+◌, ◌==◌, arith, inr, ℕ, ◌/◌, ◌≡◌, [], length, All, ltb,
  ◌∙◌, Bool-cases, ap, sym, length-append,
}
use alt_keeper.Dnssd.Message.{
  handle, parse_query, parse_question, reply_to, Query, max_reply, refuse_if, word_at, rcode_ok,
  class_in, rcode_of, records_of,
}
use alt_keeper.Dnssd.Message.Layout.{header_wire, question_wire, record_wires, build_reply_layout}
use alt_keeper.Base.Bytes.{Bytes, has_bit, to_be16}
use alt_keeper.Base.Text.{Str, IsAscii}
use alt_keeper.Dnssd.Zone.{Zone, type_any}
use alt_keeper.Base.Outcome.{ok, bound_ok}
use alt_keeper.Dnssd.Name.{read_name, write_name}
use alt_keeper.Dnssd.Message.Safety.{mark_truncated_reply, passed}
use alt_keeper.Dnssd.Name.Bounds.{length-write_name-read_name}
use alt_keeper.Dnssd.Zone.Total.{answer-total}

question_bound :
    (buf : Bytes) (id flags : ℕ) (named : Str × ℕ) {q : Query}
    → parse_question buf id flags named ≡ ok q
    → (q.name ≡ named.0) × (named.1 + 4 ≤ length buf)
unfolding parse_question
question_bound buf id flags (name, next) e =
    let (_, p, e1) = bound_ok (refuse_if (ltb (length buf) (next + 4))) _ e in
    let (_, _, e2) = bound_ok (word_at buf next) _ e1 in
    let (qclass, _, e3) = bound_ok (word_at buf (next + 2)) _ e2 in
    let (_, _, e4) =
      bound_ok (refuse_if (not (qclass == class_in) && not (qclass == type_any))) _ e3 in
    (cc e4, ground (arith, passed _ p))

-- A question that was read has its name at index 12, and four bytes behind it.
parse_query_name :
    (buf : Bytes) {q : Query}
    → parse_query buf ≡ ok q
    → (next : ℕ) × (read_name buf 12 ≡ ok (q.name, next)) × (next + 4 ≤ length buf)
unfolding parse_query
parse_query_name buf {q} e =
    let (_, _, e1) = bound_ok (refuse_if (ltb (length buf) 12)) _ e in
    let (id, _, e2) = bound_ok (word_at buf 0) _ e1 in
    let (flags, _, e3) = bound_ok (word_at buf 2) _ e2 in
    let (_, _, e4) = bound_ok (refuse_if (has_bit flags 15)) _ e3 in
    let (_, _, e5) = bound_ok (refuse_if (not (flags / 2 ^ 11 % 16 == 0))) _ e4 in
    let (questions, _, e6) = bound_ok (word_at buf 4) _ e5 in
    let (_, _, e7) = bound_ok (refuse_if (not (questions == 1))) _ e6 in
    let ((name, next), read, e8) = bound_ok (read_name buf 12) _ e7 in
    let (same, fits) = question_bound buf id flags (name, next) e8 in
    (next, read ∙ ap (λ n. ok (n, next)) (sym same), fits)

-- The empty reply is as long as its header, the name on the wire and four bytes.
length-build_reply_nil :
    (q : Query) (rcode : ℕ)
    → length (header_wire q rcode 0 ++ (question_wire q ++ record_wires []))
      ≡ 16 + length (write_name [] q.name)
unfolding header_wire question_wire record_wires
length-build_reply_nil q rcode = omega (
  arith,
  length-append (write_name [] q.name ++ (to_be16 q.qtype ++ to_be16 q.qclass)) [],
  length-append (write_name [] q.name) (to_be16 q.qtype ++ to_be16 q.qclass),
)

-- The reply to a question whose name is ASCII, as it was read, fits in 512 bytes where the question
-- itself did.
pub handle_fits :
    (z : Zone) (query reply : Bytes) (q : Query)
    → length query ≤ max_reply
    → parse_query query ≡ ok q
    → All IsAscii q.name
    → handle z query ≡ ok reply
    → length reply ≤ max_reply
unfolding handle reply_to
handle_fits z query reply q short parsed plain e =
    let (next, read, fits) = parse_query_name query parsed in
    let (out, marked, same) = mark_truncated_reply q rcode_ok in
    let name_fits = length-write_name-read_name query [] 12 q.name next read plain in
    let empty_fits : length out ≤ max_reply =
      omega (arith, same, name_fits, length-build_reply_nil q rcode_ok) in
    let (answers, answered) = answer-total z q.name q.qtype in
    let rcode = rcode_of answers in
    let records = records_of answers in
    let laid = build_reply_layout q rcode records in
    let whole = header_wire q rcode (length records) ++ (question_wire q ++ record_wires records) in
    elim (Bool-cases (ltb max_reply (length whole))) [
      | inl big ↦ ground (arith, rw (parsed, answered, laid, big, marked) at e, empty_fits)
      | inr small ↦ ground (arith, rw (parsed, answered, laid, small) at e, small)
    ]

-- ===== src/Dnssd/Message/Safety.antt =====
-- `parse_query` and `handle` of src/dnssd.rs on any datagram: no index is out of range.
use alt_keeper.Base.{
  not, true, arith, ◌&&◌, ◌≡◌, ◌%◌, refl, inr, ℕ, ◌≤◌, Bool, false, ◌+◌, ◌==◌, [], ◌^◌, inl, ◌/◌,
  length, ltb, lt-get_elem?, Bool-cases, ◌++◌,
}
use alt_keeper.Dnssd.Message.{
  handle, word_at, reply_to, parse_query, mark_truncated, parse_question, refuse_if, Query,
  build_reply, rcode_ok, class_in, rcode_of, records_of, max_reply,
}
use alt_keeper.Base.Bytes.{Bytes, has_bit, from_be16}
use alt_keeper.Base.Outcome.{Outcome, ◌>>=◌, Returned, ok, refused, panic, stuck}
use alt_keeper.Dnssd.Zone.{Zone, type_any}
use alt_keeper.Dnssd.Zone.Total.{answer-total}
use alt_keeper.Dnssd.Message.Layout.{header_wire, build_reply_layout, question_wire, record_wires}
use alt_keeper.Base.Text.{Str}
use alt_keeper.Dnssd.Name.{read_name}
use alt_keeper.Dnssd.Name.Bounds.{read_name-Returned}

Returned-bind {ℓ κ} :
    {A : Type ℓ} {B : Type κ} (m : Outcome A) (f : A → Outcome B)
    → Returned m
    → ((x : A) → m ≡ ok x → Returned (f x))
    → Returned (m >>= f)
Returned-bind (ok x) f hm hf = hf x refl
Returned-bind refused f hm hf = tt
Returned-bind panic f hm hf = hm
Returned-bind stuck f hm hf = hm

word_at_within : (buf : Bytes) (i : ℕ) → i + 2 ≤ length buf → (w : ℕ) × (word_at buf i ≡ ok w)
unfolding word_at
word_at_within buf i h =
    let (x, ex) = lt-get_elem? buf i (omega arith) in
    let (y, ey) = lt-get_elem? buf (i + 1) (omega arith) in (from_be16 x y, rw (ex, ey))

word_at-Returned : (buf : Bytes) (i : ℕ) → i + 2 ≤ length buf → Returned (word_at buf i)
word_at-Returned buf i h = let (w, e) = word_at_within buf i h in rw e tt

refuse_if-Returned : (b : Bool) → Returned (refuse_if b)
refuse_if-Returned true = tt
refuse_if-Returned false = tt

-- The test that lets the code go on.
pub passed : (b : Bool) {u : Unit {0}} → refuse_if b ≡ ok u → b ≡ false
passed true h = cc
passed false h = refl

parse_question-Returned :
    (buf : Bytes) (id flags : ℕ) (named : Str × ℕ) → Returned (parse_question buf id flags named)
unfolding parse_question
parse_question-Returned buf id flags (name, next) =
    Returned-bind (refuse_if (ltb (length buf) (next + 4))) _ (refuse_if-Returned _) λ _ p.
      let fits : next + 4 ≤ length buf = ground (arith, passed _ p) in
      Returned-bind (word_at buf next) _ (word_at-Returned buf next (omega arith)) λ qtype _.
        Returned-bind (word_at buf (next + 2)) _ (word_at-Returned buf (next + 2) (omega arith))
          λ qclass _.
            Returned-bind (refuse_if (not (qclass == class_in) && not (qclass == type_any))) _
              (refuse_if-Returned _) λ _ _. tt

-- On any datagram, cut off or malformed as it may be, `parse_query` returns.
parse_query-Returned : (buf : Bytes) → Returned (parse_query buf)
unfolding parse_query
parse_query-Returned buf =
    Returned-bind (refuse_if (ltb (length buf) 12)) _ (refuse_if-Returned _) λ _ p.
      let long : 12 ≤ length buf = ground (arith, passed _ p) in
      Returned-bind (word_at buf 0) _ (word_at-Returned buf 0 (omega arith)) λ id _.
        Returned-bind (word_at buf 2) _ (word_at-Returned buf 2 (omega arith)) λ flags _.
          Returned-bind (refuse_if (has_bit flags 15)) _ (refuse_if-Returned _) λ _ _.
            Returned-bind (refuse_if (not (flags / 2 ^ 11 % 16 == 0))) _ (refuse_if-Returned _)
              λ _ _.
                Returned-bind (word_at buf 4) _ (word_at-Returned buf 4 (omega arith))
                  λ questions _.
                    Returned-bind (refuse_if (not (questions == 1))) _ (refuse_if-Returned _) λ _ _.
                      Returned-bind (read_name buf 12) _ (read_name-Returned buf 12)
                        λ named _. parse_question-Returned buf id flags named

-- Marking a reply that has its header sets one bit of it.
pub mark_truncated_reply :
    (q : Query) (rcode : ℕ)
    → (out : Bytes) × ((build_reply q rcode [] >>= mark_truncated) ≡ ok out)
      × (length out ≡ length (header_wire q rcode 0 ++ (question_wire q ++ record_wires [])))
unfolding mark_truncated header_wire
mark_truncated_reply q rcode = rw (build_reply_layout q rcode []) (_, refl, refl)

reply_to-Returned : (z : Zone) (q : Query) → Returned (reply_to z q)
unfolding reply_to
reply_to-Returned z q =
    let (out, e, _) = mark_truncated_reply q rcode_ok in
    let (answers, answered) = answer-total z q.name q.qtype in
    let rcode = rcode_of answers in
    let records = records_of answers in
    let reply = header_wire q rcode (length records) ++ (question_wire q ++ record_wires records) in
    elim (Bool-cases (ltb max_reply (length reply))) [
      | inl big ↦ rw (answered, reply_to) (rw (build_reply_layout q rcode records) (rw (big, e) tt))
      | inr fits ↦ rw (answered, reply_to) (rw (build_reply_layout q rcode records) (rw fits tt))
    ]

-- Whatever datagram arrives, `handle` returns a reply or none: no index is out of range, so the
-- server's thread does not panic, and the rounds allowed to the loop of `read_name` are enough.
pub handle-Returned : (z : Zone) (query : Bytes) → Returned (handle z query)
unfolding handle
handle-Returned z query =
    Returned-bind (parse_query query) (reply_to z) (parse_query-Returned query)
      λ q _. reply_to-Returned z q

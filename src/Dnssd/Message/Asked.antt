-- ===== src/Dnssd/Message/Asked.antt =====
-- A question of a DNS client, through `handle` of src/dnssd.rs to the bytes of its reply.
use alt_keeper.Dnssd.Zone.Total.{answer-total}
use alt_keeper.Base.Outcome.{◌>>=◌, ok, Outcome, Returned, refused, panic, stuck}
use alt_keeper.Dnssd.Zone.{Zone, answer, type_any, Record}
use alt_keeper.Base.{
  ◌≡◌, ◌%◌, refl, ◌+◌, ◌≤◌, ◌∷◌, List, ◌^◌, ℕ, some, false, ◌/◌, ◌⊎◌, ◌++◌, ◌<◌, length, All,
  get_elem?-append, get_elem?, ap, append_assoc, arith, ◌==◌, ltb, sym, [], not, ◌&&◌,
  length-append, inr, inl, append-nil, ◌∙◌, if◌then◌else◌, Bool-cases, Option, take-all, take, none,
  Bool, true,
}
use alt_keeper.Dnssd.Message.{
  word_at, parse_query, Query, parse_question, class_in, handle, mark_truncated, reply_to, rcode_of,
  reply_flags, records_of, build_reply, max_reply, rcode_ok, serve,
}
use alt_keeper.Base.Text.{Str, join}
use alt_keeper.Base.Bytes.{Bytes, to_be16, from_be16-to_be16, has_bit}
use alt_keeper.Dnssd.Message.Layout.{
  question_wire, write_name-append, header_wire, record_wires, build_reply_layout,
}
use alt_keeper.Dnssd.Name.RoundTrip.{IsLabel, read_name-write_name}
use alt_keeper.Dnssd.Name.{write_name, read_name}
use mathlib.Core.Path.{subst}
use alt_keeper.Dnssd.Message.Safety.{handle-Returned}

-- The datagram of a question: the header with its flags and the numbers of records that stand behind
-- the question, and the question.
unfoldable pub query_wire : ℕ → ℕ → ℕ → ℕ → Query → Bytes
query_wire flags answers authorities additionals q =
    to_be16 q.id
    ++ (to_be16 flags
        ++ (to_be16 1
            ++ (to_be16 answers
                ++ (to_be16 authorities ++ (to_be16 additionals ++ question_wire q)))))

-- A question that a resolver may send: its name has at most 32 labels, of 1 to 63 ASCII bytes that are
-- no capital and no dot; its flags say that it is a standard query.
pub record IsAsked (flags : ℕ) (ls : List Str) (q : Query) : Type 0 where
  pub named : q.name ≡ join b'.' ls
  pub labels : All IsLabel ls
  pub few : length ls ≤ 32
  pub id_fits : q.id < 2 ^ 16
  pub type_fits : q.qtype < 2 ^ 16
  pub class_known : (q.qclass ≡ class_in) ⊎ (q.qclass ≡ type_any)
  pub flags_fit : flags < 2 ^ 16
  pub is_query : has_bit flags 15 ≡ false
  pub is_standard : flags / 2 ^ 11 % 16 ≡ 0
  pub recursion : has_bit flags 8 ≡ q.recursion_desired

word_at-append :
    (pre more : Bytes) (n at : ℕ)
    → n < 2 ^ 16
    → at ≡ length pre
    → word_at (pre ++ (to_be16 n ++ more)) at ≡ ok n
unfolding word_at
word_at-append pre more n at h e =
    let hi = n / 256 % 256 in
    let lo = n % 256 in
    let first = get_elem?-append pre hi (lo ∷ more) in
    let longer : length (pre ++ hi ∷ []) ≡ length pre + 1 = length-append pre (hi ∷ []) in
    let second : get_elem? (pre ++ hi ∷ lo ∷ more) (length pre + 1) ≡ some lo =
      subst (λ i. get_elem? (pre ++ hi ∷ lo ∷ more) i ≡ some lo) longer
        (rw (sym (append_assoc pre (hi ∷ []) (lo ∷ more)))
          (get_elem?-append (pre ++ hi ∷ []) lo more)) in
    rw (e, first, second) (ap ok (from_be16-to_be16 n h))

class_fine :
    (n : ℕ) → (n ≡ class_in) ⊎ (n ≡ type_any) → (not (n == class_in) && not (n == type_any)) ≡ false
class_fine n h = ground (arith, h)

parse_question-append :
    (pre more : Bytes) (flags next : ℕ) (q : Query) (ls : List Str)
    → IsAsked flags ls q
    → next ≡ length pre
    → parse_question
        (pre ++ (to_be16 q.qtype ++ (to_be16 q.qclass ++ more)))
        q.id
        flags
        (q.name, next)
      ≡ ok q
unfolding parse_question
parse_question-append pre more flags next q ls h e =
    let buf = pre ++ (to_be16 q.qtype ++ (to_be16 q.qclass ++ more)) in
    let fits : ltb (length buf) (next + 4) ≡ false =
      ground (arith, e, length-append pre (to_be16 q.qtype ++ (to_be16 q.qclass ++ more))) in
    let typed : word_at buf next ≡ ok q.qtype =
      word_at-append pre (to_be16 q.qclass ++ more) q.qtype next h.type_fits e in
    let class_small : q.qclass < 2 ^ 16 = omega (arith, h.class_known) in
    let classed : word_at buf (next + 2) ≡ ok q.qclass =
      rw (sym (append_assoc pre (to_be16 q.qtype) (to_be16 q.qclass ++ more))) (
        word_at-append (pre ++ to_be16 q.qtype) more q.qclass (next + 2) class_small
          (omega (arith, e, length-append pre (to_be16 q.qtype)))) in
    rw (fits, typed, classed, class_fine q.qclass h.class_known, h.recursion) refl

-- The header of a question.
abbrev query_head : ℕ → ℕ → ℕ → ℕ → ℕ → Bytes
query_head id flags an ns ar =
    to_be16 id ++ (to_be16 flags ++ (to_be16 1 ++ (to_be16 an ++ (to_be16 ns ++ to_be16 ar))))

parse_query-query_head :
    (id flags an ns ar : ℕ) (rest : Bytes)
    → id < 2 ^ 16
    → flags < 2 ^ 16
    → has_bit flags 15 ≡ false
    → flags / 2 ^ 11 % 16 ≡ 0
    → parse_query (query_head id flags an ns ar ++ rest) ≡ (
        read_name (query_head id flags an ns ar ++ rest) 12
        >>= parse_question (query_head id flags an ns ar ++ rest) id flags)
unfolding parse_query word_at
parse_query-query_head id flags an ns ar rest hi hf query standard =
    let long : ltb (length (query_head id flags an ns ar ++ rest)) 12 ≡ false = ground arith in
    rw (long, parse_query)
      (rw (from_be16-to_be16 id hi, from_be16-to_be16 flags hf) (rw query (rw standard refl)))

-- A question as resolvers send it is read back: its id, its name, type and class, and the bit that
-- asks for recursion, whatever records or other bytes stand behind it.
pub parse_query-query_wire :
    (flags an ns ar : ℕ) (q : Query) (ls : List Str) (more : Bytes)
    → IsAsked flags ls q
    → parse_query (query_wire flags an ns ar q ++ more) ≡ ok q
unfolding query_wire question_wire
parse_query-query_wire flags an ns ar q ls more h =
    let head = query_head q.id flags an ns ar in
    let tail = to_be16 q.qtype ++ (to_be16 q.qclass ++ more) in
    let written = write_name head q.name in
    let rest = (write_name [] q.name ++ (to_be16 q.qtype ++ to_be16 q.qclass)) ++ more in
    let same : written ++ tail ≡ head ++ rest =
      rw (write_name-append head q.name) (simp append_assoc) in
    let read : read_name (written ++ tail) 12 ≡ ok (q.name, length written) =
      rw h.named (read_name-write_name head tail ls h.labels h.few) in
    parse_query-query_head q.id flags an ns ar rest h.id_fits h.flags_fit h.is_query h.is_standard
    ∙ subst (λ buf. (read_name buf 12 >>= parse_question buf q.id flags) ≡ ok q) same
        (rw read (parse_question-append written more flags (length written) q ls h refl))

-- The reply that says that there is more than fits: its header has the bit for it and counts no
-- record, and the question follows.
unfoldable pub cut_wire : Query → Bytes
unfolding question_wire
cut_wire q =
    to_be16 q.id
    ++ (to_be16 (if q.recursion_desired then 0x8700 else 0x8600)
        ++ (to_be16 1 ++ (to_be16 0 ++ (to_be16 0 ++ (to_be16 0 ++ question_wire q)))))

mark_truncated-cut_wire :
    (q : Query) → (build_reply q rcode_ok [] >>= mark_truncated) ≡ ok (cut_wire q)
unfolding mark_truncated cut_wire header_wire record_wires reply_flags
mark_truncated-cut_wire q =
    rw (build_reply_layout q rcode_ok [], append-nil (question_wire q))
      (elim (Bool-cases q.recursion_desired) [ inl on ↦ rw on refl | inr off ↦ rw off refl ])

-- The flags of a reply: that it is one, from the server whose names these are, with the bit that asks for
-- recursion as in the question, and 3, "no such name", or 0.
abbrev flags_wire : Bool → Option (List Record) → ℕ
flags_wire true none = 0x8503
flags_wire true (some rs) = 0x8500
flags_wire false none = 0x8403
flags_wire false (some rs) = 0x8400

abbrev found_records : Option (List Record) → List Record
found_records none = []
found_records (some rs) = rs

-- The reply with all its records.
abbrev whole_wire : Query → Option (List Record) → Bytes
whole_wire q found =
    (to_be16 q.id
      ++ (to_be16 (flags_wire q.recursion_desired found)
          ++ (to_be16 1
              ++ (to_be16 (length (found_records found) % 2 ^ 16) ++ (to_be16 0 ++ to_be16 0)))))
    ++ (question_wire q ++ record_wires (found_records found))

-- The reply owed to a question for which these records were found, or which is about no name of the
-- zone: all its records, or the word that they do not fit.
unfoldable pub reply_wire : Query → Option (List Record) → Bytes
unfolding cut_wire
reply_wire q found =
    let whole = whole_wire q found in if ltb max_reply (length whole) then cut_wire q else whole

reply_flags-flags_wire :
    (rd : Bool) (found : Option (List Record))
    → reply_flags rd (rcode_of found) ≡ flags_wire rd found
unfolding reply_flags
reply_flags-flags_wire true none = refl
reply_flags-flags_wire true (some rs) = refl
reply_flags-flags_wire false none = refl
reply_flags-flags_wire false (some rs) = refl

records_of-found : (found : Option (List Record)) → records_of found ≡ found_records found
records_of-found none = refl
records_of-found (some rs) = refl

build_reply-whole_wire :
    (q : Query) (found : Option (List Record))
    → build_reply q (rcode_of found) (records_of found) ≡ ok (whole_wire q found)
unfolding header_wire
build_reply-whole_wire q found =
    build_reply_layout q (rcode_of found) (records_of found)
    ∙ rw (reply_flags-flags_wire q.recursion_desired found, records_of-found found) refl

reply_to-reply_wire :
    (z : Zone) (q : Query) (found : Option (List Record))
    → answer z q.name q.qtype ≡ ok found
    → reply_to z q ≡ ok (reply_wire q found)
unfolding reply_to reply_wire
reply_to-reply_wire z q found answered =
    let laid = build_reply-whole_wire q found in
    elim (Bool-cases (ltb max_reply (length (whole_wire q found)))) [
      | inl big ↦ rw (answered, reply_to) (rw laid (rw big (mark_truncated-cut_wire q)))
      | inr fits ↦ rw (answered, reply_to) (rw laid (rw fits refl))
    ]

-- A question as resolvers send it, with a name of at most 32 labels in small letters, is answered
-- from the zone: the reply is the header with the id of the question and whether the name is known,
-- then the question, then the records that `answer` finds, or, where that is longer than 512 bytes,
-- the reply that says so, without records.
pub handle-query_wire :
    (z : Zone) (flags an ns ar : ℕ) (q : Query) (ls : List Str) (more : Bytes)
    (found : Option (List Record))
    → IsAsked flags ls q
    → answer z q.name q.qtype ≡ ok found
    → handle z (query_wire flags an ns ar q ++ more) ≡ ok (reply_wire q found)
unfolding handle
handle-query_wire z flags an ns ar q ls more found h answered =
    rw (parse_query-query_wire flags an ns ar q ls more h, handle)
      (reply_to-reply_wire z q found answered)

Returned-cases : {A : Type 0} (m : Outcome A) → Returned m → ((a : A) × (m ≡ ok a)) ⊎ (m ≡ refused)
Returned-cases (ok a) h = inl (a, refl)
Returned-cases refused h = inr refl
Returned-cases panic h = absurd h
Returned-cases stuck h = absurd h

-- No datagram stops the loop.
serve-append :
    {Addr : Type 0} (z : Zone) (xs ys : List (Bytes × Addr))
    → serve z (xs ++ ys) ≡ serve z xs ++ serve z ys
unfolding serve
serve-append z [] ys = refl
serve-append z ((datagram, from) ∷ xs) ys =
    let cut = take max_reply datagram in
    elim (Returned-cases (handle z cut) (handle-Returned z cut)) [
      | inl (reply, e) ↦ rw (e, serve) (ap (◌∷◌ (reply, from)) (serve-append z xs ys))
      | inr e ↦ rw (e, serve) (serve-append z xs ys)
    ]

-- A question as resolvers send it, with a name of at most 32 labels in small letters and in a datagram
-- of at most 512 bytes, is answered to its sender whatever arrives before and after it: the reply is
-- the header with the id of the question and whether the name is known, 3 where `answer` has no answer
-- and 0 where it has one, then the question, then the records of that answer as RFC 1035 lays them out,
-- or, where that is longer than 512 bytes, the reply that says so, without records. What arrives around
-- it is served as if it had not been there.
pub serve-query_wire :
    {Addr : Type 0} (z : Zone) (before after : List (Bytes × Addr)) (from : Addr)
    (flags an ns ar : ℕ) (q : Query) (ls : List Str) (more : Bytes)
    → IsAsked flags ls q
    → length (query_wire flags an ns ar q ++ more) ≤ max_reply
    → (found : Option (List Record)) × (answer z q.name q.qtype ≡ ok found)
      × (serve z (before ++ (query_wire flags an ns ar q ++ more, from) ∷ after)
          ≡ serve z before ++ (reply_wire q found, from) ∷ serve z after)
unfolding serve
serve-query_wire z before after from flags an ns ar q ls more h short =
    let datagram = query_wire flags an ns ar q ++ more in
    let (found, answered) = answer-total z q.name q.qtype in
    (
      found,
      answered,
      serve-append z before ((datagram, from) ∷ after)
          ∙ rw (take-all max_reply datagram short, serve)
              (rw (handle-query_wire z flags an ns ar q ls more found h answered, serve) refl),
    )

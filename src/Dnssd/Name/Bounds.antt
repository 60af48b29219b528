-- ===== src/Dnssd/Name/Bounds.antt =====
-- Where `read_name` of src/dnssd.rs ends, and how much `write_name` appends.
use alt_keeper.Dnssd.Name.{
  not_empty, name_round, write_name, write_labels, labelled, finished, read_name_loop, Round, bad,
  read_name,
}
use alt_keeper.Base.{
  List, ℕ, All, ◌≡◌, ◌≢◌, length, [], ◌≤◌, ◌<◌, arith, suc, ◌-◌, ◌∷◌, inl, ◌++◌, inr, refl, ◌+◌,
  ◌==◌, Option-cases, length-append, Bool-cases, get_elem?, length-take, take, get_elem?-lt, drop,
  length-map, length-drop, zero, ltb, ap, sym,
}
use alt_keeper.Base.Text.{
  split, Str, IsAscii, onto_first, to_ascii_lowercase, lower_byte, join, All-join,
  lowercase-IsAscii,
}
use alt_keeper.Base.Bytes.{Bytes}
use alt_keeper.Dnssd.Name.Pieces.{piece, pieces, write_name-pieces}
use alt_keeper.Base.Utf8.{from_utf8_lossy, ascii_from_utf8_lossy}
use Prim.Native.Nat.{min}
use alt_keeper.Base.Outcome.{ok, Returned}
use mathlib.Core.Path.{subst}

-- The bytes that labels take on the wire, the end of the name not counted.
abbrev pub size : List Str → ℕ
size [] = 0
size (l ∷ ls) = 1 + length l + size ls

size-append : (ls ms : List Str) → size (ls ++ ms) ≡ size ls + size ms
size-append [] ms = omega arith
size-append (l ∷ ls) ms = omega (arith, size-append ls ms)

size-onto_first : (c : ℕ) (ls : List Str) → ls ≢ [] → size (onto_first c ls) ≡ suc (size ls)
size-onto_first c [] h = absurd (h refl)
size-onto_first c (l ∷ ls) h = omega arith

split-ne-nil : (d : ℕ) (s : Str) → split d s ≢ []
unfolding split
split-ne-nil d [] = λ e. cc
split-ne-nil d (c ∷ s) = elim (Bool-cases (c == d)) [
  | inl same ↦ λ e. cc (rw same at e)
  | inr other ↦ λ e. onto_first-ne-nil c (split d s) (rw other at e)
]
  where
    onto_first-ne-nil : (b : ℕ) (ls : List Str) → onto_first b ls ≢ []
    onto_first-ne-nil b [] = λ e. cc
    onto_first-ne-nil b (l ∷ ls) = λ e. cc

size-split : (d : ℕ) (s : Str) → size (split d s) ≡ length s + 1
unfolding split
size-split d [] = omega arith
size-split d (c ∷ s) =
    ground (arith, size-split d s, size-onto_first c (split d s) (split-ne-nil d s))

length-pieces : (ls : List Str) → length (pieces (not_empty ls)) ≤ size ls
unfolding not_empty piece
length-pieces [] = omega arith
length-pieces ([] ∷ ls) = omega (arith, length-pieces ls)
length-pieces ((c ∷ l) ∷ ls) = omega (
  arith,
  length-pieces ls,
  length-append (piece (c ∷ l)) (pieces (not_empty ls)),
  length-take (min (length (c ∷ l)) 63) (c ∷ l),
)

-- `write_name` appends at most two bytes more than the name has.
pub length-write_name :
    (out : Bytes) (name : Str) → length (write_name out name) ≤ length out + length name + 2
length-write_name out name =
    let ps = pieces (not_empty (split b'.' name)) in
    rw (write_name-pieces out name) (
      omega (
        arith,
        length-append out (ps ++ 0 ∷ []),
        length-append ps (0 ∷ []),
        length-pieces (split b'.' name),
        size-split b'.' name,
      ))

length-write_name_nil : (out : Bytes) → length (write_name out []) ≡ length out + 1
unfolding write_name split not_empty write_labels
length-write_name_nil out = length-append out (0 ∷ [])

-- A round that goes on stays within the buffer.
round_within :
    (buf : Bytes) (i : ℕ) {l : Str} {next : ℕ}
    → name_round buf i ≡ labelled l next
    → (i < next) × (next ≤ length buf)
unfolding name_round
round_within buf i h = ground arith

round_finished :
    (buf : Bytes) (i : ℕ) {next : ℕ}
    → name_round buf i ≡ finished next
    → (next ≡ i + 1) × (i < length buf)
unfolding name_round
round_finished buf i h = elim (Option-cases (get_elem? buf i)) [
  | inl e ↦ ground (arith, e)
  | inr (n, e) ↦ ground (arith, e, get_elem?-lt buf i n e)
]

-- A label that is ASCII when it is read took as many bytes in the buffer.
label_ascii :
    (buf : Bytes) (i n : ℕ)
    → All IsAscii (to_ascii_lowercase (from_utf8_lossy (take n (drop (i + 1) buf))))
    → i + 1 + n ≤ length buf
    → length (to_ascii_lowercase (from_utf8_lossy (take n (drop (i + 1) buf)))) ≡ n
label_ascii buf i n h fits =
    let label = take n (drop (i + 1) buf) in
    rw
      (
        length-map lower_byte (from_utf8_lossy label),
        ascii_from_utf8_lossy label (lowercase-IsAscii (from_utf8_lossy label) h),
      )
      (omega (arith, length-take n (drop (i + 1) buf), length-drop (i + 1) buf))

round_ascii :
    (buf : Bytes) (i : ℕ) {l : Str} {next : ℕ}
    → name_round buf i ≡ labelled l next
    → All IsAscii l
    → next ≡ i + 1 + length l
unfolding name_round
round_ascii buf i {l} {next} e h = elim (Option-cases (get_elem? buf i)) [
  | inl q ↦ ground (arith, q)
  | inr (n, q) ↦
      let w : i + 1 + n - (i + 1) ≡ n = omega arith in
      let read = to_ascii_lowercase (from_utf8_lossy (take n (drop (i + 1) buf))) in
      let same : (read ≡ l) × (i + 1 + n ≤ length buf) × (next ≡ i + 1 + n) =
        ground (arith, q, w) in
      omega (
        arith,
        same.2,
        ap length same.0,
        label_ascii buf i n (subst (λ (t : Str). All IsAscii t) (sym same.0) h) same.1,
      )
]

abbrev AllAscii : List Str → Type 0
AllAscii = All (All IsAscii)

-- What a run of the loop has read when it succeeds: labels, which take one byte each for their
-- lengths, and one byte for the end, where they are ASCII.
abbrev ReadsFrom : ℕ → List Str → Str × ℕ → Type 0
ReadsFrom i parts (name, next) =
    (ls : List Str) × (name ≡ join b'.' ls)
    × (AllAscii ls → AllAscii parts × (size ls + i + 1 ≡ size parts + next))

Later : ℕ → Bytes → Str × ℕ → Type 0
Later fuel buf r = (n : ℕ) (p : List Str) → read_name_loop fuel buf n p ≡ ok r → ReadsFrom n p r

AllAscii-last : (ps : List Str) (l : Str) → AllAscii (ps ++ l ∷ []) → AllAscii ps × All IsAscii l
AllAscii-last [] l h = (tt, h.0)
AllAscii-last (p ∷ ps) l (hp, h) = let (a, b) = AllAscii-last ps l h in ((hp, a), b)

loop_reads :
    (fuel : ℕ) (buf : Bytes) (i : ℕ) (parts : List Str) (r : Str × ℕ)
    → read_name_loop fuel buf i parts ≡ ok r
    → ReadsFrom i parts r
unfolding read_name_loop Later
loop_reads zero buf i parts r e = cc
loop_reads (suc fuel) buf i parts r e =
    go (λ n p. loop_reads fuel buf n p r) (name_round buf i) refl
  where
    go : Later fuel buf r → (o : Round) → name_round buf i ≡ o → ReadsFrom i parts r
    go later bad q = cc (rw (q, read_name_loop) at e)
    go later (finished next) q =
        (parts, ground (arith, q), λ h. (h, ground (arith, q, round_finished buf i q)))
    go later (labelled l next) q = elim (Bool-cases (ltb 32 (length (parts ++ l ∷ [])))) [
      | inl many ↦ cc (rw (q, read_name_loop, many) at e)
      | inr few ↦
          let (ls, named, taken) =
            later next (parts ++ l ∷ []) (rw (q, read_name_loop, few) at e) in
          (
            ls,
            named,
            λ h.
                let (before, count) = taken h in
                let (kept, last) = AllAscii-last parts l before in
                (kept, omega (arith, count, round_ascii buf i q last, size-append parts (l ∷ []))),
          )
    ]

-- The loop never runs out of rounds, and no index is out of range.
loop-Returned :
    (fuel : ℕ) (buf : Bytes) (i : ℕ) (parts : List Str)
    → 33 ≤ length parts + fuel
    → length parts ≤ 32
    → Returned (read_name_loop fuel buf i parts)
unfolding read_name_loop
loop-Returned zero buf i parts h room = absurd (omega arith)
loop-Returned (suc fuel) buf i parts h room = go (loop-Returned fuel buf) (name_round buf i) refl
  where
    go :
        ((n : ℕ) (p : List Str)
          → 33 ≤ length p + fuel
          → length p ≤ 32
          → Returned (read_name_loop fuel buf n p))
        → (o : Round) → name_round buf i ≡ o
        → Returned (read_name_loop (suc fuel) buf i parts)
    go later bad q = rw (q, read_name_loop) tt
    go later (finished next) q = rw (q, read_name_loop) tt
    go later (labelled l next) q = elim (Bool-cases (ltb 32 (length (parts ++ l ∷ [])))) [
      | inl many ↦ rw (q, read_name_loop, many) tt
      | inr few ↦
          rw (q, read_name_loop, few)
            (later next (parts ++ l ∷ []) (omega (arith, length-append parts (l ∷ [])))
              (ground (arith, few)))
    ]

-- Reading a name always returns: it never panics, and the rounds allowed are enough.
pub read_name-Returned : (buf : Bytes) (i : ℕ) → Returned (read_name buf i)
unfolding read_name
read_name-Returned buf i = loop-Returned 34 buf i [] (omega arith) (omega arith)

length-join : (l : Str) (ls : List Str) → length (join b'.' (l ∷ ls)) + 1 ≡ size (l ∷ ls)
unfolding join
length-join l [] = omega arith
length-join l (m ∷ ls) =
    omega (arith, length-append l (b'.' ∷ join b'.' (m ∷ ls)), length-join m ls)

written_size :
    (out : Bytes) (ls : List Str)
    → length (write_name out (join b'.' ls)) ≤ length out + size ls + 1
written_size out [] = unfold join in omega (arith, length-write_name_nil out)
written_size out (l ∷ ls) =
    omega (arith, length-write_name out (join b'.' (l ∷ ls)), length-join l ls)

-- A name that is ASCII as it is read takes no more bytes when it is written than it took there.
pub length-write_name-read_name :
    (buf out : Bytes) (i : ℕ) (name : Str) (next : ℕ)
    → read_name buf i ≡ ok (name, next)
    → All IsAscii name
    → length (write_name out name) + i ≤ length out + next
unfolding read_name
length-write_name-read_name buf out i name next e h =
    let (ls, named, taken) = loop_reads 34 buf i [] (name, next) e in
    let (_, count) =
      taken (All-join IsAscii b'.' ls (subst (λ (t : Str). All IsAscii t) named h)) in
    rw named (omega (arith, count, written_size out ls))

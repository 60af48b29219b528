-- ===== src/Dnssd/Name/RoundTrip.antt =====
-- `read_name` of src/dnssd.rs gives back the name that `write_name` wrote.
use alt_keeper.Base.{
  ℕ, ◌+◌, ◌-◌, ◌%◌, ◌≤◌, ◌<◌, ◌≡◌, ◌≢◌, refl, ap, true, some, [], ◌∷◌, ◌++◌, length, length-append,
  take-append, take-all, get_elem?-append, drop_suc-append, All, arith, leb, List, suc, append-nil,
  append_assoc, zero, ◌∙◌,
}
use alt_keeper.Base.Bytes.{Bytes}
use alt_keeper.Base.Text.{Str, IsAscii, lower_byte, to_ascii_lowercase, join, split}
use alt_keeper.Base.Utf8.{from_utf8_lossy, from_utf8_lossy_ascii}
use alt_keeper.Dnssd.Name.{
  get_range, labelled, name_round, read_name_loop, finished, read_name, not_empty, write_name,
}
use alt_keeper.Dnssd.Name.Pieces.{piece, pieces, write_name-pieces, not_empty-All}
use Prim.Native.Nat.{min}
use alt_keeper.Base.Outcome.{ok}
use alt_keeper.Base.Split.{Has, split-join}

-- A byte of a label that reading leaves as it is: ASCII, no dot, no capital.
abbrev pub IsPlain : ℕ → Type 0
IsPlain c = IsAscii c × (c ≢ b'.') × (lower_byte c ≡ c)

pub record IsLabel (l : Str) : Type 0 where
  pub not_nil : l ≢ []
  pub short : length l ≤ 63
  pub plain : All IsPlain l

plain-IsAscii : (l : Str) → All IsPlain l → All IsAscii l
plain-IsAscii [] h = tt
plain-IsAscii (c ∷ l) (hc, hl) = (hc.0, plain-IsAscii l hl)

plain-Has : (l : Str) → All IsPlain l → Has b'.' l
plain-Has [] h = tt
plain-Has (c ∷ l) (hc, hl) = (hc.1, plain-Has l hl)

plain_lower : (l : Str) → All IsPlain l → to_ascii_lowercase l ≡ l
plain_lower [] h = refl
plain_lower (c ∷ l) (hc, hl) = cc (hc.2, plain_lower l hl)

plain_read : (l : Str) → All IsPlain l → to_ascii_lowercase (from_utf8_lossy l) ≡ l
plain_read l h = rw (from_utf8_lossy_ascii l (plain-IsAscii l h)) (plain_lower l h)

piece_whole : (l : Str) → length l ≤ 63 → piece l ≡ length l ∷ l
unfolding piece
piece_whole l h =
    let e : min (length l) 63 ≡ length l = omega arith in
    let m : length l % 256 ≡ length l = omega arith in
    rw (e, m) (ap (◌∷◌ (length l)) (take-all (length l) l (omega arith)))

label_length_pos : (l : Str) → l ≢ [] → 0 < length l
label_length_pos [] h = absurd (h refl)
label_length_pos (c ∷ l) h = omega arith

-- The range of a label that stands between two texts.
get_range_label :
    (pre l more : Bytes) (n : ℕ)
    → get_range (pre ++ n ∷ (l ++ more)) (length pre + 1) (length pre + 1 + length l) ≡ some l
get_range_label pre l more n =
    let fits : leb (length pre + 1 + length l) (length (pre ++ n ∷ (l ++ more))) ≡ true =
      ground (arith, length-append pre (n ∷ (l ++ more)), length-append l more) in
    let e : length pre + 1 + length l - (length pre + 1) ≡ length l = omega arith in
    rw (fits, e, drop_suc-append pre n (l ++ more)) (ap some (take-append l more))

round_label :
    (pre l more : Bytes)
    → IsLabel l
    → name_round (pre ++ length l ∷ (l ++ more)) (length pre)
      ≡ labelled l (length pre + 1 + length l)
unfolding name_round
round_label pre l more h =
    rw (get_elem?-append pre (length l) (l ++ more), name_round)
      (rw (get_range_label pre l more (length l), name_round)
        (ground (arith, label_length_pos l h.not_nil, h.short, plain_read l h.plain)))

round_end :
    (pre more : Bytes) → name_round (pre ++ 0 ∷ more) (length pre) ≡ finished (length pre + 1)
unfolding name_round
round_end pre more = rw (get_elem?-append pre 0 more, name_round) refl

loop_label :
    (fuel : ℕ) (pre l more : Bytes) (parts : List Str)
    → IsLabel l
    → length parts < 32
    → read_name_loop (suc fuel) (pre ++ length l ∷ (l ++ more)) (length pre) parts
      ≡ read_name_loop fuel
          (pre ++ length l ∷ (l ++ more))
          (length pre + 1 + length l)
          (parts ++ l ∷ [])
unfolding read_name_loop
loop_label fuel pre l more parts h room =
    rw (round_label pre l more h, read_name_loop) (ground (arith, length-append parts (l ∷ [])))

-- The same, with the text bracketed for the label that follows.
loop_label_split :
    (fuel : ℕ) (pre l more : Bytes) (parts : List Str)
    → IsLabel l
    → length parts < 32
    → read_name_loop (suc fuel) (pre ++ (piece l ++ more)) (length pre) parts
      ≡ read_name_loop fuel ((pre ++ piece l) ++ more) (length (pre ++ piece l)) (parts ++ l ∷ [])
loop_label_split fuel pre l more parts h room =
    let e : length (pre ++ (length l ∷ l)) ≡ length pre + 1 + length l =
      omega (arith, length-append pre (length l ∷ l)) in
    rw (piece_whole l h.short, e, append_assoc pre (length l ∷ l) more)
      (loop_label fuel pre l more parts h room)

loop_end :
    (fuel : ℕ) (pre more : Bytes) (parts : List Str)
    → read_name_loop (suc fuel) (pre ++ 0 ∷ more) (length pre) parts
      ≡ ok (join b'.' parts, length pre + 1)
unfolding read_name_loop
loop_end fuel pre more parts = rw (round_end pre more, read_name_loop) refl

loop_pieces :
    (ls : List Str) (fuel : ℕ) (pre more : Bytes) (parts : List Str)
    → All IsLabel ls
    → length ls < fuel
    → length parts + length ls ≤ 32
    → read_name_loop fuel (pre ++ (pieces ls ++ 0 ∷ more)) (length pre) parts
      ≡ ok (join b'.' (parts ++ ls), length pre + length (pieces ls) + 1)
loop_pieces ls zero pre more parts h f room = absurd (omega arith)
loop_pieces [] (suc fuel) pre more parts h f room =
    let e : length pre + 0 + 1 ≡ length pre + 1 = omega arith in
    rw (append-nil parts, e) (loop_end fuel pre more parts)
loop_pieces (l ∷ ls) (suc fuel) pre more parts (hl, hls) f room =
    let reached : length (pre ++ piece l) + length (pieces ls) + 1
        ≡ length pre + length (pieces (l ∷ ls)) + 1 =
      omega (arith, length-append pre (piece l), length-append (piece l) (pieces ls)) in
    rw (append_assoc (piece l) (pieces ls) (0 ∷ more), ← reached, ← append_assoc parts (l ∷ []) ls)
      (loop_label_split fuel pre l (pieces ls ++ 0 ∷ more) parts hl (omega arith)
        ∙ loop_pieces ls fuel (pre ++ piece l) more (parts ++ l ∷ []) hls (omega arith)
            (omega (arith, length-append parts (l ∷ []))))

not_empty-join : (ls : List Str) → All IsLabel ls → not_empty (split b'.' (join b'.' ls)) ≡ ls
not_empty-join [] h = unfold join split not_empty in refl
not_empty-join (l ∷ ls) h =
    rw (split-join b'.' l ls (labels-Has (l ∷ ls) h))
      (not_empty-All (l ∷ ls) (labels_not_nil (l ∷ ls) h))
  where
    labels-Has : (ms : List Str) → All IsLabel ms → All (Has b'.') ms
    labels-Has [] k = tt
    labels-Has (m ∷ ms) (k, ks) = (plain-Has m k.plain, labels-Has ms ks)

    labels_not_nil : (ms : List Str) → All IsLabel ms → All (λ m. m ≢ []) ms
    labels_not_nil [] k = tt
    labels_not_nil (m ∷ ms) (k, ks) = (k.not_nil, labels_not_nil ms ks)

-- A name of at most 32 labels, each of 1 to 63 ASCII bytes with no dot and no capital, is read back
-- by `read_name` as `write_name` wrote it, whatever stands before and behind, together with the
-- index at which the written name ends.
pub read_name-write_name :
    (pre more : Bytes) (ls : List Str)
    → All IsLabel ls
    → length ls ≤ 32
    → read_name (write_name pre (join b'.' ls) ++ more) (length pre)
      ≡ ok (join b'.' ls, length (write_name pre (join b'.' ls)))
unfolding read_name
read_name-write_name pre more ls h few =
    let written : write_name pre (join b'.' ls) ≡ pre ++ (pieces ls ++ 0 ∷ []) =
      rw (write_name-pieces pre (join b'.' ls)) (rw (not_empty-join ls h)) in
    let bracketed : (pre ++ (pieces ls ++ 0 ∷ [])) ++ more ≡ pre ++ (pieces ls ++ 0 ∷ more) =
      simp append_assoc in
    let end : length (pre ++ (pieces ls ++ 0 ∷ [])) ≡ length pre + length (pieces ls) + 1 =
      omega (arith, length-append pre (pieces ls ++ 0 ∷ []), length-append (pieces ls) (0 ∷ [])) in
    rw (written, bracketed, end) (loop_pieces ls 34 pre more [] h (omega arith) (omega arith))

-- ===== src/Altserver/Frame/RoundTrip.antt =====
-- The frames that `read_frame` of src/altserver.rs accepts are those that `write_frame` makes.
use alt_keeper.Base.{
  refl, arith, true, ℕ, ◌^◌, ◌++◌, ◌≡◌, ◌≤◌, ◌<◌, false, length, leb, length-append, take-append,
  drop-append, ◌%◌, suc, All, inl, inr, [], zero, List, ◌∷◌, Bool-cases, ap, take, drop, sym, ◌∙◌,
  length-take, ◌/◌, ◌+◌, length-drop, leb→le, if_both,
}
use alt_keeper.Altserver.Frame.{
  length_refused, read_frame, read_exact, from_le, Ending, max_json, read_body, to_le32, filled,
  write_frame, frame, Stream, no_length, ended, failed, silent, Frame, closed, broken,
}
use alt_keeper.Base.Bytes.{Bytes, IsByte}

abbrev pub IsSent : Bytes → Type 0
IsSent body = (1 ≤ length body) × (length body ≤ max_json)

pub read_exact-append :
    (a more : Bytes) (e : Ending)
    → read_exact (length a) (record { bytes = a ++ more; ending = e })
      ≡ filled a (record { bytes = more; ending = e })
unfolding read_exact
read_exact-append a more e =
    let fits : leb (length a) (length (a ++ more)) ≡ true = ground (arith, length-append a more) in
    rw (fits, take-append a more, drop-append a more) refl

accepted : (n : ℕ) → 1 ≤ n → n ≤ max_json → length_refused n ≡ false
unfolding length_refused
accepted n lo hi = ground arith

accepted_range : (n : ℕ) → length_refused n ≡ false → (1 ≤ n) × (n ≤ max_json)
unfolding length_refused
accepted_range n h = ground arith

from_le-to_le32 : (n : ℕ) → n < 2 ^ 32 → from_le (to_le32 n) ≡ n
from_le-to_le32 n h = omega arith

-- `read_frame` gives back the body of a frame of 1 byte to 4 MiB as `write_frame` made it, and leaves
-- what was sent behind it.
pub read_frame-write_frame :
    (body more : Bytes) (e : Ending)
    → 1 ≤ length body
    → length body ≤ max_json
    → read_frame (record { bytes = write_frame body ++ more; ending = e })
      ≡ frame body (record { bytes = more; ending = e })
unfolding read_frame read_body write_frame
read_frame-write_frame body more e lo hi =
    let n = length body in
    let header : leb 4 (suc (suc (suc (suc (length (body ++ more)))))) ≡ true = ground arith in
    let back : from_le (to_le32 (n % 2 ^ 32)) ≡ n = omega arith in
    rw (header, read_frame)
      (rw (back, read_body)
        (rw (accepted n lo hi, read_body) (rw (read_exact-append body more e, read_body) refl)))

-- A length that no frame has breaks the connection.
pub read_frame_refused :
    (n : ℕ) (more : Bytes) (e : Ending)
    → n < 2 ^ 32
    → length_refused n ≡ true
    → read_frame (record { bytes = to_le32 n ++ more; ending = e })
      ≡ broken (record { bytes = more; ending = e })
unfolding read_frame read_body
read_frame_refused n more e h bad =
    let header : leb 4 (suc (suc (suc (suc (length more))))) ≡ true = ground arith in
    rw (header, read_frame) (rw (from_le-to_le32 n h, read_body) (rw (bad, read_body) refl))

take-drop {ℓ} : {A : Type ℓ} (n : ℕ) (xs : List A) → take n xs ++ drop n xs ≡ xs
take-drop zero xs = refl
take-drop (suc n) [] = refl
take-drop (suc n) (x ∷ xs) = ap (◌∷◌ x) (take-drop n xs)

frame-injective : {b c : Bytes} {s t : Stream} → frame b s ≡ frame c t → (b ≡ c) × (s ≡ t)
frame-injective e = (cc e, cc e)

read_body_sound :
    (n : ℕ) (s rest : Stream) (body : Bytes)
    → read_body n s ≡ frame body rest
    → (s.bytes ≡ body ++ rest.bytes)
      × (s.ending ≡ rest.ending)
      × (length body ≡ n)
      × (length_refused n ≡ false)
unfolding read_body read_exact
read_body_sound n s rest body e = elim (Bool-cases (length_refused n)) [
  | inl bad ↦ absurd (cc (bad, e))
  | inr fine ↦ elim (Bool-cases (leb n (length s.bytes))) [
    | inr short ↦ absurd (cc (fine, short, e))
    | inl long ↦
        let (b, r) = frame-injective (rw (fine, long) at e) in
        let moved : drop n s.bytes ≡ rest.bytes = ap (λ (t : Stream). t.bytes) r in
        let kept : s.ending ≡ rest.ending = ap (λ (t : Stream). t.ending) r in
        let back : take n s.bytes ++ drop n s.bytes ≡ body ++ rest.bytes = rw (b, moved) in
        let size : length body ≡ n = ap length (sym b) ∙ (length-take n s.bytes ∙ (ground arith)) in
        (sym (take-drop n s.bytes) ∙ back, kept, size, fine)
  ]
]

no_length_none : (e : Ending) (body : Bytes) (rest : Stream) → no_length e ≡ frame body rest → ⊥
unfolding no_length
no_length_none ended body rest h = cc h
no_length_none failed body rest h = cc h
no_length_none silent body rest h = cc h

frame_parts :
    (bs : Bytes) (e : Ending) (rest : Stream) (body : Bytes)
    → All IsByte bs
    → read_frame (record { bytes = bs; ending = e }) ≡ frame body rest
    → (bs ≡ write_frame body ++ rest.bytes)
      × (e ≡ rest.ending)
      × (1 ≤ length body)
      × (length body ≤ max_json)
unfolding read_frame write_frame
frame_parts [] e rest body b h = absurd (no_length_none e body rest h)
frame_parts (_ ∷ []) e rest body b h = absurd (no_length_none e body rest h)
frame_parts (_ ∷ _ ∷ []) e rest body b h = absurd (no_length_none e body rest h)
frame_parts (_ ∷ _ ∷ _ ∷ []) e rest body b h = absurd (no_length_none e body rest h)
frame_parts (p ∷ q ∷ r ∷ t ∷ bs) e rest body (bp, (bq, (br, (bt, _)))) h =
    let header : leb 4 (suc (suc (suc (suc (length bs))))) ≡ true = ground arith in
    let n = from_le (p ∷ q ∷ r ∷ t ∷ []) in
    let (all', end, size, fine) =
      read_body_sound n (record { bytes = bs; ending = e }) rest body
        (rw (header, read_frame) at h) in
    let (lo, hi) = accepted_range n fine in
    let len = length body % 2 ^ 32 in
    let d0 : p ≡ len % 256 = omega arith in
    let d1 : q ≡ len / 256 % 256 = omega arith in
    let d2 : r ≡ len / 2 ^ 16 % 256 = omega arith in
    let d3 : t ≡ len / 2 ^ 24 % 256 = omega arith in
    (cc (d0, d1, d2, d3, all'), end, omega arith, omega arith)

-- Conversely, what `read_frame` accepts is a frame of `write_frame` of 1 byte to 4 MiB, read off the
-- front of the stream: nothing of the stream is lost or made up, and no longer body is ever stored.
pub read_frame_sound :
    (s rest : Stream) (body : Bytes)
    → All IsByte s.bytes
    → read_frame s ≡ frame body rest
    → (s.bytes ≡ write_frame body ++ rest.bytes)
      × (s.ending ≡ rest.ending)
      × (1 ≤ length body)
      × (length body ≤ max_json)
read_frame_sound s rest body h e = frame_parts s.bytes s.ending rest body h e

-- Each frame takes at least five bytes off the stream.
pub read_frame_shrinks :
    (s rest : Stream) (body : Bytes)
    → read_frame s ≡ frame body rest
    → length rest.bytes + 5 ≤ length s.bytes
unfolding read_frame read_exact
read_frame_shrinks s rest body h = elim (Bool-cases (leb 4 (length s.bytes))) [
  | inr short ↦ absurd (no_length_none s.ending body rest (rw (short, read_frame) at h))
  | inl long ↦
      let (all', _, size, fine) =
        read_body_sound (from_le (take 4 s.bytes)) (record s { bytes = drop 4 s.bytes }) rest body
          (rw (long, read_frame) at h) in
      let (lo, _) = accepted_range (from_le (take 4 s.bytes)) fine in
      let total : length (drop 4 s.bytes) ≡ length (body ++ rest.bytes) = ap length all' in
      omega (
        arith,
        length-drop 4 s.bytes,
        length-append body rest.bytes,
        leb→le 4 (length s.bytes) long,
        total,
        size,
        lo,
      )
]

abbrev pub left_of : Frame → Stream
left_of (frame body rest) = rest
left_of (closed rest) = rest
left_of (broken rest) = rest

read_body_left : (n : ℕ) (s : Stream) → length (left_of (read_body n s)).bytes ≤ length s.bytes
unfolding read_body read_exact
read_body_left n s = elim (Bool-cases (leb n (length s.bytes))) [
  | inl long ↦
      rw (long, read_body)
        (if_both (λ f. length (left_of f).bytes ≤ length s.bytes) (length_refused n) _ _
          (omega arith) (omega (arith, length-drop n s.bytes)))
  | inr short ↦
      rw (short, read_body)
        (if_both (λ f. length (left_of f).bytes ≤ length s.bytes) (length_refused n) _ _
          (omega arith) (omega arith))
]

no_length_left : (e : Ending) → length (left_of (no_length e)).bytes ≡ 0
unfolding no_length
no_length_left ended = refl
no_length_left failed = refl
no_length_left silent = refl

pub read_frame_left : (s : Stream) → length (left_of (read_frame s)).bytes ≤ length s.bytes
unfolding read_frame read_exact
read_frame_left s = elim (Bool-cases (leb 4 (length s.bytes))) [
  | inl long ↦
      rw (long, read_frame)
        (omega (
          arith,
          read_body_left (from_le (take 4 s.bytes)) (record s { bytes = drop 4 s.bytes }),
          length-drop 4 s.bytes,
        ))
  | inr short ↦ rw (short, read_frame) (omega (arith, no_length_left s.ending))
]

-- ===== src/Web/Base64/RoundTrip.antt =====
-- `b64_decode` of src/web.rs against the standard encoding.
use alt_keeper.Base.{
  ℕ, ◌∷◌, arith, ◌&&◌, ◌++◌, refl, [], bit_and, ◌==◌, ◌-◌, ◌%◌, ◌/◌, bit_or, ◌<◌, true, ◌≡◌, ◌*◌,
  if◌then◌else◌, ◌+◌, ◌^◌, ltb, ==_iff, append-nil, ◌∙◌, sym, All, ap, some, append_assoc,
}
use alt_keeper.Web.Base64.{
  take_digit, digit_of, value, Decoder, b64_decode, without_whitespace, decode_loop,
}
use alt_keeper.Base.Bits.{table, table_sound}
use alt_keeper.Base.Bytes.{Bytes, IsByte}
use alt_keeper.Base.Text.{Str}
use alt_keeper.Base.Trim.{IsGraphic}

-- The alphabet of RFC 4648.
unfoldable pub digit : ℕ → ℕ
digit v =
    if ltb v 26
    then b'A' + v
    else if ltb v 52
    then b'a' + (v - 26)
    else if ltb v 62
    then b'0' + (v - 52)
    else if v == 62
    then b'+'
    else b'/'

-- The encoding of RFC 4648, with padding.
unfoldable pub encode : Bytes → Str
unfolding digit
encode [] = []
encode (a ∷ []) = digit (a / 4) ∷ digit (a % 4 * 16) ∷ b'=' ∷ b'=' ∷ []
encode (a ∷ b ∷ []) = digit (a / 4) ∷ digit (a % 4 * 16 + b / 16) ∷ digit (b % 16 * 4) ∷ b'=' ∷ []
encode (a ∷ b ∷ c ∷ bs) =
    digit (a / 4)
    ∷ digit (a % 4 * 16 + b / 16)
    ∷ digit (b % 16 * 4 + c / 64)
    ∷ digit (c % 64)
    ∷ encode bs

digit_of-digit : (v : ℕ) → v < 64 → digit_of (digit v) ≡ value v
unfolding digit_of digit
digit_of-digit v h = ground arith

digit-IsGraphic : (v : ℕ) → v < 64 → IsGraphic (digit v)
unfolding digit
digit-IsGraphic v h = ground arith

-- `acc << 6 | v`, where both fit.
or_table : (n : ℕ) → n < 4096 → (bit_or (n / 64 * 2 ^ 6 % 2 ^ 32) (n % 64) == n) ≡ true
unfolding table
or_table n h = table_sound 4096 (λ n. bit_or (n / 64 * 2 ^ 6 % 2 ^ 32) (n % 64) == n) n refl h

shift_or : (x v : ℕ) → x < 64 → v < 64 → bit_or (x * 2 ^ 6 % 2 ^ 32) v ≡ x * 64 + v
shift_or x v hx hv =
    let q : (x * 64 + v) / 64 ≡ x = omega arith in
    let r : (x * 64 + v) % 64 ≡ v = omega arith in
    (==_iff _ _).0 (rw (q, r) at (or_table (x * 64 + v) (omega arith)))

mask_table :
    (n : ℕ)
    → n < 4096
    → ((bit_and n (2 ^ 4 - 1) == n % 16)
        && ((bit_and n (2 ^ 2 - 1) == n % 4) && (bit_and n (2 ^ 0 - 1) == 0)))
      ≡ true
unfolding table
mask_table n h =
    table_sound 4096
      (λ n.
        (bit_and n (2 ^ 4 - 1) == n % 16)
        && ((bit_and n (2 ^ 2 - 1) == n % 4) && (bit_and n (2 ^ 0 - 1) == 0)))
      n refl h

abbrev at : ℕ → ℕ → Bytes → Decoder
at acc bits out = record { acc = acc; bits = bits; out = out }

-- The four positions of a digit in a group.
take_first : (v : ℕ) (out : Bytes) → v < 64 → take_digit (at 0 0 out) v ≡ at v 6 out
unfolding take_digit
take_first v out h = ground (arith, shift_or 0 v)

take_second :
    (x v : ℕ) (out : Bytes)
    → x < 64
    → v < 64
    → take_digit (at x 6 out) v ≡ at (v % 16) 4 (out ++ (x * 4 + v / 16) ∷ [])
unfolding take_digit
take_second x v out hx hv = ground (arith, shift_or x v, mask_table (x * 64 + v))

take_third :
    (x v : ℕ) (out : Bytes)
    → x < 16
    → v < 64
    → take_digit (at x 4 out) v ≡ at (v % 4) 2 (out ++ (x * 16 + v / 4) ∷ [])
unfolding take_digit
take_third x v out hx hv = ground (arith, shift_or x v, mask_table (x * 64 + v))

take_fourth :
    (x v : ℕ) (out : Bytes)
    → x < 4
    → v < 64
    → take_digit (at x 2 out) v ≡ at 0 0 (out ++ (x * 64 + v) ∷ [])
unfolding take_digit
take_fourth x v out hx hv = ground (arith, shift_or x v, mask_table (x * 64 + v))

decode_digit :
    (d : Decoder) (v : ℕ) (s : Str)
    → v < 64
    → decode_loop d (digit v ∷ s) ≡ decode_loop (take_digit d v) s
unfolding decode_loop
decode_digit d v s h = rw (digit_of-digit v h, decode_loop) refl

decode_padding : (d : Decoder) (s : Str) → decode_loop d (b'=' ∷ s) ≡ some d.out
unfolding decode_loop digit_of
decode_padding d s = refl

-- Two digits carry one byte.
decode_two :
    (a v : ℕ) (out : Bytes) (s : Str)
    → a < 256
    → v < 16
    → decode_loop (at 0 0 out) (digit (a / 4) ∷ digit (a % 4 * 16 + v) ∷ s)
      ≡ decode_loop (at v 4 (out ++ a ∷ [])) s
decode_two a v out s ha hv =
    let byte : a / 4 * 4 + (a % 4 * 16 + v) / 16 ≡ a = omega arith in
    let left : (a % 4 * 16 + v) % 16 ≡ v = omega arith in
    decode_digit (at 0 0 out) (a / 4) _ (omega arith)
    ∙ ap (λ d. decode_loop d (digit (a % 4 * 16 + v) ∷ s)) (take_first (a / 4) out (omega arith))
    ∙ decode_digit (at (a / 4) 6 out) (a % 4 * 16 + v) s (omega arith)
    ∙ ap (λ d. decode_loop d s)
        (take_second (a / 4) (a % 4 * 16 + v) out (omega arith) (omega arith)
          ∙ rw (byte, left) refl)

-- The third digit completes the second byte.
decode_third :
    (b v : ℕ) (out : Bytes) (s : Str)
    → b < 256
    → v < 4
    → decode_loop (at (b / 16) 4 out) (digit (b % 16 * 4 + v) ∷ s)
      ≡ decode_loop (at v 2 (out ++ b ∷ [])) s
decode_third b v out s hb hv =
    let byte : b / 16 * 16 + (b % 16 * 4 + v) / 4 ≡ b = omega arith in
    let left : (b % 16 * 4 + v) % 4 ≡ v = omega arith in
    decode_digit (at (b / 16) 4 out) (b % 16 * 4 + v) s (omega arith)
    ∙ ap (λ d. decode_loop d s)
        (take_third (b / 16) (b % 16 * 4 + v) out (omega arith) (omega arith)
          ∙ rw (byte, left) refl)

decode_fourth :
    (c : ℕ) (out : Bytes) (s : Str)
    → c < 256
    → decode_loop (at (c / 64) 2 out) (digit (c % 64) ∷ s) ≡ decode_loop (at 0 0 (out ++ c ∷ [])) s
decode_fourth c out s hc =
    let byte : c / 64 * 64 + c % 64 ≡ c = omega arith in
    decode_digit (at (c / 64) 2 out) (c % 64) s (omega arith)
    ∙ ap (λ d. decode_loop d s)
        (take_fourth (c / 64) (c % 64) out (omega arith) (omega arith) ∙ rw byte refl)

decode_loop-encode :
    (bs out : Bytes) → All IsByte bs → decode_loop (at 0 0 out) (encode bs) ≡ some (out ++ bs)
unfolding encode
decode_loop-encode [] out h = unfold decode_loop in ap some (sym (append-nil out))
decode_loop-encode (a ∷ []) out (ha, _) =
    let e : a % 4 * 16 ≡ a % 4 * 16 + 0 = omega arith in
    rw e (decode_two a 0 out _ ha (omega arith) ∙ decode_padding _ _)
decode_loop-encode (a ∷ b ∷ []) out (ha, (hb, _)) =
    let e : b % 16 * 4 ≡ b % 16 * 4 + 0 = omega arith in
    rw e (
      decode_two a (b / 16) out _ ha (omega arith)
      ∙ decode_third b 0 (out ++ a ∷ []) _ hb (omega arith)
      ∙ decode_padding _ _
      ∙ ap some (append_assoc out (a ∷ []) (b ∷ [])))
decode_loop-encode (a ∷ b ∷ c ∷ bs) out (ha, (hb, (hc, h))) =
    decode_two a (b / 16) out _ ha (omega arith)
    ∙ decode_third b (c / 64) (out ++ a ∷ []) _ hb (omega arith)
    ∙ decode_fourth c ((out ++ a ∷ []) ++ b ∷ []) (encode bs) hc
    ∙ decode_loop-encode bs (((out ++ a ∷ []) ++ b ∷ []) ++ c ∷ []) h
    ∙ ap some (simp append_assoc)

-- The encoding holds no whitespace.
pub encode-IsGraphic : (bs : Bytes) → All IsByte bs → All IsGraphic (encode bs)
unfolding encode
encode-IsGraphic [] h = tt
encode-IsGraphic (a ∷ []) (ha, _) = (
  digit-IsGraphic (a / 4) (omega arith),
  (digit-IsGraphic (a % 4 * 16) (omega arith), omega arith),
)
encode-IsGraphic (a ∷ b ∷ []) (ha, (hb, _)) = (
  digit-IsGraphic (a / 4) (omega arith),
  (
    digit-IsGraphic (a % 4 * 16 + b / 16) (omega arith),
    (digit-IsGraphic (b % 16 * 4) (omega arith), omega arith),
  ),
)
encode-IsGraphic (a ∷ b ∷ c ∷ bs) (ha, (hb, (hc, h))) = (
  digit-IsGraphic (a / 4) (omega arith),
  (
    digit-IsGraphic (a % 4 * 16 + b / 16) (omega arith),
    (
      digit-IsGraphic (b % 16 * 4 + c / 64) (omega arith),
      (digit-IsGraphic (c % 64) (omega arith), encode-IsGraphic bs h),
    ),
  ),
)

graphic_kept : (s : Str) → All IsGraphic s → without_whitespace s ≡ s
unfolding without_whitespace
graphic_kept [] h = refl
graphic_kept (c ∷ s) (hc, hs) = ground (arith, graphic_kept s hs)

-- `b64_decode` gives back the bytes of every text in the standard encoding with padding.
pub b64_decode-encode : (bs : Bytes) → All IsByte bs → b64_decode (encode bs) ≡ some bs
unfolding b64_decode
b64_decode-encode bs h =
    rw (graphic_kept (encode bs) (encode-IsGraphic bs h)) (decode_loop-encode bs [] h)

-- ===== src/Web/Base64.antt =====
-- `b64_decode` of src/web.rs.
pub mod RoundTrip
use alt_keeper.Base.{
  ℕ, ◌∷◌, ◌&&◌, ◌||◌, ◌++◌, some, [], bit_and, none, ◌==◌, ◌-◌, Option, ◌%◌, ◌/◌, bit_or, Bool, ◌*◌,
  if◌then◌else◌, ◌+◌, ◌^◌, leb,
}
use alt_keeper.Base.Text.{Str}
use alt_keeper.Base.Bytes.{Bytes}

-- `u8::is_ascii_whitespace`
unfoldable pub is_ascii_whitespace : ℕ → Bool
is_ascii_whitespace c = c == 32 || (c == 9 || (c == 10 || (c == 12 || c == 13)))

-- `filter(|c| !c.is_ascii_whitespace())`
unfoldable pub without_whitespace : Str → Str
unfolding is_ascii_whitespace
without_whitespace [] = []
without_whitespace (c ∷ s) =
    let rest = without_whitespace s in if is_ascii_whitespace c then rest else c ∷ rest

-- The arms of the `match` on a byte: a value, the `break` at `=`, or the `return None`.
pub data Digit : Type 0 where
  value : ℕ → Digit
  padding unknown : Digit

unfoldable pub digit_of : ℕ → Digit
digit_of c =
    if leb b'A' c && leb c b'Z'
    then value (c - b'A')
    else if leb b'a' c && leb c b'z'
    then value (c - b'a' + 26)
    else if leb b'0' c && leb c b'9'
    then value (c - b'0' + 52)
    else if c == b'+'
    then value 62
    else if c == b'/'
    then value 63
    else if c == b'='
    then padding
    else unknown

-- The variables of the loop: `acc` is a `u32`.
pub record Decoder : Type 0 where
  pub acc : ℕ
  pub bits : ℕ
  pub out : Bytes

-- The body of the loop, after the `match`.
unfoldable pub take_digit : Decoder → ℕ → Decoder
take_digit d v =
    let acc = bit_or (d.acc * 2 ^ 6 % 2 ^ 32) v in
    let bits = d.bits + 6 in
    if leb 8 bits
    then record {
      acc = bit_and acc (2 ^ (bits - 8) - 1);
      bits = bits - 8;
      out = d.out ++ (acc / 2 ^ (bits - 8) % 256) ∷ [];
    }
    else record { acc = acc; bits = bits; out = d.out }

unfoldable pub decode_loop : Decoder → Str → Option Bytes
unfolding digit_of take_digit
decode_loop d [] = some d.out
decode_loop d (c ∷ s) = elim (digit_of c) [
  | value v ↦ decode_loop (take_digit d v) s
  | padding ↦ some d.out
  | unknown ↦ none
]

unfoldable pub b64_decode : Str → Option Bytes
unfolding decode_loop without_whitespace
b64_decode s = decode_loop (record { acc = 0; bits = 0; out = [] }) (without_whitespace s)

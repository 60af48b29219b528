-- ===== src/Altserver/Frame.antt =====
-- `read_frame` and `write_frame` of src/altserver.rs: a length in four bytes, the lowest first, and
-- that many bytes of JSON.
pub mod RoundTrip
use alt_keeper.Base.{
  Bool, ℕ, ◌^◌, ◌/◌, ◌%◌, ◌==◌, ◌+◌, ◌++◌, ◌∷◌, ◌||◌, [], ◌*◌, if◌then◌else◌, leb, length, take,
  ltb, drop,
}
use alt_keeper.Base.Bytes.{Bytes}

-- What follows the last byte that will arrive: the end of the connection (closed, reset or broken),
-- another error, or nothing within the time limit.
pub data Ending : Type 0 where
  ended failed silent : Ending

-- What a connection still has to deliver.
pub record Stream : Type 0 where
  pub bytes : Bytes
  pub ending : Ending

-- `read_exact`, under its time limit.
pub data Filled : Type 0 where
  filled : Bytes → Stream → Filled
  cut_short : Ending → Filled

unfoldable pub read_exact : ℕ → Stream → Filled
read_exact n s =
    if leb n (length s.bytes)
    then filled (take n s.bytes) (record s { bytes = drop n s.bytes })
    else cut_short s.ending

-- `Ok(Some(body))`, `Ok(None)` and `Err`, each with what is left of the stream.
pub data Frame : Type 0 where
  frame : Bytes → Stream → Frame
  closed : Stream → Frame
  broken : Stream → Frame

-- After a `read_exact` that was cut short: its bytes are gone, and the stream stays as it ended.
abbrev pub drained : Ending → Stream
drained e = record { bytes = []; ending = e }

abbrev pub max_json : ℕ
max_json = 4 * 1024 * 1024

abbrev pub from_le : Bytes → ℕ
from_le [] = 0
from_le (b ∷ bs) = b + 256 * from_le bs

-- `to_le_bytes` of a 32-bit integer.
abbrev pub to_le32 : ℕ → Bytes
to_le32 n = (n % 256) ∷ (n / 256 % 256) ∷ (n / 2 ^ 16 % 256) ∷ (n / 2 ^ 24 % 256) ∷ []

-- `n <= 0 || n as usize > MAX_JSON`, for the `i32` of these 32 bits.
unfoldable pub length_refused : ℕ → Bool
length_refused n = n == 0 || (leb (2 ^ 31) n || ltb max_json n)

-- The match on the first `read_exact` of `read_frame`, where it does not fill the length.
unfoldable pub no_length : Ending → Frame
no_length ended = closed (drained ended)
no_length failed = broken (drained failed)
no_length silent = broken (drained silent)

unfoldable pub read_body : ℕ → Stream → Frame
unfolding read_exact length_refused
read_body n s =
    let body : Frame = elim (read_exact n s) [
      | filled b rest ↦ frame b rest
      | cut_short e ↦ broken (drained e)
    ] in
    if length_refused n then broken s else body

unfoldable pub read_frame : Stream → Frame
unfolding read_exact no_length read_body
read_frame s = elim (read_exact 4 s) [
  | cut_short e ↦ no_length e
  | filled len rest ↦ read_body (from_le len) rest
]

-- What `write_frame` sends for a body: `body.len() as i32` keeps the low 32 bits.
unfoldable pub write_frame : Bytes → Bytes
write_frame body = to_le32 (length body % 2 ^ 32) ++ body

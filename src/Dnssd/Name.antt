-- ===== src/Dnssd/Name.antt =====
-- `read_name` and `write_name` of src/dnssd.rs: names as labels with a length in front.
pub mod Pieces
pub mod RoundTrip
pub mod Bounds
use alt_keeper.Base.{
  ℕ, zero, suc, ◌+◌, ◌-◌, ◌%◌, ◌||◌, Option, none, some, List, [], ◌∷◌, ◌++◌, length, get_elem?,
  take, drop, ltb, leb, ◌==◌, if◌then◌else◌,
}
use alt_keeper.Base.Outcome.{Outcome, ok, refused, stuck}
use alt_keeper.Base.Bytes.{Bytes}
use alt_keeper.Base.Text.{Str, is_empty, to_ascii_lowercase, split, join}
use alt_keeper.Base.Utf8.{from_utf8_lossy}
use Prim.Native.Nat.{min}

-- `buf.get(from..to)`
abbrev pub get_range : Bytes → ℕ → ℕ → Option Bytes
get_range buf from to =
    if leb to (length buf) then some (take (to - from) (drop from buf)) else none

-- What one round of the loop of `read_name` comes to.
pub data Round : Type 0 where
  finished : ℕ → Round
  bad : Round
  labelled : Str → ℕ → Round

-- One round at index `i`: the end of the name, a refusal, or a label and where it ends.
unfoldable pub name_round : Bytes → ℕ → Round
name_round buf i = elim (get_elem? buf i) [
  | none ↦ bad
  | some len ↦
      if len == 0
      then finished (i + 1)
      else if leb 0xc0 len || ltb 63 len
      then bad
      else elim (get_range buf (i + 1) (i + 1 + len)) [
        | none ↦ bad
        | some label ↦ labelled (to_ascii_lowercase (from_utf8_lossy label)) (i + 1 + len)
      ]
]

unfoldable pub read_name_loop : ℕ → Bytes → ℕ → List Str → Outcome (Str × ℕ)
unfolding name_round
read_name_loop zero buf i parts = stuck
read_name_loop (suc fuel) buf i parts = elim (name_round buf i) [
  | bad ↦ refused
  | finished next ↦ ok (join b'.' parts, next)
  | labelled label next ↦
      let parts' = parts ++ label ∷ [] in
      let rest = read_name_loop fuel buf next parts' in
      if ltb 32 (length parts') then refused else rest
]

-- A 33rd label is refused, so the loop makes at most 33 rounds.
unfoldable pub read_name : Bytes → ℕ → Outcome (Str × ℕ)
unfolding read_name_loop
read_name buf at = read_name_loop 34 buf at []

-- The body of the loop of `write_name`; `len as u8` is exact, since `len` is at most 63.
unfoldable pub write_label : Bytes → Str → Bytes
write_label out label = let len = min (length label) 63 in (out ++ len % 256 ∷ []) ++ take len label

unfoldable pub write_labels : Bytes → List Str → Bytes
write_labels out [] = out
write_labels out (l ∷ ls) = write_labels (write_label out l) ls

-- `filter(|l| !l.is_empty())`
unfoldable pub not_empty : List Str → List Str
not_empty [] = []
not_empty (l ∷ ls) = let rest = not_empty ls in if is_empty l then rest else l ∷ rest

unfoldable pub write_name : Bytes → Str → Bytes
unfolding write_labels write_label not_empty
write_name out name = write_labels out (not_empty (split b'.' name)) ++ 0 ∷ []

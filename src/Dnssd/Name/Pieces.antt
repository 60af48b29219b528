-- ===== src/Dnssd/Name/Pieces.antt =====
-- What `write_name` of src/dnssd.rs appends, with no accumulator.
use alt_keeper.Base.{
  ◌%◌, ◌≡◌, ◌≢◌, refl, sym, ap, ◌∙◌, List, [], ◌∷◌, ◌++◌, append-nil, append_assoc, length, take,
  All,
}
use alt_keeper.Base.Bytes.{Bytes}
use alt_keeper.Base.Text.{Str, split}
use alt_keeper.Dnssd.Name.{write_label, write_labels, not_empty, write_name}
use Prim.Native.Nat.{min}

-- One label on the wire, and several.
unfoldable pub piece : Str → Bytes
piece l = (min (length l) 63 % 256) ∷ take (min (length l) 63) l

abbrev pub pieces : List Str → Bytes
pieces [] = []
pieces (l ∷ ls) = piece l ++ pieces ls

write_label-piece :
    (out : Bytes) (l : Str) (more : Bytes) → write_label out l ++ more ≡ out ++ (piece l ++ more)
unfolding write_label piece
write_label-piece out l more = simp append_assoc

write_labels-pieces : (out : Bytes) (ls : List Str) → write_labels out ls ≡ out ++ pieces ls
unfolding write_labels
write_labels-pieces out [] = sym (append-nil out)
write_labels-pieces out (l ∷ ls) =
    write_labels-pieces (write_label out l) ls ∙ write_label-piece out l (pieces ls)

-- The bytes that a name takes on the wire, whatever stands before them.
pub write_name-pieces :
    (out : Bytes) (name : Str)
    → write_name out name ≡ out ++ (pieces (not_empty (split b'.' name)) ++ 0 ∷ [])
unfolding write_name
write_name-pieces out name = rw write_labels-pieces (append_assoc out _ _)

pub not_empty-All : (ls : List Str) → All (λ l. l ≢ []) ls → not_empty ls ≡ ls
unfolding not_empty
not_empty-All [] h = refl
not_empty-All ([] ∷ ls) (hl, hls) = absurd (hl refl)
not_empty-All ((c ∷ l) ∷ ls) (hl, hls) = ap (◌∷◌ (c ∷ l)) (not_empty-All ls hls)

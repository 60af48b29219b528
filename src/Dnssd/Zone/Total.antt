-- ===== src/Dnssd/Zone/Total.antt =====
-- No index of `covers_reverse` of src/dnssd.rs is out of range, so `Zone::answer` returns.
use alt_keeper.Base.Outcome.{Outcome, ok, refused, panic, stuck, Returned}
use alt_keeper.Base.{
  ◌≡◌, ◌||◌, arith, List, Option, ltb, leb, length, set, ap, ◌∙◌, refl, inr, suc, ◌+◌, inl, Bool,
  ◌∷◌, ℕ, zero, false, [], ◌-◌, true, Bool-cases, Option-cases, some, if◌then◌else◌, ◌^◌, ◌*◌, ◌==◌,
  bit_and, ◌%◌,
}
use alt_keeper.Base.Bytes.{Bytes}
use alt_keeper.Base.Text.{Str, codes, split, str_eq, parse_unsigned, strip_suffix}
use alt_keeper.Dnssd.Zone.{
  Zone, Ipv4Addr, Record, set_from_end, reverse_octets, in_clients, covers_reverse, explored,
  answer, same_network, after_prefix, prefixes, answer_own, when_wanted, wants, type_ptr, ptr,
  mask_of, rotate_left, u32_from, octets_of,
}

length-set : {A : Type 0} (xs : List A) (i : ℕ) (v : A) → length (set xs i v) ≡ length xs
length-set [] i v = refl
length-set (x ∷ xs) zero v = refl
length-set (x ∷ xs) (suc i) v = ap suc (length-set xs i v)

set_from_end_within :
    (octets : Bytes) (i n : ℕ)
    → length octets ≡ 4
    → leb 4 i ≡ false
    → set_from_end octets i n ≡ ok (set octets (3 - i) n)
unfolding set_from_end
set_from_end_within octets i n h k =
    let inside : (ltb 3 i || leb (length octets) (3 - i)) ≡ false = ground (arith, h, k) in
    rw inside refl

reverse_octets-Returned :
    (parts : List Str) (i : ℕ) (octets : Bytes) (found : ℕ)
    → length octets ≡ 4
    → Returned (reverse_octets parts i octets found)
unfolding reverse_octets
reverse_octets-Returned [] i octets found h = tt
reverse_octets-Returned (part ∷ parts) i octets found h = elim (Bool-cases (leb 4 i)) [
  | inl many ↦ rw many tt
  | inr few ↦ elim (Option-cases (parse_unsigned 255 part)) [
    | inl e ↦ rw (few, e) tt
    | inr (n, e) ↦
        rw (few, e, set_from_end_within octets i n h few)
          (reverse_octets-Returned parts (i + 1) (set octets (3 - i) n) (found + 1)
            (length-set octets (3 - i) n ∙ h))
  ]
]

same_network-total :
    (clients : Ipv4Addr × ℕ) (p : Bytes × ℕ) → (b : Bool) × (same_network clients p ≡ ok b)
unfolding same_network mask_of
same_network-total (network, bits) (read, found) = elim (Bool-cases (found == 0)) [
  | inl nothing ↦ (false, rw nothing refl)
  | inr some_found ↦ elim (Bool-cases (bits == 0)) [
    | inl all_of_them ↦ (true, rw (some_found, all_of_them) refl)
    | inr some_bits ↦ elim (Bool-cases (ltb 32 bits)) [
      | inl many ↦ (false, rw (some_found, some_bits, many) refl)
      | inr few ↦
          let octets = if ltb found 4 then rotate_left (4 - found) read else read in
          let mask = (2 ^ 32 - 1) * 2 ^ (32 - bits) % 2 ^ 32 in
          (
            bit_and (u32_from octets) mask == bit_and (u32_from (octets_of network)) mask,
            rw (some_found, some_bits, few) refl,
          )
    ]
  ]
]

in_clients-total :
    (clients : Ipv4Addr × ℕ) (o : Outcome (Bytes × ℕ))
    → Returned o
    → (b : Bool) × (in_clients clients o ≡ ok b)
in_clients-total clients (ok p) h = same_network-total clients p
in_clients-total clients refused h = (false, refl)
in_clients-total clients panic h = absurd h
in_clients-total clients stuck h = absurd h

covers_reverse-total : (z : Zone) (name : Str) → (b : Bool) × (covers_reverse z name ≡ ok b)
unfolding covers_reverse
covers_reverse-total z name = elim (Option-cases (strip_suffix (codes ".in-addr.arpa") name)) [
  | inl e ↦ (false, rw (e, covers_reverse) refl)
  | inr (rev, e) ↦
      let (b, same) =
        in_clients-total z.clients (reverse_octets (split b'.' rev) 0 (0 ∷ 0 ∷ 0 ∷ 0 ∷ []) 0)
          (reverse_octets-Returned (split b'.' rev) 0 (0 ∷ 0 ∷ 0 ∷ 0 ∷ []) 0 refl) in
      (b, rw (e, covers_reverse) same)
]

pub explored-total : (z : Zone) (rest : Str) → (b : Bool) × (explored z rest ≡ ok b)
unfolding explored
explored-total z rest = elim (Bool-cases (str_eq rest z.domain)) [
  | inl same ↦ (true, rw same refl)
  | inr other ↦ let (b, e) = covers_reverse-total z rest in (b, rw other e)
]

pub answer-total :
    (z : Zone) (name : Str) (qtype : ℕ) → (o : Option (List Record)) × (answer z name qtype ≡ ok o)
unfolding answer
answer-total z name qtype = elim (Option-cases (after_prefix prefixes name)) [
  | inl e ↦ (answer_own z name qtype, rw (e, answer) refl)
  | inr (rest, e) ↦
      let (b, known) = explored-total z rest in
      (
        if b
            then some (when_wanted (wants qtype type_ptr) (ptr name z.domain))
            else answer_own z name qtype,
        rw (e, answer) (rw (known, answer) refl),
      )
]

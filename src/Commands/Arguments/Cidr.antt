-- ===== src/Commands/Arguments/Cidr.antt =====
-- What `parse_cidr` of src/main.rs accepts.
use alt_keeper.Base.Action.{Run, ok, err, panic, stuck}
use alt_keeper.Base.{
  [], ◌<◌, arith, inr, ◌++◌, some, ◌≤◌, false, refl, ℕ, inl, ◌≡◌, ◌∷◌, ltb, Bool-cases, option_both,
}
use alt_keeper.Commands.Arguments.{split_once, check_bits, parse_cidr, then_bits}
use alt_keeper.Base.Text.{Str, parse_unsigned}
use alt_keeper.Base.Split.{Has}
use alt_keeper.Dnssd.Zone.{Ipv4Addr}
use alt_keeper.Base.Decimal.{decimal, parse_unsigned-decimal}
use mathlib.Core.Path.{subst}

split_once-append : (d : ℕ) (p s : Str) → Has d p → split_once d (p ++ d ∷ s) ≡ some (p, s)
unfolding split_once
split_once-append d [] s h =
    option_both (λ r. r ≡ some ([], s)) (split_once d s) _ _ (ground arith) (λ _. ground arith)
split_once-append d (c ∷ p) s (hc, hp) = rw (split_once-append d p s hp) (ground arith)

-- The length of a network that was accepted is at most 32.
IsFitting : Run (Ipv4Addr × ℕ) → Type 0
IsFitting (ok (ip, n)) = n ≤ 32
IsFitting (err e) = Unit
IsFitting panic = Unit
IsFitting stuck = Unit

check_bits-IsFitting :
    (why : Str → Str) (bits : Str) (ip : Ipv4Addr) → IsFitting (check_bits why bits ip)
unfolding check_bits IsFitting
check_bits-IsFitting why bits ip =
    option_both IsFitting (parse_unsigned 255 bits) _ _ tt λ m. elim (Bool-cases (ltb 32 m)) [
      | inl big ↦ rw big tt
      | inr small ↦ rw small (ground arith)
    ]

then_bits-IsFitting :
    (why : Str → Str) (bits : Str) (r : Run Ipv4Addr) → IsFitting (then_bits why bits r)
unfolding IsFitting
then_bits-IsFitting why bits (ok ip) = check_bits-IsFitting why bits ip
then_bits-IsFitting why bits (err e) = tt
then_bits-IsFitting why bits panic = tt
then_bits-IsFitting why bits stuck = tt

-- A network that `parse_cidr` accepts has a length of 32 bits at most.
parse_cidr-le :
    (parse_ip : Str → Run Ipv4Addr) (why : Str → Str) (s : Str) (ip : Ipv4Addr) (n : ℕ)
    → parse_cidr parse_ip why s ≡ ok (ip, n)
    → n ≤ 32
unfolding parse_cidr IsFitting
parse_cidr-le parse_ip why s ip n h = subst IsFitting h (
    option_both IsFitting (split_once b'/' s) _ _ tt
      λ (text, bits). then_bits-IsFitting why bits (parse_ip text))

-- `parse_cidr` reads back a network as it is written: the text of an address, a slash and the length in
-- decimal, where the address is read from its text, the text has no slash and the length is at most 32.
pub parse_cidr-decimal :
    (parse_ip : Str → Run Ipv4Addr) (why : Str → Str) (text : Str) (ip : Ipv4Addr) (n : ℕ)
    → Has b'/' text
    → parse_ip text ≡ ok ip
    → n ≤ 32
    → parse_cidr parse_ip why (text ++ b'/' ∷ decimal n) ≡ ok (ip, n)
unfolding parse_cidr check_bits
parse_cidr-decimal parse_ip why text ip n no_slash h small =
    let fits : n < 256 = omega arith in
    let within : ltb 32 n ≡ false = ground arith in
    rw
      (
        split_once-append b'/' text (decimal n) no_slash,
        parse_cidr,
        h,
        check_bits,
        parse_unsigned-decimal n fits,
        within,
      )
      refl

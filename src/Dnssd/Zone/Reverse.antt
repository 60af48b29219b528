-- ===== src/Dnssd/Zone/Reverse.antt =====
-- `covers_reverse` of src/dnssd.rs decides membership in the clients' network.
use native.Mathlib.Nat.{mul-div_cancel}
use alt_keeper.Base.{
  ℕ, ◌≡◌, ◌∷◌, Bool, ◌<◌, refl, zero, ◌==◌, ◌/◌, arith, ◌^◌, ◌++◌, suc, ◌≤◌, ◌-◌, [], inr, bit_and,
  ltb, ap, ◌*◌, inl, false, ◌%◌, Bool-cases, ==_iff, All, sym, ◌∙◌,
}
use alt_keeper.Base.Outcome.{ok}
use alt_keeper.Dnssd.Zone.{
  Ipv4Addr, same_network, reverse_octets, u32_from, octets_of, covers_reverse, Zone, set_from_end,
  mask_of,
}
use alt_keeper.Base.Text.{Str, join, codes, strip_suffix-append}
use alt_keeper.Base.Decimal.{decimal, parse_unsigned-decimal, decimal_no_dot}
use alt_keeper.Base.Bits.{bit_and_mask, pow_pos}
use alt_keeper.Base.Split.{Has, split-join}

abbrev pub IsIpv4 : Ipv4Addr → Type 0
IsIpv4 ip = (ip.a < 256) × (ip.b < 256) × (ip.c < 256) × (ip.d < 256)

-- The name under which an address is asked for: its octets from the last to the first.
pub reverse_name : Ipv4Addr → Str
reverse_name ip =
    join b'.' (decimal ip.d ∷ decimal ip.c ∷ decimal ip.b ∷ decimal ip.a ∷ [])
    ++ codes ".in-addr.arpa"

-- The first `bits` bits of both addresses are the same.
pub shares_network : Ipv4Addr → Ipv4Addr → ℕ → Bool
shares_network x y bits =
    u32_from (octets_of x) / 2 ^ (32 - bits) == u32_from (octets_of y) / 2 ^ (32 - bits)

reverse_octets-name :
    (ip : Ipv4Addr)
    → IsIpv4 ip
    → reverse_octets
        (decimal ip.d ∷ decimal ip.c ∷ decimal ip.b ∷ decimal ip.a ∷ [])
        0
        (0 ∷ 0 ∷ 0 ∷ 0 ∷ [])
        0
      ≡ ok (octets_of ip, 4)
unfolding reverse_octets set_from_end
reverse_octets-name ip (ha, hb, hc, hd) =
    rw (parse_unsigned-decimal ip.d hd, reverse_octets)
      (rw (parse_unsigned-decimal ip.c hc, reverse_octets)
        (rw (parse_unsigned-decimal ip.b hb, reverse_octets)
          (rw (parse_unsigned-decimal ip.a ha, reverse_octets) refl)))

u32_from-lt : (ip : Ipv4Addr) → IsIpv4 ip → u32_from (octets_of ip) < 2 ^ 32
u32_from-lt ip h = omega arith

scaled_other : (u v p : ℕ) → 0 < p → (u == v) ≡ false → (u * p == v * p) ≡ false
scaled_other u v p h e = elim (Bool-cases (u * p == v * p)) [
  | inl same ↦
      let back : u ≡ v =
        sym (mul-div_cancel u h)
        ∙ ap (λ t. t / p) ((==_iff (u * p) (v * p)).0 same)
        ∙ mul-div_cancel v h in
      absurd (ground (arith, back))
  | inr other ↦ other
]

scaled_eq : (u v p : ℕ) → 0 < p → (u * p == v * p) ≡ (u == v)
scaled_eq u v p h = elim (Bool-cases (u == v)) [
  | inl same ↦ rw same ((==_iff (u * p) (v * p)).1 (ap (λ t. t * p) ((==_iff u v).0 same)))
  | inr other ↦ rw other (scaled_other u v p h other)
]

masked_same :
    (k x y : ℕ)
    → k < 33
    → x < 2 ^ 32
    → y < 2 ^ 32
    → (bit_and x ((2 ^ 32 - 1) * 2 ^ k % 2 ^ 32) == bit_and y ((2 ^ 32 - 1) * 2 ^ k % 2 ^ 32))
      ≡ (x / 2 ^ k == y / 2 ^ k)
masked_same k x y h hx hy =
    rw (bit_and_mask k x h hx, bit_and_mask k y h hy)
      (scaled_eq (x / 2 ^ k) (y / 2 ^ k) (2 ^ k) (pow_pos k))

same_network-shares :
    (network ip : Ipv4Addr) (bits : ℕ)
    → IsIpv4 network
    → IsIpv4 ip
    → bits ≤ 32
    → same_network (network, bits) (octets_of ip, 4) ≡ ok (shares_network ip network bits)
unfolding same_network shares_network mask_of
same_network-shares network ip zero hn hi few =
    let x : u32_from (octets_of ip) / 2 ^ (32 - 0) ≡ 0 = omega arith in
    let y : u32_from (octets_of network) / 2 ^ (32 - 0) ≡ 0 = omega arith in rw (x, y) refl
same_network-shares network ip (suc b) hn hi few =
    let large : ltb 32 (suc b) ≡ false = ground arith in
    let some_bits : (suc b == 0) ≡ false = ground arith in
    rw (some_bits, large)
      (ap ok (
        masked_same (32 - suc b) (u32_from (octets_of ip)) (u32_from (octets_of network))
          (omega arith) (u32_from-lt ip hi) (u32_from-lt network hn)))

-- `covers_reverse` accepts the reversed name of an address exactly where the address lies in the
-- clients' network, for every network of at most 32 bits.
pub covers_reverse-reverse_name :
    (z : Zone) (ip : Ipv4Addr)
    → IsIpv4 ip
    → IsIpv4 z.clients.0
    → z.clients.1 ≤ 32
    → covers_reverse z (reverse_name ip) ≡ ok (shares_network ip z.clients.0 z.clients.1)
unfolding covers_reverse reverse_name
covers_reverse-reverse_name z ip hi hn few =
    let parts = decimal ip.d ∷ decimal ip.c ∷ decimal ip.b ∷ decimal ip.a ∷ [] in
    let dots : All (Has b'.') parts = (
      decimal_no_dot ip.d,
      (decimal_no_dot ip.c, (decimal_no_dot ip.b, (decimal_no_dot ip.a, tt))),
    ) in
    rw (strip_suffix-append (join b'.' parts) (codes ".in-addr.arpa"), covers_reverse)
      (rw
        (
          split-join b'.' (decimal ip.d) (decimal ip.c ∷ decimal ip.b ∷ decimal ip.a ∷ []) dots,
          covers_reverse,
        )
        (rw (reverse_octets-name ip hi, covers_reverse)
          (same_network-shares z.clients.0 ip z.clients.1 hn hi few)))

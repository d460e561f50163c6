-- ===== src/Cidr/Contains.antt =====
-- crates/wiretap-server/src/cidr.rs: a range is an interval of addresses.
use native.Mathlib.Nat.{
  div-mul-le_self, div-lt_iff_lt-mul, le-div_iff_mul-le, mod-eq_of_lt, one-le-pow,
}
use wire_tap_server.Prelude.{
  ℕ, ◌+◌, ◌-◌, ◌*◌, ◌/◌, ◌^◌, ◌≤◌, ◌<◌, ◌≡◌, ◌↔◌, refl, sym, ap, ◌∙◌, inl, inr, true, false, ◌&&◌,
  Option, none, some, ltb, lt→ltb, ltb→lt, ◌==◌, ==_iff, Bool-cases, arith,
}
use wire_tap_server.Cidr.Range.{
  is_mapped, IpAddr, v4, v6, Cidr, bits_of, to_canonical, network_bits, same_family, contains,
  from_str, mapped_network, prefix_of, without_host_bits,
}

two_pow_pos : (h : ℕ) → 0 < 2 ^ h
two_pow_pos h = one-le-pow h 2 (omega arith)

-- Cutting the bits below a multiple of `d`.
cut_iff : (b n d : ℕ) → 0 < d → n / d * d ≡ n → (b / d * d ≡ n) ↔ ((n ≤ b) × (b < n + d))
cut_iff b n d pos whole = (there, back)
  where
    below : b / d * d ≤ b
    below = div-mul-le_self b d

    above : b < (b / d + 1) * d
    above = (div-lt_iff_lt-mul pos).0 (omega arith)

    spread : (q : ℕ) → (q + 1) * d ≡ q * d + d
    spread q = omega arith

    there : b / d * d ≡ n → (n ≤ b) × (b < n + d)
    there e = (omega arith, omega (arith, spread (b / d)))

    back : (n ≤ b) × (b < n + d) → b / d * d ≡ n
    back (le, lt) =
        let low : n / d ≤ b / d = (le-div_iff_mul-le pos).1 (omega arith) in
        let high : b / d < n / d + 1 = (div-lt_iff_lt-mul pos).1 (omega (arith, spread (n / d))) in
        let same : b / d ≡ n / d = omega arith in ap (λ q. q * d) same ∙ whole

-- Below 128 bits of host, `network_bits` cuts; from there on it is 0.
network_bits-cut :
    (b width prefix : ℕ)
    → width - prefix < 128
    → b < 2 ^ 128
    → network_bits b width prefix ≡ b / 2 ^ (width - prefix) * 2 ^ (width - prefix)
unfolding network_bits
network_bits-cut b width prefix h small =
    let d = 2 ^ (width - prefix) in
    let below : b / d * d ≤ b = div-mul-le_self b d in
    rw (lt→ltb (width - prefix) 128 h) (mod-eq_of_lt (omega arith))

network_bits-all :
    (b width prefix : ℕ) → ltb (width - prefix) 128 ≡ false → network_bits b width prefix ≡ 0
unfolding network_bits
network_bits-all b width prefix h = rw h refl

network_bits_iff :
    (b n width prefix : ℕ)
    → width ≤ 128
    → b < 2 ^ 128
    → n < 2 ^ 128
    → network_bits n width prefix ≡ n
    → (network_bits b width prefix ≡ n) ↔ ((n ≤ b) × (b < n + 2 ^ (width - prefix)))
network_bits_iff b n width prefix w small small' whole =
    elim (Bool-cases (ltb (width - prefix) 128)) [
      | inl h ↦
          let host = ltb→lt (width - prefix) 128 h in
          rw (network_bits-cut b width prefix host small) (
            cut_iff b n (2 ^ (width - prefix)) (two_pow_pos (width - prefix))
              (sym (network_bits-cut n width prefix host small') ∙ whole))
      | inr h ↦
          let zero_bits = network_bits-all b width prefix h in
          let none_set : n ≡ 0 = sym whole ∙ network_bits-all n width prefix h in
          let all : width - prefix ≡ 128 = ground arith in
          rw (zero_bits, none_set, all) ((λ _. (omega arith, omega arith)), (λ _. refl))
    ]

-- An address fits the width of its family.
abbrev pub Fits : IpAddr → Type 0
Fits (v4 a) = a < 2 ^ 32
Fits (v6 a) = a < 2 ^ 128

to_canonical-Fits : (a : IpAddr) → Fits a → Fits (to_canonical a)
to_canonical-Fits (v4 a) h = h
to_canonical-Fits (v6 a) h = elim (Bool-cases (is_mapped a)) [
  | inl e ↦ rw e (omega arith)
  | inr e ↦ rw e h
]

-- What a parsed range is.
record Parsed (address : IpAddr) (c : Cidr) : Type 0 where
  network : c.network ≡ address
  whole : network_bits (bits_of address).0 (bits_of address).1 c.prefix ≡ (bits_of address).0

range-Parsed :
    (address : IpAddr) (prefix : Option ℕ) (c : Cidr)
    → without_host_bits address prefix ≡ some c
    → Parsed address c
range-Parsed address none c e = cc
range-Parsed address (some prefix) c e =
    elim (Bool-cases
      (network_bits (bits_of address).0 (bits_of address).1 prefix == (bits_of address).0)) [
        | inl same ↦
            let is : record { network = address; prefix = prefix } ≡ c = cc (rw same at e) in
            let (to, _) =
              ==_iff (network_bits (bits_of address).0 (bits_of address).1 prefix)
                (bits_of address).0 in
            record { network = ap (λ z. z.network) (sym is); whole = rw (sym is) (to same) }
        | inr other ↦ cc (rw other at e)
      ]

from_str-Parsed :
    (address : IpAddr) (prefix : Option (Option ℕ)) (c : Cidr)
    → from_str (some address) prefix ≡ some c
    → Parsed address c
unfolding from_str
from_str-Parsed address prefix c e = elim (Bool-cases (mapped_network address)) [
  | inl mapped ↦ cc (rw mapped at e)
  | inr plain ↦ range-Parsed address (prefix_of prefix (bits_of address).1) c (rw plain at e)
]

-- The test, for an address in its canonical form.
matches_iff :
    (p n : IpAddr) (prefix : ℕ)
    → Fits p
    → Fits n
    → network_bits (bits_of n).0 (bits_of n).1 prefix ≡ (bits_of n).0
    → ((same_family p n && (network_bits (bits_of p).0 (bits_of p).1 prefix == (bits_of n).0))
        ≡ true)
      ↔ ((same_family p n ≡ true)
          × ((bits_of n).0 ≤ (bits_of p).0)
          × ((bits_of p).0 < (bits_of n).0 + 2 ^ ((bits_of n).1 - prefix)))
matches_iff (v4 b) (v4 n) prefix fits fits' whole =
    let (in_range, back) =
      network_bits_iff b n 32 prefix (omega arith) (omega arith) (omega arith) whole in
    let (to, of) = ==_iff (network_bits b 32 prefix) n in
    ((λ h. (refl, (in_range (to h)).0, (in_range (to h)).1)), (λ h. of (back (h.1, h.2))))
matches_iff (v6 b) (v6 n) prefix fits fits' whole =
    let (in_range, back) = network_bits_iff b n 128 prefix (omega arith) fits fits' whole in
    let (to, of) = ==_iff (network_bits b 128 prefix) n in
    ((λ h. (refl, (in_range (to h)).0, (in_range (to h)).1)), (λ h. of (back (h.1, h.2))))
matches_iff (v4 b) (v6 n) prefix fits fits' whole = ((λ h. cc), (λ h. cc))
matches_iff (v6 b) (v4 n) prefix fits fits' whole = ((λ h. cc), (λ h. cc))

-- A range that was parsed holds a peer exactly where the peer, an IPv4-mapped one as IPv4, is of
-- the range's family and lies between its network address and that plus the size of its host part.
pub contains-from_str :
    (address : IpAddr) (prefix : Option (Option ℕ)) (c : Cidr) (peer : IpAddr)
    → from_str (some address) prefix ≡ some c
    → Fits address
    → Fits peer
    → let p = to_canonical peer in
      (contains c peer ≡ true) ↔ (
        (same_family p address ≡ true)
        × ((bits_of address).0 ≤ (bits_of p).0)
        × ((bits_of p).0 < (bits_of address).0 + 2 ^ ((bits_of address).1 - c.prefix)))
unfolding contains
contains-from_str address prefix c peer e fits fits' =
    let is = from_str-Parsed address prefix c e in
    rw is.network (
      matches_iff (to_canonical peer) address c.prefix (to_canonical-Fits peer fits') fits is.whole)

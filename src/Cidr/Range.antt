-- ===== src/Cidr/Range.antt =====
-- crates/wiretap-server/src/cidr.rs: `Cidr`, its parsing and its test. The parsing of an address and
-- of a number is the standard library's: what it gives is what parsing starts from here.
use wire_tap_server.Prelude.{
  ℕ, List, [], ◌∷◌, ◌-◌, ◌*◌, ◌/◌, ◌%◌, ◌^◌, ◌&&◌, Bool, true, false, Option, none, some, ltb, leb,
  ◌==◌, if◌then◌else◌,
}

-- `IpAddr`, as the bits of an address.
pub data IpAddr : Type 0 where
  v4 v6 : ℕ → IpAddr

pub record Cidr : Type 0 where
  pub network : IpAddr
  pub prefix : ℕ

-- `(bits, width)`.
abbrev pub bits_of : IpAddr → ℕ × ℕ
bits_of (v4 a) = (a, 32)
bits_of (v6 a) = (a, 128)

abbrev pub is_ipv4 : IpAddr → Bool
is_ipv4 (v4 a) = true
is_ipv4 (v6 a) = false

-- `::ffff:0:0/96` holds the IPv4-mapped addresses.
abbrev pub is_mapped : ℕ → Bool
is_mapped a = a / 2 ^ 32 == 65_535

-- `to_canonical`.
abbrev pub to_canonical : IpAddr → IpAddr
to_canonical (v4 a) = v4 a
to_canonical (v6 a) = if is_mapped a then v4 (a % 2 ^ 32) else v6 a

-- `checked_shr` gives nothing from 128 on; `<<` drops the bits above the 128th.
unfoldable pub network_bits : ℕ → ℕ → ℕ → ℕ
network_bits bits width prefix =
    let host = width - prefix in if ltb host 128 then (bits / 2 ^ host * 2 ^ host) % 2 ^ 128 else 0

abbrev pub same_family : IpAddr → IpAddr → Bool
same_family (v4 a) (v4 b) = true
same_family (v6 a) (v6 b) = true
same_family (v4 a) (v6 b) = false
same_family (v6 a) (v4 b) = false

unfoldable pub contains : Cidr → IpAddr → Bool
contains c address =
    let peer = to_canonical address in
    let (peer_bits, width) = bits_of peer in
    same_family peer c.network && (network_bits peer_bits width c.prefix == (bits_of c.network).0)

abbrev pub mapped_network : IpAddr → Bool
mapped_network (v4 a) = false
mapped_network (v6 a) = is_mapped a

-- No prefix is one host.
abbrev pub prefix_of : Option (Option ℕ) → ℕ → Option ℕ
prefix_of none width = some width
prefix_of (some none) width = none
prefix_of (some (some p)) width = if leb p width then some p else none

abbrev pub without_host_bits : IpAddr → Option ℕ → Option Cidr
without_host_bits network none = none
without_host_bits network (some prefix) =
    let (bits, width) = bits_of network in
    if network_bits bits width prefix == bits
    then some (record { network = network; prefix = prefix })
    else none

abbrev pub range_of : Option (Option ℕ) → Option IpAddr → Option Cidr
range_of prefix none = none
range_of prefix (some network) =
    if mapped_network network
    then none
    else without_host_bits network (prefix_of prefix (bits_of network).1)

-- `from_str`, from the parsed address before the `/`, and the parsed number behind one; the text
-- of a refusal is left out.
unfoldable pub from_str : Option IpAddr → Option (Option ℕ) → Option Cidr
from_str address prefix = range_of prefix address

-- `LOOPBACK`: `127.0.0.0/8`, and `::1`.
abbrev pub loopback : List Cidr
loopback =
    record { network = v4 2_130_706_432; prefix = 8 } ∷ record { network = v6 1; prefix = 128 } ∷ []

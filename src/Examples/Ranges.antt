-- ===== src/Examples/Ranges.antt =====
-- crates/wiretap-server/src/cidr.rs: 192.168.1.0/24, and a peer that is mapped to IPv4.
use wire_tap_server.Prelude.{◌+◌, ◌-◌, ◌^◌, ◌≤◌, ◌<◌, ◌≡◌, ◌↔◌, refl, arith, true, some}
use wire_tap_server.Cidr.Range.{
  Cidr, v4, v6, bits_of, same_family, to_canonical, contains, from_str, network_bits,
}
use wire_tap_server.Cidr.Contains.{contains-from_str}

abbrev lan : Cidr
lan = record { network = v4 3_232_235_776; prefix = 24 }

lan_parsed : from_str (some (v4 3_232_235_776)) (some (some 24)) ≡ some lan
unfolding from_str network_bits
lan_parsed = refl

-- `::ffff:192.168.1.7`
lan_holds : contains lan (v6 281_473_913_979_143) ≡ true
unfolding contains network_bits
lan_holds = refl

contains-from_str_example : (contains lan (v6 281_473_913_979_143) ≡ true) ↔ (
    (same_family (to_canonical (v6 281_473_913_979_143)) (v4 3_232_235_776) ≡ true)
    × (3_232_235_776 ≤ (bits_of (to_canonical (v6 281_473_913_979_143))).0)
    × ((bits_of (to_canonical (v6 281_473_913_979_143))).0 < 3_232_235_776 + 2 ^ (32 - 24)))
contains-from_str_example =
    contains-from_str (v4 3_232_235_776) (some (some 24)) lan (v6 281_473_913_979_143) lan_parsed
      (omega arith) (omega arith)

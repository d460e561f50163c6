-- ===== src/Model.antt =====
-- crates/wiretap-model/src/sample.rs: what a capture source produces.
use wire_tap_server.Prelude.{
  ℕ, ◌+◌, List, [], ◌∷◌, Bool, true, false, ◌&&◌, Option, none, some, leb, ◌==◌, ◌≡◌, refl,
  if◌then◌else◌, arith, and_true, ==_iff,
}
use wire_tap_server.Prelude.Int.{ℤ}

-- `SourceId(u8)`.
pub record SourceId : Type 0 where
  pub id : ℕ

pub data Direction : Type 0 where
  rx tx : Direction

pub data Protocol : Type 0 where
  can modbus_rtu serial : Protocol

pub record CanSample : Type 0 where
  pub ts_us : ℤ
  pub arb_id : ℕ
  pub extended : Bool
  pub is_fd : Bool
  pub rtr : Option ℕ
  pub brs : Bool
  pub esi : Bool
  pub payload : List ℕ
  pub bus : SourceId
  pub dir : Direction

pub record ModbusSample : Type 0 where
  pub ts_us : ℤ
  pub bus : SourceId
  pub unit : ℕ
  pub func : ℕ
  pub crc_valid : Bool
  pub raw : List ℕ

pub record SerialSample : Type 0 where
  pub ts_us : ℤ
  pub bus : SourceId
  pub seq : ℕ
  pub payload : List ℕ

pub data Sample : Type 0 where
  can_sample : CanSample → Sample
  modbus_sample : ModbusSample → Sample
  serial_sample : SerialSample → Sample

unfoldable pub timestamp : Sample → ℤ
timestamp (can_sample c) = c.ts_us
timestamp (modbus_sample m) = m.ts_us
timestamp (serial_sample r) = r.ts_us

unfoldable pub bus_of : Sample → SourceId
bus_of (can_sample c) = c.bus
bus_of (modbus_sample m) = m.bus
bus_of (serial_sample r) = r.bus

unfoldable pub protocol : Sample → Protocol
protocol (can_sample c) = Protocol.can
protocol (modbus_sample m) = Protocol.modbus_rtu
protocol (serial_sample r) = Protocol.serial

-- The bytes of a string.
abbrev pub Text : Type 0
Text = List ℕ

-- `rx` and `tx`.
abbrev pub direction_text : Direction → Text
direction_text rx = 114 ∷ 120 ∷ []
direction_text tx = 116 ∷ 120 ∷ []

abbrev pub to_lower : ℕ → ℕ
to_lower c = if leb 65 c && leb c 90 then c + 32 else c

-- `eq_ignore_ascii_case`.
abbrev pub same_letters : Text → Text → Bool
same_letters [] [] = true
same_letters [] (d ∷ ds) = false
same_letters (c ∷ cs) [] = false
same_letters (c ∷ cs) (d ∷ ds) = (to_lower c == to_lower d) && same_letters cs ds

abbrev pub same_text : Text → Text → Bool
same_text [] [] = true
same_text [] (d ∷ ds) = false
same_text (c ∷ cs) [] = false
same_text (c ∷ cs) (d ∷ ds) = (c == d) && same_text cs ds

pub same_text_refl : (s : Text) → same_text s s ≡ true
same_text_refl [] = refl
same_text_refl (c ∷ cs) = grind (arith, same_text_refl cs)

pub eq_of_same_text : (s t : Text) → same_text s t ≡ true → s ≡ t
eq_of_same_text [] [] h = refl
eq_of_same_text [] (d ∷ ds) h = absurd cc
eq_of_same_text (c ∷ cs) [] h = absurd cc
eq_of_same_text (c ∷ cs) (d ∷ ds) h =
    let (first, rest) = and_true (c == d) (same_text cs ds) h in
    cc ((==_iff c d).0 first, eq_of_same_text cs ds rest)

-- `Direction::from_str`.
unfoldable pub parse_direction : Text → Option Direction
parse_direction s =
    if same_letters s (direction_text rx)
    then some rx
    else if same_letters s (direction_text tx)
    then some tx
    else none

pub parse_direction-direction_text : (d : Direction) → parse_direction (direction_text d) ≡ some d
unfolding parse_direction
parse_direction-direction_text rx = refl
parse_direction-direction_text tx = refl

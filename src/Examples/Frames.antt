-- ===== src/Examples/Frames.antt =====
-- crates/wiretap-server/src/wire.rs: a CAN library and a record library that keep what they are
-- given, and samples on the wire.
use wire_tap_server.Prelude.{
  ℕ, ◌≡◌, ◌%◌, ap, ◌<◌, refl, arith, ◌==◌, Bool, true, false, List, [], ◌∷◌, some, none,
  if◌then◌else◌,
}
use wire_tap_server.Prelude.Int.{pos}
use wire_tap_server.Model.{Direction, CanSample, can_sample}
use wire_tap_server.Wire.Library.{
  InId, CanLibrary, CanLaws, RecordLibrary, RecordLaws, RecordFields, can_fields, modbus_fields,
  raw_serial_fields,
}
use wire_tap_server.Wire.RoundTrip.{WellFormed, can_ok, plain_frame}

pub record Frame : Type 0 where
  pub bus : ℕ
  pub arb_id : ℕ
  pub extended : Bool
  pub fd : Bool
  pub rtr : Bool
  pub dlc : ℕ
  pub brs : Bool
  pub esi : Bool
  pub payload : List ℕ

-- 1 for `rtr`, 2 for `brs`, 4 for `esi`.
abbrev flags_of : Bool → Bool → Bool → ℕ
flags_of false false false = 0
flags_of true false false = 1
flags_of false true false = 2
flags_of true true false = 3
flags_of false false true = 4
flags_of true false true = 5
flags_of false true true = 6
flags_of true true true = 7

abbrev has_rtr : ℕ → Bool
has_rtr n = if n == 1 then true else if n == 3 then true else if n == 5 then true else n == 7

abbrev has_brs : ℕ → Bool
has_brs n = if n == 2 then true else if n == 3 then true else if n == 6 then true else n == 7

abbrev has_esi : ℕ → Bool
has_esi n = if n == 4 then true else if n == 5 then true else if n == 6 then true else n == 7

pub flags_lem :
    (r b e : Bool)
    → (has_rtr (flags_of r b e) ≡ r)
      × (has_brs (flags_of r b e) ≡ b)
      × (has_esi (flags_of r b e) ≡ e)
      × (flags_of r b e < 256)
flags_lem false false false = (refl, refl, refl, omega arith)
flags_lem true false false = (refl, refl, refl, omega arith)
flags_lem false true false = (refl, refl, refl, omega arith)
flags_lem true true false = (refl, refl, refl, omega arith)
flags_lem false false true = (refl, refl, refl, omega arith)
flags_lem true false true = (refl, refl, refl, omega arith)
flags_lem false true true = (refl, refl, refl, omega arith)
flags_lem true true true = (refl, refl, refl, omega arith)

-- Identifiers are masked to their bits.
abbrev pub masked : Bool → ℕ → ℕ
masked true id = id % 536_870_912
masked false id = id % 2048

pub unmasked : (extended : Bool) (id : ℕ) → InId extended id → masked extended id ≡ id
unmasked true id h = omega arith
unmasked false id h = omega arith

pub one_byte : (bus : ℕ) → bus < 256 → bus ≡ bus % 256
one_byte bus h = omega arith

abbrev pub masked_fields : RecordFields Frame → RecordFields Frame
masked_fields (can_fields f tx) = can_fields (record f { arb_id = masked f.extended f.arb_id }) tx
masked_fields (modbus_fields unit func crc tx) = modbus_fields unit func crc tx
masked_fields (raw_serial_fields seq tx) = raw_serial_fields seq tx

abbrev pub can_library : CanLibrary
can_library = record {
  Frame = Frame;
  remote = λ bus id extended dlc. record {
    bus = bus % 256;
    arb_id = masked extended id;
    extended = extended;
    fd = false;
    rtr = true;
    dlc = dlc;
    brs = false;
    esi = false;
    payload = [];
  };
  data_frame = λ bus id extended fd brs payload. record {
    bus = bus % 256;
    arb_id = masked extended id;
    extended = extended;
    fd = fd;
    rtr = false;
    dlc = 0;
    brs = brs;
    esi = false;
    payload = payload;
  };
  set_esi = λ esi f. record f { esi = esi };
  arb_id = λ f. f.arb_id;
  extended = λ f. f.extended;
  fd = λ f. f.fd;
  rtr = λ f. f.rtr;
  dlc = λ f. f.dlc;
  brs = λ f. f.brs;
  esi = λ f. f.esi;
  payload = λ f. f.payload;
  flags_of = λ f tx. flags_of f.rtr f.brs f.esi;
  rtr_flag = has_rtr;
  brs_flag = has_brs;
  esi_flag = has_esi;
}

pub can_laws : CanLaws can_library
can_laws = record {
  remote_is = λ bus id dlc extended esi at bound. record {
    arb_id_is = unmasked extended id at.1;
    extended_is = refl;
    fd_is = refl;
    rtr_is = refl;
    brs_is = refl;
    payload_is = refl;
  };
  remote_dlc = λ bus id dlc extended esi h. refl;
  data_is = λ bus id extended fd brs esi payload at fits h. record {
    arb_id_is = unmasked extended id at.1;
    extended_is = refl;
    fd_is = refl;
    rtr_is = refl;
    brs_is = refl;
    payload_is = refl;
  };
  esi_is = λ esi f. refl;
  flags_rtr = λ f tx. (flags_lem f.rtr f.brs f.esi).0;
  flags_brs = λ f tx. (flags_lem f.rtr f.brs f.esi).1;
  flags_esi = λ f tx. (flags_lem f.rtr f.brs f.esi).2;
  flags_u8 = λ f tx. (flags_lem f.rtr f.brs f.esi).3;
}

abbrev pub record_library : RecordLibrary can_library
record_library = record {
  CanPart = Frame;
  Header = RecordFields Frame;
  from_can = λ f tx. f;
  to_can = λ p bus payload. some (record p { bus = bus; payload = payload });
  to_wire = masked_fields;
  from_wire = λ h. h;
}

pub record_laws : RecordLaws record_library
record_laws = record {
  frame_back = λ bus id extended fd brs esi tx payload at fits h.
      ap
        (λ b.
          some
            (record (can_library.set_esi esi
              (can_library.data_frame bus id extended fd brs payload)) { bus = b }))
        (one_byte bus at.0);
  remote_back = λ bus id dlc extended esi tx at bound.
      ap
        (λ b.
          some
            (record (can_library.set_esi esi (can_library.remote bus id extended dlc)) { bus = b }))
        (one_byte bus at.0);
  can_back = λ f tx at.
      ap (λ i. can_fields (record f { arb_id = i }) tx) (unmasked f.extended f.arb_id at);
  modbus_back = λ unit func crc tx h h'. refl;
  serial_back = λ seq tx h. refl;
}

abbrev pub fd_sample : CanSample
fd_sample = record {
  ts_us = pos 1_700_000_000_000_000;
  arb_id = 291;
  extended = false;
  is_fd = true;
  rtr = none;
  brs = true;
  esi = true;
  payload = 1 ∷ 2 ∷ 3 ∷ [];
  bus = record { id = 1 };
  dir = Direction.tx;
}

pub fd_sample-WellFormed : WellFormed (can_sample fd_sample)
fd_sample-WellFormed = can_ok (omega arith, omega arith) (plain_frame refl refl)

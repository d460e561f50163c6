-- ===== src/Wire/Records.antt =====
-- crates/wiretap-server/src/wire.rs: `record` and `decode`.
use wire_tap_server.Prelude.{ℕ, Bool, true, false, List, Option, none, some, if◌then◌else◌}
use wire_tap_server.Prelude.Int.{ℤ, clamp_u64}
use wire_tap_server.Model.{
  SourceId, Direction, rx, tx, CanSample, Sample, can_sample, modbus_sample, serial_sample,
  timestamp, bus_of,
}
use wire_tap_server.Wire.Library.{
  CanLibrary, RecordLibrary, RecordFields, can_fields, modbus_fields, raw_serial_fields,
}

-- `BatchRecord`.
pub record BatchRecord (C : Type 0) : Type 0 where
  pub ts_us : ℕ
  pub fields : RecordFields C
  pub bus : ℕ
  pub payload : List ℕ

-- `Record`, as it is read off the wire.
pub record WireRecord (H : Type 0) : Type 0 where
  pub header : H
  pub bus : ℕ
  pub payload : List ℕ

abbrev pub is_tx : Direction → Bool
is_tx tx = true
is_tx rx = false

abbrev pub direction_of : Bool → Direction
direction_of true = tx
direction_of false = rx

unfoldable pub record_ts : Sample → ℕ
record_ts s = clamp_u64 (timestamp s)

module _ (c : CanLibrary) where
  abbrev pub base_frame : Option ℕ → CanSample → c.Frame
  base_frame (some dlc) s = c.remote s.bus.id s.arb_id s.extended dlc
  base_frame none s = c.data_frame s.bus.id s.arb_id s.extended s.is_fd s.brs s.payload

  unfoldable pub can_frame : CanSample → c.Frame
  can_frame s = c.set_esi s.esi (base_frame s.rtr s)

  unfoldable pub sample_of_frame : c.Frame → ℤ → SourceId → Direction → CanSample
  sample_of_frame f ts_us bus dir = record {
    ts_us = ts_us;
    arb_id = c.arb_id f;
    extended = c.extended f;
    is_fd = c.fd f;
    rtr = if c.rtr f then some (c.dlc f) else none;
    brs = c.brs f;
    esi = c.esi f;
    payload = c.payload f;
    bus = bus;
    dir = dir;
  }

module _ {c : CanLibrary} (r : RecordLibrary c) where
  unfoldable pub parts : Sample → RecordFields r.CanPart × List ℕ
  parts (can_sample s) =
      (can_fields (r.from_can (can_frame c s) (is_tx s.dir)) (is_tx s.dir), s.payload)
  parts (modbus_sample m) = (modbus_fields m.unit m.func m.crc_valid false, m.raw)
  parts (serial_sample s) = (raw_serial_fields s.seq false, s.payload)

  unfoldable pub record_of : Sample → BatchRecord r.CanPart
  record_of s =
      let (fields, payload) = parts s in
      record { ts_us = record_ts s; fields = fields; bus = (bus_of s).id; payload = payload }

  -- The library's encoding of a record's header, bus and payload.
  abbrev pub carried : BatchRecord r.CanPart → WireRecord r.Header
  carried b = record { header = r.to_wire b.fields; bus = b.bus; payload = b.payload }

  -- `expect("a CAN record")` is `none` where it panics.
  abbrev pub can_decoded : ℤ → SourceId → Bool → Option c.Frame → Option Sample
  can_decoded ts_us bus transmitted none = none
  can_decoded ts_us bus transmitted (some f) =
      some (can_sample (sample_of_frame c f ts_us bus (direction_of transmitted)))

  unfoldable pub decode_fields : ℤ → WireRecord r.Header → RecordFields r.CanPart → Option Sample
  decode_fields ts_us w (can_fields p transmitted) =
      can_decoded ts_us (record { id = w.bus }) transmitted (r.to_can p w.bus w.payload)
  decode_fields ts_us w (modbus_fields unit func crc_valid transmitted) = some (
      modbus_sample (record {
        ts_us = ts_us;
        bus = record { id = w.bus };
        unit = unit;
        func = func;
        crc_valid = crc_valid;
        raw = w.payload;
      }))
  decode_fields ts_us w (raw_serial_fields seq transmitted) = some (
      serial_sample
        (record { ts_us = ts_us; bus = record { id = w.bus }; seq = seq; payload = w.payload }))

  unfoldable pub decode : ℤ → WireRecord r.Header → Option Sample
  unfolding decode_fields
  decode ts_us w = decode_fields ts_us w (r.from_wire w.header)

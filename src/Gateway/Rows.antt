-- ===== src/Gateway/Rows.antt =====
-- crates/wiretap-backend/src/ingest/writer.rs: `FrameRow`, and the rows of a batch.
use wire_tap_server.Prelude.{
  ℕ, ◌%◌, ◌^◌, Bool, List, [], ◌∷◌, Option, none, some, length, if◌then◌else◌,
}
use wire_tap_server.Prelude.Int.{ℤ}
use wire_tap_server.Model.{Protocol, can, modbus_rtu, serial}
use wire_tap_server.Wire.Library.{
  CanLibrary, RecordLibrary, RecordFields, can_fields, modbus_fields, raw_serial_fields,
}
use wire_tap_server.Wire.Records.{WireRecord}
use wire_tap_server.Ingest.Session.{as_i64}

pub record FrameRow : Type 0 where
  pub ts_us : ℤ
  pub protocol : Protocol
  pub id : ℕ
  pub flags : ℕ
  pub dlc : ℕ
  pub payload : List ℕ
  pub bus : ℕ
  pub unit : Option ℕ
  pub func : Option ℕ
  pub crc_valid : Option Bool

-- `arb_id_of` is a header's id under `ID_ARB_MASK`, and `tx_flag` is `CanFlags::TX`.
module _ {c : CanLibrary} (r : RecordLibrary c) (arb_id_of : r.Header → ℕ) (tx_flag : ℕ) where
  abbrev pub tx_bits : Bool → ℕ
  tx_bits transmitted = if transmitted then tx_flag else 0

  -- `expect("a CAN record")` is `none` where it panics.
  abbrev pub can_row : ℤ → ℕ → Bool → Option c.Frame → Option FrameRow
  can_row ts_us bus transmitted none = none
  can_row ts_us bus transmitted (some f) = some (record {
    ts_us = ts_us;
    protocol = can;
    id = c.arb_id f;
    flags = c.flags_of f transmitted;
    dlc = c.dlc f;
    payload = c.payload f;
    bus = bus;
    unit = none;
    func = none;
    crc_valid = none;
  })

  unfoldable pub row_of_fields : ℤ → WireRecord r.Header → RecordFields r.CanPart → Option FrameRow
  row_of_fields ts_us w (can_fields p transmitted) =
      can_row ts_us w.bus transmitted (r.to_can p w.bus w.payload)
  row_of_fields ts_us w (modbus_fields unit func crc_valid transmitted) = some (record {
    ts_us = ts_us;
    protocol = modbus_rtu;
    id = arb_id_of w.header;
    flags = tx_bits transmitted;
    dlc = length w.payload % 2 ^ 16;
    payload = w.payload;
    bus = w.bus;
    unit = some unit;
    func = some func;
    crc_valid = some crc_valid;
  })
  row_of_fields ts_us w (raw_serial_fields seq transmitted) = some (record {
    ts_us = ts_us;
    protocol = serial;
    id = 0;
    flags = tx_bits transmitted;
    dlc = length w.payload % 2 ^ 16;
    payload = w.payload;
    bus = w.bus;
    unit = none;
    func = none;
    crc_valid = none;
  })

  -- `FrameRow::new`.
  unfoldable pub frame_row : ℤ → WireRecord r.Header → Option FrameRow
  frame_row ts_us w = row_of_fields ts_us w (r.from_wire w.header)

  abbrev pub cons_row : Option FrameRow → Option (List FrameRow) → Option (List FrameRow)
  cons_row (some x) (some rest) = some (x ∷ rest)
  cons_row (some x) none = none
  cons_row none rest = none

  -- `rows`, of records stamped with their time.
  unfoldable pub batch_rows : List (ℕ × WireRecord r.Header) → Option (List FrameRow)
  batch_rows [] = some []
  batch_rows ((ts_us, w) ∷ rest) = cons_row (frame_row (as_i64 ts_us) w) (batch_rows rest)

-- ===== src/Cache/Rows.antt =====
-- crates/wiretap-server/src/cache.rs: a frame as a row of the table, and back.
use wire_tap_server.Prelude.{
  ℕ, ◌<◌, ◌≡◌, Bool, true, false, List, Option, none, some, length, ltb, if◌then◌else◌,
}
use wire_tap_server.Prelude.Int.{ℤ, pos}
use wire_tap_server.Model.{
  rx, Protocol, can, modbus_rtu, serial, Sample, can_sample, modbus_sample, serial_sample, protocol,
  Text, direction_text, parse_direction,
}
use wire_tap_server.Wire.Library.{CanLibrary}
use wire_tap_server.Wire.Records.{can_frame}

-- What a row is made with: the floats of the `ts` column, and the libraries' protocol tags and
-- Modbus ids.
pub record RowLibrary : Type 1 where
  pub Real : Type 0
  pub of_int : ℤ → Real
  pub million : Real
  pub over : Real → Real → Real
  pub times : Real → Real → Real
  pub round : Real → ℤ
  pub protocol_text : Protocol → Text
  pub parse_protocol : Text → Option Protocol
  pub modbus_id : ℕ → ℕ → ℕ
  pub modbus_unit_func : ℕ → ℕ × ℕ

-- `seconds_exact`: below 2 ^ 32 seconds, which is in 2106, the two roundings of the floats are less than half
-- a microsecond together.
pub record RowLaws (r : RowLibrary) : Type 0 where
  pub seconds_exact :
      (n : ℕ)
      → n < 4_294_967_296_000_000
      → r.round (r.times (r.over (r.of_int (pos n)) r.million) r.million) ≡ pos n
  pub parse_text : (p : Protocol) → r.parse_protocol (r.protocol_text p) ≡ some p
  pub unit_func_back :
      (unit func : ℕ)
      → unit < 256
      → func < 256
      → r.modbus_unit_func (r.modbus_id unit func) ≡ (unit, func)
  pub modbus_id_u32 :
      (unit func : ℕ) → unit < 256 → func < 256 → r.modbus_id unit func < 4_294_967_296

-- The columns of `frames`, without the key.
pub record Row (R : Type 0) : Type 0 where
  pub ts : R
  pub extended : Bool
  pub is_fd : Bool
  pub arb_id : ℕ
  pub dlc : ℕ
  pub payload : List ℕ
  pub bus : ℕ
  pub dir : Text
  pub tag : Text
  pub crc_valid : Option Bool
  pub flags : Option ℕ

-- `r.get::<u8>` and `r.get::<u32>`, whose errors end the query.
abbrev pub with_u8 : {B : Type 0} → ℕ → (ℕ → Option B) → Option B
with_u8 n f = if ltb n 256 then f n else none

abbrev pub with_u32 : {B : Type 0} → ℕ → (ℕ → Option B) → Option B
with_u32 n f = if ltb n 4_294_967_296 then f n else none

abbrev pub or_else {ℓ} : {B : Type ℓ} → B → Option B → B
or_else b none = b
or_else b (some x) = x

module _ (c : CanLibrary) (r : RowLibrary) where
  unfoldable pub to_secs : ℤ → r.Real
  to_secs ts_us = r.over (r.of_int ts_us) r.million

  unfoldable pub from_secs : r.Real → ℤ
  from_secs ts = r.round (r.times ts r.million)

  -- The values that `append` inserts for a frame.
  unfoldable pub encode_row : Sample → Row r.Real
  encode_row (can_sample s) = record {
    ts = to_secs s.ts_us;
    extended = s.extended;
    is_fd = s.is_fd;
    arb_id = s.arb_id;
    dlc = c.dlc (can_frame c s);
    payload = s.payload;
    bus = s.bus.id;
    dir = direction_text s.dir;
    tag = r.protocol_text (protocol (can_sample s));
    crc_valid = none;
    flags = some (c.flags_of (can_frame c s) false);
  }
  encode_row (modbus_sample m) = record {
    ts = to_secs m.ts_us;
    extended = false;
    is_fd = false;
    arb_id = r.modbus_id m.unit m.func;
    dlc = length m.raw;
    payload = m.raw;
    bus = m.bus.id;
    dir = direction_text rx;
    tag = r.protocol_text (protocol (modbus_sample m));
    crc_valid = some m.crc_valid;
    flags = none;
  }
  encode_row (serial_sample s) = record {
    ts = to_secs s.ts_us;
    extended = false;
    is_fd = false;
    arb_id = s.seq;
    dlc = length s.payload;
    payload = s.payload;
    bus = s.bus.id;
    dir = direction_text rx;
    tag = r.protocol_text (protocol (serial_sample s));
    crc_valid = none;
    flags = none;
  }

  -- `.contains(RTR).then(|| r.get(11)).transpose()?`
  abbrev pub with_rtr : {B : Type 0} → Bool → ℕ → (Option ℕ → Option B) → Option B
  with_rtr true dlc f = with_u8 dlc (λ d. f (some d))
  with_rtr false dlc f = f none

  unfoldable pub decode_can : Row r.Real → ℕ → ℕ → Option Sample
  decode_can row bus flags = with_rtr (c.rtr_flag flags) row.dlc (λ rtr.
      with_u32 row.arb_id (λ arb_id. some (
        can_sample (record {
          ts_us = from_secs row.ts;
          extended = row.extended;
          is_fd = row.is_fd;
          rtr = rtr;
          brs = c.brs_flag flags;
          esi = c.esi_flag flags;
          arb_id = arb_id;
          payload = row.payload;
          bus = record { id = bus };
          dir = or_else rx (parse_direction row.dir);
        }))))

  -- The match on the row's protocol; `none` is a tag that this build cannot carry.
  unfoldable pub decode_as : Row r.Real → ℕ → Option Protocol → Option Sample
  unfolding decode_can
  decode_as row bus (some modbus_rtu) = with_u32 row.arb_id (λ id. some (
      modbus_sample (record {
        ts_us = from_secs row.ts;
        bus = record { id = bus };
        unit = (r.modbus_unit_func id).0;
        func = (r.modbus_unit_func id).1;
        crc_valid = or_else false row.crc_valid;
        raw = row.payload;
      })))
  decode_as row bus (some serial) = with_u32 row.arb_id (λ seq. some (
      serial_sample (record {
        ts_us = from_secs row.ts;
        bus = record { id = bus };
        seq = seq;
        payload = row.payload;
      })))
  decode_as row bus none = none
  decode_as row bus (some can) = with_u8 (or_else 0 row.flags) (λ flags. decode_can row bus flags)

  -- A row that `oldest` reads; `none` is an error of the query.
  unfoldable pub decode_row : Row r.Real → Option Sample
  unfolding decode_as
  decode_row row = with_u8 row.bus (λ bus. decode_as row bus (r.parse_protocol row.tag))

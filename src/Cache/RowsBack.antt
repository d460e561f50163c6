-- ===== src/Cache/RowsBack.antt =====
-- crates/wiretap-server/src/cache.rs: a frame is read back from its row.
use wire_tap_server.Prelude.{
  ℕ, ◌<◌, ◌≡◌, refl, sym, ◌∙◌, Bool, true, false, Option, some, lt→ltb, arith,
}
use wire_tap_server.Prelude.Int.{ℤ, pos}
use wire_tap_server.Model.{
  CanSample, Sample, can_sample, modbus_sample, serial_sample, timestamp, protocol,
  parse_direction-direction_text, Protocol,
}
use wire_tap_server.Wire.Library.{InId, Addressed, CanLibrary, CanLaws}
use wire_tap_server.Wire.Records.{can_frame}
use wire_tap_server.Wire.RoundTrip.{
  WellFormed, WellFormedCan, can_ok, modbus_ok, serial_ok, remote_frame, plain_frame,
}
use wire_tap_server.Cache.Rows.{
  RowLibrary, RowLaws, with_u8, with_u32, to_secs, from_secs, encode_row, decode_row, decode_as,
  decode_can,
}

-- A frame that the table can hold: well-formed, and captured from 1970 to 2105.
pub record Storable (s : Sample) : Type 0 where
  pub well_formed : WellFormed s
  pub micros : ℕ
  pub stamped : timestamp s ≡ pos micros
  pub in_range : micros < 4_294_967_296_000_000

with_u8_lem : {B : Type 0} (n : ℕ) (f : ℕ → Option B) → n < 256 → with_u8 n f ≡ f n
with_u8_lem n f h = rw (lt→ltb n 256 h) refl

with_u32_lem : {B : Type 0} (n : ℕ) (f : ℕ → Option B) → n < 4_294_967_296 → with_u32 n f ≡ f n
with_u32_lem n f h = rw (lt→ltb n 4_294_967_296 h) refl

id_u32 : (extended : Bool) (id : ℕ) → InId extended id → id < 4_294_967_296
id_u32 true id h = omega arith
id_u32 false id h = omega arith

module _ {c : CanLibrary} (l : CanLaws c) {r : RowLibrary} (k : RowLaws r) where
  seconds_back :
      (t : ℤ) (n : ℕ) → t ≡ pos n → n < 4_294_967_296_000_000 → from_secs c r (to_secs c r t) ≡ t
  unfolding from_secs to_secs
  seconds_back t n e h = rw e (k.seconds_exact n h)

  decode_can_lem :
      (s : CanSample)
      → Addressed s.bus.id s.arb_id s.extended
      → WellFormedCan s.rtr s
      → from_secs c r (to_secs c r s.ts_us) ≡ s.ts_us
      → decode_can c r (encode_row c r (can_sample s)) s.bus.id (c.flags_of (can_frame c s) false)
        ≡ some (can_sample s)
  unfolding decode_can encode_row can_frame
  decode_can_lem s at (remote_frame {dlc} bound fd brs payload) t =
      let id = id_u32 s.extended s.arb_id at.1 in
      let base = c.remote s.bus.id s.arb_id s.extended dlc in
      let f = c.set_esi s.esi base in
      let is = l.remote_is s.bus.id s.arb_id dlc s.extended s.esi at bound in
      let rtr : c.rtr_flag (c.flags_of f false) ≡ true = l.flags_rtr f false ∙ is.rtr_is in
      let rate : c.brs_flag (c.flags_of f false) ≡ s.brs =
        l.flags_brs f false ∙ is.brs_is ∙ sym brs in
      let esi : c.esi_flag (c.flags_of f false) ≡ s.esi =
        l.flags_esi f false ∙ l.esi_is s.esi base in
      let d = l.remote_dlc s.bus.id s.arb_id dlc s.extended s.esi bound in
      rw
        (
          rtr,
          rate,
          esi,
          d,
          lt→ltb dlc 256 (omega arith),
          lt→ltb s.arb_id 4_294_967_296 id,
          t,
          parse_direction-direction_text s.dir,
        )
        refl
  decode_can_lem s at (plain_frame fits ok) t =
      let id = id_u32 s.extended s.arb_id at.1 in
      let base = c.data_frame s.bus.id s.arb_id s.extended s.is_fd s.brs s.payload in
      let f = c.set_esi s.esi base in
      let is = l.data_is s.bus.id s.arb_id s.extended s.is_fd s.brs s.esi s.payload at fits ok in
      let rtr : c.rtr_flag (c.flags_of f false) ≡ false = l.flags_rtr f false ∙ is.rtr_is in
      let rate : c.brs_flag (c.flags_of f false) ≡ s.brs = l.flags_brs f false ∙ is.brs_is in
      let esi : c.esi_flag (c.flags_of f false) ≡ s.esi =
        l.flags_esi f false ∙ l.esi_is s.esi base in
      rw (rtr, rate, esi, lt→ltb s.arb_id 4_294_967_296 id, t, parse_direction-direction_text s.dir)
        refl

  -- What is read from the row that a storable frame is written as is the frame.
  pub decode_row-encode_row : (s : Sample) → Storable s → decode_row c r (encode_row c r s) ≡ some s
  unfolding decode_row decode_as encode_row timestamp protocol
  decode_row-encode_row s ok =
      go s ok.well_formed (seconds_back (timestamp s) ok.micros ok.stamped ok.in_range)
    where
      go :
          (s : Sample)
          → WellFormed s
          → from_secs c r (to_secs c r (timestamp s)) ≡ timestamp s
          → decode_row c r (encode_row c r s) ≡ some s
      go (can_sample s) (can_ok at well) t =
          rw
            (
              lt→ltb s.bus.id 256 at.0,
              k.parse_text Protocol.can,
              lt→ltb (c.flags_of (can_frame c s) false) 256 (l.flags_u8 (can_frame c s) false),
            )
            (decode_can_lem s at well t)
      go (modbus_sample m) (modbus_ok unit func bus) t =
          rw
            (
              lt→ltb m.bus.id 256 bus,
              k.parse_text Protocol.modbus_rtu,
              lt→ltb (r.modbus_id m.unit m.func) 4_294_967_296
                  (k.modbus_id_u32 m.unit m.func unit func),
              k.unit_func_back m.unit m.func unit func,
              t,
            )
            refl
      go (serial_sample s) (serial_ok seq bus) t =
          rw
            (
              lt→ltb s.bus.id 256 bus,
              k.parse_text Protocol.serial,
              lt→ltb s.seq 4_294_967_296 seq,
              t,
            )
            refl

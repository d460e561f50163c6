-- ===== src/Wire/RoundTrip.antt =====
-- crates/wiretap-server/src/wire.rs: a sample is read back from its record.
use wire_tap_server.Prelude.{
  ℕ, ◌≡◌, ◌≤◌, ◌<◌, refl, ◌||◌, true, false, not, length, [], Option, none, some,
}
use wire_tap_server.Model.{
  Direction, rx, tx, CanSample, ModbusSample, SerialSample, Sample, can_sample, modbus_sample,
  serial_sample, bus_of,
}
use wire_tap_server.Wire.Library.{
  InId, Addressed, sized, CanLibrary, CanLaws, RecordLibrary, RecordLaws,
}
use wire_tap_server.Wire.Records.{
  is_tx, direction_of, can_frame, sample_of_frame, parts, record_of, carried, decode_fields, decode,
}

-- A CAN sample as a bus gives it: a remote frame has no payload, another has one
-- of a length that there is, and only an FD frame has `brs`.
pub data WellFormedCan : Option ℕ → CanSample → Type 0 where
  remote_frame :
      {dlc : ℕ} {s : CanSample}
      → dlc ≤ 8
      → s.is_fd ≡ false
      → s.brs ≡ false
      → s.payload ≡ []
      → WellFormedCan (some dlc) s
  plain_frame :
      {s : CanSample}
      → sized s.is_fd (length s.payload) ≡ true
      → (s.is_fd || not s.brs) ≡ true
      → WellFormedCan none s

-- And the numbers of the other two in their machine types.
pub data WellFormed : Sample → Type 0 where
  can_ok :
      {s : CanSample}
      → Addressed s.bus.id s.arb_id s.extended
      → WellFormedCan s.rtr s
      → WellFormed (can_sample s)
  modbus_ok :
      {m : ModbusSample}
      → m.unit < 256
      → m.func < 256
      → m.bus.id < 256
      → WellFormed (modbus_sample m)
  serial_ok :
      {s : SerialSample} → s.seq < 4_294_967_296 → s.bus.id < 256 → WellFormed (serial_sample s)

direction_back : (d : Direction) → direction_of (is_tx d) ≡ d
direction_back rx = refl
direction_back tx = refl

module _ {c : CanLibrary} (l : CanLaws c) where
  -- What is read off the frame that a sample holds is the sample.
  pub can_frame_back :
      (s : CanSample)
      → Addressed s.bus.id s.arb_id s.extended
      → WellFormedCan s.rtr s
      → sample_of_frame c (can_frame c s) s.ts_us s.bus s.dir ≡ s
  unfolding sample_of_frame can_frame
  can_frame_back s at (remote_frame {dlc} bound fd brs payload) =
      let f = l.remote_is s.bus.id s.arb_id dlc s.extended s.esi at bound in
      let d = l.remote_dlc s.bus.id s.arb_id dlc s.extended s.esi bound in
      let e = l.esi_is s.esi (c.remote s.bus.id s.arb_id s.extended dlc) in
      rw
        (
          f.arb_id_is, f.extended_is, f.fd_is, f.rtr_is, f.brs_is, f.payload_is, d, e, fd, brs,
          payload,
        )
        refl
  can_frame_back s at (plain_frame fits ok) =
      let f = l.data_is s.bus.id s.arb_id s.extended s.is_fd s.brs s.esi s.payload at fits ok in
      let e = l.esi_is s.esi (c.data_frame s.bus.id s.arb_id s.extended s.is_fd s.brs s.payload) in
      rw (f.arb_id_is, f.extended_is, f.fd_is, f.rtr_is, f.brs_is, f.payload_is, e) refl

module _ {c : CanLibrary} (l : CanLaws c) where
  frame_id :
      (s : CanSample)
      → Addressed s.bus.id s.arb_id s.extended
      → WellFormedCan s.rtr s
      → InId (c.extended (can_frame c s)) (c.arb_id (can_frame c s))
  unfolding can_frame
  frame_id s at (remote_frame {dlc} bound fd brs payload) =
      let f = l.remote_is s.bus.id s.arb_id dlc s.extended s.esi at bound in
      rw (f.extended_is, f.arb_id_is) (at.1)
  frame_id s at (plain_frame fits ok) =
      let f = l.data_is s.bus.id s.arb_id s.extended s.is_fd s.brs s.esi s.payload at fits ok in
      rw (f.extended_is, f.arb_id_is) (at.1)

module _ {c : CanLibrary} (l : CanLaws c) {r : RecordLibrary c} (k : RecordLaws r) where
  to_can_back :
      (s : CanSample)
      → Addressed s.bus.id s.arb_id s.extended
      → WellFormedCan s.rtr s
      → r.to_can (r.from_can (can_frame c s) (is_tx s.dir)) s.bus.id s.payload
        ≡ some (can_frame c s)
  unfolding can_frame
  to_can_back s at (remote_frame {dlc} bound fd brs payload) =
      rw payload (k.remote_back s.bus.id s.arb_id dlc s.extended s.esi (is_tx s.dir) at bound)
  to_can_back s at (plain_frame fits ok) =
      k.frame_back s.bus.id s.arb_id s.extended s.is_fd s.brs s.esi (is_tx s.dir) s.payload at fits
        ok

  decode_can :
      (s : CanSample)
      → Addressed s.bus.id s.arb_id s.extended
      → WellFormedCan s.rtr s
      → decode r s.ts_us (carried r (record_of r (can_sample s))) ≡ some (can_sample s)
  unfolding decode decode_fields record_of parts bus_of
  decode_can s at ok =
      rw
        (
          k.can_back (can_frame c s) (is_tx s.dir) (frame_id l s at ok),
          to_can_back s at ok,
          direction_back s.dir,
          can_frame_back l s at ok,
        )
        refl

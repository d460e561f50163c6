-- ===== src/Wire/Library.antt =====
-- The libraries that crates/wiretap-server/src/wire.rs and cache.rs call for CAN frames and for the
-- fields of a record, as parameters with what they document.
use wire_tap_server.Prelude.{
  ℕ, ◌≡◌, ◌≤◌, ◌<◌, ◌||◌, Bool, true, false, not, List, [], ◌∷◌, Option, some, length, any, leb,
  ◌==◌, ◌&&◌,
}

-- `CanFrame` and `CanFlags`.
pub record CanLibrary : Type 1 where
  pub Frame : Type 0
  pub remote : ℕ → ℕ → Bool → ℕ → Frame
  pub data_frame : ℕ → ℕ → Bool → Bool → Bool → List ℕ → Frame
  pub set_esi : Bool → Frame → Frame
  pub arb_id : Frame → ℕ
  pub extended : Frame → Bool
  pub fd : Frame → Bool
  pub rtr : Frame → Bool
  pub dlc : Frame → ℕ
  pub brs : Frame → Bool
  pub esi : Frame → Bool
  pub payload : Frame → List ℕ
  pub flags_of : Frame → Bool → ℕ
  pub rtr_flag : ℕ → Bool
  pub brs_flag : ℕ → Bool
  pub esi_flag : ℕ → Bool

-- What a frame is made of is what it is made with.
pub record FrameIs (c : CanLibrary) (f : c.Frame) (arb_id : ℕ) (extended fd rtr brs : Bool)
    (payload : List ℕ) : Type 0 where
  pub arb_id_is : c.arb_id f ≡ arb_id
  pub extended_is : c.extended f ≡ extended
  pub fd_is : c.fd f ≡ fd
  pub rtr_is : c.rtr f ≡ rtr
  pub brs_is : c.brs f ≡ brs
  pub payload_is : c.payload f ≡ payload

-- A bus has 8 bits, and an identifier 11, or 29 where it is extended.
abbrev pub InId : Bool → ℕ → Type 0
InId true id = id < 536_870_912
InId false id = id < 2048

abbrev pub Addressed : ℕ → ℕ → Bool → Type 0
Addressed bus id extended = (bus < 256) × InId extended id

-- The lengths that a frame's payload can have.
abbrev pub sized : Bool → ℕ → Bool
sized fd n = leb n 8 || (fd && any (λ k. n == k) (12 ∷ 16 ∷ 20 ∷ 24 ∷ 32 ∷ 48 ∷ 64 ∷ []))

pub record CanLaws (c : CanLibrary) : Type 0 where
  pub remote_is :
      (bus id dlc : ℕ) (extended esi : Bool)
      → Addressed bus id extended
      → dlc ≤ 8
      → FrameIs c (c.set_esi esi (c.remote bus id extended dlc)) id extended false true false []
  -- A remote frame asks for 8 bytes at most.
  pub remote_dlc :
      (bus id dlc : ℕ) (extended esi : Bool)
      → dlc ≤ 8
      → c.dlc (c.set_esi esi (c.remote bus id extended dlc)) ≡ dlc
  -- Only an FD frame switches its bit rate.
  pub data_is :
      (bus id : ℕ) (extended fd brs esi : Bool) (payload : List ℕ)
      → Addressed bus id extended
      → sized fd (length payload) ≡ true
      → (fd || not brs) ≡ true
      → FrameIs c
          (c.set_esi esi (c.data_frame bus id extended fd brs payload))
          id
          extended
          fd
          false
          brs
          payload
  pub esi_is : (esi : Bool) (f : c.Frame) → c.esi (c.set_esi esi f) ≡ esi
  pub flags_rtr : (f : c.Frame) (tx : Bool) → c.rtr_flag (c.flags_of f tx) ≡ c.rtr f
  pub flags_brs : (f : c.Frame) (tx : Bool) → c.brs_flag (c.flags_of f tx) ≡ c.brs f
  pub flags_esi : (f : c.Frame) (tx : Bool) → c.esi_flag (c.flags_of f tx) ≡ c.esi f
  pub flags_u8 : (f : c.Frame) (tx : Bool) → c.flags_of f tx < 256

-- `RecordFields`; what it keeps of a CAN frame is the library's own.
pub data RecordFields (C : Type 0) : Type 0 where
  can_fields : C → Bool → RecordFields C
  modbus_fields : ℕ → ℕ → Bool → Bool → RecordFields C
  raw_serial_fields : ℕ → Bool → RecordFields C

-- `Header` is the words of a record's header: its kind, id and flags.
pub record RecordLibrary (c : CanLibrary) : Type 1 where
  pub CanPart : Type 0
  pub Header : Type 0
  pub from_can : c.Frame → Bool → CanPart
  pub to_can : CanPart → ℕ → List ℕ → Option c.Frame
  pub to_wire : RecordFields CanPart → Header
  pub from_wire : Header → RecordFields CanPart

-- A frame is read back from its fields, its bus and its payload, and fields from the header that
-- they are written as.
pub record RecordLaws {c : CanLibrary} (r : RecordLibrary c) : Type 0 where
  pub frame_back :
      (bus id : ℕ) (extended fd brs esi tx : Bool) (payload : List ℕ)
      → Addressed bus id extended
      → sized fd (length payload) ≡ true
      → (fd || not brs) ≡ true
      → let f = c.set_esi esi (c.data_frame bus id extended fd brs payload) in
        r.to_can (r.from_can f tx) bus payload ≡ some f
  pub remote_back :
      (bus id dlc : ℕ) (extended esi tx : Bool)
      → Addressed bus id extended
      → dlc ≤ 8
      → let f = c.set_esi esi (c.remote bus id extended dlc) in
        r.to_can (r.from_can f tx) bus [] ≡ some f
  pub can_back :
      (f : c.Frame) (tx : Bool)
      → InId (c.extended f) (c.arb_id f)
      → r.from_wire (r.to_wire (can_fields (r.from_can f tx) tx)) ≡ can_fields (r.from_can f tx) tx
  pub modbus_back :
      (unit func : ℕ) (crc tx : Bool)
      → unit < 256
      → func < 256
      → r.from_wire (r.to_wire (modbus_fields unit func crc tx)) ≡ modbus_fields unit func crc tx
  pub serial_back :
      (seq : ℕ) (tx : Bool)
      → seq < 4_294_967_296
      → r.from_wire (r.to_wire (raw_serial_fields seq tx)) ≡ raw_serial_fields seq tx

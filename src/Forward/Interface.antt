-- ===== src/Forward/Interface.antt =====
-- crates/wiretap-server/src/forward.rs: the ingest protocol's codec, a parameter, and a connection
-- with what the far end does on it.
use wire_tap_server.Prelude.{ℕ, ◌≤◌, ◌<◌, ◌≡◌, ◌≢◌, Bool, List, ◌∷◌, Option, length}
use wire_tap_server.Model.{Sample, Text}

abbrev pub Bytes : Type 0
Bytes = List ℕ

-- `WireFrame`, `Ack` and `HelloAck`.
pub record WireFrame : Type 0 where
  pub mtype : ℕ
  pub body : Bytes
  pub crc_ok : Bool

pub record Ack : Type 0 where
  pub seq : ℕ
  pub status : ℕ

pub record HelloAck (Assignment : Type 0) : Type 0 where
  pub status : ℕ
  pub accepted_version : ℕ
  pub assignments : List Assignment

-- `Hello`: version 2 names no daemon and no devices.
pub record Hello (Device : Type 0) : Type 0 where
  pub version : ℕ
  pub api_key : Bytes
  pub database : Text
  pub daemon_id : Text
  pub devices : List Device

-- `take_frame`: an error, a message with the bytes behind it, or none that is complete.
pub data Taken : Type 0 where
  malformed incomplete : Taken
  frame : WireFrame → Bytes → Taken

-- The codec with its numbers for message types and statuses.
pub record Ingest : Type 1 where
  pub Assignment : Type 0
  pub Device : Type 0
  pub msg_ack : ℕ
  pub msg_hello_ack : ℕ
  pub msg_catalogue : ℕ
  pub msg_close : ℕ
  pub msg_pong : ℕ
  pub ack_ok : ℕ
  pub ack_malformed : ℕ
  pub hello_ok : ℕ
  pub hello_bad_version : ℕ
  pub encode_batch_from : ℕ → List Sample → Bytes × ℕ
  pub encode_hello : Hello Device → Option Bytes
  pub ping : Bytes
  pub take_frame : Bytes → Taken
  pub parse_ack : Bytes → Option Ack
  pub parse_hello_ack : Bytes → Option (HelloAck Assignment)
  pub parse_close : Bytes → Option ℕ

-- A batch carries a frame at least of those it is offered from the front, a message is some bytes of
-- what has arrived, and the two statuses are two.
pub record IngestLaws (i : Ingest) : Type 0 where
  pub some_fit :
      (seq : ℕ) (s : Sample) (rest : List Sample) → 1 ≤ (i.encode_batch_from seq (s ∷ rest)).1
  pub fits : (seq : ℕ) (batch : List Sample) → (i.encode_batch_from seq batch).1 ≤ length batch
  pub takes :
      (rx rest : Bytes) (f : WireFrame) → i.take_frame rx ≡ frame f rest → length rest < length rx
  pub statuses : i.ack_ok ≢ i.ack_malformed

-- What the far end does on a connection: what each read gives, `none` for an error and `[]` for the
-- end, and whether each write works. After the last, a read or a write times out.
pub record Stream : Type 0 where
  pub reads : List (Option Bytes)
  pub writes : List Bool
  pub sent : List Bytes
  pub is_shut : Bool

pub record Connection : Type 0 where
  pub stream : Stream
  pub rx : Bytes

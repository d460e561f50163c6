-- ===== src/Examples/Gateways.antt =====
-- crates/wiretap-server/src/forward.rs: batches to a gateway that acknowledges one and refuses one.
use wire_tap_server.Prelude.{
  ◌≤◌, ◌<◌, ◌≡◌, ◌≢◌, refl, sym, arith, min, true, false, List, [], ◌∷◌, Option, none, some, length,
}
use wire_tap_server.Model.{Sample}
use wire_tap_server.Archive.Interface.{stored, delivered_of}
use wire_tap_server.Forward.Interface.{
  Bytes, WireFrame, Ack, Taken, incomplete, frame, Ingest, IngestLaws, Connection,
}
use wire_tap_server.Forward.Receive.{out_of_rounds, recv, recv_rounds, recv_any, receive_from, send}
use wire_tap_server.Forward.Session.{Gear, ForwardSink, Lines, connect, send_status_if_changed}
use wire_tap_server.Forward.Chunks.{
  write_batch, send_rounds, send_chunk, settled, verdict, quarantine,
}
use wire_tap_server.Forward.Fate.{dead_rows}
use wire_tap_server.Forward.Delivered.{Delivered, write_batch-Delivered}
use wire_tap_server.Forward.Fallback.{Connected, connect-Connected}
use wire_tap_server.Forward.Enough.{recv-enough}
use wire_tap_server.Cache.Store.{append, open_file}
use wire_tap_server.Examples.Frames.{can_library}
use wire_tap_server.Examples.Tables.{row_library, database, database_laws}
use wire_tap_server.Examples.Caches.{fd_frame, read_frame}

-- A message is its type and two bytes.
abbrev take_message : Bytes → Taken
take_message (t ∷ a ∷ b ∷ rest) =
    frame (record { mtype = t; body = a ∷ b ∷ []; crc_ok = true }) rest
take_message _ = incomplete

abbrev ack_of : Bytes → Option Ack
ack_of (a ∷ b ∷ rest) = some (record { seq = a; status = b })
ack_of _ = none

-- Two frames fit a batch.
abbrev ingest : Ingest
ingest = record {
  Assignment = Unit;
  Device = Unit;
  msg_ack = 1;
  msg_hello_ack = 2;
  msg_catalogue = 3;
  msg_close = 4;
  msg_pong = 5;
  ack_ok = 0;
  ack_malformed = 1;
  hello_ok = 0;
  hello_bad_version = 1;
  encode_batch_from = λ seq batch. (seq ∷ [], min 2 (length batch));
  encode_hello = λ h. some (h.version ∷ []);
  ping = [];
  take_frame = take_message;
  parse_ack = ack_of;
  parse_hello_ack = λ b. none;
  parse_close = λ b. none;
}

shorter :
    (rx rest : Bytes) (f : WireFrame) → take_message rx ≡ frame f rest → length rest < length rx
shorter [] rest f e = cc
shorter (t ∷ []) rest f e = cc
shorter (t ∷ a ∷ []) rest f e = cc
shorter (t ∷ a ∷ b ∷ more) rest f e = let same : more ≡ rest = cc in rw (sym same) (omega arith)

ingest_laws : IngestLaws ingest
ingest_laws = record {
  some_fit = λ seq s rest. omega arith;
  fits = λ seq batch. omega arith;
  takes = shorter;
  statuses = λ e. absurd (omega arith);
}

abbrev lines : Lines ingest
lines = record {
  State = Unit;
  pull = λ a u c. (u, c);
  changed = λ u. false;
  status_message = λ u. (none, u);
}

abbrev gear : Gear
gear = record {
  ingest = ingest;
  lines = lines;
  can = can_library;
  row = row_library;
  dead_letter = database;
}

-- The first batch is acknowledged, after a catalogue that is late; the second is malformed.
abbrev line : Connection
line = record {
  stream = record {
    reads = some (3 ∷ 0 ∷ []) ∷ some (0 ∷ 1 ∷ 1 ∷ 0 ∷ []) ∷ some (1 ∷ 2 ∷ 1 ∷ []) ∷ [];
    writes = true ∷ true ∷ [];
    sent = [];
    is_shut = false;
  };
  rx = [];
}

abbrev open_sink : ForwardSink gear
open_sink = record {
  api_key = [];
  database = [];
  daemon_id = [];
  devices = [];
  version = 3;
  raw_serial = false;
  lines = tt;
  conn = some line;
  seq = 0;
  dead_letter = record { start = 1; values = [] };
  dials = [];
}

abbrev three : List Sample
three = fd_frame ∷ read_frame ∷ fd_frame ∷ []

three-stored : (write_batch gear three open_sink).0 ≡ stored
unfolding write_batch send_rounds send_chunk settled verdict quarantine recv recv_rounds recv_any
    receive_from send send_status_if_changed append open_file
three-stored = refl

write_batch-Delivered_example :
    (delivered_of 3 (write_batch gear three open_sink).0 ≤ 3)
    × (dead_rows database_laws (send_status_if_changed gear open_sink).1
        ≡ dead_rows database_laws open_sink)
    × Delivered database_laws three
        (delivered_of 3 (write_batch gear three open_sink).0)
        (send_status_if_changed gear open_sink).1
        (write_batch gear three open_sink).1
write_batch-Delivered_example = write_batch-Delivered database_laws ingest_laws three open_sink

recv-enough_example :
    ((recv ingest line).0 ≢ out_of_rounds) × (recv_rounds ingest 12 line ≡ recv ingest line)
recv-enough_example = recv-enough ingest_laws 12 line (omega arith)

-- A gateway that answers nothing to the first dial.
abbrev silent_sink : ForwardSink gear
silent_sink = record open_sink { dials = some (record line.stream { reads = [] }) ∷ [] }

connect-Connected_example : Connected silent_sink (connect gear silent_sink)
connect-Connected_example = connect-Connected silent_sink

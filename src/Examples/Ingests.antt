-- ===== src/Examples/Ingests.antt =====
-- crates/wiretap-backend: a gateway over lists, a device that says hello and sends a batch, and the
-- databases under it.
use mathlib.Core.Path.{subst}
use wire_tap_server.Prelude.{
  ℕ, ◌≤◌, ◌≡◌, ◌≢◌, ap, arith, length, refl, Bool, true, false, List, [], ◌∷◌, Option, none, some,
  is_some,
}
use wire_tap_server.Prelude.Int.{ℤ, pos}
use wire_tap_server.Model.{Text, Protocol}
use wire_tap_server.Wire.Library.{RecordFields, can_fields, modbus_fields, raw_serial_fields}
use wire_tap_server.Wire.Records.{WireRecord}
use wire_tap_server.Ingest.Session.{as_i64}
use wire_tap_server.Gateway.Postgres.{Tables}
use wire_tap_server.Gateway.Keys.{KeyLibrary, KeyStore, Role, validate_from}
use wire_tap_server.Gateway.Rows.{FrameRow, batch_rows, cons_row, frame_row, row_of_fields}
use wire_tap_server.Gateway.Sessions.{Device}
use wire_tap_server.Gateway.Databases.{Config, Capture, pending}
use wire_tap_server.Gateway.Interface.{CatalogStore, CatalogLaws, Hello}
use wire_tap_server.Gateway.Hello.{Gear, Session, IngestServer, handle_hello, write_batch}
use wire_tap_server.Gateway.Connection.{bytes_in, end_of_bytes, panicked}
use wire_tap_server.Gateway.Serve.{Event, handle_client}
use wire_tap_server.Gateway.Named.{captures, captures_laws, written_at, written_at-Keeps, Keeps}
use wire_tap_server.Gateway.Answers.{Judged, handle_hello-Judged, Answered, write_batch-Answered}
use wire_tap_server.Gateway.Owned.{Owns}
use wire_tap_server.Gateway.Clients.{handle_client-Owns}
use wire_tap_server.Gateway.Lively.{Sound, rounds}
use wire_tap_server.Gateway.Ended.{handle_client-Sound}
use wire_tap_server.Examples.Frames.{record_library, can_library, Frame}
use wire_tap_server.Examples.Clusters.{list_postgres, list_laws, list_sql}
use wire_tap_server.Examples.Machines.{says_hello, says_batch, Script, script_machine, script_laws}

abbrev keys : KeyLibrary
keys = record { Attempts = ℕ; hash_key = λ key. key; admit = λ peer n. (true, n) }

abbrev config : Text → Config
config name = record {
  auto_migrate = false;
  auto_create_databases = true;
  valid_name = true;
  is_gateway_database = false;
}

abbrev any_time : FrameRow → Bool
any_time row = true

abbrev catalog : CatalogStore
catalog = record {
  State = ℕ;
  Assignment = ℕ;
  Status = ℕ;
  record_hello = λ id database devices s. (true, s);
  assignments_for = λ id devices s. (some [], s);
  blob = λ sha s. (some none, s);
  record_status = λ id devices status s. s;
}

abbrev gateway : Gear
gateway = record {
  key = keys;
  capture = captures any_time list_postgres list_sql config;
  catalog = catalog;
  can = can_library;
  wire = record_library;
  arb_id_of = λ header. 0;
  tx_flag = 2;
  lossy = λ token. token;
  machine = script_machine;
}

-- `bus`, a database behind this build, with a row in its buffer.
abbrev old_row : FrameRow
old_row = record {
  ts_us = pos 1;
  protocol = Protocol.can;
  id = 5;
  flags = 0;
  dlc = 1;
  payload = 7 ∷ [];
  bus = 0;
  unit = none;
  func = none;
  crc_valid = none;
}

abbrev new_row : FrameRow
new_row = record old_row { ts_us = pos 2 }

abbrev behind_tables : Tables FrameRow
behind_tables = record { live = []; pending = some (old_row ∷ []); drained = false }

abbrev behind_capture : Capture {R = FrameRow} list_postgres
behind_capture = record {
  schema_state = some (pending 4);
  pool = false;
  buffer_pool = false;
  import = none;
  buffered = none;
  spawned = [];
  db = record { tables = behind_tables; version = 4; level = 4; exists = true };
}

abbrev two_keys : KeyStore keys
two_keys = record {
  bootstrap_current = none;
  cache =
      (
        1 ∷ [],
        record { id = 1; name = 107 ∷ []; role = Role.ingest; database_pin = some (98 ∷ []) },
      )
      ∷ (2 ∷ [], record { id = 2; name = 108 ∷ []; role = Role.read; database_pin = none })
      ∷ [];
  wrong_keys = 0;
  touched = [];
}

abbrev server : IngestServer gateway
server = record {
  keys = two_keys;
  dbs = λ name. behind_capture;
  sessions = record { inner = []; next_id = 0; told = [] };
  catalogs = 0;
}

abbrev pinned_hello : Hello
pinned_hello = record { version = 3; token = 1 ∷ []; database = []; daemon_id = []; devices = [] }

abbrev session : Session
session = record { database = 98 ∷ []; id = 0; daemon_id = []; devices = [] }

handle_hello-Judged_example :
    Judged gateway pinned_hello
      (validate_from keys 9 (1 ∷ []) two_keys).0
      (handle_hello gateway 0 pinned_hello 9 (112 ∷ []) 4 server)
handle_hello-Judged_example = handle_hello-Judged gateway 0 pinned_hello 9 (112 ∷ []) 4 server

write_batch-Answered_example :
    let r = write_batch gateway 0 session (new_row ∷ []) server in
    Answered gateway
      (captures_laws any_time list_postgres list_sql config list_laws)
      script_laws
      session
      (new_row ∷ [])
      server
      r.0
      r.1
write_batch-Answered_example =
    write_batch-Answered gateway (captures_laws any_time list_postgres list_sql config list_laws)
      script_laws 0 session (new_row ∷ []) server

written_at-Keeps_example :
    Keeps any_time list_postgres list_sql config list_laws
      (98 ∷ [])
      (new_row ∷ [])
      (λ name. behind_capture)
      (written_at any_time list_postgres list_sql config 0
        (98 ∷ [])
        (new_row ∷ [])
        (λ name. behind_capture))
written_at-Keeps_example =
    written_at-Keeps any_time list_postgres list_sql config list_laws 0 (98 ∷ []) (new_row ∷ [])
      (λ name. behind_capture)

-- A device that says hello twice, sends a batch and goes.
abbrev wire_record : WireRecord (RecordFields Frame)
wire_record = record { header = modbus_fields 1 3 true false; bus = 0; payload = 1 ∷ 3 ∷ [] }

abbrev script : Script (WireRecord (RecordFields Frame))
script = record {
  said =
      says_hello pinned_hello ∷ says_hello pinned_hello ∷ says_batch 1 ((5, wire_record) ∷ []) ∷ [];
  accepted = false;
}

abbrev events : List (Event gateway)
events =
    record { now = 1; meanwhile = λ s. s; wake = bytes_in (0 ∷ []) }
    ∷ record { now = 2; meanwhile = λ s. s; wake = end_of_bytes }
    ∷ []

fields_row :
    (ts : ℤ) (w : WireRecord (RecordFields Frame)) (f : RecordFields Frame)
    → is_some (row_of_fields record_library (λ header. 0) 2 ts w f) ≡ true
unfolding row_of_fields
fields_row ts w (can_fields p transmitted) = refl
fields_row ts w (modbus_fields unit func crc transmitted) = refl
fields_row ts w (raw_serial_fields seq transmitted) = refl

step_row :
    (r : Option FrameRow) (rest : Option (List FrameRow))
    → is_some r ≡ true
    → is_some rest ≡ true
    → is_some (cons_row record_library (λ header. 0) 2 r rest) ≡ true
step_row none rest h k = absurd cc
step_row (some x) none h k = absurd cc
step_row (some x) (some rest) h k = refl

readable :
    (records : List (ℕ × WireRecord (RecordFields Frame)))
    → is_some (batch_rows record_library (λ header. 0) 2 records) ≡ true
unfolding batch_rows frame_row
readable [] = refl
readable ((ts, w) ∷ rest) = step_row _ _ (fields_row (as_i64 ts) w w.header) (readable rest)

one_each :
    (daemon : Text) (devices : List Device) (s t : ℕ) (as_given : List ℕ)
    → ◌≡◌ {A = Option (List ℕ) × ℕ} (some [], s) (some as_given, t)
    → length as_given ≤ length devices
one_each daemon devices s t as_given e =
    let none_given : [] ≡ as_given = cc in omega (arith, ap length none_given)

abbrev catalog_laws : CatalogLaws catalog
catalog_laws = record { one_each = one_each }

handle_client-Sound_example :
    Sound
      (handle_client gateway (rounds gateway script_laws) events 9 (112 ∷ []) 4 script [] server).0
handle_client-Sound_example =
    handle_client-Sound gateway script_laws (λ s seq records e. readable records) catalog_laws
      events 9 (112 ∷ []) 4 script [] server refl

calm :
    (handle_client gateway (rounds gateway script_laws) events 9 (112 ∷ []) 4 script [] server).0
    ≢ some panicked
calm e = subst Sound e (
    handle_client-Sound gateway script_laws (λ s seq records e. readable records) catalog_laws
      events 9 (112 ∷ []) 4 script [] server refl)

handle_client-Owns_example :
    Owns gateway 4 none
      (handle_client gateway
        (rounds gateway script_laws)
        events
        9
        (112 ∷ [])
        4
        script
        []
        server).1.server
handle_client-Owns_example =
    handle_client-Owns gateway 4 (rounds gateway script_laws) events 9 (112 ∷ []) script [] server
      ((λ s b. (b, refl)), ((λ s b. (b, refl)), tt)) (tt, refl) calm

-- ===== src/Gateway/Hello.antt =====
-- crates/wiretap-backend/src/ingest/mod.rs: `handle_hello` and `handle_batch`.
use wire_tap_server.Prelude.{
  ℕ, ◌⊎◌, inl, inr, Bool, true, false, List, [], ◌∷◌, Option, none, some, length, if◌then◌else◌,
}
use wire_tap_server.Model.{Text, same_text}
use wire_tap_server.Wire.Library.{CanLibrary, RecordLibrary}
use wire_tap_server.Wire.Records.{WireRecord}
use wire_tap_server.Gateway.Writer.{refused_the_rows}
use wire_tap_server.Gateway.Databases.{
  refused, unavailable, DbResult, fine, db_error, Write, stored_now, write_error, db_failed,
  copy_failed,
}
use wire_tap_server.Gateway.Keys.{KeyLibrary, KeyInfo, KeyStore, validate_from, allows_ingest}
use wire_tap_server.Gateway.Sessions.{
  Device, Sessions, IngestSessionInfo, open_session, stored_batch,
}
use wire_tap_server.Gateway.Rows.{FrameRow, batch_rows}
use wire_tap_server.Gateway.Interface.{Captures, CatalogStore, Hello, Machine}

-- What the gateway's ingest is put together from; `lossy` is `from_utf8_lossy`.
pub record Gear : Type 1 where
  pub key : KeyLibrary
  pub capture : Captures FrameRow
  pub catalog : CatalogStore
  pub can : CanLibrary
  pub wire : RecordLibrary can
  pub arb_id_of : wire.Header → ℕ
  pub tx_flag : ℕ
  pub lossy : List ℕ → Text
  pub machine : Machine (WireRecord wire.Header) catalog.Assignment catalog.Status

-- What a hello established.
pub record Session : Type 0 where
  pub database : Text
  pub id : ℕ
  pub daemon_id : Text
  pub devices : List Device

module _ (g : Gear) where
  pub record IngestServer : Type 0 where
    pub keys : KeyStore g.key
    pub dbs : g.capture.State
    pub sessions : Sessions
    pub catalogs : g.catalog.State

  -- A session with its assignments, or the status that refuses.
  pub data Verdict : Type 0 where
    accepted : Session → List g.catalog.Assignment → Verdict
    rejected : ℕ → Verdict

  -- The database that a key may use: its pin, or the one named.
  unfoldable pub choose_database : Option Text → Text → ℕ ⊎ Text
  choose_database (some pin) [] = inr pin
  choose_database (some pin) (c ∷ cs) =
      if same_text (c ∷ cs) pin then inr pin else inl (g.machine.hello_bad_auth)
  choose_database none [] = inl (g.machine.hello_bad_database)
  choose_database none (c ∷ cs) = inr (c ∷ cs)

  abbrev pub assigned :
      Option (List g.catalog.Assignment) × g.catalog.State
      → List g.catalog.Assignment × g.catalog.State
  assigned (none, s) = ([], s)
  assigned (some as_given, s) = (as_given, s)

  abbrev pub hello_recorded :
      Hello → Bool × g.catalog.State → List g.catalog.Assignment × g.catalog.State
  hello_recorded h (false, s) = ([], s)
  hello_recorded h (true, s) = assigned (g.catalog.assignments_for h.daemon_id h.devices s)

  unfoldable pub daemon_hello :
      Hello → Text → g.catalog.State → List g.catalog.Assignment × g.catalog.State
  daemon_hello h database s =
      hello_recorded h (g.catalog.record_hello h.daemon_id database h.devices s)

  -- No assignments without a daemon's id.
  abbrev pub assignments_of :
      Text → Hello → Text → g.catalog.State → List g.catalog.Assignment × g.catalog.State
  assignments_of [] h database s = ([], s)
  assignments_of (c ∷ cs) h database s = daemon_hello h database s

  abbrev pub assignments :
      Hello → Text → g.catalog.State → List g.catalog.Assignment × g.catalog.State
  assignments h database s = assignments_of h.daemon_id h database s

  -- `now` is the clock, `peer` the address and its text, and `tag` the connection.
  abbrev pub welcomed :
      ℕ
      → Hello
      → Text
      → ℕ
      → KeyInfo
      → Text
      → List g.catalog.Assignment
      → IngestServer
      → Verdict × IngestServer
  welcomed now h peer tag info database as_given s =
      let seen : IngestSessionInfo = record {
        peer = peer;
        key_name = info.name;
        database = database;
        protocol_version = h.version;
        frames = 0;
        batches = 0;
        connected_at = now;
      } in
      let (id, sessions) = open_session seen h.daemon_id h.devices tag s.sessions in
      (
        accepted
            (record { database = database; id = id; daemon_id = h.daemon_id; devices = h.devices })
            as_given,
        record s { sessions = sessions },
      )

  abbrev pub ensured :
      ℕ
      → Hello
      → Text
      → ℕ
      → KeyInfo
      → Text
      → DbResult (Unit {0}) × g.capture.State
      → IngestServer
      → Verdict × IngestServer
  ensured now h peer tag info database (db_error refused, d) s =
      (rejected (g.machine.hello_bad_database), record s { dbs = d })
  ensured now h peer tag info database (db_error unavailable, d) s =
      (rejected (g.machine.hello_unavailable), record s { dbs = d })
  ensured now h peer tag info database (fine done, d) s =
      let (as_given, catalogs) = assignments h database s.catalogs in
      welcomed now h peer tag info database as_given (record s { dbs = d; catalogs = catalogs })

  abbrev pub chosen :
      ℕ → Hello → Text → ℕ → KeyInfo → ℕ ⊎ Text → IngestServer → Verdict × IngestServer
  chosen now h peer tag info (inl status) s = (rejected status, s)
  chosen now h peer tag info (inr database) s =
      ensured now h peer tag info database (g.capture.ensure_database now database true s.dbs) s

  abbrev pub known : ℕ → Hello → Text → ℕ → KeyInfo → IngestServer → Verdict × IngestServer
  known now h peer tag info s =
      if allows_ingest info.role
      then chosen now h peer tag info (choose_database info.database_pin h.database) s
      else (rejected (g.machine.hello_bad_auth), s)

  -- A key that is wrong, and one too many of them, are answered alike.
  abbrev pub validated :
      ℕ
      → Hello
      → Text
      → ℕ
      → Option (Option KeyInfo) × KeyStore g.key
      → IngestServer
      → Verdict × IngestServer
  validated now h peer tag (none, k) s =
      (rejected (g.machine.hello_bad_auth), record s { keys = k })
  validated now h peer tag (some none, k) s =
      (rejected (g.machine.hello_bad_auth), record s { keys = k })
  validated now h peer tag (some (some info), k) s =
      known now h peer tag info (record s { keys = k })

  unfoldable pub handle_hello : ℕ → Hello → ℕ → Text → ℕ → IngestServer → Verdict × IngestServer
  handle_hello now h ip peer tag s =
      validated now h peer tag (validate_from g.key ip (g.lossy h.token) s.keys) s

  unfoldable pub ack_for_copy_error : Option Text → ℕ
  ack_for_copy_error code =
      if refused_the_rows code then g.machine.ack_malformed else g.machine.ack_overloaded

  abbrev pub written : Session → ℕ → Write × g.capture.State → IngestServer → ℕ × IngestServer
  written session count (stored_now, d) s =
      (g.machine.ack_ok, record s { dbs = d; sessions = stored_batch session.id count s.sessions })
  written session count (write_error (copy_failed code), d) s =
      (ack_for_copy_error code, record s { dbs = d })
  written session count (write_error (db_failed e), d) s =
      (g.machine.ack_overloaded, record s { dbs = d })

  unfoldable pub write_batch : ℕ → Session → List FrameRow → IngestServer → ℕ × IngestServer
  write_batch now session rows s =
      written session (length rows) (g.capture.write_rows now session.database rows s.dbs) s

  -- `none` where `rows` panics.
  abbrev pub with_rows :
      ℕ → Session → Option (List FrameRow) → IngestServer → Option (ℕ × IngestServer)
  with_rows now session none s = none
  with_rows now session (some rows) s = some (write_batch now session rows s)

  unfoldable pub handle_batch :
      ℕ → Session → List (ℕ × WireRecord g.wire.Header) → IngestServer → Option (ℕ × IngestServer)
  handle_batch now session records s =
      with_rows now session (batch_rows g.wire g.arb_id_of g.tx_flag records) s

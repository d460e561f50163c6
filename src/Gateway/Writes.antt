-- ===== src/Gateway/Writes.antt =====
-- crates/wiretap-backend/src/db.rs: `write_rows`.
use wire_tap_server.Prelude.{ℕ, ◌+◌, Bool, true, false, List, Option, none, some, length}
use wire_tap_server.Gateway.Postgres.{Postgres, Answer, worked, broke}
use wire_tap_server.Gateway.Writer.{Written, buffered, live, copy_rows, buffer_rows}
use wire_tap_server.Gateway.Databases.{
  unavailable, DbResult, fine, db_error, db_failed, copy_failed, Write, stored_now, write_error,
  Route, live_route, buffered_route, held_route, recheck, Config, Capture, spawn, route,
}

abbrev pub or_default : Option ℕ → ℕ
or_default none = 0
or_default (some n) = n

module _ {R : Type 0} (pg : Postgres R) where
  abbrev pub note_buffered : ℕ → Capture pg → Capture pg
  note_buffered rows c = record c { buffered = some (or_default c.buffered + rows) }

  abbrev pub copied : Answer (Unit {0}) × pg.Db → Capture pg → Write × Capture pg
  copied (worked done, d) c = (stored_now, record c { db = d })
  copied (broke code, d) c = (write_error (copy_failed code), record c { db = d })

  abbrev pub held_write : ℕ → Answer Written × pg.Db → Capture pg → Write × Capture pg
  held_write n (worked w, d) c =
      (stored_now, note_buffered n (record c { db = d; buffer_pool = true }))
  held_write n (broke code, d) c =
      (write_error (copy_failed code), record c { db = d; buffer_pool = true })

  -- A batch that found the database current has it looked at again.
  abbrev pub buffered_write : ℕ → Answer Written × pg.Db → Capture pg → Write × Capture pg
  buffered_write n (worked buffered, d) c = (stored_now, note_buffered n (record c { db = d }))
  buffered_write n (worked live, d) c = (stored_now, spawn pg recheck (record c { db = d }))
  buffered_write n (broke code, d) c = (write_error (copy_failed code), record c { db = d })

module _ {R : Type 0} (in_range : R → Bool) (pg : Postgres R) (config : Config) where
  abbrev pub write_to : List R → DbResult Route × Capture pg → Write × Capture pg
  write_to rows (db_error e, c) = (write_error (db_failed e), c)
  write_to rows (fine live_route, c) = copied pg (copy_rows in_range pg rows c.db) c
  write_to rows (fine (held_route true), c) = (write_error (db_failed unavailable), c)
  write_to rows (fine (held_route false), c) =
      held_write pg (length rows) (buffer_rows in_range pg rows true c.db) c
  write_to rows (fine buffered_route, c) =
      buffered_write pg (length rows) (buffer_rows in_range pg rows false c.db) c

  unfoldable pub write_rows : ℕ → (pg.Db → pg.Db) → List R → Capture pg → Write × Capture pg
  write_rows now others rows c = write_to rows (route pg config now others c)

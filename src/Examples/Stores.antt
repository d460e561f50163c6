-- ===== src/Examples/Stores.antt =====
-- crates/wiretap-backend/src/db.rs: batches for a database that was migrated by hand, its drain, and
-- a migration.
use mathlib.Core.List.{Perm}
use mathlib.Core.List.Perm
use wire_tap_server.Prelude.{
  ℕ, ◌≡◌, refl, Bool, true, false, List, [], ◌∷◌, ◌++◌, Option, none, some, append-nil,
  append_assoc,
}
use wire_tap_server.Gateway.Postgres.{worked, rows_in}
use wire_tap_server.Gateway.Writer.{
  buffer_rows, copy_rows, buffered, live, copy_text, buffer_in, decide, detect_version,
  ensure_pending, drain_pending, drain_in, refresh_drained,
}
use wire_tap_server.Gateway.Effects.{Leaves}
use wire_tap_server.Gateway.Landed.{Landed, buffer_rows-Landed}
use wire_tap_server.Gateway.Drain.{start, Emptied, drain_pending-Emptied}
use wire_tap_server.Gateway.Kept.{Adds}
use wire_tap_server.Gateway.Stored.{Accounted, write_rows-Accounted}
use wire_tap_server.Gateway.Databases.{
  Config, Capture, current, pending, live_route, fine, route, pool_of, recheck_if_behind, behind,
  drain, require_current, owes_migration,
}
use wire_tap_server.Gateway.Writes.{write_rows}
use wire_tap_server.Gateway.Writer.{schema_version}
use wire_tap_server.Gateway.Always.{writes, rechecks, operate_all, operate_all-route}
use wire_tap_server.Examples.Clusters.{ListDb, list_postgres, list_laws, list_sql}

-- Rows are numbers.
abbrev any_row : ℕ → Bool
any_row n = true

abbrev settings : Config
settings = record {
  auto_migrate = false;
  auto_create_databases = true;
  valid_name = true;
  is_gateway_database = false;
}

abbrev old_db : ListDb ℕ
old_db = record {
  tables = record { live = 1 ∷ []; pending = some (2 ∷ []); drained = false };
  version = 4;
  level = 4;
  exists = true;
}

abbrev by_hand : Capture {R = ℕ} list_postgres
by_hand = record {
  schema_state = some (pending 4);
  pool = false;
  buffer_pool = false;
  import = none;
  buffered = some 1;
  spawned = [];
  db = record old_db { version = 5; level = 5 };
}

-- Another gateway buffers a row.
abbrev add_to : Option (List ℕ) → Option (List ℕ)
add_to none = some (3 ∷ [])
add_to (some rs) = some (rs ++ (3 ∷ []))

abbrev another : ListDb ℕ → ListDb ℕ
another d = record d { tables = record (d.tables) { pending = add_to d.tables.pending } }

another-Adds : Adds {R = ℕ} list_laws (3 ∷ []) another
another-Adds d = added d.tables.live d.tables.pending
  where
    added :
        (rows : List ℕ) (o : Option (List ℕ))
        → Perm (rows ++ rows_in (add_to o)) ((rows ++ rows_in o) ++ (3 ∷ []))
    added rows none = rw (append-nil rows) (Perm.refl (rows ++ (3 ∷ [])))
    added rows (some rs) = rw (append_assoc rows rs (3 ∷ [])) (Perm.refl (rows ++ (rs ++ (3 ∷ []))))

-- Behind, a batch is buffered; migrated by hand, it goes to `capture_frame`.
buffered_run : (buffer_rows any_row list_postgres (9 ∷ []) false old_db).0 ≡ worked buffered
unfolding buffer_rows copy_text buffer_in decide detect_version ensure_pending
buffered_run = refl

live_run : (buffer_rows any_row list_postgres (9 ∷ []) false by_hand.db).0 ≡ worked live
unfolding buffer_rows copy_text buffer_in decide detect_version ensure_pending
live_run = refl

drained_run : (drain_pending list_postgres another old_db).1.tables.live ≡ 1 ∷ 2 ∷ 3 ∷ []
unfolding drain_pending drain_in
drained_run = refl

buffer_rows-Landed_example :
    Leaves list_laws old_db.tables
      (Landed true (9 ∷ []) old_db.tables)
      (buffer_rows any_row list_postgres (9 ∷ []) true old_db)
buffer_rows-Landed_example = buffer_rows-Landed list_laws any_row (9 ∷ []) true old_db

drain_pending-Emptied_example :
    let x = (start another (list_postgres.pending_now old_db)).tables in
    Leaves list_laws x (Emptied x) (drain_pending list_postgres another old_db)
drain_pending-Emptied_example = drain_pending-Emptied list_laws another old_db

write_rows-Accounted_example :
    let r = write_rows any_row list_postgres settings 0 another (9 ∷ []) by_hand in
    Accounted (3 ∷ []) (9 ∷ []) by_hand.db.tables r.0 r.1.db.tables
write_rows-Accounted_example =
    write_rows-Accounted list_laws (3 ∷ []) (9 ∷ []) any_row settings 0 another another-Adds by_hand

-- The write finds the database current, and the recheck drains it.
live_routed :
    (route list_postgres settings 0 another (
      operate_all any_row list_postgres list_sql settings
        ((0, another, writes (9 ∷ [])) ∷ (0, another, rechecks) ∷ [])
        by_hand)).0
    ≡ fine live_route
unfolding route pool_of recheck_if_behind behind drain require_current owes_migration write_rows
    buffer_rows copy_text copy_rows buffer_in decide detect_version ensure_pending drain_pending
    drain_in refresh_drained
live_routed = refl

operate_all-route_example :
    (route list_postgres settings 0 another (
      operate_all any_row list_postgres list_sql settings
        ((0, another, writes (9 ∷ [])) ∷ (0, another, rechecks) ∷ [])
        by_hand)).1.schema_state
    ≡ some (current schema_version)
operate_all-route_example =
    operate_all-route any_row list_postgres list_sql settings
      ((0, another, writes (9 ∷ [])) ∷ (0, another, rechecks) ∷ []) 0 another by_hand tt live_routed

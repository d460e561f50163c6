-- ===== src/Gateway/Databases.antt =====
-- crates/wiretap-backend/src/db.rs: what `Databases` keeps of one capture database, and where a
-- batch for it goes. Its maps are keyed by the database's name, and an operation has one name.
use wire_tap_server.Prelude.{
  ℕ, ◌+◌, ◌&&◌, Bool, true, false, not, List, ◌∷◌, Option, none, some, leb, ◌==◌, is_some,
  if◌then◌else◌,
}
use wire_tap_server.Model.{Text}
use wire_tap_server.Gateway.Postgres.{Postgres, Answer, worked, broke}
use wire_tap_server.Gateway.Writer.{
  schema_version, after, detect_version, drain_pending, refresh_drained,
}

-- Where the schema stands; a failure with when it was.
pub data DbSchemaState : Type 0 where
  current : ℕ → DbSchemaState
  pending : ℕ → DbSchemaState
  migrating : DbSchemaState
  failed : ℕ → ℕ → DbSchemaState

pub data DbError : Type 0 where
  refused unavailable : DbError

-- A `Result` with a `DbError`.
pub data DbResult (B : Type 0) : Type 0 where
  fine : B → DbResult B
  db_error : DbError → DbResult B

-- Why a batch was not stored.
pub data WriteError : Type 0 where
  db_failed : DbError → WriteError
  copy_failed : Option Text → WriteError

pub data Write : Type 0 where
  stored_now : Write
  write_error : WriteError → Write

-- Where a batch goes; `held` has the gate of the import, true from the swap on.
pub data Route : Type 0 where
  live_route buffered_route : Route
  held_route : Bool → Route

-- What an operation leaves to a task of its own.
pub data Task : Type 0 where
  migrate_one recheck : Task

pub record Config : Type 0 where
  pub auto_migrate : Bool
  pub auto_create_databases : Bool
  pub valid_name : Bool
  pub is_gateway_database : Bool

-- `FAILED_RETRY_INTERVAL`, in seconds.
abbrev pub failed_retry_interval : ℕ
failed_retry_interval = 30

unfoldable pub owes_migration : Bool → Option DbSchemaState → Bool
owes_migration failed_too none = false
owes_migration failed_too (some (current v)) = false
owes_migration failed_too (some (pending v)) = true
owes_migration failed_too (some migrating) = true
owes_migration failed_too (some (failed v since)) = failed_too

abbrev pub retry_due : ℕ → ℕ → Bool
retry_due now since = leb (since + failed_retry_interval) now

abbrev pub held_gate : Option (Option Bool) → Option Bool
held_gate none = none
held_gate (some gate) = gate

module _ (config : Config) where
  unfoldable pub behind : ℕ → Option DbSchemaState → Bool
  behind now none = not config.auto_migrate
  behind now (some (current v)) = false
  behind now (some (pending v)) = true
  behind now (some migrating) = false
  behind now (some (failed v since)) = not config.auto_migrate && retry_due now since

module _ {R : Type 0} (pg : Postgres R) where
  -- `import` is the import under way, with its gate where it replaces the database.
  pub record Capture : Type 0 where
    pub schema_state : Option DbSchemaState
    pub pool : Bool
    pub buffer_pool : Bool
    pub import : Option (Option Bool)
    pub buffered : Option ℕ
    pub spawned : List Task
    pub db : pg.Db

  unfoldable pub set_state : DbSchemaState → Capture → Capture
  set_state (current v) c = record c { buffer_pool = false; schema_state = some (current v) }
  set_state (pending v) c = record c { pool = false; schema_state = some (pending v) }
  set_state migrating c = record c { pool = false; schema_state = some migrating }
  set_state (failed v since) c = record c { pool = false; schema_state = some (failed v since) }

  abbrev pub spawn : Task → Capture → Capture
  spawn task c = record c { spawned = task ∷ c.spawned }

  abbrev pub note_drained : Capture → Capture
  note_drained c = record c { buffered = none }

  unfoldable pub drain : (pg.Db → pg.Db) → pg.Db → Answer ℕ × pg.Db
  drain others d =
      after (drain_pending pg others d)
        (λ rows d. after (refresh_drained pg d) (λ done d. (worked rows, d)))

  abbrev pub to_buffer : Capture → DbResult Route × Capture
  to_buffer c = (fine buffered_route, record c { buffer_pool = true })

module _ {R : Type 0} (pg : Postgres R) (config : Config) where
  abbrev pub settle : ℕ → DbSchemaState → Capture pg → Capture pg
  settle now state c =
      if behind config now c.schema_state then record c { schema_state = some state } else c

  abbrev pub recheck_drained : ℕ → ℕ → Answer ℕ × pg.Db → Capture pg → Capture pg
  recheck_drained now v (broke code, d) c = record c { db = d }
  recheck_drained now v (worked rows, d) c =
      settle now (current v) (note_drained pg (record c { db = d }))

  abbrev pub recheck_probed :
      ℕ → (pg.Db → pg.Db) → Answer (Option ℕ) × pg.Db → Capture pg → Capture pg
  recheck_probed now others (broke code, d) c = record c { db = d }
  recheck_probed now others (worked none, d) c = record c { db = d }
  recheck_probed now others (worked (some v), d) c =
      if v == schema_version
      then recheck_drained now v (drain pg others d) c
      else settle now (pending v) (record c { db = d })

  unfoldable pub recheck_if_behind : ℕ → (pg.Db → pg.Db) → Capture pg → Capture pg
  recheck_if_behind now others c =
      if behind config now c.schema_state
      then recheck_probed now others (detect_version pg.fingerprint_now pg.version_now c.db) c
      else c

  -- Whether the database is at the current schema.
  abbrev pub required : ℕ → Option DbSchemaState → Capture pg → Bool × Capture pg
  required now (some (current v)) c = (true, c)
  required now (some (pending v)) c = (false, c)
  required now (some migrating) c = (false, c)
  required now (some (failed v since)) c =
      if config.auto_migrate && retry_due now since
      then (false, spawn pg migrate_one (record c { schema_state = some migrating }))
      else (false, c)
  required now none c = (false, if config.auto_migrate then spawn pg migrate_one c else c)

  unfoldable pub require_current : ℕ → Capture pg → Bool × Capture pg
  require_current now c = required now c.schema_state c

  abbrev pub pooled : Bool × Capture pg → DbResult (Unit {0}) × Capture pg
  pooled (true, c) = (fine tt, record c { pool = true })
  pooled (false, c) = (db_error unavailable, c)

  abbrev pub pool_found :
      ℕ → (pg.Db → pg.Db) → Answer Bool × pg.Db → Capture pg → DbResult (Unit {0}) × Capture pg
  pool_found now others (broke code, d) c = (db_error unavailable, record c { db = d })
  pool_found now others (worked false, d) c = (db_error refused, record c { db = d })
  pool_found now others (worked true, d) c =
      pooled (require_current now (recheck_if_behind now others (record c { db = d })))

  -- `pool`, with `pool_if_current`; making a pool works.
  unfoldable pub pool_of : ℕ → (pg.Db → pg.Db) → Capture pg → DbResult (Unit {0}) × Capture pg
  pool_of now others c =
      if not config.valid_name
      then (db_error refused, c)
      else if is_some c.import
      then (db_error unavailable, c)
      else if c.pool
      then (fine tt, c)
      else pool_found now others (pg.exists_now c.db) c

  abbrev pub routed : DbResult (Unit {0}) × Capture pg → DbResult Route × Capture pg
  routed (fine done, c) = (fine live_route, c)
  routed (db_error e, c) =
      if not (owes_migration true c.schema_state) then (db_error e, c) else to_buffer pg c

  abbrev pub route_unheld : ℕ → (pg.Db → pg.Db) → Capture pg → DbResult Route × Capture pg
  route_unheld now others c =
      if not (owes_migration (not config.auto_migrate) c.schema_state)
      then routed (pool_of now others c)
      else to_buffer pg c

  abbrev pub route_gated :
      ℕ → (pg.Db → pg.Db) → Option Bool → Capture pg → DbResult Route × Capture pg
  route_gated now others (some gate) c = (fine (held_route gate), c)
  route_gated now others none c = route_unheld now others c

  unfoldable pub route : ℕ → (pg.Db → pg.Db) → Capture pg → DbResult Route × Capture pg
  route now others c = route_gated now others (held_gate c.import) c

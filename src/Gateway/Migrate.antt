-- ===== src/Gateway/Migrate.antt =====
-- crates/wiretap-backend/src/db.rs and schema.rs: the migration of a capture database, and the
-- creation of one.
use wire_tap_server.Prelude.{
  ℕ, ◌&&◌, ◌||◌, Bool, true, false, not, List, [], ◌∷◌, Option, none, some, ltb, ◌==◌, is_some,
  if◌then◌else◌,
}
use wire_tap_server.Gateway.Postgres.{Postgres, Answer, worked, broke}
use wire_tap_server.Gateway.Writer.{
  schema_version, is_current, after, detect_version, drain_pending, refresh_drained,
}
use wire_tap_server.Gateway.Databases.{
  current, pending, migrating, failed, refused, unavailable, DbResult, fine, db_error, Config,
  Capture, Route, set_state, note_drained, held_gate, route,
}

-- The SQL of schema.rs, by what it is for.
pub record SchemaSql (Db : Type 0) : Type 0 where
  pub apply_progress : Db → Answer (Unit {0}) × Db
  pub apply_migration : ℕ → Db → Answer (Unit {0}) × Db
  pub apply_capture_schema : Db → Answer (Unit {0}) × Db
  pub rollup_incomplete : Db → Answer Bool × Db
  pub refresh_rollup : Db → Answer (Unit {0}) × Db
  pub create : Db → Answer (Unit {0}) × Db

-- The versions of `MIGRATIONS`.
abbrev pub migrations : List ℕ
migrations = 1 ∷ 2 ∷ 3 ∷ 4 ∷ 5 ∷ []

abbrev pub above : ℕ → List ℕ → List ℕ
above v [] = []
above v (m ∷ ms) = if ltb v m then m ∷ above v ms else above v ms

abbrev pub owed : Option ℕ → List ℕ
owed none = []
owed (some v) = above v migrations

module _ {R : Type 0} (pg : Postgres R) (sql : SchemaSql pg.Db) (config : Config) where
  abbrev pub apply_all : List ℕ → pg.Db → Answer (Unit {0}) × pg.Db
  apply_all [] d = (worked tt, d)
  apply_all (m ∷ ms) d = after (sql.apply_migration m d) (λ done d. apply_all ms d)

  abbrev pub with_progress : List ℕ → pg.Db → Answer (Unit {0}) × pg.Db
  with_progress [] d = (worked tt, d)
  with_progress (m ∷ ms) d = sql.apply_progress d

  -- `schema::migrate`.
  unfoldable pub migrate : Option ℕ → pg.Db → Answer (Unit {0}) × pg.Db
  migrate from d =
      after (with_progress (owed from) d)
        (λ done d. after (apply_all (owed from) d) (λ done d. sql.apply_capture_schema d))

  -- The rollup is asked for only where the schema was behind.
  abbrev pub cover_rollup : Bool → pg.Db → Answer (Unit {0}) × pg.Db
  cover_rollup false d = (worked tt, d)
  cover_rollup true d =
      after (sql.rollup_incomplete d)
        (λ incomplete d. if incomplete then sql.refresh_rollup d else (worked tt, d))

  unfoldable pub migrated : (pg.Db → pg.Db) → Option ℕ → pg.Db → Answer ℕ × pg.Db
  migrated others at d = after (migrate at d) (λ done d.
      after (drain_pending pg others d) (λ drained d.
        after (cover_rollup (not (is_current at)) d)
          (λ done d. after (refresh_drained pg d) (λ done d. (worked drained, d)))))

  abbrev pub version_or_zero : Option ℕ → ℕ
  version_or_zero none = 0
  version_or_zero (some v) = v

  abbrev pub concluded_migration : ℕ → Option ℕ → Answer ℕ × pg.Db → Capture pg → Bool × Capture pg
  concluded_migration now at (worked drained, d) c =
      (true, set_state pg (current schema_version) (note_drained pg (record c { db = d })))
  concluded_migration now at (broke code, d) c =
      (false, set_state pg (failed (version_or_zero at) now) (record c { db = d }))

  abbrev pub marked : Option ℕ → Capture pg → Capture pg
  marked at c = if is_current at then c else set_state pg migrating c

  -- Whether it worked. Progress reports and the start of background workers are left out.
  unfoldable pub migrate_holding : ℕ → (pg.Db → pg.Db) → Option ℕ → Capture pg → Bool × Capture pg
  migrate_holding now others at c =
      let c' = marked at c in concluded_migration now at (migrated others at c'.db) c'

  abbrev pub migrate_probed :
      ℕ → (pg.Db → pg.Db) → Option ℕ → Answer (Option ℕ) × pg.Db → Capture pg → Bool × Capture pg
  migrate_probed now others at (broke code, d) c =
      (false, set_state pg (failed (version_or_zero at) now) (record c { db = d }))
  migrate_probed now others at (worked v, d) c = migrate_holding now others v (record c { db = d })

  unfoldable pub migrate_from : ℕ → (pg.Db → pg.Db) → Option ℕ → Capture pg → Bool × Capture pg
  migrate_from now others at c =
      if is_current at
      then migrate_holding now others at c
      else migrate_probed now others at (detect_version pg.fingerprint_now pg.version_now c.db) c

  -- What a version that was found is for: a database that is behind waits, and another is checked.
  abbrev pub wait_or_migrate :
      ℕ → (pg.Db → pg.Db) → Answer (Option ℕ) × pg.Db → Capture pg → Bool × Capture pg
  wait_or_migrate now others (broke code, d) c = (false, record c { db = d })
  wait_or_migrate now others (worked none, d) c = migrate_from now others none (record c { db = d })
  wait_or_migrate now others (worked (some v), d) c =
      if v == schema_version
      then migrate_from now others (some v) (record c { db = d })
      else (true, set_state pg (pending v) (record c { db = d }))

  -- `created` says whether the database was made just now.
  abbrev pub initialise : ℕ → (pg.Db → pg.Db) → Bool → Capture pg → Bool × Capture pg
  initialise now others created c =
      if created || config.auto_migrate
      then migrate_from now others none c
      else wait_or_migrate now others (detect_version pg.fingerprint_now pg.version_now c.db) c

  abbrev pub after_create :
      ℕ → (pg.Db → pg.Db) → Answer (Unit {0}) × pg.Db → Capture pg → Bool × Capture pg
  after_create now others (broke code, d) c = (false, record c { db = d })
  after_create now others (worked done, d) c = initialise now others true (record c { db = d })

  abbrev pub create_missing :
      ℕ → (pg.Db → pg.Db) → Answer Bool × pg.Db → Capture pg → Bool × Capture pg
  create_missing now others (broke code, d) c = (false, record c { db = d })
  create_missing now others (worked true, d) c = initialise now others false (record c { db = d })
  create_missing now others (worked false, d) c = after_create now others (sql.create d) c

  unfoldable pub create_database : ℕ → (pg.Db → pg.Db) → Capture pg → Bool × Capture pg
  create_database now others c =
      if not config.valid_name || is_some c.import
      then (false, c)
      else create_missing now others (pg.exists_now c.db) c

  abbrev pub as_done : DbResult Route × Capture pg → DbResult (Unit {0}) × Capture pg
  as_done (fine r, c) = (fine tt, c)
  as_done (db_error e, c) = (db_error e, c)

  abbrev pub ensure_created :
      ℕ → (pg.Db → pg.Db) → Bool × Capture pg → DbResult (Unit {0}) × Capture pg
  ensure_created now others (false, c) = (db_error unavailable, c)
  ensure_created now others (true, c) = as_done (route pg config now others c)

  abbrev pub ensure_found :
      ℕ
      → (pg.Db → pg.Db)
      → Bool
      → Answer Bool × pg.Db
      → Capture pg
      → DbResult (Unit {0}) × Capture pg
  ensure_found now others allow_create (broke code, d) c =
      (db_error unavailable, record c { db = d })
  ensure_found now others allow_create (worked true, d) c =
      as_done (route pg config now others (record c { db = d }))
  ensure_found now others allow_create (worked false, d) c =
      if allow_create && config.auto_create_databases
      then ensure_created now others (create_database now others (record c { db = d }))
      else (db_error refused, record c { db = d })

  unfoldable pub ensure_database :
      ℕ → (pg.Db → pg.Db) → Bool → Capture pg → DbResult (Unit {0}) × Capture pg
  ensure_database now others allow_create c =
      if not config.valid_name || config.is_gateway_database
      then (db_error refused, c)
      else if is_some (held_gate c.import)
      then (fine tt, c)
      else if is_some c.import
      then (db_error unavailable, c)
      else ensure_found now others allow_create (pg.exists_now c.db) c

-- ===== src/Gateway/Versions.antt =====
-- crates/wiretap-backend/src/schema.rs: a migration goes one version at a time, up to this build's.
use wire_tap_server.Prelude.{ℕ, suc, ◌≤◌, ◌≡◌, ◌≢◌, ◌⊎◌, List, [], ◌∷◌}
use wire_tap_server.Gateway.Postgres.{Postgres, Answer, worked, broke}
use wire_tap_server.Gateway.Writer.{schema_version}
use wire_tap_server.Gateway.Databases.{Config}
use wire_tap_server.Gateway.Migrate.{SchemaSql}

-- The files leave a database's recorded version alone, but for the current schema, which records this
-- build's as its last statement. A migration that is next, or was applied before, is applied where it
-- works, and where it fails no other is undone: `level` is how far the migrations are applied whole.
pub record SchemaLaws {Db : Type 0} (sql : SchemaSql Db) : Type 0 where
  pub version : Db → ℕ
  pub level : Db → ℕ
  pub progress_law :
      (d : Db)
      → (version (sql.apply_progress d).1 ≡ version d) × (level (sql.apply_progress d).1 ≡ level d)
  pub migration_law :
      (m : ℕ) (d : Db)
      → m ≤ suc (level d)
      → (version (sql.apply_migration m d).1 ≡ version d)
        × (level d ≤ level (sql.apply_migration m d).1)
        × ((sql.apply_migration m d).0 ≡ worked tt → m ≤ level (sql.apply_migration m d).1)
  -- Where the file fails, the answer to its last statement may be what was lost.
  pub schema_law :
      (d : Db)
      → schema_version ≤ level d
      → version d ≤ schema_version
      → (level d ≤ level (sql.apply_capture_schema d).1)
        × ((version (sql.apply_capture_schema d).1 ≡ schema_version)
            ⊎ (version (sql.apply_capture_schema d).1 ≡ version d)
              × ((sql.apply_capture_schema d).0 ≢ worked tt))

-- From `v` to this build's version, one at a time.
abbrev Consecutive : ℕ → List ℕ → Type 0
Consecutive v [] = v ≡ schema_version
Consecutive v (m ∷ ms) = (m ≡ suc v) × Consecutive m ms

module _ {R : Type 0} (pg : Postgres R) {sql : SchemaSql pg.Db} (l : SchemaLaws sql)
    (config : Config) where
  -- Where a run from version `v` has come to.
  abbrev pub Reached : ℕ → Answer (Unit {0}) × pg.Db → Type 0
  Reached v (worked u, d) = (l.version d ≡ schema_version) × (schema_version ≤ l.level d)
  Reached v (broke code, d) =
      ((l.version d ≡ v) × (v ≤ l.level d))
      ⊎ ((l.version d ≡ schema_version) × (schema_version ≤ l.level d))

  -- The same before the current schema.
  abbrev Applied : ℕ → Answer (Unit {0}) × pg.Db → Type 0
  Applied v (worked u, d) = (l.version d ≡ v) × (schema_version ≤ l.level d)
  Applied v (broke code, d) = (l.version d ≡ v) × (v ≤ l.level d)

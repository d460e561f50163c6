-- ===== src/Gateway/Onward.antt =====
-- crates/wiretap-backend/src/db.rs: finding where a batch goes loses no row.
use wire_tap_server.Prelude.{
  ℕ, ◌≡◌, refl, sym, ◌∙◌, inl, inr, Bool, true, false, not, List, Option, none, some, ◌==◌, is_some,
  if◌then◌else◌, Bool-cases, arith, both_branches,
}
use wire_tap_server.Gateway.Postgres.{Postgres, PostgresLaws, Answer, worked, broke, Fingerprint}
use wire_tap_server.Gateway.Writer.{after, uncoded, detect_version, version_of, schema_version}
use wire_tap_server.Gateway.Kept.{Moved, stay, Adds, drain-Moved}
use wire_tap_server.Gateway.Databases.{
  DbResult, fine, db_error, DbSchemaState, current, pending, Route, Config, Capture, behind, drain,
  migrating, failed, settle, recheck_drained, recheck_probed, recheck_if_behind, required,
  require_current, pooled, pool_found, pool_of, owes_migration, routed, route_unheld, route_gated,
  route, held_gate,
}

module _ {R : Type 0} {pg : Postgres R} (l : PostgresLaws pg) (config : Config)
    (theirs : List R) where
  detect_version-tables :
      (d : pg.Db) → l.tables (detect_version pg.fingerprint_now pg.version_now d).1 ≡ l.tables d
  unfolding detect_version
  detect_version-tables d = probe (pg.fingerprint_now d) (l.fingerprint_now_law d)
    where
      read :
          (r : Answer ℕ × pg.Db)
          → l.tables r.1 ≡ l.tables d
          → l.tables (after (uncoded r) (λ v t. (worked (some v), t))).1 ≡ l.tables d
      read (worked v, d') e = e
      read (broke code, d') e = e

      choose :
          (f : Fingerprint) (tracked : Bool) (d' : pg.Db)
          → l.tables d' ≡ l.tables d
          → l.tables
              (if tracked
                then after (uncoded (pg.version_now d')) (λ v t. (worked (some v), t))
                else (worked (version_of f), d')).1
            ≡ l.tables d
      choose f true d' e = read (pg.version_now d') (l.version_now_law d' ∙ e)
      choose f false d' e = e

      probe :
          (r : Answer Fingerprint × pg.Db)
          → l.tables r.1 ≡ l.tables d
          → l.tables
              (after (uncoded r) (λ f t.
                if f.tracked
                then after (uncoded (pg.version_now t)) (λ v t. (worked (some v), t))
                else (worked (version_of f), t))).1
            ≡ l.tables d
      probe (broke code, d') e = e
      probe (worked f, d') e = choose f f.tracked d' e

  -- What is stored of `c` stands after `c'`.
  abbrev pub Onward : Capture pg → Capture pg → Type 0
  Onward c c' = Moved theirs (l.tables c.db) (l.tables c'.db)

  settled : (now : ℕ) (s : DbSchemaState) (c : Capture pg) → (settle pg config now s c).db ≡ c.db
  settled now s c = ground arith

  drained_on :
      (now v : ℕ) (r : Answer ℕ × pg.Db) (c : Capture pg)
      → (recheck_drained pg config now v r c).db ≡ r.1
  drained_on now v (broke code, d) c = refl
  drained_on now v (worked n, d) c = settled now (current v) (record c { db = d; buffered = none })

  probed-Onward :
      (now : ℕ) (others : pg.Db → pg.Db)
      → Adds l theirs others
      → (r : Answer (Option ℕ) × pg.Db) (c : Capture pg) → l.tables r.1 ≡ l.tables c.db
      → Onward c (recheck_probed pg config now others r c)
  probed-Onward now others adds (broke code, d) c e = stay theirs (l.tables c.db) (l.tables d) e
  probed-Onward now others adds (worked none, d) c e = stay theirs (l.tables c.db) (l.tables d) e
  probed-Onward now others adds (worked (some v), d) c e = elim (Bool-cases (v == schema_version)) [
    | inl h ↦
        rw (h, drained_on now v (drain pg others d) c, sym e) (drain-Moved l theirs others adds d)
    | inr h ↦
        rw (h, settled now (pending v) (record c { db = d }))
          (stay theirs (l.tables c.db) (l.tables d) e)
  ]

  recheck-Onward :
      (now : ℕ) (others : pg.Db → pg.Db)
      → Adds l theirs others
      → (c : Capture pg) → Onward c (recheck_if_behind pg config now others c)
  unfolding recheck_if_behind
  recheck-Onward now others adds c =
      both_branches (Onward c) (behind config now c.schema_state) _ _
        (probed-Onward now others adds (detect_version pg.fingerprint_now pg.version_now c.db) c
          (detect_version-tables c.db))
        (stay theirs (l.tables c.db) (l.tables c.db) refl)

  required_db :
      (now : ℕ) (st : Option DbSchemaState) (c : Capture pg)
      → (required pg config now st c).1.db ≡ c.db
  required_db now none c = ground arith
  required_db now (some (current v)) c = refl
  required_db now (some (pending v)) c = refl
  required_db now (some migrating) c = refl
  required_db now (some (failed v since)) c = ground arith

  pooled_db : (r : Bool × Capture pg) → (pooled pg config r).1.db ≡ r.1.db
  pooled_db (true, c) = refl
  pooled_db (false, c) = refl

  found-Onward :
      (now : ℕ) (others : pg.Db → pg.Db)
      → Adds l theirs others
      → (r : Answer Bool × pg.Db) (c : Capture pg) → l.tables r.1 ≡ l.tables c.db
      → Onward c (pool_found pg config now others r c).1
  unfolding require_current
  found-Onward now others adds (broke code, d) c e = stay theirs (l.tables c.db) (l.tables d) e
  found-Onward now others adds (worked false, d) c e = stay theirs (l.tables c.db) (l.tables d) e
  found-Onward now others adds (worked true, d) c e =
      let c1 = recheck_if_behind pg config now others (record c { db = d }) in
      rw
        (
          pooled_db (required pg config now c1.schema_state c1),
          required_db now c1.schema_state c1,
          sym e,
        )
        (recheck-Onward now others adds (record c { db = d }))

  pool-Onward :
      (now : ℕ) (others : pg.Db → pg.Db)
      → Adds l theirs others
      → (c : Capture pg) → Onward c (pool_of pg config now others c).1
  unfolding pool_of
  pool-Onward now others adds c =
      let P : DbResult (Unit {0}) × Capture pg → Type 0 = λ r. Onward c r.1 in
      let here = stay theirs (l.tables c.db) (l.tables c.db) refl in
      both_branches P (not config.valid_name) _ _ here (
        both_branches P (is_some c.import) _ _ here (
          both_branches P c.pool _ _ here
            (found-Onward now others adds (pg.exists_now c.db) c (l.exists_law c.db))))

  routed-Onward :
      (c : Capture pg) (r : DbResult (Unit {0}) × Capture pg)
      → Onward c r.1
      → Onward c (routed pg config r).1
  routed-Onward c (fine u, c') h = h
  routed-Onward c (db_error e, c') h =
      both_branches (λ (r : DbResult Route × Capture pg). Onward c r.1)
        (not (owes_migration true c'.schema_state)) _ _ h h

  unheld-Onward :
      (now : ℕ) (others : pg.Db → pg.Db)
      → Adds l theirs others
      → (c : Capture pg) → Onward c (route_unheld pg config now others c).1
  unheld-Onward now others adds c =
      both_branches (λ (r : DbResult Route × Capture pg). Onward c r.1)
        (not (owes_migration (not config.auto_migrate) c.schema_state)) _ _
        (routed-Onward c (pool_of pg config now others c) (pool-Onward now others adds c))
        (stay theirs (l.tables c.db) (l.tables c.db) refl)

  pub route-Onward :
      (now : ℕ) (others : pg.Db → pg.Db)
      → Adds l theirs others
      → (c : Capture pg) → Onward c (route pg config now others c).1
  unfolding route
  route-Onward now others adds c = by_gate (held_gate c.import)
    where
      by_gate : (g : Option Bool) → Onward c (route_gated pg config now others g c).1
      by_gate (some g) = stay theirs (l.tables c.db) (l.tables c.db) refl
      by_gate none = unheld-Onward now others adds c

-- ===== src/Gateway/Always.antt =====
-- crates/wiretap-backend/src/db.rs: nothing that is done with a capture database leaves a pool for
-- one whose schema is not current.
use wire_tap_server.Prelude.{
  ℕ, ◌≡◌, refl, Bool, true, false, not, ◌||◌, ◌&&◌, List, [], ◌∷◌, Option, none, some, ◌==◌,
  is_some, both_branches,
}
use wire_tap_server.Gateway.Postgres.{Postgres, Answer, worked, broke}
use wire_tap_server.Gateway.Writer.{
  schema_version, Written, buffered, live, detect_version, copy_rows, buffer_rows, is_current,
}
use wire_tap_server.Gateway.Databases.{
  recheck_if_behind, current, pending, failed, DbResult, fine, db_error, Route, live_route,
  buffered_route, held_route, Config, Capture, route, held_gate,
}
use wire_tap_server.Gateway.Writes.{copied, held_write, buffered_write, write_to, write_rows}
use wire_tap_server.Gateway.Migrate.{
  SchemaSql, concluded_migration, migrate_holding, migrate_probed, migrate_from, wait_or_migrate,
  initialise, after_create, create_missing, create_database, as_done, ensure_created, ensure_found,
  ensure_database,
}
use wire_tap_server.Gateway.Served.{recheck-Served, Served, set_state-Served, route-Served}
use wire_tap_server.Gateway.Gate.{route_live}

module _ {R : Type 0} (in_range : R → Bool) (pg : Postgres R) (sql : SchemaSql pg.Db)
    (config : Config) where
  copied-Served :
      (r : Answer (Unit {0}) × pg.Db) (c : Capture pg) → Served c → Served (copied pg r c).1
  copied-Served (worked u, d) c h = h
  copied-Served (broke code, d) c h = h

  held-Served :
      (n : ℕ) (r : Answer Written × pg.Db) (c : Capture pg)
      → Served c
      → Served (held_write pg n r c).1
  held-Served n (worked w, d) c h = h
  held-Served n (broke code, d) c h = h

  buffered-Served :
      (n : ℕ) (r : Answer Written × pg.Db) (c : Capture pg)
      → Served c
      → Served (buffered_write pg n r c).1
  buffered-Served n (worked buffered, d) c h = h
  buffered-Served n (worked live, d) c h = h
  buffered-Served n (broke code, d) c h = h

  write_to-Served :
      (rows : List R) (r : DbResult Route × Capture pg)
      → Served r.1
      → Served (write_to in_range pg config rows r).1
  write_to-Served rows (db_error e, c) h = h
  write_to-Served rows (fine live_route, c) h = copied-Served (copy_rows in_range pg rows c.db) c h
  write_to-Served rows (fine (held_route true), c) h = h
  write_to-Served rows (fine (held_route false), c) h =
      held-Served _ (buffer_rows in_range pg rows true c.db) c h
  write_to-Served rows (fine buffered_route, c) h =
      buffered-Served _ (buffer_rows in_range pg rows false c.db) c h

  write_rows-Served :
      (now : ℕ) (others : pg.Db → pg.Db) (rows : List R) (c : Capture pg)
      → Served c
      → Served (write_rows in_range pg config now others rows c).1
  unfolding write_rows
  write_rows-Served now others rows c h =
      write_to-Served rows (route pg config now others c) (route-Served pg config now others c h)

  concluded-Served :
      (now : ℕ) (at : Option ℕ) (r : Answer ℕ × pg.Db) (c : Capture pg)
      → Served (concluded_migration pg sql config now at r c).1
  concluded-Served now at (worked n, d) c = set_state-Served (current schema_version) _ refl
  concluded-Served now at (broke code, d) c = set_state-Served (failed _ now) _ tt

  holding-Served :
      (now : ℕ) (others : pg.Db → pg.Db) (at : Option ℕ) (c : Capture pg)
      → Served (migrate_holding pg sql config now others at c).1
  unfolding migrate_holding
  holding-Served now others at c = concluded-Served now at _ _

  from-Served :
      (now : ℕ) (others : pg.Db → pg.Db) (at : Option ℕ) (c : Capture pg)
      → Served (migrate_from pg sql config now others at c).1
  unfolding migrate_from
  from-Served now others at c =
      both_branches (λ (r : Bool × Capture pg). Served r.1) (is_current at) _ _
        (holding-Served now others at c)
        (probed (detect_version pg.fingerprint_now pg.version_now c.db) c)
    where
      probed :
          (r : Answer (Option ℕ) × pg.Db) (c : Capture pg)
          → Served (migrate_probed pg sql config now others at r c).1
      probed (broke code, d) c = set_state-Served (failed _ now) _ tt
      probed (worked v, d) c = holding-Served now others v _

  waiting-Served :
      (now : ℕ) (others : pg.Db → pg.Db) (r : Answer (Option ℕ) × pg.Db) (c : Capture pg)
      → Served c
      → Served (wait_or_migrate pg sql config now others r c).1
  waiting-Served now others (broke code, d) c h = h
  waiting-Served now others (worked none, d) c h = from-Served now others none _
  waiting-Served now others (worked (some v), d) c h =
      both_branches (λ (r : Bool × Capture pg). Served r.1) (v == schema_version) _ _
        (from-Served now others (some v) _) (set_state-Served (pending v) _ tt)

  initialise-Served :
      (now : ℕ) (others : pg.Db → pg.Db) (created : Bool) (c : Capture pg)
      → Served c
      → Served (initialise pg sql config now others created c).1
  initialise-Served now others created c h =
      both_branches (λ (r : Bool × Capture pg). Served r.1) (created || config.auto_migrate) _ _
        (from-Served now others none c)
        (waiting-Served now others (detect_version pg.fingerprint_now pg.version_now c.db) c h)

  made-Served :
      (now : ℕ) (others : pg.Db → pg.Db) (r : Answer (Unit {0}) × pg.Db) (c : Capture pg)
      → Served c
      → Served (after_create pg sql config now others r c).1
  made-Served now others (broke code, d) c h = h
  made-Served now others (worked u, d) c h =
      initialise-Served now others true (record c { db = d }) h

  missing-Served :
      (now : ℕ) (others : pg.Db → pg.Db) (r : Answer Bool × pg.Db) (c : Capture pg)
      → Served c
      → Served (create_missing pg sql config now others r c).1
  missing-Served now others (broke code, d) c h = h
  missing-Served now others (worked true, d) c h =
      initialise-Served now others false (record c { db = d }) h
  missing-Served now others (worked false, d) c h = made-Served now others (sql.create d) c h

  create_database-Served :
      (now : ℕ) (others : pg.Db → pg.Db) (c : Capture pg)
      → Served c
      → Served (create_database pg sql config now others c).1
  unfolding create_database
  create_database-Served now others c h =
      both_branches (λ (r : Bool × Capture pg). Served r.1)
        (not config.valid_name || is_some c.import) _ _ h
        (missing-Served now others (pg.exists_now c.db) c h)

  as_done-Served :
      (r : DbResult Route × Capture pg) → Served r.1 → Served (as_done pg sql config r).1
  as_done-Served (fine r, c) h = h
  as_done-Served (db_error e, c) h = h

  ensure_created-Served :
      (now : ℕ) (others : pg.Db → pg.Db) (r : Bool × Capture pg)
      → Served r.1
      → Served (ensure_created pg sql config now others r).1
  ensure_created-Served now others (false, c) h = h
  ensure_created-Served now others (true, c) h =
      as_done-Served (route pg config now others c) (route-Served pg config now others c h)

  ensure_found-Served :
      (now : ℕ) (others : pg.Db → pg.Db) (allow : Bool) (r : Answer Bool × pg.Db) (c : Capture pg)
      → Served c
      → Served (ensure_found pg sql config now others allow r c).1
  ensure_found-Served now others allow (broke code, d) c h = h
  ensure_found-Served now others allow (worked true, d) c h =
      as_done-Served (route pg config now others (record c { db = d }))
        (route-Served pg config now others (record c { db = d }) h)
  ensure_found-Served now others allow (worked false, d) c h =
      both_branches (λ (r : DbResult (Unit {0}) × Capture pg). Served r.1)
        (allow && config.auto_create_databases) _ _
        (ensure_created-Served now others
          (create_database pg sql config now others (record c { db = d }))
          (create_database-Served now others (record c { db = d }) h))
        h

  ensure_database-Served :
      (now : ℕ) (others : pg.Db → pg.Db) (allow : Bool) (c : Capture pg)
      → Served c
      → Served (ensure_database pg sql config now others allow c).1
  unfolding ensure_database
  ensure_database-Served now others allow c h =
      let P : DbResult (Unit {0}) × Capture pg → Type 0 = λ r. Served r.1 in
      both_branches P (not config.valid_name || config.is_gateway_database) _ _ h (
        both_branches P (is_some (held_gate c.import)) _ _ h (
          both_branches P (is_some c.import) _ _ h
            (ensure_found-Served now others allow (pg.exists_now c.db) c h)))

  -- What is done with a database, by devices, by requests and by its migrations.
  pub data Operation : Type 0 where
    writes : List R → Operation
    ensures : Bool → Operation
    creates : Operation
    migrates : Option ℕ → Operation
    rechecks : Operation

  abbrev pub operate : ℕ → (pg.Db → pg.Db) → Operation → Capture pg → Capture pg
  operate now others (writes rows) c = (write_rows in_range pg config now others rows c).1
  operate now others (ensures allow) c = (ensure_database pg sql config now others allow c).1
  operate now others creates c = (create_database pg sql config now others c).1
  operate now others (migrates at) c = (migrate_from pg sql config now others at c).1
  operate now others rechecks c = recheck_if_behind pg config now others c

  abbrev pub operate_all : List (ℕ × (pg.Db → pg.Db) × Operation) → Capture pg → Capture pg
  operate_all [] c = c
  operate_all ((now, others, op) ∷ ops) c = operate_all ops (operate now others op c)

  operate-Served :
      (now : ℕ) (others : pg.Db → pg.Db) (op : Operation) (c : Capture pg)
      → Served c
      → Served (operate now others op c)
  operate-Served now others (writes rows) c h = write_rows-Served now others rows c h
  operate-Served now others (ensures allow) c h = ensure_database-Served now others allow c h
  operate-Served now others creates c h = create_database-Served now others c h
  operate-Served now others (migrates at) c h = from-Served now others at c
  operate-Served now others rechecks c h = recheck-Served pg config now others c h

  operate_all-Served :
      (ops : List (ℕ × (pg.Db → pg.Db) × Operation)) (c : Capture pg)
      → Served c
      → Served (operate_all ops c)
  operate_all-Served [] c h = h
  operate_all-Served ((now, others, op) ∷ ops) c h =
      operate_all-Served ops (operate now others op c) (operate-Served now others op c h)

  -- After any writes, hellos, creations, migrations and rechecks of a database that started with a pool only where it is held for current, and so only at this build's version, a batch is routed straight to `capture_frame` only where it is held for current at this build's version.
  pub operate_all-route :
      (ops : List (ℕ × (pg.Db → pg.Db) × Operation)) (now : ℕ) (others : pg.Db → pg.Db)
      (c : Capture pg)
      → Served c
      → let r = route pg config now others (operate_all ops c) in
        r.0 ≡ fine live_route → r.1.schema_state ≡ some (current schema_version)
  operate_all-route ops now others c h e =
      route_live pg config now others (operate_all ops c) (operate_all-Served ops c h) e

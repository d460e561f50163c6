-- ===== src/Gateway/Served.antt =====
-- crates/wiretap-backend/src/db.rs: only a database at the current schema is served from.
use wire_tap_server.Prelude.{
  ℕ, ◌≡◌, refl, sym, Bool, true, false, not, ◌&&◌, Option, none, some, ◌==◌, ==_iff, is_some,
  both_branches, under_test,
}
use wire_tap_server.Gateway.Postgres.{Postgres, Answer, worked, broke}
use wire_tap_server.Gateway.Writer.{schema_version, detect_version}
use wire_tap_server.Gateway.Databases.{
  DbSchemaState, current, pending, migrating, failed, DbResult, fine, db_error, Route, Config,
  Capture, set_state, behind, drain, retry_due, settle, recheck_drained, recheck_probed,
  recheck_if_behind, required, require_current, pooled, pool_found, pool_of, owes_migration, routed,
  route_gated, route, held_gate,
}

-- A database is held for current only at this build's version, and a pool is kept for no other.
abbrev pub Serving : Bool → Option DbSchemaState → Type 0
Serving false (some (current v)) = v ≡ schema_version
Serving false (some (pending v)) = Unit
Serving false (some migrating) = Unit
Serving false (some (failed v since)) = Unit
Serving false none = Unit
Serving true (some (current v)) = v ≡ schema_version
Serving true (some (pending v)) = ⊥
Serving true (some migrating) = ⊥
Serving true (some (failed v since)) = ⊥
Serving true none = ⊥

-- What is behind has no pool.
behind-Serving :
    (config : Config) (now : ℕ) (p : Bool) (st : Option DbSchemaState)
    → Serving p st
    → behind config now st ≡ true
    → p ≡ false
unfolding behind
behind-Serving config now false st h b = refl
behind-Serving config now true (some (current v)) h b = absurd cc
behind-Serving config now true (some (pending v)) h b = absurd h
behind-Serving config now true (some migrating) h b = absurd h
behind-Serving config now true (some (failed v since)) h b = absurd h
behind-Serving config now true none h b = absurd h

no_pool : (p : Bool) (st : Option DbSchemaState) → p ≡ false → Serving false st → Serving p st
no_pool true st e h = absurd cc
no_pool false st e h = h

current_version : (p : Bool) (v : ℕ) → Serving p (some (current v)) → v ≡ schema_version
current_version true v h = h
current_version false v h = h

module _ {R : Type 0} {pg : Postgres R} where
  abbrev pub Served : Capture pg → Type 0
  Served c = Serving c.pool c.schema_state

  pub set_state-Served :
      (st : DbSchemaState) (c : Capture pg) → Serving false (some st) → Served (set_state pg st c)
  unfolding set_state
  set_state-Served (current v) c e = any_pool c.pool
    where
      any_pool : (p : Bool) → Serving p (some (current v))
      any_pool true = e
      any_pool false = e
  set_state-Served (pending v) c e = tt
  set_state-Served migrating c e = tt
  set_state-Served (failed v since) c e = tt

module _ {R : Type 0} (pg : Postgres R) (config : Config) where
  settle-Served :
      (now : ℕ) (st : DbSchemaState) (c : Capture pg)
      → Serving false (some st)
      → Served c
      → Served (settle pg config now st c)
  settle-Served now st c fits h =
      under_test Served (behind config now c.schema_state) _ _
        (λ b. no_pool c.pool (some st) (behind-Serving config now c.pool c.schema_state h b) fits)
        (λ b. h)

  drained-Served :
      (now v : ℕ) (r : Answer ℕ × pg.Db) (c : Capture pg)
      → v ≡ schema_version
      → Served c
      → Served (recheck_drained pg config now v r c)
  drained-Served now v (broke code, d) c is h = h
  drained-Served now v (worked n, d) c is h =
      settle-Served now (current v) (record c { db = d; buffered = none }) is h

  probed-Served :
      (now : ℕ) (others : pg.Db → pg.Db) (r : Answer (Option ℕ) × pg.Db) (c : Capture pg)
      → Served c
      → Served (recheck_probed pg config now others r c)
  probed-Served now others (broke code, d) c h = h
  probed-Served now others (worked none, d) c h = h
  probed-Served now others (worked (some v), d) c h =
      under_test Served (v == schema_version) _ _
        (λ t. drained-Served now v (drain pg others d) c ((==_iff v schema_version).0 t) h)
        (λ t. settle-Served now (pending v) (record c { db = d }) tt h)

  pub recheck-Served :
      (now : ℕ) (others : pg.Db → pg.Db) (c : Capture pg)
      → Served c
      → Served (recheck_if_behind pg config now others c)
  unfolding recheck_if_behind
  recheck-Served now others c h =
      both_branches Served (behind config now c.schema_state) _ _
        (probed-Served now others (detect_version pg.fingerprint_now pg.version_now c.db) c h) h

  failed_pool :
      (p : Bool) (v since : ℕ) → Serving p (some (failed v since)) → Serving p (some migrating)
  failed_pool true v since h = absurd h
  failed_pool false v since h = tt

  -- A pool is made where the schema is current.
  pooled-Served :
      (now : ℕ) (st : Option DbSchemaState) (c : Capture pg)
      → st ≡ c.schema_state
      → Served c
      → Served (pooled pg config (required pg config now st c)).1
  pooled-Served now none c e h = both_branches Served config.auto_migrate _ _ h h
  pooled-Served now (some (current v)) c e h = rw (sym e) (current_version c.pool v (rw e h))
  pooled-Served now (some (pending v)) c e h = h
  pooled-Served now (some migrating) c e h = h
  pooled-Served now (some (failed v since)) c e h =
      both_branches (λ (r : Bool × Capture pg). Served (pooled pg config r).1)
        (config.auto_migrate && retry_due now since) _ _ (failed_pool c.pool v since (rw e h)) h

  found-Served :
      (now : ℕ) (others : pg.Db → pg.Db) (r : Answer Bool × pg.Db) (c : Capture pg)
      → Served c
      → Served (pool_found pg config now others r c).1
  unfolding require_current
  found-Served now others (broke code, d) c h = h
  found-Served now others (worked false, d) c h = h
  found-Served now others (worked true, d) c h =
      let c1 = recheck_if_behind pg config now others (record c { db = d }) in
      pooled-Served now c1.schema_state c1 refl (recheck-Served now others (record c { db = d }) h)

  pool-Served :
      (now : ℕ) (others : pg.Db → pg.Db) (c : Capture pg)
      → Served c
      → Served (pool_of pg config now others c).1
  unfolding pool_of
  pool-Served now others c h =
      let P : DbResult (Unit {0}) × Capture pg → Type 0 = λ r. Served r.1 in
      both_branches P (not config.valid_name) _ _ h (
        both_branches P (is_some c.import) _ _ h
          (both_branches P c.pool _ _ h (found-Served now others (pg.exists_now c.db) c h)))

  routed-Served :
      (r : DbResult (Unit {0}) × Capture pg) → Served r.1 → Served (routed pg config r).1
  routed-Served (fine u, c) h = h
  routed-Served (db_error e, c) h =
      both_branches (λ (r : DbResult Route × Capture pg). Served r.1)
        (not (owes_migration true c.schema_state)) _ _ h h

  gated-Served :
      (now : ℕ) (others : pg.Db → pg.Db) (gate : Option Bool) (c : Capture pg)
      → Served c
      → Served (route_gated pg config now others gate c).1
  gated-Served now others (some gate) c h = h
  gated-Served now others none c h =
      both_branches (λ (r : DbResult Route × Capture pg). Served r.1)
        (not (owes_migration (not config.auto_migrate) c.schema_state)) _ _
        (routed-Served (pool_of pg config now others c) (pool-Served now others c h)) h

  pub route-Served :
      (now : ℕ) (others : pg.Db → pg.Db) (c : Capture pg)
      → Served c
      → Served (route pg config now others c).1
  unfolding route
  route-Served now others c h = gated-Served now others (held_gate c.import) c h

-- ===== src/Gateway/Gate.antt =====
-- crates/wiretap-backend/src/db.rs: whatever is done with a capture database, a batch goes straight
-- to `capture_frame` only while its schema is current.
use wire_tap_server.Prelude.{
  ℕ, ◌≡◌, refl, ap, Bool, true, false, not, Option, none, some, is_some, both_branches, under_test,
}
use wire_tap_server.Gateway.Postgres.{Postgres, Answer, worked, broke}
use wire_tap_server.Gateway.Writer.{schema_version}
use wire_tap_server.Gateway.Databases.{
  DbSchemaState, current, pending, migrating, failed, DbResult, fine, db_error, Route, live_route,
  buffered_route, held_route, Config, Capture, pooled, pool_found, pool_of, owes_migration, routed,
  route_gated, route, held_gate,
}
use wire_tap_server.Gateway.Served.{Served, Serving, route-Served}

module _ {R : Type 0} (pg : Postgres R) (config : Config) where
  abbrev HasPool : DbResult (Unit {0}) × Capture pg → Type 0
  HasPool (fine u, c) = c.pool ≡ true
  HasPool (db_error e, c) = Unit

  abbrev LiveHasPool : DbResult Route × Capture pg → Type 0
  LiveHasPool (fine live_route, c) = c.pool ≡ true
  LiveHasPool (fine buffered_route, c) = Unit
  LiveHasPool (fine (held_route gate), c) = Unit
  LiveHasPool (db_error e, c) = Unit

  pooled-HasPool : (r : Bool × Capture pg) → HasPool (pooled pg config r)
  pooled-HasPool (true, c) = refl
  pooled-HasPool (false, c) = tt

  found-HasPool :
      (now : ℕ) (others : pg.Db → pg.Db) (r : Answer Bool × pg.Db) (c : Capture pg)
      → HasPool (pool_found pg config now others r c)
  found-HasPool now others (broke code, d) c = tt
  found-HasPool now others (worked false, d) c = tt
  found-HasPool now others (worked true, d) c = pooled-HasPool _

  pool_of-HasPool :
      (now : ℕ) (others : pg.Db → pg.Db) (c : Capture pg) → HasPool (pool_of pg config now others c)
  unfolding pool_of
  pool_of-HasPool now others c = both_branches HasPool (not config.valid_name) _ _ tt (
      both_branches HasPool (is_some c.import) _ _ tt (
        under_test HasPool c.pool _ _ (λ e. e)
          (λ e. found-HasPool now others (pg.exists_now c.db) c)))

  routed-LiveHasPool :
      (r : DbResult (Unit {0}) × Capture pg) → HasPool r → LiveHasPool (routed pg config r)
  routed-LiveHasPool (fine u, c) h = h
  routed-LiveHasPool (db_error e, c) h =
      both_branches LiveHasPool (not (owes_migration true c.schema_state)) _ _ tt tt

  gated-LiveHasPool :
      (now : ℕ) (others : pg.Db → pg.Db) (gate : Option Bool) (c : Capture pg)
      → LiveHasPool (route_gated pg config now others gate c)
  gated-LiveHasPool now others (some gate) c = tt
  gated-LiveHasPool now others none c =
      both_branches LiveHasPool (not (owes_migration (not config.auto_migrate) c.schema_state)) _ _
        (routed-LiveHasPool (pool_of pg config now others c) (pool_of-HasPool now others c)) tt

  Serving-current :
      (p : Bool) (st : Option DbSchemaState)
      → Serving p st
      → p ≡ true
      → st ≡ some (current schema_version)
  Serving-current false st h e = absurd cc
  Serving-current true (some (current v)) h e = ap (λ n. some (current n)) h
  Serving-current true (some (pending v)) h e = absurd h
  Serving-current true (some migrating) h e = absurd h
  Serving-current true (some (failed v since)) h e = absurd h
  Serving-current true none h e = absurd h

  live_pool :
      (r : DbResult Route × Capture pg) → LiveHasPool r → r.0 ≡ fine live_route → r.1.pool ≡ true
  live_pool (fine live_route, c) h e = h
  live_pool (fine buffered_route, c) h e = absurd cc
  live_pool (fine (held_route gate), c) h e = absurd cc
  live_pool (db_error why, c) h e = absurd cc

  -- A batch is routed straight to `capture_frame` only where the schema is this build's.
  pub route_live :
      (now : ℕ) (others : pg.Db → pg.Db) (c : Capture pg)
      → Served c
      → (route pg config now others c).0 ≡ fine live_route
      → (route pg config now others c).1.schema_state ≡ some (current schema_version)
  unfolding route
  route_live now others c h e =
      let r = route_gated pg config now others (held_gate c.import) c in
      Serving-current r.1.pool r.1.schema_state (route-Served pg config now others c h)
        (live_pool r (gated-LiveHasPool now others (held_gate c.import) c) e)

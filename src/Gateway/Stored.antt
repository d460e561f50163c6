-- ===== src/Gateway/Stored.antt =====
-- crates/wiretap-backend/src/db.rs: a batch that is stored is stored once, and nothing else is lost.
use wire_tap_server.Prelude.{ℕ, ◌≡◌, ◌⊎◌, inl, inr, Bool, true, false, List, length}
use wire_tap_server.Gateway.Postgres.{
  Postgres, PostgresLaws, Tables, Answer, worked, broke, capture_frame, Copied,
}
use wire_tap_server.Gateway.Writer.{Written, buffered, live, copy_rows, buffer_rows}
use wire_tap_server.Gateway.Effects.{Leaves}
use wire_tap_server.Gateway.Buffer.{Taken, Added-Taken}
use wire_tap_server.Gateway.Landed.{Landed, buffer_rows-Landed, copy_rows-Copied}
use wire_tap_server.Gateway.Kept.{Moved, Adds}
use wire_tap_server.Gateway.Databases.{
  DbResult, fine, db_error, Route, live_route, buffered_route, held_route, Config, Capture, route,
  Write, stored_now, write_error, db_failed, copy_failed,
}
use wire_tap_server.Gateway.Writes.{copied, held_write, buffered_write, write_to, write_rows}
use wire_tap_server.Gateway.Onward.{route-Onward}

module _ {R : Type 0} where
  -- What a database that held `x` holds after the write of `rows`, and `theirs` that others may
  -- have stored in between.
  abbrev pub Accounted : List R → List R → Tables R → Write → Tables R → Type 0
  Accounted theirs rows x stored_now y = (m : Tables R) × Moved theirs x m × Taken rows m y
  Accounted theirs rows x (write_error (db_failed e)) y = Moved theirs x y
  Accounted theirs rows x (write_error (copy_failed code)) y =
      (m : Tables R) × Moved theirs x m × ((y ≡ m) ⊎ Taken rows m y)

module _ {R : Type 0} {pg : Postgres R} (l : PostgresLaws pg) (theirs rows : List R) where
  abbrev Result : Tables R → Write × Capture pg → Type 0
  Result x r = Accounted theirs rows x r.0 (l.tables r.1.db)

  copied-Accounted :
      (x : Tables R) (r : Answer (Unit {0}) × pg.Db) (c : Capture pg)
      → Moved theirs x (l.tables c.db)
      → Leaves l (l.tables c.db) (λ u y. Copied capture_frame rows (l.tables c.db) y) r
      → Result x (copied pg r c)
  copied-Accounted x (worked u, d) c m p =
      (l.tables c.db, m, Added-Taken rows (l.tables c.db) live (l.tables d) p)
  copied-Accounted x (broke code, d) c m (inl e) = (l.tables c.db, m, inl e)
  copied-Accounted x (broke code, d) c m (inr (u, p)) =
      (l.tables c.db, m, inr (Added-Taken rows (l.tables c.db) live (l.tables d) p))

  held-Accounted :
      (x : Tables R) (n : ℕ) (r : Answer Written × pg.Db) (c : Capture pg)
      → Moved theirs x (l.tables c.db)
      → Leaves l (l.tables c.db) (Landed true rows (l.tables c.db)) r
      → Result x (held_write pg n r c)
  held-Accounted x n (worked w, d) c m p =
      (l.tables c.db, m, Added-Taken rows (l.tables c.db) w (l.tables d) p.0)
  held-Accounted x n (broke code, d) c m (inl e) = (l.tables c.db, m, inl e)
  held-Accounted x n (broke code, d) c m (inr (w, p)) =
      (l.tables c.db, m, inr (Added-Taken rows (l.tables c.db) w (l.tables d) p.0))

  buffered-Accounted :
      (x : Tables R) (n : ℕ) (r : Answer Written × pg.Db) (c : Capture pg)
      → Moved theirs x (l.tables c.db)
      → Leaves l (l.tables c.db) (Landed false rows (l.tables c.db)) r
      → Result x (buffered_write pg n r c)
  buffered-Accounted x n (worked live, d) c m p =
      (l.tables c.db, m, Added-Taken rows (l.tables c.db) live (l.tables d) p.0)
  buffered-Accounted x n (worked buffered, d) c m p =
      (l.tables c.db, m, Added-Taken rows (l.tables c.db) buffered (l.tables d) p.0)
  buffered-Accounted x n (broke code, d) c m (inl e) = (l.tables c.db, m, inl e)
  buffered-Accounted x n (broke code, d) c m (inr (w, p)) =
      (l.tables c.db, m, inr (Added-Taken rows (l.tables c.db) w (l.tables d) p.0))

  write_to-Accounted :
      (in_range : R → Bool) (config : Config) (x : Tables R) (r : DbResult Route × Capture pg)
      → Moved theirs x (l.tables r.1.db)
      → Result x (write_to in_range pg config rows r)
  write_to-Accounted in_range config x (db_error e, c) m = m
  write_to-Accounted in_range config x (fine live_route, c) m =
      copied-Accounted x (copy_rows in_range pg rows c.db) c m
        (copy_rows-Copied l in_range rows c.db)
  write_to-Accounted in_range config x (fine (held_route true), c) m = m
  write_to-Accounted in_range config x (fine (held_route false), c) m =
      held-Accounted x (length rows) (buffer_rows in_range pg rows true c.db) c m
        (buffer_rows-Landed l in_range rows true c.db)
  write_to-Accounted in_range config x (fine buffered_route, c) m =
      buffered-Accounted x (length rows) (buffer_rows in_range pg rows false c.db) c m
        (buffer_rows-Landed l in_range rows false c.db)

  -- Where what other connections do while a drain waits is to add the rows `theirs`: a batch that is stored is in the database once, in its table or its buffer, with every row that was there and at most `theirs`; one that finds no database to go to changes nothing else; and one that PostgreSQL fails is there once or not at all.
  pub write_rows-Accounted :
      (in_range : R → Bool) (config : Config) (now : ℕ) (others : pg.Db → pg.Db)
      → Adds l theirs others
      → (c : Capture pg)
      → let r = write_rows in_range pg config now others rows c in
        Accounted theirs rows (l.tables c.db) r.0 (l.tables r.1.db)
  unfolding write_rows
  write_rows-Accounted in_range config now others adds c =
      write_to-Accounted in_range config (l.tables c.db) (route pg config now others c)
        (route-Onward l config theirs now others adds c)

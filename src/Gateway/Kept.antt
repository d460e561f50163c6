-- ===== src/Gateway/Kept.antt =====
-- crates/wiretap-backend/src/db.rs: no row is lost on the way to a batch's table.
use mathlib.Core.List.{Perm}
use mathlib.Core.List.Perm
use wire_tap_server.Prelude.{ℕ, ◌≡◌, refl, sym, ◌∙◌, ◌⊎◌, inl, inr, Bool, true, false, List, ◌++◌}
use wire_tap_server.Gateway.Postgres.{Postgres, PostgresLaws, Tables, Answer, worked, broke, stored}
use wire_tap_server.Gateway.Writer.{after, drain_pending, refresh_found, refresh_drained}
use wire_tap_server.Gateway.Effects.{Leaves}
use wire_tap_server.Gateway.Drain.{Drained-stored, Emptied, start, drain_pending-Emptied}
use wire_tap_server.Gateway.Databases.{drain}

module _ {R : Type 0} where
  -- The same rows, with those that others stored in between.
  abbrev pub Moved : List R → Tables R → Tables R → Type 0
  Moved theirs x y = Perm (stored y) (stored x) ⊎ Perm (stored y) (stored x ++ theirs)

  pub same_rows : {x y : Tables R} → y ≡ x → Perm (stored y) (stored x)
  same_rows {x} e = rw e (Perm.refl (stored x))

  pub stay : (theirs : List R) (x y : Tables R) → y ≡ x → Moved theirs x y
  stay theirs x y e = inl (same_rows e)

  pub then_same :
      (theirs : List R) (x y z : Tables R)
      → Moved theirs x y
      → Perm (stored z) (stored y)
      → Moved theirs x z
  then_same theirs x y z (inl p) q = inl (Perm.trans q p)
  then_same theirs x y z (inr p) q = inr (Perm.trans q p)

module _ {R : Type 0} {pg : Postgres R} (l : PostgresLaws pg) where
  -- What other connections do while a drain waits: they add the rows `theirs`.
  abbrev pub Adds : List R → (pg.Db → pg.Db) → Type 0
  Adds theirs others =
      (d : pg.Db) → Perm (stored (l.tables (others d))) (stored (l.tables d) ++ theirs)

  Emptied-stored :
      (x : Tables R) (n : ℕ) (y : Tables R) → Emptied x n y → Perm (stored y) (stored x)
  Emptied-stored x n y (inl (_, _, e)) = same_rows e
  Emptied-stored x n y (inr d) = Drained-stored x n y d

  left :
      (x : Tables R) (r : Answer ℕ × pg.Db)
      → Leaves l x (Emptied x) r
      → Perm (stored (l.tables r.1)) (stored x)
  left x (worked n, d) p = Emptied-stored x n (l.tables d) p
  left x (broke code, d) (inl e) = same_rows e
  left x (broke code, d) (inr (n, p)) = Emptied-stored x n (l.tables d) p

  start-Moved :
      (theirs : List R) (others : pg.Db → pg.Db)
      → Adds theirs others
      → (r : Answer Bool × pg.Db) → Moved theirs (l.tables r.1) (l.tables (start others r))
  start-Moved theirs others adds (broke code, d) = stay theirs (l.tables d) (l.tables d) refl
  start-Moved theirs others adds (worked false, d) = stay theirs (l.tables d) (l.tables d) refl
  start-Moved theirs others adds (worked true, d) = inr (adds d)

  drain_pending-Moved :
      (theirs : List R) (others : pg.Db → pg.Db)
      → Adds theirs others
      → (d : pg.Db) → Moved theirs (l.tables d) (l.tables (drain_pending pg others d).1)
  drain_pending-Moved theirs others adds d =
      then_same theirs (l.tables d) (l.tables (start others (pg.pending_now d)))
        (l.tables (drain_pending pg others d).1)
        (rw (sym (l.pending_now_law d)) (start-Moved theirs others adds (pg.pending_now d)))
        (left (l.tables (start others (pg.pending_now d))) (drain_pending pg others d)
          (drain_pending-Emptied l others d))

  -- Neither the rollup nor the span of a drain holds a row.
  dropped : (d : pg.Db) → Perm (stored (l.tables (pg.drop_drained d).1)) (stored (l.tables d))
  dropped d = elim (l.drop_drained_law d) [
    | inl e ↦ same_rows e
    | inr e ↦ rw e (Perm.refl (stored (l.tables d)))
  ]

  refreshed :
      (x : Tables R) (r : Answer Bool × pg.Db)
      → l.tables r.1 ≡ x
      → Perm (stored (l.tables (refresh_found pg r).1)) (stored x)
  refreshed x (broke code, d) e = same_rows e
  refreshed x (worked false, d) e = same_rows e
  refreshed x (worked true, d) e = after_refresh (pg.refresh_span d) (l.refresh_law d ∙ e)
    where
      after_refresh :
          (r : Answer (Unit {0}) × pg.Db)
          → l.tables r.1 ≡ x
          → Perm (stored (l.tables (after r (λ done d. pg.drop_drained d)).1)) (stored x)
      after_refresh (broke code, d) e = same_rows e
      after_refresh (worked done, d) e = rw (sym e) (dropped d)

  pub refresh_drained-stored :
      (d : pg.Db) → Perm (stored (l.tables (refresh_drained pg d).1)) (stored (l.tables d))
  unfolding refresh_drained
  refresh_drained-stored d = refreshed (l.tables d) (pg.drained_now d) (l.drained_now_law d)

  pub drain-Moved :
      (theirs : List R) (others : pg.Db → pg.Db)
      → Adds theirs others
      → (d : pg.Db) → Moved theirs (l.tables d) (l.tables (drain pg others d).1)
  unfolding drain
  drain-Moved theirs others adds d =
      on (drain_pending pg others d) (drain_pending-Moved theirs others adds d)
    where
      onward : (r : Answer (Unit {0}) × pg.Db) (n : ℕ) → (after r (λ done d. (worked n, d))).1 ≡ r.1
      onward (worked done, d) n = refl
      onward (broke code, d) n = refl

      on :
          (r : Answer ℕ × pg.Db)
          → Moved theirs (l.tables d) (l.tables r.1)
          → Moved theirs (l.tables d) (
              l.tables
                (after r (λ rows d. after (refresh_drained pg d) (λ done d. (worked rows, d)))).1)
      on (broke code, d') m = m
      on (worked n, d') m = rw (onward (refresh_drained pg d') n) (
          then_same theirs (l.tables d) (l.tables d') (l.tables (refresh_drained pg d').1) m
            (refresh_drained-stored d'))

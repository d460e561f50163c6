-- ===== src/Gateway/Named.antt =====
-- crates/wiretap-backend/src/db.rs: the capture databases by name, as the ingest listener uses them.
use mathlib.Core.List.{Perm}
use mathlib.Core.List.Perm
use wire_tap_server.Prelude.{
  ℕ, ◌≡◌, ◌≢◌, refl, sym, ap, ◌⊎◌, inl, inr, Bool, List, [], ◌++◌, append-nil, if◌then◌else◌,
  under_test,
}
use wire_tap_server.Model.{Text, same_text, same_text_refl, eq_of_same_text}
use wire_tap_server.Gateway.Postgres.{Postgres, PostgresLaws, Tables, stored}
use wire_tap_server.Gateway.Buffer.{Taken}
use wire_tap_server.Gateway.Kept.{Moved, Adds, same_rows}
use wire_tap_server.Gateway.Databases.{
  DbResult, Config, Capture, Write, stored_now, write_error, WriteError, db_failed, copy_failed,
}
use wire_tap_server.Gateway.Writes.{write_rows}
use wire_tap_server.Gateway.Migrate.{SchemaSql, ensure_database}
use wire_tap_server.Gateway.Stored.{Accounted, write_rows-Accounted}
use wire_tap_server.Gateway.Interface.{Captures, CapturesLaws}

-- What one name has, where it is given something else.
abbrev pub at_name {ℓ} : {X : Type ℓ} → Text → X → (Text → X) → Text → X
at_name name x s other = if same_text other name then x else s other

at_name_same {ℓ} : {X : Type ℓ} (name : Text) (x : X) (s : Text → X) → at_name name x s name ≡ x
at_name_same name x s = rw (same_text_refl name) refl

at_name_other {ℓ} :
    {X : Type ℓ} (name other : Text) (x : X) (s : Text → X)
    → other ≢ name
    → at_name name x s other ≡ s other
at_name_other name other x s apart =
    under_test (λ y. y ≡ s other) (same_text other name) x (s other)
      (λ e. absurd (apart (eq_of_same_text other name e))) (λ e. refl)

module _ {R : Type 0} where
  unmoved : (x m : Tables R) → Moved [] x m → Perm (stored m) (stored x)
  unmoved x m (inl p) = p
  unmoved x m (inr p) = rw (sym (append-nil (stored x))) p

  taken_from :
      (rows : List R) (x m y : Tables R)
      → Moved [] x m
      → Taken rows m y
      → Perm (stored y) (stored x ++ rows)
  taken_from rows x m y moved t = Perm.trans t (Perm.append_right rows (unmoved x m moved))

  -- The two ways in which a write ends.
  pub good_write :
      (rows : List R) (x y : Tables R) (w : Write)
      → Accounted [] rows x w y
      → w ≡ stored_now
      → Perm (stored y) (stored x ++ rows)
  good_write rows x y stored_now (m, moved, t) e = taken_from rows x m y moved t
  good_write rows x y (write_error why) a e = absurd cc

  pub bad_write :
      (rows : List R) (x y : Tables R) (w : Write) (why : WriteError)
      → Accounted [] rows x w y
      → w ≡ write_error why
      → Perm (stored y) (stored x) ⊎ Perm (stored y) (stored x ++ rows)
  bad_write rows x y stored_now why a e = absurd cc
  bad_write rows x y (write_error (db_failed d)) why moved e = inl (unmoved x y moved)
  bad_write rows x y (write_error (copy_failed code)) why (m, moved, inl same) e =
      inl (Perm.trans (same_rows same) (unmoved x m moved))
  bad_write rows x y (write_error (copy_failed code)) why (m, moved, inr t) e =
      inr (taken_from rows x m y moved t)

-- Each name has its own configuration and its own database of the cluster.
module _ {R : Type 0} (in_range : R → Bool) (pg : Postgres R) (sql : SchemaSql pg.Db)
    (config : Text → Config) where
  abbrev pub here : pg.Db → pg.Db
  here d = d

  abbrev pub ensured_at :
      ℕ → Text → Bool → (Text → Capture pg) → DbResult (Unit {0}) × (Text → Capture pg)
  ensured_at now name allow s =
      let r = ensure_database pg sql (config name) now here allow (s name) in
      (r.0, at_name name r.1 s)

  abbrev pub written_at : ℕ → Text → List R → (Text → Capture pg) → Write × (Text → Capture pg)
  written_at now name rows s =
      let r = write_rows in_range pg (config name) now here rows (s name) in
      (r.0, at_name name r.1 s)

  -- A step of one connection at a time: what others commit is steps of theirs.
  abbrev pub captures : Captures R
  captures = record {
    State = Text → Capture pg;
    ensure_database = ensured_at;
    write_rows = written_at;
  }

  module _ (l : PostgresLaws pg) where
    abbrev pub held_rows : Text → (Text → Capture pg) → List R
    held_rows name s = stored (l.tables (s name).db)

    nothing_added : Adds l [] here
    nothing_added d = rw (append-nil (stored (l.tables d))) (Perm.refl (stored (l.tables d)))

    pub here-Accounted :
        (now : ℕ) (name : Text) (rows : List R) (s : Text → Capture pg)
        → let r = write_rows in_range pg (config name) now here rows (s name) in
          Accounted [] rows (l.tables (s name).db) r.0 (l.tables r.1.db)
    here-Accounted now name rows s =
        write_rows-Accounted l [] rows in_range (config name) now here nothing_added (s name)

    pub held_same :
        (name : Text) (c : Capture pg) (s : Text → Capture pg)
        → held_rows name (at_name name c s) ≡ stored (l.tables c.db)
    held_same name c s = ap (λ z. stored (l.tables z.db)) (at_name_same name c s)

    pub held_other :
        (name other : Text) (c : Capture pg) (s : Text → Capture pg)
        → other ≢ name
        → held_rows other (at_name name c s) ≡ held_rows other s
    held_other name other c s apart =
        ap (λ z. stored (l.tables z.db)) (at_name_other name other c s apart)

    -- The store of rows by name that a batch is for: what it may answer, with what each name holds.
    abbrev pub Keeps : Text → List R → (Text → Capture pg) → Write × (Text → Capture pg) → Type 0
    Keeps name rows s r =
        (r.0 ≡ stored_now → Perm (held_rows name r.1) (held_rows name s ++ rows))
        × ((why : WriteError)
            → r.0 ≡ write_error why
            → Perm (held_rows name r.1) (held_rows name s)
              ⊎ Perm (held_rows name r.1) (held_rows name s ++ rows))
        × ((other : Text) → other ≢ name → held_rows other r.1 ≡ held_rows other s)

    -- Every route of a batch, live, buffered or held for an import, keeps to the same store of rows by name: a batch that is stored adds its rows to its own name, once; one that fails adds them once or not at all; and no other name changes, whatever is drained on the way.
    pub written_at-Keeps :
        (now : ℕ) (name : Text) (rows : List R) (s : Text → Capture pg)
        → Keeps name rows s (written_at now name rows s)
    written_at-Keeps now name rows s =
        let r = write_rows in_range pg (config name) now here rows (s name) in
        let x = l.tables (s name).db in
        let a = here-Accounted now name rows s in
        (
          λ e. rw (held_same name r.1 s) (good_write rows x (l.tables r.1.db) r.0 a e),
          λ why e. rw (held_same name r.1 s) (bad_write rows x (l.tables r.1.db) r.0 why a e),
          λ other apart. held_other name other r.1 s apart,
        )

    abbrev pub captures_laws : CapturesLaws captures
    captures_laws = record {
      rows_of = held_rows;
      ensure_others = λ now name other allow s apart. held_other name other _ s apart;
      write_others =
          λ now name other rows s apart. (written_at-Keeps now name rows s).2 other apart;
      write_stored = λ now name rows s. (written_at-Keeps now name rows s).0;
      write_failed = λ now name rows s. (written_at-Keeps now name rows s).1;
    }

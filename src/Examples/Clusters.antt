-- ===== src/Examples/Clusters.antt =====
-- crates/wiretap-backend/src/ingest/writer.rs: a database over lists, for examples.
use mathlib.Core.List.Perm
use wire_tap_server.Prelude.{
  ◌+◌, ◌-◌, arith, ℕ, ◌≡◌, refl, inl, inr, Bool, true, false, List, ◌++◌, Option, none, some,
  length, is_some,
}
use wire_tap_server.Gateway.Postgres.{
  Tables, rows_in, Answer, worked, broke, Target, capture_frame, capture_frame_pending, Fingerprint,
  Postgres, PostgresLaws, Copied, Holds,
}
use wire_tap_server.Gateway.Migrate.{SchemaSql}
use wire_tap_server.Gateway.Versions.{SchemaLaws}

-- The tables, the schema's version, and whether the database is there.
pub record ListDb (R : Type 0) : Type 0 where
  pub tables : Tables R
  pub version : ℕ
  pub level : ℕ
  pub exists : Bool

-- As it began, and as it is.
pub record ListTx (R : Type 0) : Type 0 where
  pub began : ListDb R
  pub now : ListDb R

pub same_answer : (a b : Bool) → worked a ≡ worked b → b ≡ a
same_answer a b e = cc

module _ {R : Type 0} where
  abbrev pub fine_in : {B : Type 0} → B → ListTx R → Answer B × ListTx R
  fine_in b t = (worked b, t)

  abbrev pub change : (Tables R → Tables R) → ListTx R → ListTx R
  change f t = record t { now = record (t.now) { tables = f t.now.tables } }

  abbrev pub buffer_in_list : Option (List R) → List R → ListTx R → Answer (Unit {0}) × ListTx R
  buffer_in_list none rows t = (broke none, t)
  buffer_in_list (some rs) rows t =
      (worked tt, change (λ x. record x { pending = some (rs ++ rows) }) t)

  abbrev pub copy_in_list : Target → List R → ListTx R → Answer (Unit {0}) × ListTx R
  copy_in_list capture_frame rows t =
      (worked tt, change (λ x. record x { live = x.live ++ rows }) t)
  copy_in_list capture_frame_pending rows t = buffer_in_list t.now.tables.pending rows t

  abbrev pub seen : ListDb R → Fingerprint
  seen d = record { tracked = true; legacy = none; renamed = true }

  abbrev pub list_postgres : Postgres R
  list_postgres = record {
    Db = ListDb R;
    Tx = ListTx R;
    begin = λ d. (worked (record { began = d; now = d }), d);
    commit = λ t. (worked tt, t.now);
    rollback = λ t. t.began;
    try_lock_shared = λ t. fine_in true t;
    lock_exclusive = λ t. fine_in tt t;
    fingerprint = λ t. fine_in (seen t.now) t;
    recorded_version = λ t. fine_in t.now.version t;
    has_pending = λ t. fine_in (is_some t.now.tables.pending) t;
    lock_create = λ t. fine_in tt t;
    create_pending =
        λ t. (worked tt, change (λ x. record x { pending = some (rows_in x.pending) }) t);
    copy_in = copy_in_list;
    record_span = λ t. (worked tt, change (λ x. record x { drained = true }) t);
    insert_pending = λ t. (
      worked (length (rows_in t.now.tables.pending)),
      change (λ x. record x { live = x.live ++ rows_in x.pending }) t,
    );
    drop_pending = λ t. (worked tt, change (λ x. record x { pending = none }) t);
    copy_live = λ rows d.
        (worked tt, record d { tables = record (d.tables) { live = d.tables.live ++ rows } });
    pending_now = λ d. (worked (is_some d.tables.pending), d);
    fingerprint_now = λ d. (worked (seen d), d);
    version_now = λ d. (worked d.version, d);
    drained_now = λ d. (worked d.tables.drained, d);
    refresh_span = λ d. (worked tt, d);
    drop_drained = λ d. (worked tt, record d { tables = record (d.tables) { drained = false } });
    exists_now = λ d. (worked d.exists, d);
  }

  buffered_lem :
      (o : Option (List R)) (rows : List R) (t : ListTx R)
      → t.now.tables.pending ≡ o
      → Holds list_postgres
          (λ t. t.began.tables)
          (λ t. t.now.tables)
          t.began.tables
          (λ b y. Copied capture_frame_pending rows t.now.tables y)
          (buffer_in_list o rows t)
  buffered_lem none rows t e = refl
  buffered_lem (some rs) rows t e = rw e (refl, (refl, Perm.refl (rs ++ rows), refl, refl, refl))

  pub copied_lem :
      (to : Target) (rows : List R) (t : ListTx R)
      → Holds list_postgres
          (λ t. t.began.tables)
          (λ t. t.now.tables)
          t.began.tables
          (λ b y. Copied to rows t.now.tables y)
          (copy_in_list to rows t)
  copied_lem capture_frame rows t = (refl, (Perm.refl (t.now.tables.live ++ rows), refl, refl))
  copied_lem capture_frame_pending rows t = buffered_lem t.now.tables.pending rows t refl

  pub began_lem :
      (d : ListDb R) (t : ListTx R)
      → ◌≡◌ {A = Answer (ListTx R)} (worked (record { began = d; now = d })) (worked t)
      → (t.began.tables ≡ d.tables) × (t.now.tables ≡ d.tables)
  began_lem d t e = rw (worked_back t e) (refl, refl)
    where
      worked_back :
          (t : ListTx R)
          → ◌≡◌ {A = Answer (ListTx R)} (worked (record { began = d; now = d })) (worked t)
          → t ≡ record { began = d; now = d }
      worked_back t e = cc

  abbrev pub list_laws : PostgresLaws list_postgres
  list_laws = record {
    tables = λ d. d.tables;
    before = λ t. t.began.tables;
    view = λ t. t.now.tables;
    begin_law = λ d. (refl, began_lem d);
    commit_law = λ t. inl refl;
    rollback_law = λ t. refl;
    shared_law = λ t. (refl, refl);
    exclusive_law = λ t. (refl, refl);
    fingerprint_law = λ t. (refl, refl);
    version_law = λ t. (refl, refl);
    has_pending_law = λ t. (refl, (refl, refl));
    lock_create_law = λ t. (refl, refl);
    create_law = λ t. (refl, refl);
    copy_law = copied_lem;
    span_law = λ t. (refl, refl);
    insert_law = λ t.
        (refl, (refl, (Perm.refl (t.now.tables.live ++ rows_in t.now.tables.pending), refl, refl)));
    drop_law = λ t. (refl, refl);
    copy_live_law = λ rows d. (Perm.refl (d.tables.live ++ rows), refl, refl);
    pending_now_law = λ d. refl;
    pending_is = λ d b. same_answer (is_some d.tables.pending) b;
    fingerprint_now_law = λ d. refl;
    version_now_law = λ d. refl;
    drained_now_law = λ d. refl;
    refresh_law = λ d. refl;
    drop_drained_law = λ d. inr refl;
    exists_law = λ d. refl;
  }

  abbrev pub list_sql : SchemaSql (ListDb R)
  list_sql = record {
    apply_progress = λ d. (worked tt, d);
    apply_migration = λ m d. (worked tt, record d { level = m + (d.level - m) });
    apply_capture_schema = λ d. (worked tt, record d { version = 5 });
    rollup_incomplete = λ d. (worked false, d);
    refresh_rollup = λ d. (worked tt, d);
    create = λ d. (worked tt, record d { exists = true });
  }

  abbrev pub list_versions : SchemaLaws list_sql
  list_versions = record {
    version = λ d. d.version;
    level = λ d. d.level;
    progress_law = λ d. (refl, refl);
    migration_law = λ m d e. (refl, omega arith, λ done. omega arith);
    schema_law = λ d e le. (omega arith, inl refl);
  }

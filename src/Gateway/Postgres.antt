-- ===== src/Gateway/Postgres.antt =====
-- PostgreSQL, as crates/wiretap-backend/src/ingest/writer.rs and schema.rs use it on one capture
-- database: statements in a transaction, with what they do to the tables.
use mathlib.Core.List.{Perm}
use wire_tap_server.Prelude.{
  ℕ, ◌≡◌, ◌⊎◌, Bool, true, false, List, [], ◌++◌, Option, none, some, length, is_some,
}
use wire_tap_server.Model.{Text}

-- The tables of frames: `capture_frame`, `capture_frame_pending` where it exists, and whether
-- `capture_frame_drained` does.
pub record Tables (R : Type 0) : Type 0 where
  pub live : List R
  pub pending : Option (List R)
  pub drained : Bool

abbrev pub rows_in : {R : Type 0} → Option (List R) → List R
rows_in none = []
rows_in (some rs) = rs

-- Every row that a database holds.
abbrev pub stored : {R : Type 0} → Tables R → List R
stored x = x.live ++ rows_in x.pending

-- A result, whose error has the SQLSTATE where PostgreSQL gave one.
pub data Answer (B : Type 0) : Type 0 where
  worked : B → Answer B
  broke : Option Text → Answer B

-- `capture_frame` or its buffer.
pub data Target : Type 0 where
  capture_frame capture_frame_pending : Target

-- The answers of the schema's probe: whether `schema_version` exists, `can_frame` is a table, and
-- `capture_frame` exists.
pub record Fingerprint : Type 0 where
  pub tracked : Bool
  pub legacy : Option Bool
  pub renamed : Bool

pub record Postgres (R : Type 0) : Type 1 where
  pub Db : Type 0
  pub Tx : Type 0
  pub begin : Db → Answer Tx × Db
  pub commit : Tx → Answer (Unit {0}) × Db
  pub rollback : Tx → Db
  pub try_lock_shared : Tx → Answer Bool × Tx
  pub lock_exclusive : Tx → Answer (Unit {0}) × Tx
  pub fingerprint : Tx → Answer Fingerprint × Tx
  pub recorded_version : Tx → Answer ℕ × Tx
  pub has_pending : Tx → Answer Bool × Tx
  pub lock_create : Tx → Answer (Unit {0}) × Tx
  pub create_pending : Tx → Answer (Unit {0}) × Tx
  pub copy_in : Target → List R → Tx → Answer (Unit {0}) × Tx
  pub record_span : Tx → Answer (Unit {0}) × Tx
  pub insert_pending : Tx → Answer ℕ × Tx
  pub drop_pending : Tx → Answer (Unit {0}) × Tx
  pub copy_live : List R → Db → Answer (Unit {0}) × Db
  pub pending_now : Db → Answer Bool × Db
  pub fingerprint_now : Db → Answer Fingerprint × Db
  pub version_now : Db → Answer ℕ × Db
  pub drained_now : Db → Answer Bool × Db
  pub refresh_span : Db → Answer (Unit {0}) × Db
  pub drop_drained : Db → Answer (Unit {0}) × Db
  pub exists_now : Db → Answer Bool × Db

-- The rows `rs` are added to those of a table, which has no order.
abbrev pub Copied : {R : Type 0} → Target → List R → Tables R → Tables R → Type 0
Copied capture_frame rs x y =
    Perm y.live (x.live ++ rs) × (y.pending ≡ x.pending) × (y.drained ≡ x.drained)
Copied capture_frame_pending rs x y =
    (y.live ≡ x.live)
    × Perm (rows_in y.pending) (rows_in x.pending ++ rs)
    × (is_some x.pending ≡ true)
    × (is_some y.pending ≡ true)
    × (y.drained ≡ x.drained)

module _ {R : Type 0} (pg : Postgres R) where
  -- What a statement leaves in its transaction, which began with the tables `x`: what it shows
  -- next when it works, and nothing of it when it fails.
  abbrev pub Holds :
      {B : Type 0}
      → (pg.Tx → Tables R)
      → (pg.Tx → Tables R)
      → Tables R
      → (B → Tables R → Type 0)
      → Answer B × pg.Tx
      → Type 0
  Holds before view x P (worked b, t) = (before t ≡ x) × P b (view t)
  Holds before view x P (broke code, t) = before t ≡ x

  -- What a call leaves in the database: an error leaves it as it was, or is only that of the answer.
  abbrev pub Ends :
      {B : Type 0}
      → (pg.Db → Tables R)
      → Tables R
      → (B → Tables R → Type 0)
      → Answer B × pg.Db
      → Type 0
  Ends tables x P (worked b, d) = P b (tables d)
  Ends {B} tables x P (broke code, d) = (tables d ≡ x) ⊎ ((b : B) × P b (tables d))

-- What PostgreSQL documents: a transaction shows its own changes, which a commit makes lasting and
-- a rollback forgets; an error of a commit leaves open which.
pub record PostgresLaws {R : Type 0} (pg : Postgres R) : Type 0 where
  pub tables : pg.Db → Tables R
  pub before : pg.Tx → Tables R
  pub view : pg.Tx → Tables R
  pub begin_law :
      (d : pg.Db)
      → (tables (pg.begin d).1 ≡ tables d)
        × ((t : pg.Tx) → (pg.begin d).0 ≡ worked t → (before t ≡ tables d) × (view t ≡ tables d))
  pub commit_law :
      (t : pg.Tx)
      → (tables (pg.commit t).1 ≡ view t)
        ⊎ ((code : Option Text) × ((pg.commit t).0 ≡ broke code))
          × (tables (pg.commit t).1 ≡ before t)
  pub rollback_law : (t : pg.Tx) → tables (pg.rollback t) ≡ before t
  pub shared_law :
      (t : pg.Tx) → Holds pg before view (before t) (λ b y. y ≡ view t) (pg.try_lock_shared t)
  pub exclusive_law :
      (t : pg.Tx) → Holds pg before view (before t) (λ b y. y ≡ view t) (pg.lock_exclusive t)
  pub fingerprint_law :
      (t : pg.Tx) → Holds pg before view (before t) (λ b y. y ≡ view t) (pg.fingerprint t)
  pub version_law :
      (t : pg.Tx) → Holds pg before view (before t) (λ b y. y ≡ view t) (pg.recorded_version t)
  pub has_pending_law :
      (t : pg.Tx)
      → Holds pg before view
          (before t)
          (λ b y. (y ≡ view t) × (b ≡ is_some (view t).pending))
          (pg.has_pending t)
  pub lock_create_law :
      (t : pg.Tx) → Holds pg before view (before t) (λ b y. y ≡ view t) (pg.lock_create t)
  -- `IF NOT EXISTS`.
  pub create_law :
      (t : pg.Tx)
      → Holds pg before view
          (before t)
          (λ b y. y ≡ record (view t) { pending = some (rows_in (view t).pending) })
          (pg.create_pending t)
  pub copy_law :
      (to : Target) (rs : List R) (t : pg.Tx)
      → Holds pg before view (before t) (λ b y. Copied to rs (view t) y) (pg.copy_in to rs t)
  pub span_law :
      (t : pg.Tx)
      → Holds pg before view
          (before t)
          (λ b y. y ≡ record (view t) { drained = true })
          (pg.record_span t)
  pub insert_law :
      (t : pg.Tx)
      → Holds pg before view
          (before t)
          (λ n y.
            (n ≡ length (rows_in (view t).pending))
            × Copied capture_frame (rows_in (view t).pending) (view t) y)
          (pg.insert_pending t)
  pub drop_law :
      (t : pg.Tx)
      → Holds pg before view
          (before t)
          (λ b y. y ≡ record (view t) { pending = none })
          (pg.drop_pending t)
  pub copy_live_law :
      (rs : List R) (d : pg.Db)
      → Ends pg tables (tables d) (λ b y. Copied capture_frame rs (tables d) y) (pg.copy_live rs d)
  pub pending_now_law : (d : pg.Db) → tables (pg.pending_now d).1 ≡ tables d
  pub pending_is :
      (d : pg.Db) (b : Bool) → (pg.pending_now d).0 ≡ worked b → b ≡ is_some (tables d).pending
  pub fingerprint_now_law : (d : pg.Db) → tables (pg.fingerprint_now d).1 ≡ tables d
  pub version_now_law : (d : pg.Db) → tables (pg.version_now d).1 ≡ tables d
  pub drained_now_law : (d : pg.Db) → tables (pg.drained_now d).1 ≡ tables d
  pub refresh_law : (d : pg.Db) → tables (pg.refresh_span d).1 ≡ tables d
  pub drop_drained_law :
      (d : pg.Db)
      → (tables (pg.drop_drained d).1 ≡ tables d)
        ⊎ (tables (pg.drop_drained d).1 ≡ record (tables d) { drained = false })
  pub exists_law : (d : pg.Db) → tables (pg.exists_now d).1 ≡ tables d

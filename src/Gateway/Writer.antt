-- ===== src/Gateway/Writer.antt =====
-- crates/wiretap-backend/src/ingest/writer.rs: batches into `capture_frame` or its buffer, and the
-- buffer into `capture_frame`; with `detect_version` of schema.rs.
use wire_tap_server.Prelude.{
  ℕ, Bool, true, false, List, [], ◌∷◌, Option, none, some, all, ◌==◌, ◌&&◌, ◌||◌, if◌then◌else◌,
}
use wire_tap_server.Model.{Text}
use wire_tap_server.Gateway.Postgres.{
  Postgres, Answer, worked, broke, capture_frame, capture_frame_pending, Fingerprint,
}

-- `SCHEMA_VERSION`.
abbrev pub schema_version : ℕ
schema_version = 5

-- Where `buffer_rows` put a batch.
pub data Written : Type 0 where
  buffered live : Written

-- SQLSTATE 22008, `datetime_field_overflow`.
abbrev pub datetime_field_overflow : Text
datetime_field_overflow = 50 ∷ 50 ∷ 48 ∷ 48 ∷ 56 ∷ []

abbrev class_is_refusal : Text → Bool
class_is_refusal (a ∷ b ∷ rest) = (a == 50) && ((b == 50) || (b == 51))
class_is_refusal (a ∷ []) = false
class_is_refusal [] = false

-- Class 22 or 23.
unfoldable pub refused_the_rows : Option Text → Bool
refused_the_rows none = false
refused_the_rows (some code) = class_is_refusal code

-- `?`.
abbrev pub after : {T B C : Type 0} → Answer B × T → (B → T → Answer C × T) → Answer C × T
after (worked b, t) k = k b t
after (broke code, t) k = (broke code, t)

-- An error that is a string, or `pool_error`.
abbrev pub uncoded : {T B : Type 0} → Answer B × T → Answer B × T
uncoded (worked b, t) = (worked b, t)
uncoded (broke code, t) = (broke none, t)

abbrev pub version_of : Fingerprint → Option ℕ
version_of f = elim f.legacy [ some true ↦ some 0 | _ ↦ if f.renamed then some 1 else none ]

abbrev pub is_current : Option ℕ → Bool
is_current none = false
is_current (some v) = v == schema_version

-- `detect_version`, with its two queries.
unfoldable pub detect_version :
    {T : Type 0} → (T → Answer Fingerprint × T) → (T → Answer ℕ × T) → T → Answer (Option ℕ) × T
detect_version fingerprint recorded t = after (uncoded (fingerprint t)) (λ f t.
    if f.tracked
    then after (uncoded (recorded t)) (λ v t. (worked (some v), t))
    else (worked (version_of f), t))

module _ {R : Type 0} (pg : Postgres R) where
  abbrev pub commit_with : {B : Type 0} → B → Answer (Unit {0}) × pg.Db → Answer B × pg.Db
  commit_with b (worked done, d) = (worked b, d)
  commit_with b (broke code, d) = (broke code, d)

  -- A transaction that fails is dropped.
  abbrev pub concluded : {B : Type 0} → Answer B × pg.Tx → Answer B × pg.Db
  concluded (broke code, t) = (broke code, pg.rollback t)
  concluded (worked b, t) = commit_with b (pg.commit t)

  -- Whether the rows go to `capture_frame`.
  unfoldable pub decide : Bool → pg.Tx → Answer Bool × pg.Tx
  decide held t =
      if held
      then (worked false, t)
      else after (uncoded (detect_version pg.fingerprint pg.recorded_version t))
          (λ v t. (worked (is_current v), t))

  unfoldable pub ensure_pending : pg.Tx → Answer (Unit {0}) × pg.Tx
  ensure_pending t = after (uncoded (pg.has_pending t)) (λ there t.
      if there then (worked tt, t) else after (pg.lock_create t) (λ done t. pg.create_pending t))

  abbrev pub copy_into : Bool → List R → pg.Tx → Answer Written × pg.Tx
  copy_into true rows t = after (pg.copy_in capture_frame rows t) (λ done t. (worked live, t))
  copy_into false rows t =
      after (ensure_pending t)
        (λ done t. after (pg.copy_in capture_frame_pending rows t) (λ done t. (worked buffered, t)))

  unfoldable pub buffer_in : Bool → List R → pg.Tx → Answer Written × pg.Tx
  buffer_in held rows t = after (pg.try_lock_shared t) (λ locked t.
      if locked
      then after (decide held t) (λ current t. copy_into current rows t)
      else (broke none, t))

  abbrev pub buffer_begun : Bool → List R → Answer pg.Tx × pg.Db → Answer Written × pg.Db
  buffer_begun held rows (broke code, d) = (broke code, d)
  buffer_begun held rows (worked t, d) = concluded (buffer_in held rows t)

  unfoldable pub drain_in : pg.Tx → Answer ℕ × pg.Tx
  drain_in t = after (pg.record_span t) (λ done t.
      after (pg.insert_pending t)
        (λ rows t. after (pg.drop_pending t) (λ done t. (worked rows, t))))

  -- The buffer asked for again, under the lock.
  abbrev pub drain_locked : Answer Bool × pg.Tx → Answer ℕ × pg.Db
  drain_locked (broke code, t) = (broke code, pg.rollback t)
  drain_locked (worked false, t) = (worked 0, pg.rollback t)
  drain_locked (worked true, t) = concluded (drain_in t)

  abbrev pub drain_begun : Answer pg.Tx × pg.Db → Answer ℕ × pg.Db
  drain_begun (broke code, d) = (broke code, d)
  drain_begun (worked t, d) =
      drain_locked (after (pg.lock_exclusive t) (λ done t. pg.has_pending t))

  -- `others` is what other connections commit before the lock is had.
  abbrev pub drain_found : (pg.Db → pg.Db) → Answer Bool × pg.Db → Answer ℕ × pg.Db
  drain_found others (broke code, d) = (broke code, d)
  drain_found others (worked false, d) = (worked 0, d)
  drain_found others (worked true, d) = drain_begun (pg.begin (others d))

  unfoldable pub drain_pending : (pg.Db → pg.Db) → pg.Db → Answer ℕ × pg.Db
  drain_pending others d = drain_found others (pg.pending_now d)

  abbrev pub refresh_found : Answer Bool × pg.Db → Answer (Unit {0}) × pg.Db
  refresh_found (broke code, d) = (broke code, d)
  refresh_found (worked false, d) = (worked tt, d)
  refresh_found (worked true, d) = after (pg.refresh_span d) (λ done d. pg.drop_drained d)

  unfoldable pub refresh_drained : pg.Db → Answer (Unit {0}) × pg.Db
  refresh_drained d = refresh_found (pg.drained_now d)

-- `in_range` is chrono's, of a row's timestamp.
module _ {R : Type 0} (in_range : R → Bool) (pg : Postgres R) where
  -- The error of `copy_text`, if it has one; the text itself stands for the rows.
  unfoldable pub copy_text : List R → Answer (List R)
  copy_text rows = if all in_range rows then worked rows else broke (some datetime_field_overflow)

  abbrev pub copy_checked : Answer (List R) → pg.Db → Answer (Unit {0}) × pg.Db
  copy_checked (broke code) d = (broke code, d)
  copy_checked (worked rows) d = pg.copy_live rows d

  unfoldable pub copy_rows : List R → pg.Db → Answer (Unit {0}) × pg.Db
  copy_rows rows d = copy_checked (copy_text rows) d

  abbrev pub buffer_checked : Bool → Answer (List R) → pg.Db → Answer Written × pg.Db
  buffer_checked held (broke code) d = (broke code, d)
  buffer_checked held (worked rows) d = buffer_begun pg held rows (pg.begin d)

  unfoldable pub buffer_rows : List R → Bool → pg.Db → Answer Written × pg.Db
  buffer_rows rows held d = buffer_checked held (copy_text rows) d

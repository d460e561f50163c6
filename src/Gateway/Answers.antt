-- ===== src/Gateway/Answers.antt =====
-- crates/wiretap-backend/src/ingest/mod.rs: who may write where, and what an acknowledgement says.
use mathlib.Core.List.{Perm}
use wire_tap_server.Prelude.{
  ℕ, ◌≡◌, ◌≢◌, refl, sym, ap, ◌∙◌, ◌⊎◌, inl, inr, Bool, true, false, List, [], ◌∷◌, ◌++◌, Option,
  none, some, length, if◌then◌else◌, under_test,
}
use wire_tap_server.Model.{Text, same_text, eq_of_same_text}
use wire_tap_server.Gateway.Writer.{refused_the_rows}
use wire_tap_server.Gateway.Databases.{
  refused, unavailable, DbResult, fine, db_error, Write, stored_now, write_error, WriteError,
  db_failed, copy_failed,
}
use wire_tap_server.Gateway.Keys.{KeyInfo, KeyStore, validate_from, allows_ingest}
use wire_tap_server.Gateway.Rows.{FrameRow}
use wire_tap_server.Gateway.Sessions.{stored_batch}
use wire_tap_server.Gateway.Interface.{CapturesLaws, Hello, MachineLaws}
use wire_tap_server.Gateway.Hello.{
  Gear, Session, IngestServer, Verdict, accepted, rejected, choose_database, ensured, chosen,
  validated, handle_hello, written, write_batch, ack_for_copy_error,
}

-- A key with a pin writes to its pin, asked for or not; one without writes where it asks to.
abbrev pub Allowed : Option Text → Text → Text → Type 0
Allowed (some pin) asked used = (used ≡ pin) × ((asked ≡ []) ⊎ (asked ≡ pin))
Allowed none asked used = (used ≡ asked) × (asked ≢ [])

module _ (g : Gear) where
  abbrev pub Chosen : Option Text → Text → ℕ ⊎ Text → Type 0
  Chosen pin asked (inl status) =
      (status ≡ g.machine.hello_bad_auth) ⊎ (status ≡ g.machine.hello_bad_database)
  Chosen pin asked (inr used) = Allowed pin asked used

  choose_database-Chosen :
      (pin : Option Text) (asked : Text) → Chosen pin asked (choose_database g pin asked)
  unfolding choose_database
  choose_database-Chosen (some pin) [] = (refl, inl refl)
  choose_database-Chosen (some pin) (c ∷ cs) =
      under_test (Chosen (some pin) (c ∷ cs)) (same_text (c ∷ cs) pin) _ _
        (λ e. (refl, inr (eq_of_same_text (c ∷ cs) pin e))) (λ e. inl refl)
  choose_database-Chosen none [] = inr refl
  choose_database-Chosen none (c ∷ cs) = (refl, λ e. cc)

  -- What a hello's verdict says of the key that it came with.
  abbrev pub Judged : Hello → Option (Option KeyInfo) → Verdict g × IngestServer g → Type 0
  Judged h key (accepted session as_given, s) =
      (info : KeyInfo) × (key ≡ some (some info))
      × (allows_ingest info.role ≡ true)
      × Allowed info.database_pin h.database session.database
  Judged h key (rejected status, s) =
      (status ≡ g.machine.hello_bad_auth)
      ⊎ (status ≡ g.machine.hello_bad_database)
      ⊎ (status ≡ g.machine.hello_unavailable)

  ensured-Judged :
      (now : ℕ) (h : Hello) (peer : Text) (tag : ℕ) (info : KeyInfo) (database : Text)
      (r : DbResult (Unit {0}) × g.capture.State) (s : IngestServer g)
      → allows_ingest info.role ≡ true
      → Allowed info.database_pin h.database database
      → Judged h (some (some info)) (ensured g now h peer tag info database r s)
  ensured-Judged now h peer tag info database (db_error refused, d) s role may = inr (inl refl)
  ensured-Judged now h peer tag info database (db_error unavailable, d) s role may = inr (inr refl)
  ensured-Judged now h peer tag info database (fine u, d) s role may = (info, refl, role, may)

  chosen-Judged :
      (now : ℕ) (h : Hello) (peer : Text) (tag : ℕ) (info : KeyInfo) (r : ℕ ⊎ Text)
      (s : IngestServer g)
      → allows_ingest info.role ≡ true
      → Chosen info.database_pin h.database r
      → Judged h (some (some info)) (chosen g now h peer tag info r s)
  chosen-Judged now h peer tag info (inl status) s role (inl e) = inl e
  chosen-Judged now h peer tag info (inl status) s role (inr e) = inr (inl e)
  chosen-Judged now h peer tag info (inr database) s role may =
      ensured-Judged now h peer tag info database
        (g.capture.ensure_database now database true s.dbs) s role may

  validated-Judged :
      (now : ℕ) (h : Hello) (peer : Text) (tag : ℕ) (r : Option (Option KeyInfo) × KeyStore g.key)
      (s : IngestServer g)
      → Judged h r.0 (validated g now h peer tag r s)
  validated-Judged now h peer tag (none, k) s = inl refl
  validated-Judged now h peer tag (some none, k) s = inl refl
  validated-Judged now h peer tag (some (some info), k) s =
      under_test (Judged h (some (some info))) (allows_ingest info.role) _ _
        (λ role.
          chosen-Judged now h peer tag info (choose_database g info.database_pin h.database)
            (record s { keys = k }) role (choose_database-Chosen info.database_pin h.database))
        (λ role. inl refl)

  -- A hello is accepted only with a key that is known and may ingest, and then for the database that the key is pinned to, or the one named where it has no pin; another is refused for the key, for the database, or as unavailable.
  pub handle_hello-Judged :
      (now : ℕ) (h : Hello) (ip : ℕ) (peer : Text) (tag : ℕ) (s : IngestServer g)
      → Judged h
          (validate_from g.key ip (g.lossy h.token) s.keys).0
          (handle_hello g now h ip peer tag s)
  unfolding handle_hello
  handle_hello-Judged now h ip peer tag s =
      validated-Judged now h peer tag (validate_from g.key ip (g.lossy h.token) s.keys) s

module _ (g : Gear) (k : CapturesLaws g.capture) (m : MachineLaws g.machine) where
  -- What the status of a batch says: all of its rows are in the session's database, and counted, or
  -- it is refused, and they are there or not.
  abbrev pub Answered : Session → List FrameRow → IngestServer g → ℕ → IngestServer g → Type 0
  Answered session rows s status s' =
      let old = k.rows_of session.database s.dbs in
      let new = k.rows_of session.database s'.dbs in
      ((status ≡ g.machine.ack_ok)
        × Perm new (old ++ rows)
        × (s'.sessions ≡ stored_batch session.id (length rows) s.sessions))
      ⊎ ((status ≢ g.machine.ack_ok)
          × (Perm new old ⊎ Perm new (old ++ rows))
          × (s'.sessions ≡ s.sessions))

  not_ok :
      (b : Bool)
      → (if b then g.machine.ack_malformed else g.machine.ack_overloaded) ≢ g.machine.ack_ok
  not_ok true e = m.ok_malformed (sym e)
  not_ok false e = m.ok_overloaded (sym e)

  written-Answered :
      (session : Session) (rows : List FrameRow) (r : Write × g.capture.State) (s : IngestServer g)
      → (r.0 ≡ stored_now
          → Perm (k.rows_of session.database r.1) (k.rows_of session.database s.dbs ++ rows))
      → ((e : WriteError)
          → r.0 ≡ write_error e
          → Perm (k.rows_of session.database r.1) (k.rows_of session.database s.dbs)
            ⊎ Perm (k.rows_of session.database r.1) (k.rows_of session.database s.dbs ++ rows))
      → let (status, s') = written g session (length rows) r s in Answered session rows s status s'
  unfolding ack_for_copy_error
  written-Answered session rows (stored_now, d) s good bad = inl (refl, good refl, refl)
  written-Answered session rows (write_error (copy_failed code), d) s good bad =
      inr (not_ok (refused_the_rows code), bad (copy_failed code) refl, refl)
  written-Answered session rows (write_error (db_failed e), d) s good bad =
      inr (not_ok false, bad (db_failed e) refl, refl)

  -- A batch is acknowledged as taken exactly with all of its rows added, once, to the database of its session and counted for the session; with any other status no session changes, and its rows were added once or not at all.
  pub write_batch-Answered :
      (now : ℕ) (session : Session) (rows : List FrameRow) (s : IngestServer g)
      → let (status, s') = write_batch g now session rows s in Answered session rows s status s'
  unfolding write_batch
  write_batch-Answered now session rows s =
      written-Answered session rows (g.capture.write_rows now session.database rows s.dbs) s
        (k.write_stored now session.database rows s.dbs)
        (k.write_failed now session.database rows s.dbs)

  written_dbs :
      (session : Session) (n : ℕ) (r : Write × g.capture.State) (s : IngestServer g)
      → (written g session n r s).1.dbs ≡ r.1
  written_dbs session n (stored_now, d) s = refl
  written_dbs session n (write_error (copy_failed code), d) s = refl
  written_dbs session n (write_error (db_failed e), d) s = refl

  -- A batch leaves the rows of every other database as they were.
  pub write_batch_others :
      (now : ℕ) (session : Session) (rows : List FrameRow) (s : IngestServer g) (other : Text)
      → other ≢ session.database
      → k.rows_of other (write_batch g now session rows s).1.dbs ≡ k.rows_of other s.dbs
  unfolding write_batch
  write_batch_others now session rows s other apart =
      ap (k.rows_of other)
        (written_dbs session (length rows) (g.capture.write_rows now session.database rows s.dbs) s)
      ∙ k.write_others now session.database other rows s.dbs apart

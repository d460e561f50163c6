-- ===== src/Gateway/Owned.antt =====
-- crates/wiretap-backend/src/ingest/mod.rs: a connection has at most one live session, and none
-- when it has ended.
use wire_tap_server.Prelude.{
  ℕ, ◌<◌, ◌≡◌, refl, sym, ap, ◌∙◌, ◌⊎◌, true, List, [], ◌∷◌, Option, none, some, All, inl, inr,
  arith, both_branches,
}
use wire_tap_server.Model.{Text}
use wire_tap_server.Gateway.Databases.{
  refused, unavailable, DbResult, fine, db_error, Write, stored_now, write_error, db_failed,
  copy_failed,
}
use wire_tap_server.Gateway.Keys.{KeyInfo, KeyStore, validate_from, allows_ingest}
use wire_tap_server.Gateway.Sessions.{IngestSessionInfo, open_session, close_session, stored_batch}
use wire_tap_server.Gateway.Interface.{Hello}
use wire_tap_server.Gateway.Hello.{
  Gear, Session, IngestServer, Verdict, accepted, rejected, choose_database, ensured, chosen,
  validated, handle_hello, written,
}
use wire_tap_server.Gateway.Connection.{Connection, close_previous, greeted, hello}
use wire_tap_server.Gateway.Registry.{
  tagged, drop_id, Below, tagged-without_id, without_id-All, tagged-All, open_session-Below,
  tagged-open_session, update_id-tagged, update_id-All,
}

module _ (g : Gear) where
  abbrev pub ids_of : Option Session → List ℕ
  ids_of none = []
  ids_of (some s) = s.id ∷ []

  -- The live sessions of the connection are the one that it holds, if it holds one.
  abbrev pub Owns : ℕ → Option Session → IngestServer g → Type 0
  Owns tag authed s = Below s.sessions × (tagged tag s.sessions.inner ≡ ids_of authed)

  -- What a hello does to the registry.
  abbrev pub Entered : Hello → ℕ → IngestServer g → Verdict g × IngestServer g → Type 0
  Entered h tag s (accepted session as_given, s') =
      (info : IngestSessionInfo) × (s'.sessions
        ≡ (open_session info h.daemon_id h.devices tag s.sessions).1)
      × (session.id ≡ s.sessions.next_id)
  Entered h tag s (rejected status, s') = s'.sessions ≡ s.sessions

  ensured-Entered :
      (now : ℕ) (h : Hello) (peer : Text) (tag : ℕ) (info : KeyInfo) (database : Text)
      (r : DbResult (Unit {0}) × g.capture.State) (s s0 : IngestServer g)
      → s.sessions ≡ s0.sessions
      → Entered h tag s0 (ensured g now h peer tag info database r s)
  unfolding open_session
  ensured-Entered now h peer tag info database (db_error refused, d) s s0 e = e
  ensured-Entered now h peer tag info database (db_error unavailable, d) s s0 e = e
  ensured-Entered now h peer tag info database (fine u, d) s s0 e = rw (sym e) (_, refl, refl)

  chosen-Entered :
      (now : ℕ) (h : Hello) (peer : Text) (tag : ℕ) (info : KeyInfo) (r : ℕ ⊎ Text)
      (s s0 : IngestServer g)
      → s.sessions ≡ s0.sessions
      → Entered h tag s0 (chosen g now h peer tag info r s)
  chosen-Entered now h peer tag info (inl status) s s0 e = e
  chosen-Entered now h peer tag info (inr database) s s0 e =
      ensured-Entered now h peer tag info database
        (g.capture.ensure_database now database true s.dbs) s s0 e

  validated-Entered :
      (now : ℕ) (h : Hello) (peer : Text) (tag : ℕ) (r : Option (Option KeyInfo) × KeyStore g.key)
      (s : IngestServer g)
      → Entered h tag s (validated g now h peer tag r s)
  validated-Entered now h peer tag (none, k) s = refl
  validated-Entered now h peer tag (some none, k) s = refl
  validated-Entered now h peer tag (some (some info), k) s =
      both_branches (Entered h tag s) (allows_ingest info.role) _ _
        (chosen-Entered now h peer tag info (choose_database g info.database_pin h.database)
          (record s { keys = k }) s refl)
        refl

  pub handle_hello-Entered :
      (now : ℕ) (h : Hello) (ip : ℕ) (peer : Text) (tag : ℕ) (s : IngestServer g)
      → Entered h tag s (handle_hello g now h ip peer tag s)
  unfolding handle_hello
  handle_hello-Entered now h ip peer tag s =
      validated-Entered now h peer tag (validate_from g.key ip (g.lossy h.token) s.keys) s

  -- Closing what the connection holds leaves it nothing.
  drop_held :
      (authed : Option Session) (s : IngestServer g) (tag : ℕ)
      → tagged tag s.sessions.inner ≡ ids_of authed
      → tagged tag (close_previous g authed s).sessions.inner ≡ []
  unfolding close_session
  drop_held none s tag e = e
  drop_held (some p) s tag e = tagged-without_id tag p.id s.sessions.inner ∙ rw e (same p.id)
    where
      same : (n : ℕ) → drop_id n (n ∷ []) ≡ []
      same n = ground arith

  close_previous-Below :
      (authed : Option Session) (s : IngestServer g)
      → Below s.sessions
      → Below (close_previous g authed s).sessions
  unfolding close_session
  close_previous-Below none s h = h
  close_previous-Below (some p) s h = without_id-All s.sessions.next_id p.id s.sessions.inner h

  pub close_previous-Owns :
      (authed : Option Session) (s : IngestServer g) (tag : ℕ)
      → Owns tag authed s
      → Owns tag none (close_previous g authed s)
  close_previous-Owns authed s tag (b, e) =
      (close_previous-Below authed s b, drop_held authed s tag e)

  -- Of an old session and a new one, the new one is left.
  newest :
      (authed : Option Session) (n tag : ℕ) (s : IngestServer g)
      → All (λ i. i < n) (ids_of authed)
      → tagged tag s.sessions.inner ≡ n ∷ ids_of authed
      → tagged tag (close_previous g authed s).sessions.inner ≡ n ∷ []
  unfolding close_session
  newest none n tag s h e = e
  newest (some p) n tag s (h, _) e =
      tagged-without_id tag p.id s.sessions.inner ∙ rw e (apart n p.id h)
    where
      apart : (n i : ℕ) → i < n → drop_id i (n ∷ i ∷ []) ≡ n ∷ []
      apart n i h = ground arith

  greeted-Owns :
      (now : ℕ) (h : Hello) (r : Verdict g × IngestServer g) (c : Connection g)
      → Entered h c.tag c.server r
      → Owns c.tag c.authed c.server
      → let c' = (greeted g r c).1 in Owns c'.tag c'.authed c'.server
  greeted-Owns now h (rejected status, s) c e o = rw e o
  greeted-Owns now h (accepted session as_given, s) c (info, e, n) (b, own) =
      let old = c.server.sessions in
      let bound : All (λ i. i < old.next_id) (ids_of c.authed) =
        rw (sym own) (tagged-All c.tag old.next_id old.inner b) in
      (
        close_previous-Below c.authed s
            (rw e (open_session-Below info h.daemon_id h.devices c.tag old b)),
        newest c.authed old.next_id c.tag s bound (
              ap (λ z. tagged c.tag z.inner) e
              ∙ tagged-open_session info h.daemon_id h.devices c.tag old b
              ∙ ap (λ is. old.next_id ∷ is) own)
            ∙ ap (λ i. i ∷ []) (sym n),
      )

  pub hello-Owns :
      (now : ℕ) (h : Hello) (c : Connection g)
      → Owns c.tag c.authed c.server
      → let c' = (hello g now h c).1 in Owns c'.tag c'.authed c'.server
  unfolding hello
  hello-Owns now h c o =
      greeted-Owns now h (handle_hello g now h c.ip c.peer c.tag c.server) c
        (handle_hello-Entered now h c.ip c.peer c.tag c.server) o

  -- Counting a batch moves no session.
  pub written-Owns :
      (tag : ℕ) (authed : Option Session) (session : Session) (n : ℕ) (r : Write × g.capture.State)
      (s : IngestServer g)
      → Owns tag authed s
      → Owns tag authed (written g session n r s).1
  unfolding stored_batch
  written-Owns tag authed session n (stored_now, d) s (b, e) = (
    update_id-All s.sessions.next_id n session.id s.sessions.inner b,
    update_id-tagged tag n session.id s.sessions.inner ∙ e,
  )
  written-Owns tag authed session n (write_error (copy_failed code), d) s o = o
  written-Owns tag authed session n (write_error (db_failed why), d) s o = o

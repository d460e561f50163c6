-- ===== src/Gateway/Lively.antt =====
-- crates/wiretap-backend/src/ingest/mod.rs: a connection is served to its end, without a panic.
use wire_tap_server.Prelude.{
  ℕ, suc, ◌≤◌, length, arith, false, ◌≡◌, ◌≢◌, refl, sym, ap, ◌∙◌, ◌⊎◌, inl, inr, true, List, [],
  ◌∷◌, Option, none, some, is_some, both_branches,
}
use wire_tap_server.Model.{Text}
use wire_tap_server.Wire.Records.{WireRecord}
use wire_tap_server.Gateway.Rows.{FrameRow, batch_rows}
use wire_tap_server.Gateway.Keys.{validate_from}
use wire_tap_server.Gateway.Interface.{
  Hello, reply, hello_from, hello_refused, batch_in, nack, catalogue_get, catalogue_status, close,
  refused_hello, reassigned, broken, MachineLaws, CatalogLaws,
}
use wire_tap_server.Gateway.Hello.{
  Gear, Session, IngestServer, Verdict, accepted, rejected, handle_hello, with_rows, handle_batch,
}
use wire_tap_server.Gateway.Offered.{Fits, handle_hello-Fits}
use wire_tap_server.Gateway.Answers.{Judged, handle_hello-Judged}
use wire_tap_server.Gateway.Connection.{
  End, ended_well, ended_badly, panicked, out_of_fuel, Connection, greeted, batched, batch_of,
  batch, is_served, fetched, blob, status_from, record_status, catalog_status, Turn, answer, go_on,
  finish, after_hello, expected, close_previous, after_batch, act, hello, Asked,
}

-- Neither a panic nor a loop that has run out.
abbrev pub Proper : End → Type 0
Proper ended_well = Unit
Proper ended_badly = Unit
Proper panicked = ⊥
Proper out_of_fuel = ⊥

-- What a connection that is served may have come to, `none` being still open.
abbrev pub Sound : Option End → Type 0
Sound none = Unit
Sound (some e) = Proper e

module _ (g : Gear) (m : MachineLaws g.machine) where
  -- A machine that accepted a hello has its session.
  abbrev pub Ready : Connection g → Type 0
  Ready c = m.accepted c.machine ≡ true → is_some c.authed ≡ true

  -- A round more than the actions that may be asked for.
  abbrev pub rounds : g.machine.State → ℕ
  rounds s = suc (m.owed s)

  abbrev pub Going : ℕ → Turn g → Type 0
  Going n (answer bytes c) = (m.owed c.machine ≡ n) × Ready c
  Going n (go_on c) = (m.owed c.machine ≡ n) × Ready c
  Going n (finish e c) = Proper e

  abbrev pub Sensible : Asked g → Connection g → Type 0
  Sensible (reply bytes) c = Unit
  Sensible (hello_from h) c = length h.devices ≤ 255
  Sensible (hello_refused status) c = status ≢ g.machine.hello_ok
  Sensible (batch_in seq records) c =
      (is_some c.authed ≡ true) × (is_some (batch_rows g.wire g.arb_id_of g.tx_flag records) ≡ true)
  Sensible (nack seq status) c = Unit
  Sensible (catalogue_get sha) c = Unit
  Sensible (catalogue_status status) c = Unit
  Sensible (close why) c = Unit

  expected-Going :
      (status now : ℕ) (as_given : List g.catalog.Assignment)
      (o : Option (List ℕ × g.machine.State)) (c : Connection g)
      → g.machine.answer_hello status now as_given c.machine ≡ o
      → length as_given ≤ 255
      → ((m.accepted c.machine ≡ true) ⊎ (status ≡ g.machine.hello_ok) → is_some c.authed ≡ true)
      → Going (m.owed c.machine) (expected g o c)
  expected-Going status now as_given none c e bound there =
      absurd (some_none (sym (ap is_some e) ∙ m.hello_fits status now as_given c.machine bound))
    where
      some_none : false ≡ true → ⊥
      some_none e = cc
  expected-Going status now as_given (some (bytes, s)) c e bound there = (
    m.hello_owed status now as_given c.machine s bytes e,
    λ a. there (m.hello_accepted status now as_given c.machine s bytes e a),
  )

  greeted-Going :
      (now : ℕ) (h : Hello) (c : Connection g) (r : Verdict g × IngestServer g)
      → Fits g h r.0
      → length h.devices ≤ 255
      → Judged g h (validate_from g.key c.ip (g.lossy h.token) c.server.keys).0 r
      → Ready c
      → Going (m.owed c.machine) (after_hello g now (greeted g r c))
  greeted-Going now h c (accepted session as_given, s) fits few j ready =
      expected-Going _ now as_given _
        (record c { server = close_previous g c.authed s; authed = some session }) refl
        (omega arith) (λ a. refl)
  greeted-Going now h c (rejected status, s) fits few j ready =
      expected-Going status now [] _ (record c { server = s }) refl (omega arith) (λ a. by_law a j)
    where
      by_law :
          (m.accepted c.machine ≡ true) ⊎ (status ≡ g.machine.hello_ok)
          → (status ≡ g.machine.hello_bad_auth)
            ⊎ (status ≡ g.machine.hello_bad_database)
            ⊎ (status ≡ g.machine.hello_unavailable)
          → is_some c.authed ≡ true
      by_law (inl a) why = ready a
      by_law (inr ok) (inl e) = absurd (m.ok_auth (sym ok ∙ e))
      by_law (inr ok) (inr (inl e)) = absurd (m.ok_database (sym ok ∙ e))
      by_law (inr ok) (inr (inr e)) = absurd (m.ok_unavailable (sym ok ∙ e))

  module _ (k : CatalogLaws g.catalog) where
    rows-Going :
        (now seq : ℕ) (session : Session) (rows : Option (List FrameRow)) (c : Connection g)
        → is_some rows ≡ true
        → Ready c
        → Going
            (m.owed c.machine)
            (after_batch g seq (batched g (with_rows g now session rows c.server) c) c)
    rows-Going now seq session none c there ready = absurd cc
    rows-Going now seq session (some rows) c there ready =
        (m.ack_owed seq _ 0 c.machine, λ a. ready (sym (m.ack_accepted seq _ 0 c.machine) ∙ a))

    batch_of-Going :
        (now seq : ℕ) (records : List (ℕ × WireRecord g.wire.Header)) (held : Option Session)
        (c : Connection g)
        → (is_some held ≡ true) × (is_some (batch_rows g.wire g.arb_id_of g.tx_flag records) ≡ true)
        → Ready c
        → Going (m.owed c.machine) (after_batch g seq (batch_of g now records held c) c)
    unfolding handle_batch
    batch_of-Going now seq records none c (there, readable) ready = absurd cc
    batch_of-Going now seq records (some session) c (there, readable) ready =
        rows-Going now seq session (batch_rows g.wire g.arb_id_of g.tx_flag records) c readable
          ready

    fetched_machine :
        (sha : Text) (r : Option (Option Text) × g.catalog.State) (c : Connection g)
        → ((fetched g sha r c).1.machine ≡ c.machine) × ((fetched g sha r c).1.authed ≡ c.authed)
    fetched_machine sha (none, s) c = (refl, refl)
    fetched_machine sha (some none, s) c = (refl, refl)
    fetched_machine sha (some (some content), s) c = (refl, refl)

    blob_machine :
        (sha : Text) (c : Connection g)
        → ((blob g sha c).1.machine ≡ c.machine) × ((blob g sha c).1.authed ≡ c.authed)
    unfolding blob
    blob_machine sha c =
        both_branches
          (λ (r : (ℕ ⊎ Text) × Connection g). (r.1.machine ≡ c.machine) × (r.1.authed ≡ c.authed))
          (is_served g c.served sha) _ _ (refl, refl)
          (fetched_machine sha (g.catalog.blob sha c.server.catalogs) c)

    status_from_machine :
        (d : Text) (session : Session) (status : g.catalog.Status) (c : Connection g)
        → ((status_from g d session status c).machine ≡ c.machine)
          × ((status_from g d session status c).authed ≡ c.authed)
    status_from_machine [] session status c = (refl, refl)
    status_from_machine (d ∷ ds) session status c = (refl, refl)

    record_status_machine :
        (held : Option Session) (status : g.catalog.Status) (c : Connection g)
        → ((record_status g held status c).machine ≡ c.machine)
          × ((record_status g held status c).authed ≡ c.authed)
    record_status_machine none status c = (refl, refl)
    record_status_machine (some session) status c =
        status_from_machine session.daemon_id session status c

    pub act-Going :
        (now : ℕ) (a : Asked g) (c : Connection g)
        → Sensible a c
        → Ready c
        → Going (m.owed c.machine) (act g now a c)
    unfolding act hello batch catalog_status
    act-Going now (reply bytes) c ok ready = (refl, ready)
    act-Going now (hello_from h) c ok ready =
        greeted-Going now h c (handle_hello g now h c.ip c.peer c.tag c.server)
          (handle_hello-Fits g k now h c.ip c.peer c.tag c.server) ok
          (handle_hello-Judged g now h c.ip c.peer c.tag c.server) ready
    act-Going now (hello_refused status) c ok ready =
        expected-Going status now [] _ c refl (omega arith)
          (λ a. elim a [ inl before ↦ ready before | inr e ↦ absurd (ok e) ])
    act-Going now (batch_in seq records) c ok ready =
        batch_of-Going now seq records c.authed c ok ready
    act-Going now (nack seq status) c ok ready = (
      m.ack_owed seq status 0 c.machine,
      λ a. ready (sym (m.ack_accepted seq status 0 c.machine) ∙ a),
    )
    act-Going now (catalogue_get sha) c ok ready =
        let (mach, auth) = blob_machine sha c in
        let c1 = (blob g sha c).1 in
        (
          m.catalogue_owed (blob g sha c).0 c1.machine ∙ ap m.owed mach,
          λ a.
              ap is_some auth
              ∙ ready (
                  sym (ap m.accepted mach)
                  ∙ sym (m.catalogue_accepted (blob g sha c).0 c1.machine)
                  ∙ a),
        )
    act-Going now (catalogue_status status) c ok ready =
        let (mach, auth) = record_status_machine c.authed status c in
        (ap m.owed mach, λ a. ap is_some auth ∙ ready (sym (ap m.accepted mach) ∙ a))
    act-Going now (close refused_hello) c ok ready = tt
    act-Going now (close reassigned) c ok ready = tt
    act-Going now (close broken) c ok ready = tt

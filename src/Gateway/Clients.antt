-- ===== src/Gateway/Clients.antt =====
-- crates/wiretap-backend/src/ingest/mod.rs: a client leaves no session behind.
use wire_tap_server.Prelude.{
  ℕ, zero, suc, ◌≡◌, ◌≢◌, refl, ◌∙◌, ◌⊎◌, Bool, true, false, List, [], ◌∷◌, Option, none, some, All,
  length, both_branches,
}
use wire_tap_server.Model.{Text}
use wire_tap_server.Wire.Records.{WireRecord}
use wire_tap_server.Gateway.Rows.{FrameRow, batch_rows}
use wire_tap_server.Gateway.Interface.{
  Hello, reply, hello_from, hello_refused, batch_in, nack, catalogue_get, catalogue_status, close,
  refused_hello, reassigned, broken,
}
use wire_tap_server.Gateway.Hello.{
  Gear, Session, IngestServer, write_batch, with_rows, handle_batch, Verdict, accepted, rejected,
  handle_hello,
}
use wire_tap_server.Gateway.Connection.{
  End, ended_well, ended_badly, panicked, out_of_fuel, expected, Wake, bytes_in, end_of_bytes,
  read_failed, told_reassigned, Connection, batched, batch_of, batch, greeted, is_served, fetched,
  blob, status_from, record_status, catalog_status, Turn, answer, go_on, finish, after_batch, act,
  hello, write_out, Asked,
}
use wire_tap_server.Gateway.Serve.{
  Round, stop, more, sent, turned, polled, onward, unless_ended, round, answer_all, Event, woken,
  after_meanwhile, serve, closed, handle_client,
}
use wire_tap_server.Gateway.Registry.{tagged, Below}
use wire_tap_server.Gateway.Owned.{Owns, close_previous-Owns, hello-Owns, written-Owns}

module _ (g : Gear) (tag : ℕ) where
  -- The connection `tag` holds what is live of it.
  abbrev pub Tidy : Connection g → Type 0
  Tidy c = Owns g tag c.authed c.server × (c.tag ≡ tag)

  abbrev TidyTurn : Turn g → Type 0
  TidyTurn (answer bytes c) = Tidy c
  TidyTurn (go_on c) = Tidy c
  TidyTurn (finish e c) = Tidy c

  abbrev TidyRound : Round g → Type 0
  TidyRound (stop e c) = Tidy c
  TidyRound (more c) = Tidy c

  rows-Tidy :
      (now seq : ℕ) (session : Session) (rows : Option (List FrameRow)) (c : Connection g)
      → Tidy c
      → TidyTurn (after_batch g seq (batched g (with_rows g now session rows c.server) c) c)
  unfolding write_batch
  rows-Tidy now seq session none c o = o
  rows-Tidy now seq session (some rows) c o = (
    written-Owns g tag c.authed session (length rows)
        (g.capture.write_rows now session.database rows c.server.dbs) c.server o.0,
    o.1,
  )

  batch_of-Tidy :
      (now seq : ℕ) (records : List (ℕ × WireRecord g.wire.Header)) (held : Option Session)
      (c : Connection g)
      → Tidy c
      → TidyTurn (after_batch g seq (batch_of g now records held c) c)
  unfolding handle_batch
  batch_of-Tidy now seq records none c o = o
  batch_of-Tidy now seq records (some session) c o =
      rows-Tidy now seq session (batch_rows g.wire g.arb_id_of g.tx_flag records) c o

  fetched-Tidy :
      (sha : Text) (r : Option (Option Text) × g.catalog.State) (c : Connection g)
      → Tidy c
      → Tidy (fetched g sha r c).1
  fetched-Tidy sha (none, s) c o = o
  fetched-Tidy sha (some none, s) c o = o
  fetched-Tidy sha (some (some content), s) c o = o

  blob-Tidy : (sha : Text) (c : Connection g) → Tidy c → Tidy (blob g sha c).1
  unfolding blob
  blob-Tidy sha c o =
      both_branches (λ (r : (ℕ ⊎ Text) × Connection g). Tidy r.1) (is_served g c.served sha) _ _ o
        (fetched-Tidy sha (g.catalog.blob sha c.server.catalogs) c o)

  status_from-Tidy :
      (d : Text) (session : Session) (status : g.catalog.Status) (c : Connection g)
      → Tidy c
      → Tidy (status_from g d session status c)
  status_from-Tidy [] session status c o = o
  status_from-Tidy (d ∷ ds) session status c o = o

  record_status-Tidy :
      (held : Option Session) (status : g.catalog.Status) (c : Connection g)
      → Tidy c
      → Tidy (record_status g held status c)
  record_status-Tidy none status c o = o
  record_status-Tidy (some session) status c o =
      status_from-Tidy session.daemon_id session status c o

  greeted-tag : (r : Verdict g × IngestServer g) (c : Connection g) → (greeted g r c).1.tag ≡ c.tag
  greeted-tag (accepted session as_given, s) c = refl
  greeted-tag (rejected status, s) c = refl

  hello-Tidy : (now : ℕ) (h : Hello) (c : Connection g) → Tidy c → Tidy (hello g now h c).1
  unfolding hello
  hello-Tidy now h c (o, e) =
      let same = greeted-tag (handle_hello g now h c.ip c.peer c.tag c.server) c ∙ e in
      (rw⁻¹ same (hello-Owns g now h c (rw e o)), same)

  expected-Tidy :
      (r : Option (List ℕ × g.machine.State)) (c : Connection g)
      → Tidy c
      → TidyTurn (expected g r c)
  expected-Tidy none c o = o
  expected-Tidy (some said) c o = o

  act-Tidy : (now : ℕ) (a : Asked g) (c : Connection g) → Tidy c → TidyTurn (act g now a c)
  unfolding act batch catalog_status
  act-Tidy now (reply bytes) c o = o
  act-Tidy now (hello_from h) c o = expected-Tidy _ (hello g now h c).1 (hello-Tidy now h c o)
  act-Tidy now (hello_refused status) c o = expected-Tidy _ c o
  act-Tidy now (batch_in seq records) c o = batch_of-Tidy now seq records c.authed c o
  act-Tidy now (nack seq status) c o = o
  act-Tidy now (catalogue_get sha) c o = blob-Tidy sha c o
  act-Tidy now (catalogue_status status) c o = record_status-Tidy c.authed status c o
  act-Tidy now (close refused_hello) c o = o
  act-Tidy now (close reassigned) c o = o
  act-Tidy now (close broken) c o = o

  write_out-Tidy :
      (bytes : List ℕ) (works : List Bool) (c : Connection g)
      → Tidy c
      → TidyRound (sent g (write_out g bytes works c))
  write_out-Tidy bytes [] c o = o
  write_out-Tidy bytes (true ∷ rest) c o = o
  write_out-Tidy bytes (false ∷ rest) c o = o

  turned-Tidy : (t : Turn g) → TidyTurn t → TidyRound (turned g t)
  turned-Tidy (answer bytes c) o = write_out-Tidy bytes c.write_works c o
  turned-Tidy (go_on c) o = o
  turned-Tidy (finish e c) o = o

  polled-Tidy :
      (now : ℕ) (r : Option (Asked g) × g.machine.State) (c : Connection g)
      → Tidy c
      → TidyRound (polled g now r c)
  polled-Tidy now (none, m) c o = o
  polled-Tidy now (some a, m) c o =
      turned-Tidy (act g now a (record c { machine = m }))
        (act-Tidy now a (record c { machine = m }) o)

  onward-Tidy :
      (r : Round g) (next : Connection g → Option End × Connection g)
      → TidyRound r
      → ((c : Connection g) → Tidy c → Tidy (next c).1)
      → Tidy (onward g r next).1
  onward-Tidy (stop e c') next o f = o
  onward-Tidy (more c') next o f = f c' o

  answer_all-Tidy : (fuel now : ℕ) (c : Connection g) → Tidy c → Tidy (answer_all g fuel now c).1
  unfolding answer_all round
  answer_all-Tidy zero now c o = o
  answer_all-Tidy (suc fuel) now c o =
      onward-Tidy (polled g now (g.machine.poll c.machine) c) (answer_all g fuel now)
        (polled-Tidy now (g.machine.poll c.machine) c o) (λ c' o'. answer_all-Tidy fuel now c' o')

  module _ (fuel : g.machine.State → ℕ) where
    woken-Tidy : (now : ℕ) (w : Wake) (c : Connection g) → Tidy c → Tidy (woken g fuel now w c).1
    unfolding woken
    woken-Tidy now (bytes_in bytes) c o = answer_all-Tidy _ now _ o
    woken-Tidy now end_of_bytes c o = o
    woken-Tidy now read_failed c o = o
    woken-Tidy now told_reassigned c o = answer_all-Tidy _ now _ o

    -- Other connections leave alone what is this one's.
    abbrev pub Apart : Event g → Type 0
    Apart e =
        (s : IngestServer g)
        → Below s.sessions
        → Below (e.meanwhile s).sessions
          × (tagged tag (e.meanwhile s).sessions.inner ≡ tagged tag s.sessions.inner)

    meanwhile-Tidy :
        (e : Event g) (c : Connection g) → Apart e → Tidy c → Tidy (after_meanwhile g fuel e c)
    meanwhile-Tidy e c apart ((b, own), same) =
        let (b', own') = apart c.server b in ((b', own' ∙ own), same)

    unless_ended-Tidy :
        (r : Option End × Connection g) (next : Connection g → Option End × Connection g)
        → Tidy r.1
        → ((c : Connection g) → Tidy c → Tidy (next c).1)
        → Tidy (unless_ended g fuel r next).1
    unless_ended-Tidy (none, c) next o f = f c o
    unless_ended-Tidy (some why, c) next o f = o

    serve-Tidy :
        (es : List (Event g)) (c : Connection g)
        → All Apart es
        → Tidy c
        → Tidy (serve g fuel es c).1
    unfolding serve
    serve-Tidy [] c h o = o
    serve-Tidy (e ∷ es) c (h, hs) o =
        let c1 = after_meanwhile g fuel e c in
        unless_ended-Tidy (woken g fuel e.now e.wake c1) (serve g fuel es)
          (woken-Tidy e.now e.wake c1 (meanwhile-Tidy e c h o)) (λ c' o'. serve-Tidy es c' hs o')

    closed-Owns :
        (r : Option End × Connection g)
        → Tidy r.1
        → (closed g fuel r).0 ≢ some panicked
        → Owns g tag none (closed g fuel r).1.server
    closed-Owns (some panicked, c) o calm = absurd (calm refl)
    closed-Owns (some ended_well, c) o calm = close_previous-Owns g c.authed c.server tag o.0
    closed-Owns (some ended_badly, c) o calm = close_previous-Owns g c.authed c.server tag o.0
    closed-Owns (some out_of_fuel, c) o calm = close_previous-Owns g c.authed c.server tag o.0
    closed-Owns (none, c) o calm = close_previous-Owns g c.authed c.server tag o.0

    -- A client that starts with no live session, while the other connections leave its sessions alone, leaves none behind, however it ends, unless its task panics.
    pub handle_client-Owns :
        (es : List (Event g)) (ip : ℕ) (peer : Text) (machine : g.machine.State)
        (write_works : List Bool) (s : IngestServer g)
        → All Apart es
        → Owns g tag none s
        → (handle_client g fuel es ip peer tag machine write_works s).0 ≢ some panicked
        → Owns g tag none (handle_client g fuel es ip peer tag machine write_works s).1.server
    unfolding handle_client
    handle_client-Owns es ip peer machine write_works s h o calm =
        closed-Owns (serve g fuel es _) (serve-Tidy es _ h (o, refl)) calm

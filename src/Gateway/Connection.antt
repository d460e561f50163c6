-- ===== src/Gateway/Connection.antt =====
-- crates/wiretap-backend/src/ingest/mod.rs: one client's connection, `serve` and `handle_client`.
use wire_tap_server.Prelude.{
  ℕ, ◌⊎◌, inl, inr, Bool, true, false, List, [], ◌∷◌, ◌++◌, Option, none, some, if◌then◌else◌,
}
use wire_tap_server.Model.{Text, same_text}
use wire_tap_server.Wire.Records.{WireRecord}
use wire_tap_server.Gateway.Sessions.{close_session}
use wire_tap_server.Gateway.Interface.{
  Hello, Action, reply, hello_from, hello_refused, batch_in, nack, catalogue_get, catalogue_status,
  close, refused_hello, reassigned, broken,
}
use wire_tap_server.Gateway.Hello.{
  Gear, Session, IngestServer, Verdict, accepted, rejected, handle_hello, handle_batch,
}

-- How `serve` ends; `panicked` is an `expect` that fails.
pub data End : Type 0 where
  ended_well ended_badly panicked out_of_fuel : End

-- What a connection is woken by: bytes, the end of them, a failed read or the idle limit, or its
-- reassignment.
pub data Wake : Type 0 where
  bytes_in : List ℕ → Wake
  end_of_bytes read_failed told_reassigned : Wake

module _ (g : Gear) where
  abbrev pub Asked : Type 0
  Asked = Action (WireRecord g.wire.Header) g.catalog.Status

  -- A connection with the server that it shares; `write_works` is what each write to its stream
  -- comes to, and after the last they work.
  pub record Connection : Type 0 where
    pub server : IngestServer g
    pub ip : ℕ
    pub peer : Text
    pub tag : ℕ
    pub authed : Option Session
    pub served : Option (Text × Text)
    pub machine : g.machine.State
    pub written : List (List ℕ)
    pub write_works : List Bool

  abbrev pub close_previous : Option Session → IngestServer g → IngestServer g
  close_previous none s = s
  close_previous (some p) s = record s { sessions = close_session p.id s.sessions }

  abbrev pub greeted :
      Verdict g × IngestServer g → Connection → (ℕ × List g.catalog.Assignment) × Connection
  greeted (accepted session as_given, s) c = (
    (g.machine.hello_ok, as_given),
    record c { server = close_previous c.authed s; authed = some session },
  )
  greeted (rejected status, s) c = ((status, []), record c { server = s })

  unfoldable pub hello : ℕ → Hello → Connection → (ℕ × List g.catalog.Assignment) × Connection
  hello now h c = greeted (handle_hello g now h c.ip c.peer c.tag c.server) c

  abbrev pub batched : Option (ℕ × IngestServer g) → Connection → Option (ℕ × Connection)
  batched none c = none
  batched (some (status, s)) c = some (status, record c { server = s })

  abbrev pub batch_of :
      ℕ
      → List (ℕ × WireRecord g.wire.Header)
      → Option Session
      → Connection
      → Option (ℕ × Connection)
  batch_of now records none c = none
  batch_of now records (some session) c = batched (handle_batch g now session records c.server) c

  unfoldable pub batch :
      ℕ → List (ℕ × WireRecord g.wire.Header) → Connection → Option (ℕ × Connection)
  batch now records c = batch_of now records c.authed c

  abbrev pub is_served : Option (Text × Text) → Text → Bool
  is_served none sha = false
  is_served (some (served, content)) sha = same_text served sha

  abbrev pub content_of : Option (Text × Text) → Text
  content_of none = []
  content_of (some (sha, content)) = content

  abbrev pub with_catalogs : g.catalog.State → Connection → Connection
  with_catalogs s c = record c { server = record (c.server) { catalogs = s } }

  abbrev pub fetched :
      Text → Option (Option Text) × g.catalog.State → Connection → (ℕ ⊎ Text) × Connection
  fetched sha (none, s) c = (inl (g.machine.catalogue_unavailable), with_catalogs s c)
  fetched sha (some none, s) c = (inl (g.machine.catalogue_unknown), with_catalogs s c)
  fetched sha (some (some content), s) c =
      (inr content, record (with_catalogs s c) { served = some (sha, content) })

  -- The content last served is kept.
  unfoldable pub blob : Text → Connection → (ℕ ⊎ Text) × Connection
  blob sha c =
      if is_served c.served sha
      then (inr (content_of c.served), c)
      else fetched sha (g.catalog.blob sha c.server.catalogs) c

  abbrev pub status_from : Text → Session → g.catalog.Status → Connection → Connection
  status_from [] session status c = c
  status_from (d ∷ ds) session status c =
      with_catalogs
        (g.catalog.record_status session.daemon_id session.devices status c.server.catalogs) c

  abbrev pub record_status : Option Session → g.catalog.Status → Connection → Connection
  record_status none status c = c
  record_status (some session) status c = status_from session.daemon_id session status c

  unfoldable pub catalog_status : g.catalog.Status → Connection → Connection
  catalog_status status c = record_status c.authed status c

  -- What an action comes to: bytes to write, none, or the end of the connection.
  pub data Turn : Type 0 where
    answer : List ℕ → Connection → Turn
    go_on : Connection → Turn
    finish : End → Connection → Turn

  abbrev pub machine_says : List ℕ × g.machine.State → Connection → Turn
  machine_says (bytes, m) c = answer bytes (record c { machine = m })

  -- The `expect` on a hello's answer.
  abbrev pub expected : Option (List ℕ × g.machine.State) → Connection → Turn
  expected none c = finish panicked c
  expected (some said) c = machine_says said c

  abbrev pub after_hello : ℕ → (ℕ × List g.catalog.Assignment) × Connection → Turn
  after_hello now ((status, as_given), c) =
      expected (g.machine.answer_hello status now as_given c.machine) c

  abbrev pub after_batch : ℕ → Option (ℕ × Connection) → Connection → Turn
  after_batch seq none c = finish panicked c
  after_batch seq (some (status, c')) c = machine_says (g.machine.ack seq status 0 c'.machine) c'

  abbrev pub after_blob : (ℕ ⊎ Text) × Connection → Turn
  after_blob (found, c) = machine_says (g.machine.answer_catalogue found c.machine) c

  unfoldable pub act : ℕ → Asked → Connection → Turn
  act now (reply bytes) c = answer bytes c
  act now (hello_from h) c = after_hello now (hello now h c)
  act now (hello_refused status) c = expected (g.machine.answer_hello status now [] c.machine) c
  act now (batch_in seq records) c = after_batch seq (batch now records c) c
  act now (nack seq status) c = machine_says (g.machine.ack seq status 0 c.machine) c
  act now (catalogue_get sha) c = after_blob (blob sha c)
  act now (catalogue_status status) c = go_on (catalog_status status c)
  act now (close refused_hello) c = finish ended_well c
  act now (close reassigned) c = finish ended_well c
  act now (close broken) c = finish ended_badly c

  -- `write_all`.
  abbrev pub write_out : List ℕ → List Bool → Connection → Bool × Connection
  write_out bytes [] c = (true, record c { written = c.written ++ (bytes ∷ []) })
  write_out bytes (true ∷ rest) c =
      (true, record c { written = c.written ++ (bytes ∷ []); write_works = rest })
  write_out bytes (false ∷ rest) c = (false, record c { write_works = rest })

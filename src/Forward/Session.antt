-- ===== src/Forward/Session.antt =====
-- crates/wiretap-server/src/forward.rs: `ForwardSink`, its handshake, keepalive and close.
use wire_tap_server.Prelude.{
  ℕ, ◌&&◌, Bool, not, List, [], ◌∷◌, Option, none, some, ◌==◌, if◌then◌else◌,
}
use wire_tap_server.Model.{Text}
use wire_tap_server.Archive.Interface.{SinkError, failed, SinkResult, done, refused}
use wire_tap_server.Wire.Library.{CanLibrary}
use wire_tap_server.Cache.Rows.{RowLibrary, Row}
use wire_tap_server.Cache.Store.{Database}
use wire_tap_server.Forward.Interface.{Bytes, HelloAck, Hello, Ingest, Stream, Connection}
use wire_tap_server.Forward.Receive.{Received, got, broken_off, out_of_rounds, send, recv}

-- The server's catalogues, as far as a session uses them: `pull` brings the lines up to what the
-- gateway assigned, over the connection, and a status report is due when `changed`.
pub record Lines (i : Ingest) : Type 1 where
  pub State : Type 0
  pub pull : List i.Assignment → State → Connection → State × Connection
  pub changed : State → Bool
  pub status_message : State → Option Bytes × State

-- What a sink is put together from.
pub record Gear : Type 1 where
  pub ingest : Ingest
  pub lines : Lines ingest
  pub can : CanLibrary
  pub row : RowLibrary
  pub dead_letter : Database (Row row.Real)

-- `dials` is what each connect gives; after the last, one times out.
pub record ForwardSink (e : Gear) : Type 0 where
  pub api_key : Bytes
  pub database : Text
  pub daemon_id : Text
  pub devices : List e.ingest.Device
  pub version : ℕ
  pub raw_serial : Bool
  pub lines : e.lines.State
  pub conn : Option Connection
  pub seq : ℕ
  pub dead_letter : e.dead_letter.State
  pub dials : List (Option Stream)

-- A step of a `Result`, whose error ends the operation.
pub data Outcome (B : Type 0) : Type 0 where
  works : B → Outcome B
  fails : SinkError → Outcome B

module _ (e : Gear) where
  unfoldable pub hello : ForwardSink e → Hello e.ingest.Device
  hello s =
      if s.version == 2
      then record {
        version = 2;
        api_key = s.api_key;
        database = s.database;
        daemon_id = [];
        devices = [];
      }
      else record {
        version = s.version;
        api_key = s.api_key;
        database = s.database;
        daemon_id = s.daemon_id;
        devices = s.devices;
      }

  abbrev pub Greeting : Type 0
  Greeting = Outcome (Connection × HelloAck e.ingest.Assignment)

  abbrev pub parse_greeting : Option (HelloAck e.ingest.Assignment) → Connection → Greeting
  parse_greeting none c = fails failed
  parse_greeting (some ack) c = works (c, ack)

  abbrev pub greeted : Received × Connection → Greeting
  greeted (broken_off why, c) = fails why
  greeted (out_of_rounds, c) = fails failed
  greeted (got f, c) =
      if f.mtype == e.ingest.msg_hello_ack
      then parse_greeting (e.ingest.parse_hello_ack f.body) c
      else fails failed

  abbrev pub sent_hello : SinkResult × Connection → Greeting
  sent_hello (refused why, c) = fails why
  sent_hello (done, c) = greeted (recv e.ingest c)

  abbrev pub say_hello : Option Bytes → Stream → Greeting
  say_hello none stream = fails failed
  say_hello (some message) stream = sent_hello (send message (record { stream = stream; rx = [] }))

  abbrev pub dialled : List (Option Stream) → ForwardSink e → Greeting × ForwardSink e
  dialled [] s = (fails failed, s)
  dialled (none ∷ rest) s = (fails failed, record s { dials = rest })
  dialled (some stream ∷ rest) s =
      (say_hello (e.ingest.encode_hello (hello s)) stream, record s { dials = rest })

  unfoldable pub handshake : ForwardSink e → Greeting × ForwardSink e
  handshake s = dialled s.dials s

  unfoldable pub may_fall_back : HelloAck e.ingest.Assignment → ForwardSink e → Bool
  may_fall_back ack s =
      (ack.status == e.ingest.hello_bad_version)
      && (ack.accepted_version == 2)
      && (s.version == 3)
      && not s.raw_serial

  abbrev pub reported : SinkResult × Connection → ForwardSink e → SinkResult × ForwardSink e
  reported (refused why, c) s = (refused why, s)
  reported (done, c) s = (done, record s { conn = some c })

  abbrev pub report : Option Bytes → Connection → ForwardSink e → SinkResult × ForwardSink e
  report none c s = (done, record s { conn = some c })
  report (some message) c s = reported (send message c) s

  -- Version 3: the lines' catalogues, and their status. Only then is the connection kept.
  unfoldable pub settle :
      Connection → HelloAck e.ingest.Assignment → ForwardSink e → SinkResult × ForwardSink e
  settle c ack s =
      let (pulled, c1) = e.lines.pull ack.assignments s.lines c in
      let (message, told) = e.lines.status_message pulled in
      if s.version == 3
      then report message c1 (record s { lines = told })
      else (done, record s { conn = some c })

  -- The text that goes with a status is left out.
  unfoldable pub admitted : Greeting → ForwardSink e → SinkResult × ForwardSink e
  unfolding settle
  admitted (fails why) s = (refused why, s)
  admitted (works (c, ack)) s =
      if ack.status == e.ingest.hello_ok then settle c ack s else (refused failed, s)

  unfoldable pub second : Greeting × ForwardSink e → SinkResult × ForwardSink e
  second (greeting, s) = admitted greeting s

  unfoldable pub first : Greeting × ForwardSink e → SinkResult × ForwardSink e
  unfolding second
  first (fails why, s) = (refused why, s)
  first (works (c, ack), s) =
      let older = record s { version = 2 } in
      if may_fall_back ack s then second (handshake older) else admitted (works (c, ack)) s

  unfoldable pub connect : ForwardSink e → SinkResult × ForwardSink e
  unfolding first
  connect s = first (handshake s)

  abbrev pub told : SinkResult × Connection → ForwardSink e → SinkResult × ForwardSink e
  told (result, c) s = (result, record s { conn = some c })

  abbrev pub tell : Option Bytes → Option Connection → ForwardSink e → SinkResult × ForwardSink e
  tell none conn s = (done, s)
  tell (some message) none s = (refused failed, s)
  tell (some message) (some c) s = told (send message c) s

  unfoldable pub send_status_if_changed : ForwardSink e → SinkResult × ForwardSink e
  send_status_if_changed s =
      let (message, lines) = e.lines.status_message s.lines in
      if s.version == 2
      then (done, s)
      else if e.lines.changed s.lines
      then tell message s.conn (record s { lines = lines })
      else (done, s)

  abbrev pub ponged : Received × Connection → ForwardSink e → SinkResult × ForwardSink e
  ponged (broken_off why, c) s = (refused why, record s { conn = some c })
  ponged (out_of_rounds, c) s = (refused failed, record s { conn = some c })
  ponged (got f, c) s =
      (if f.mtype == e.ingest.msg_pong then done else refused failed, record s { conn = some c })

  abbrev pub pinged : SinkResult × Connection → ForwardSink e → SinkResult × ForwardSink e
  pinged (refused why, c) s = (refused why, record s { conn = some c })
  pinged (done, c) s = ponged (recv e.ingest c) s

  abbrev pub ping_on : Option Connection → ForwardSink e → SinkResult × ForwardSink e
  ping_on none s = (refused failed, s)
  ping_on (some c) s = pinged (send e.ingest.ping c) s

  abbrev pub then_ping : SinkResult × ForwardSink e → SinkResult × ForwardSink e
  then_ping (refused why, s) = (refused why, s)
  then_ping (done, s) = ping_on s.conn s

  unfoldable pub keep_alive : ForwardSink e → SinkResult × ForwardSink e
  keep_alive s = then_ping (send_status_if_changed s)

  -- The stream is shut down, and the connection dropped.
  unfoldable pub close : ForwardSink e → ForwardSink e
  close s = record s { conn = none }

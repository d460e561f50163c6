-- ===== src/Forward/Receive.antt =====
-- crates/wiretap-server/src/forward.rs: `Connection`'s sending and receiving.
use wire_tap_server.Prelude.{
  ℕ, zero, suc, ◌+◌, Bool, true, false, not, List, [], ◌∷◌, ◌++◌, Option, none, some, length, ◌==◌,
  if◌then◌else◌,
}
use wire_tap_server.Archive.Interface.{SinkError, failed, peer_closed, SinkResult, done, refused}
use wire_tap_server.Forward.Interface.{
  Bytes, WireFrame, Taken, malformed, incomplete, frame, Ingest, Stream, Connection,
}

-- The result of a receive; no round left is no result of the source's loop.
pub data Received : Type 0 where
  got : WireFrame → Received
  broken_off : SinkError → Received
  out_of_rounds : Received

abbrev write_all : List Bool → Bytes → Stream → SinkResult × Stream
write_all [] bytes s = (refused failed, s)
write_all (true ∷ rest) bytes s = (done, record s { writes = rest; sent = s.sent ++ (bytes ∷ []) })
write_all (false ∷ rest) bytes s = (refused failed, record s { writes = rest })

unfoldable pub send : Bytes → Connection → SinkResult × Connection
send bytes c =
    let (result, s) = write_all c.stream.writes bytes c.stream in (result, record c { stream = s })

module _ (i : Ingest) where
  abbrev pub closed_by : Option ℕ → SinkError
  closed_by (some reason) = peer_closed
  closed_by none = failed

  -- `closed`: the reason is only logged.
  unfoldable pub closed : Bytes → SinkError
  closed body = closed_by (i.parse_close body)

  abbrev pub checked : WireFrame → Received
  checked f =
      if not f.crc_ok
      then broken_off failed
      else if f.mtype == i.msg_close
      then broken_off (closed f.body)
      else got f

  -- What has arrived, where it is a message or an error; `none` asks for more.
  abbrev pub look : Taken → Bytes → Option (Received × Bytes)
  look malformed rx = some (broken_off failed, rx)
  look (frame f rest) rx = some (checked f, rest)
  look incomplete rx = none

  abbrev pub or_read :
      Option (Received × Bytes)
      → Received × Bytes × List (Option Bytes)
      → List (Option Bytes)
      → Received × Bytes × List (Option Bytes)
  or_read (some (result, rx)) more reads = (result, rx, reads)
  or_read none more reads = more

  unfoldable pub receive_from : List (Option Bytes) → Bytes → Received × Bytes × List (Option Bytes)
  receive_from [] rx = or_read (look (i.take_frame rx) rx) (broken_off failed, rx, []) []
  receive_from (none ∷ reads) rx =
      or_read (look (i.take_frame rx) rx) (broken_off failed, rx, reads) (none ∷ reads)
  receive_from (some [] ∷ reads) rx =
      or_read (look (i.take_frame rx) rx) (broken_off failed, rx, reads) (some [] ∷ reads)
  receive_from (some (b ∷ bs) ∷ reads) rx =
      let more = receive_from reads (rx ++ (b ∷ bs)) in
      or_read (look (i.take_frame rx) rx) more (some (b ∷ bs) ∷ reads)

  unfoldable pub recv_any : Connection → Received × Connection
  recv_any c =
      let (result, rx, reads) = receive_from c.stream.reads c.rx in
      (result, record { stream = record c.stream { reads = reads }; rx = rx })

  abbrev pub unread : List (Option Bytes) → ℕ
  unread [] = 0
  unread (none ∷ reads) = unread reads
  unread (some bytes ∷ reads) = length bytes + unread reads

  -- The bytes of a connection that are yet to be taken as messages.
  abbrev pub pending : Connection → ℕ
  pending c = length c.rx + unread c.stream.reads

  abbrev pub skip :
      Received × Connection → (Connection → Received × Connection) → Received × Connection
  skip (broken_off e, c) next = (broken_off e, c)
  skip (out_of_rounds, c) next = (out_of_rounds, c)
  skip (got f, c) next = if f.mtype == i.msg_catalogue then next c else (got f, c)

  -- `recv`'s loop: a round takes a byte at least.
  unfoldable pub recv_rounds : ℕ → Connection → Received × Connection
  recv_rounds zero c = (out_of_rounds, c)
  recv_rounds (suc rounds) c = skip (recv_any c) (recv_rounds rounds)

  unfoldable pub recv : Connection → Received × Connection
  recv c = recv_rounds (suc (pending c)) c

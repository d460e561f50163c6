-- ===== src/Forward/Chunks.antt =====
-- crates/wiretap-server/src/forward.rs: `send_chunk`, `quarantine` and `write_batch`.
use wire_tap_server.Prelude.{
  ℕ, zero, suc, ◌+◌, ◌%◌, ◌^◌, ◌&&◌, not, List, [], ◌∷◌, Option, none, some, length, take, drop,
  ◌==◌, if◌then◌else◌,
}
use wire_tap_server.Model.{Sample}
use wire_tap_server.Archive.Interface.{
  failed, SinkResult, done, refused, WriteResult, stored, write_error, CacheResult, ok, cache_error,
}
use wire_tap_server.Cache.Store.{SqliteCache, open_file, append}
use wire_tap_server.Forward.Interface.{Bytes, Ack, Connection}
use wire_tap_server.Forward.Receive.{Received, got, broken_off, out_of_rounds, send, recv}
use wire_tap_server.Forward.Session.{
  Gear, ForwardSink, Outcome, works, fails, send_status_if_changed,
}

-- What an acknowledgement says of the batch.
pub data Verdict : Type 0 where
  taken malformed_batch unusable : Verdict

module _ (e : Gear) where
  abbrev DeadLetter : Type 0
  DeadLetter = SqliteCache e.can e.row e.dead_letter

  abbrev pub kept_dead : CacheResult ℕ × DeadLetter → ForwardSink e → Outcome Unit × ForwardSink e
  kept_dead (ok n, x) s = (works tt, record s { dead_letter = x.db })
  kept_dead (cache_error, x) s = (fails failed, record s { dead_letter = x.db })

  abbrev pub keep_dead :
      Option DeadLetter → List Sample → ForwardSink e → Outcome Unit × ForwardSink e
  keep_dead none chunk s = (fails failed, s)
  keep_dead (some x) chunk s = kept_dead (append e.can e.row e.dead_letter chunk x) s

  -- `SqliteCache::open(path, u64::MAX)?.append(chunk)`.
  unfoldable pub quarantine : List Sample → ForwardSink e → Outcome Unit × ForwardSink e
  quarantine chunk s =
      keep_dead (open_file e.can e.row e.dead_letter 18_446_744_073_709_551_615 s.dead_letter) chunk
        s

  -- A gateway that cannot read a batch's seq refuses it as seq 0.
  unfoldable pub verdict : ℕ → Ack → Verdict
  verdict seq ack =
      if not (ack.seq == seq) && not ((ack.seq == 0) && (ack.status == e.ingest.ack_malformed))
      then unusable
      else if ack.status == e.ingest.ack_ok
      then taken
      else if ack.status == e.ingest.ack_malformed
      then malformed_batch
      else unusable

  abbrev pub quarantined : ℕ → Outcome Unit × ForwardSink e → Outcome ℕ × ForwardSink e
  quarantined len (works u, s) = (works len, s)
  quarantined len (fails why, s) = (fails why, s)

  unfoldable pub settled : Verdict → ℕ → List Sample → ForwardSink e → Outcome ℕ × ForwardSink e
  settled taken len batch s = (works len, s)
  settled malformed_batch len batch s = quarantined len (quarantine (take len batch) s)
  settled unusable len batch s = (fails failed, s)

  abbrev pub verdict_of : ℕ → Option Ack → Verdict
  verdict_of seq none = unusable
  verdict_of seq (some ack) = verdict seq ack

  abbrev pub answer : Received → ℕ → List Sample → ForwardSink e → Outcome ℕ × ForwardSink e
  answer (broken_off why) len batch s = (fails why, s)
  answer out_of_rounds len batch s = (fails failed, s)
  answer (got f) len batch s =
      if f.mtype == e.ingest.msg_ack
      then settled (verdict_of s.seq (e.ingest.parse_ack f.body)) len batch s
      else (fails failed, s)

  abbrev pub await_answer :
      Received × Connection → ℕ → List Sample → ForwardSink e → Outcome ℕ × ForwardSink e
  await_answer (r, c) len batch s = answer r len batch (record s { conn = some c })

  abbrev pub sent_chunk :
      SinkResult × Connection → ℕ → List Sample → ForwardSink e → Outcome ℕ × ForwardSink e
  sent_chunk (refused why, c) len batch s = (fails why, record s { conn = some c })
  sent_chunk (done, c) len batch s = await_answer (recv e.ingest c) len batch s

  abbrev pub chunk_on :
      Option Connection → Bytes × ℕ → List Sample → ForwardSink e → Outcome ℕ × ForwardSink e
  chunk_on none (message, len) batch s = (fails failed, s)
  chunk_on (some c) (message, len) batch s = sent_chunk (send message c) len batch s

  -- `seq` wraps at 32 bits.
  unfoldable pub send_chunk : List Sample → ForwardSink e → Outcome ℕ × ForwardSink e
  send_chunk batch s =
      let seq = (s.seq + 1) % 2 ^ 32 in
      chunk_on s.conn (e.ingest.encode_batch_from seq batch) batch (record s { seq = seq })

  abbrev pub next_chunk :
      ℕ
      → Outcome ℕ × ForwardSink e
      → (ℕ → ForwardSink e → WriteResult × ForwardSink e)
      → WriteResult × ForwardSink e
  next_chunk delivered (fails why, s) next = (write_error delivered why, s)
  next_chunk delivered (works len, s) next = next len s

  -- The loop of `write_batch`, with what is left of the batch; a round delivers a frame at least.
  unfoldable pub send_rounds : ℕ → ℕ → List Sample → ForwardSink e → WriteResult × ForwardSink e
  send_rounds rounds delivered [] s = (stored, s)
  send_rounds zero delivered (x ∷ xs) s = (write_error delivered failed, s)
  send_rounds (suc rounds) delivered (x ∷ xs) s =
      next_chunk delivered (send_chunk (x ∷ xs) s)
        (λ len. send_rounds rounds (delivered + len) (drop len (x ∷ xs)))

  abbrev pub then_send : SinkResult × ForwardSink e → List Sample → WriteResult × ForwardSink e
  then_send (refused why, s) batch = (write_error 0 why, s)
  then_send (done, s) batch = send_rounds (length batch) 0 batch s

  unfoldable pub write_batch : List Sample → ForwardSink e → WriteResult × ForwardSink e
  write_batch batch s = then_send (send_status_if_changed e s) batch

-- ===== src/Forward/Delivered.antt =====
-- crates/wiretap-server/src/forward.rs: what `write_batch` reports as delivered.
use wire_tap_server.Prelude.{
  ℕ, zero, suc, ◌+◌, ◌≤◌, ◌≡◌, refl, ap, ◌∙◌, Bool, true, false, List, [], ◌∷◌, Option, none, some,
  length, drop, arith, length-drop, if◌then◌else◌, ◌==◌,
}
use wire_tap_server.Model.{Sample}
use wire_tap_server.Archive.Interface.{SinkResult, done, refused, WriteResult, delivered_of}
use wire_tap_server.Cache.Store.{DatabaseLaws}
use wire_tap_server.Forward.Interface.{Bytes, Connection, IngestLaws}
use wire_tap_server.Forward.Session.{
  Gear, ForwardSink, Outcome, works, fails, send_status_if_changed, tell,
}
use wire_tap_server.Forward.Chunks.{send_chunk, next_chunk, send_rounds, then_send, write_batch}
use wire_tap_server.Forward.Fate.{next_seq, dead_rows, Chunk, accepted, dead, Fate, send_chunk-Fate}

-- Of a batch, so many frames at its front are delivered, chunk by chunk.
pub data Delivered {e : Gear} (g : DatabaseLaws e.dead_letter)
    : List Sample → ℕ → ForwardSink e → ForwardSink e → Type 0 where
  no_more :
      {batch : List Sample} {s s' : ForwardSink e}
      → dead_rows g s' ≡ dead_rows g s
      → Delivered g batch 0 s s'
  and_then :
      {batch : List Sample} {len n : ℕ} {s s' s'' : ForwardSink e}
      → Chunk g len batch s s'
      → Delivered g (drop len batch) n s' s''
      → Delivered g batch (len + n) s s''

module _ {e : Gear} (g : DatabaseLaws e.dead_letter) (k : IngestLaws e.ingest) where
  -- Of the frames that are left of a batch, `delivered_of` counts from the whole of it.
  abbrev Rest : List Sample → ForwardSink e → ℕ → WriteResult × ForwardSink e → Type 0
  Rest batch s delivered x =
      (n : ℕ) × (delivered_of (delivered + length batch) x.0 ≡ delivered + n)
      × (n ≤ length batch)
      × Delivered g batch n s x.1

  Chunk-len :
      (len : ℕ) (batch : List Sample) (s t : ForwardSink e)
      → Chunk g len batch s t
      → len ≡ (e.ingest.encode_batch_from (next_seq s) batch).1
  Chunk-len len batch s t (accepted ack back is num status same) = is
  Chunk-len len batch s t (dead ack back is num status grown) = is

  next_chunk-Rest :
      (batch : List Sample) (delivered fuel : ℕ) (s : ForwardSink e) (o : Outcome ℕ × ForwardSink e)
      (next : ℕ → ForwardSink e → WriteResult × ForwardSink e)
      → 1 ≤ (e.ingest.encode_batch_from (next_seq s) batch).1
      → length batch ≤ suc fuel
      → Fate g batch s o
      → ((len : ℕ) (t : ForwardSink e)
          → length (drop len batch) ≤ fuel
          → Rest (drop len batch) t (delivered + len) (next len t))
      → Rest batch s delivered (next_chunk e delivered o next)
  next_chunk-Rest batch delivered fuel s (fails why, t) next some_fit enough fate later =
      (0, omega arith, omega arith, no_more fate)
  next_chunk-Rest batch delivered fuel s (works len, t) next some_fit enough fate later =
      let bound = k.fits (next_seq s) batch in
      let is = Chunk-len len batch s t fate in
      let left = length-drop len batch in
      let (m, count, fits, rest) = later len t (omega arith) in
      (
        len + m,
        ap (λ z. delivered_of z (next len t).0) (omega arith) ∙ count ∙ omega arith,
        omega arith,
        and_then fate rest,
      )

  send_rounds-Rest :
      (rounds delivered : ℕ) (batch : List Sample) (s : ForwardSink e)
      → length batch ≤ rounds
      → Rest batch s delivered (send_rounds e rounds delivered batch s)
  unfolding send_rounds
  send_rounds-Rest rounds delivered [] s enough = (0, omega arith, omega arith, no_more refl)
  send_rounds-Rest zero delivered (x ∷ xs) s enough = absurd (omega arith)
  send_rounds-Rest (suc rounds) delivered (x ∷ xs) s enough =
      next_chunk-Rest (x ∷ xs) delivered rounds s (send_chunk e (x ∷ xs) s) _
        (k.some_fit (next_seq s) x xs) enough (send_chunk-Fate g k (x ∷ xs) s)
        (λ len t less. send_rounds-Rest rounds (delivered + len) (drop len (x ∷ xs)) t less)

  tell-dead :
      (m : Option Bytes) (conn : Option Connection) (s : ForwardSink e)
      → dead_rows g (tell e m conn s).1 ≡ dead_rows g s
  tell-dead none conn s = refl
  tell-dead (some message) none s = refl
  tell-dead (some message) (some c) s = refl

  if-dead :
      (b : Bool) (s : ForwardSink e) (x y : SinkResult × ForwardSink e)
      → dead_rows g x.1 ≡ dead_rows g s
      → dead_rows g y.1 ≡ dead_rows g s
      → dead_rows g (if b then x else y).1 ≡ dead_rows g s
  if-dead true s x y h h' = h
  if-dead false s x y h h' = h'

  status-dead : (s : ForwardSink e) → dead_rows g (send_status_if_changed e s).1 ≡ dead_rows g s
  unfolding send_status_if_changed
  status-dead s = if-dead (s.version == 2) s _ _ refl (
      if-dead (e.lines.changed s.lines) s _ _
        (tell-dead (e.lines.status_message s.lines).0 s.conn _) refl)

  then_send-Delivered :
      (x : SinkResult × ForwardSink e) (batch : List Sample)
      → let y = then_send e x batch in
        (delivered_of (length batch) y.0 ≤ length batch)
        × Delivered g batch (delivered_of (length batch) y.0) x.1 y.1
  then_send-Delivered (refused why, s) batch = (omega arith, no_more refl)
  then_send-Delivered (done, s) batch =
      let (n, count, fits, rest) = send_rounds-Rest (length batch) 0 batch s (omega arith) in
      let result = (send_rounds e (length batch) 0 batch s).0 in
      let exact : delivered_of (length batch) result ≡ n =
        ap (λ z. delivered_of z result) (omega arith) ∙ count ∙ omega arith in
      (omega arith, rw exact rest)

  -- However the gateway, the network and the dead letter behave, after the status report, which leaves
  -- the dead letter alone, the frames of a batch that are reported as delivered are at its front, and
  -- are some chunks, one behind the other: to each, sent under the next number, came an answer on the
  -- connection that says it is stored, under that number, or that says it is malformed, under that
  -- number or none, and then the chunk is put at the end of the dead letter. The dead letter gets no
  -- other frame.
  pub write_batch-Delivered :
      (batch : List Sample) (s : ForwardSink e)
      → let x = write_batch e batch s in
        let reported = (send_status_if_changed e s).1 in
        (delivered_of (length batch) x.0 ≤ length batch)
        × (dead_rows g reported ≡ dead_rows g s)
        × Delivered g batch (delivered_of (length batch) x.0) reported x.1
  unfolding write_batch
  write_batch-Delivered batch s =
      let (bound, all) = then_send-Delivered (send_status_if_changed e s) batch in
      (bound, status-dead s, all)

-- ===== src/Forward/Fate.antt =====
-- crates/wiretap-server/src/forward.rs: what becomes of the frames of one chunk.
use wire_tap_server.Prelude.{
  ℕ, ◌+◌, ◌≡◌, refl, sym, ap, ◌∙◌, inl, inr, ◌⊎◌, under_test, ==_iff, arith, not, ◌&&◌, Bool, true,
  false, List, [], ◌∷◌, ◌++◌, map, append-nil, map-append, Option, none, some, length, take, ◌==◌,
  ◌%◌, ◌^◌,
}
use wire_tap_server.Model.{Sample}
use wire_tap_server.Archive.Interface.{SinkResult, done, refused}
use wire_tap_server.Cache.Rows.{Row, encode_row}
use wire_tap_server.Cache.Store.{SqliteCache, DatabaseLaws, open_file, opened, append, appended}
use wire_tap_server.Forward.Interface.{Ack, Connection, WireFrame, IngestLaws}
use wire_tap_server.Forward.Receive.{Received, got, broken_off, out_of_rounds, send, recv}
use wire_tap_server.Forward.Session.{Gear, ForwardSink, Outcome, works, fails}
use wire_tap_server.Forward.Chunks.{
  Verdict, taken, malformed_batch, unusable, kept_dead, keep_dead, quarantine, verdict, quarantined,
  settled, verdict_of, await_answer, sent_chunk, chunk_on, send_chunk,
}

module _ {e : Gear} (g : DatabaseLaws e.dead_letter) where
  -- The rows of the dead letter.
  abbrev pub dead_rows : ForwardSink e → List (Row e.row.Real)
  dead_rows s = map (λ x. x.1) (g.table s.dead_letter)

abbrev pub next_seq : {e : Gear} → ForwardSink e → ℕ
next_seq s = (s.seq + 1) % 2 ^ 32

-- After the next number and the batch's message were sent on the connection, `ack` is what came back.
pub data Answered {e : Gear} (batch : List Sample) (ack : Ack) (s s' : ForwardSink e) : Type 0 where
  answered :
      (before between behind : Connection) (f : WireFrame)
      → s'.seq ≡ next_seq s
      → s.conn ≡ some before
      → send (e.ingest.encode_batch_from (next_seq s) batch).0 before ≡ (done, between)
      → recv e.ingest between ≡ (got f, behind)
      → f.mtype ≡ e.ingest.msg_ack
      → e.ingest.parse_ack f.body ≡ some ack
      → s'.conn ≡ some behind
      → Answered batch ack s s'

-- What becomes of the first `len` frames of a batch, a chunk that counts as delivered: the gateway's
-- answer to it has its number and says that it is stored, or says that it is malformed, and then the
-- chunk is at the end of the dead letter.
pub data Chunk {e : Gear} (g : DatabaseLaws e.dead_letter) (len : ℕ) (batch : List Sample)
    (s s' : ForwardSink e) : Type 0 where
  accepted :
      (ack : Ack)
      → Answered batch ack s s'
      → len ≡ (e.ingest.encode_batch_from (next_seq s) batch).1
      → ack.seq ≡ s'.seq
      → ack.status ≡ e.ingest.ack_ok
      → dead_rows g s' ≡ dead_rows g s
      → Chunk g len batch s s'
  dead :
      (ack : Ack)
      → Answered batch ack s s'
      → len ≡ (e.ingest.encode_batch_from (next_seq s) batch).1
      → (ack.seq ≡ s'.seq) ⊎ (ack.seq ≡ 0)
      → ack.status ≡ e.ingest.ack_malformed
      → dead_rows g s' ≡ dead_rows g s ++ map (encode_row e.can e.row) (take len batch)
      → Chunk g len batch s s'

own_or_malformed :
    (a seq st m : ℕ)
    → (not (a == seq) && not ((a == 0) && (st == m))) ≡ false
    → (a ≡ seq) ⊎ (a ≡ 0) × (st ≡ m)
own_or_malformed a seq st m e = ground arith

abbrev Judged : (e : Gear) → ℕ → Ack → Verdict → Type 0
Judged e seq ack taken = (ack.seq ≡ seq) × (ack.status ≡ e.ingest.ack_ok)
Judged e seq ack malformed_batch =
    ((ack.seq ≡ seq) ⊎ (ack.seq ≡ 0)) × (ack.status ≡ e.ingest.ack_malformed)
Judged e seq ack unusable = Unit

verdict-Judged :
    (e : Gear) (seq : ℕ) (ack : Ack) → IngestLaws e.ingest → Judged e seq ack (verdict e seq ack)
unfolding verdict
verdict-Judged e seq ack k =
    let different = k.statuses in
    let motive : Verdict → Type 0 = Judged e seq ack in
    under_test motive
      (not (ack.seq == seq) && not ((ack.seq == 0) && (ack.status == e.ingest.ack_malformed))) _ _
      (λ t. tt)
      (λ t.
        under_test motive (ack.status == e.ingest.ack_ok) _ _
          (λ ok.
            let stored : ack.status ≡ e.ingest.ack_ok = (==_iff ack.status e.ingest.ack_ok).0 ok in
            (
              elim (own_or_malformed ack.seq seq ack.status e.ingest.ack_malformed t) [
                | inl is ↦ is
                | inr (none_given, bad) ↦ absurd (different (sym stored ∙ bad))
              ],
              stored,
            ))
          (λ other.
            under_test motive (ack.status == e.ingest.ack_malformed) _ _
              (λ bad. (
                elim (own_or_malformed ack.seq seq ack.status e.ingest.ack_malformed t) [
                  | inl is ↦ inl is
                  | inr (none_given, _) ↦ inr none_given
                ],
                (==_iff ack.status e.ingest.ack_malformed).0 bad,
              ))
              (λ b. tt)))

module _ {e : Gear} (g : DatabaseLaws e.dead_letter) where
  abbrev pub Fate : List Sample → ForwardSink e → Outcome ℕ × ForwardSink e → Type 0
  Fate batch s (works n, s') = Chunk g n batch s s'
  Fate batch s (fails why, s') = dead_rows g s' ≡ dead_rows g s

  abbrev Kept : List Sample → ForwardSink e → Outcome Unit × ForwardSink e → Type 0
  Kept chunk s (works u, s') =
      (dead_rows g s' ≡ dead_rows g s ++ map (encode_row e.can e.row) chunk)
      × (s'.conn ≡ s.conn)
      × (s'.seq ≡ s.seq)
  Kept chunk s (fails why, s') = dead_rows g s' ≡ dead_rows g s

  appended-Kept :
      (n : ℕ) (chunk : List Sample) (p : Bool × e.dead_letter.State)
      (x : SqliteCache e.can e.row e.dead_letter) (s : ForwardSink e)
      → (p.0 ≡ true
          → map (λ y. y.1) (g.table p.1) ≡ dead_rows g s ++ map (encode_row e.can e.row) chunk)
      → (p.0 ≡ false → map (λ y. y.1) (g.table p.1) ≡ dead_rows g s)
      → Kept chunk s (kept_dead e (appended e.can e.row e.dead_letter n p x) s)
  appended-Kept n chunk (true, db) x s good bad = (good refl, refl, refl)
  appended-Kept n chunk (false, db) x s good bad = bad refl

  append-Kept :
      (chunk : List Sample) (x : SqliteCache e.can e.row e.dead_letter) (s : ForwardSink e)
      → x.db ≡ s.dead_letter
      → Kept chunk s (kept_dead e (append e.can e.row e.dead_letter chunk x) s)
  unfolding append
  append-Kept [] x s same =
      (ap (λ z. map (λ y. y.1) (g.table z)) same ∙ sym (append-nil (dead_rows g s)), refl, refl)
  append-Kept (f ∷ fs) x s same =
      let rows = map (encode_row e.can e.row) (f ∷ fs) in
      let before : map (λ y. y.1) (g.table x.db) ≡ dead_rows g s =
        ap (λ z. map (λ y. y.1) (g.table z)) same in
      appended-Kept (length (f ∷ fs)) (f ∷ fs) (e.dead_letter.insert_all rows x.db) x s
        (λ good. elim (g.insert_law rows x.db) [
          | inl (_, (new, are, table)) ↦
              ap (map (λ y. y.1)) table
              ∙ map-append (λ y. y.1) (g.table x.db) new
              ∙ ap (λ z. map (λ y. y.1) (g.table x.db) ++ z) are
              ∙ ap (λ z. z ++ rows) before
          | inr (bad, _) ↦ cc
        ])
        (λ bad. elim (g.insert_law rows x.db) [
          | inl (good, _) ↦ cc
          | inr (_, table) ↦ ap (map (λ y. y.1)) table ∙ before
        ])

  opened-Kept :
      (max_mb : ℕ) (rows : Option ℕ) (chunk : List Sample) (s : ForwardSink e)
      → Kept chunk s
          (keep_dead e (opened e.can e.row e.dead_letter max_mb s.dead_letter rows) chunk s)
  opened-Kept max_mb none chunk s = refl
  opened-Kept max_mb (some n) chunk s = append-Kept chunk _ s refl

  quarantine-Kept : (chunk : List Sample) (s : ForwardSink e) → Kept chunk s (quarantine e chunk s)
  unfolding quarantine open_file
  quarantine-Kept chunk s =
      opened-Kept 18_446_744_073_709_551_615 (e.dead_letter.count_rows s.dead_letter) chunk s

module _ {e : Gear} (g : DatabaseLaws e.dead_letter) (k : IngestLaws e.ingest) (batch : List Sample)
    (s : ForwardSink e) (before : Connection) (from : s.conn ≡ some before) where
  module _ (between behind : Connection) (f : WireFrame)
      (out : send (e.ingest.encode_batch_from (next_seq s) batch).0 before ≡ (done, between))
      (back : recv e.ingest between ≡ (got f, behind)) (is_ack : f.mtype ≡ e.ingest.msg_ack)
      (ack : Ack) (read : e.ingest.parse_ack f.body ≡ some ack) where
    heard : (t : ForwardSink e) → t.seq ≡ next_seq s → t.conn ≡ some behind → Answered batch ack s t
    heard t num on = answered before between behind f num from out back is_ack read on

    quarantined-Fate :
        (o : Outcome Unit × ForwardSink e)
        → ((ack.seq ≡ next_seq s) ⊎ (ack.seq ≡ 0)) × (ack.status ≡ e.ingest.ack_malformed)
        → Kept g
            (take (e.ingest.encode_batch_from (next_seq s) batch).1 batch)
            (record s { seq = next_seq s; conn = some behind })
            o
        → Fate g batch s (quarantined e (e.ingest.encode_batch_from (next_seq s) batch).1 o)
    quarantined-Fate (works u, t) (num, status) (grown, conn, seq) =
        dead ack (heard t seq conn) refl
          (elim num [ inl is ↦ inl (is ∙ sym seq) | inr none_given ↦ inr none_given ]) status grown
    quarantined-Fate (fails why, t) judged h = h

    settled-Fate :
        (v : Verdict)
        → Judged e (next_seq s) ack v
        → Fate g batch s (
            settled e v
              (e.ingest.encode_batch_from (next_seq s) batch).1
              batch
              (record s { seq = next_seq s; conn = some behind }))
    unfolding settled
    settled-Fate taken (num, status) = accepted ack (heard _ refl refl) refl num status refl
    settled-Fate malformed_batch judged = quarantined-Fate _ judged (quarantine-Kept g _ _)
    settled-Fate unusable judged = refl

  ack-Fate :
      (between behind : Connection) (f : WireFrame) (o : Option Ack)
      → send (e.ingest.encode_batch_from (next_seq s) batch).0 before ≡ (done, between)
      → recv e.ingest between ≡ (got f, behind)
      → f.mtype ≡ e.ingest.msg_ack
      → e.ingest.parse_ack f.body ≡ o
      → Fate g batch s (
          settled e
            (verdict_of e (next_seq s) o)
            (e.ingest.encode_batch_from (next_seq s) batch).1
            batch
            (record s { seq = next_seq s; conn = some behind }))
  unfolding settled
  ack-Fate between behind f none out back is_ack read = refl
  ack-Fate between behind f (some ack) out back is_ack read =
      settled-Fate between behind f out back is_ack ack read (verdict e (next_seq s) ack)
        (verdict-Judged e (next_seq s) ack k)

  answer-Fate :
      (between : Connection) (x : Received × Connection)
      → send (e.ingest.encode_batch_from (next_seq s) batch).0 before ≡ (done, between)
      → recv e.ingest between ≡ x
      → Fate g batch s (
          await_answer e x
            (e.ingest.encode_batch_from (next_seq s) batch).1
            batch
            (record s { seq = next_seq s }))
  answer-Fate between (broken_off why, behind) out back = refl
  answer-Fate between (out_of_rounds, behind) out back = refl
  answer-Fate between (got f, behind) out back =
      under_test (Fate g batch s) (f.mtype == e.ingest.msg_ack) _ _
        (λ t.
          ack-Fate between behind f (e.ingest.parse_ack f.body) out back
            ((==_iff f.mtype e.ingest.msg_ack).0 t) refl)
        (λ t. refl)

  sent-Fate :
      (x : SinkResult × Connection)
      → send (e.ingest.encode_batch_from (next_seq s) batch).0 before ≡ x
      → Fate g batch s (
          sent_chunk e x
            (e.ingest.encode_batch_from (next_seq s) batch).1
            batch
            (record s { seq = next_seq s }))
  sent-Fate (refused why, between) out = refl
  sent-Fate (done, between) out = answer-Fate between (recv e.ingest between) out refl

module _ {e : Gear} (g : DatabaseLaws e.dead_letter) (k : IngestLaws e.ingest) where
  chunk_on-Fate :
      (o : Option Connection) (batch : List Sample) (s : ForwardSink e)
      → s.conn ≡ o
      → Fate g batch s (
          chunk_on e o
            (e.ingest.encode_batch_from (next_seq s) batch)
            batch
            (record s { seq = next_seq s }))
  chunk_on-Fate none batch s from = refl
  chunk_on-Fate (some before) batch s from = sent-Fate g k batch s before from _ refl

  pub send_chunk-Fate :
      (batch : List Sample) (s : ForwardSink e) → Fate g batch s (send_chunk e batch s)
  unfolding send_chunk
  send_chunk-Fate batch s = chunk_on-Fate s.conn batch s refl

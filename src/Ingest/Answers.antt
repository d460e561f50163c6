-- ===== src/Ingest/Answers.antt =====
-- crates/wiretap-server/src/ingest.rs: a batch is refused before any of it is taken, or taken as far as the
-- queue has room.
use wire_tap_server.Prelude.{
  ℕ, zero, suc, take, drop, ◌<◌, under_test, ◌+◌, ◌≤◌, ◌≡◌, ◌⊎◌, refl, sym, ap, ◌∙◌, inl, inr, Bool,
  true, false, not, ◌&&◌, ◌||◌, List, [], ◌∷◌, ◌++◌, map, append-nil, append_assoc, length,
  length-append, any, leb, arith,
}
use wire_tap_server.Model.{Sample}
use wire_tap_server.Archive.Interface.{Parts, Lawful, SendResult, sent, full, shut}
use wire_tap_server.Archive.Handle.{Shared, enqueue, enqueue_all, after_send, occupancy_pct}
use wire_tap_server.Archive.Flow.{
  accepted, overflowed, too_late, enqueue-Admission, after_sent, after_full, after_shut,
}
use wire_tap_server.Wire.Library.{CanLibrary, RecordLibrary}
use wire_tap_server.Ingest.Session.{Machine, Session, batch_status, is_serial, refuse_above_pct}

module _ {A : Type 0} {p : Parts A} (l : Lawful p) where
  after_send-queue :
      (now prior : ℕ) (answer : SendResult) (s : Shared p)
      → (after_send p now answer prior s).queue ≡ s.queue
  after_send-queue now prior sent s = (after_sent p now prior s).0
  after_send-queue now prior full s = (after_full p now prior s).0
  after_send-queue now prior shut s = (after_shut p now prior s).0

  enqueue-queue :
      (now : ℕ) (a : A) (s : Shared p)
      → (enqueue p now a s).queue ≡ (p.channel.try_send a s.queue).1
  unfolding enqueue
  enqueue-queue now a s = after_send-queue now _ (p.channel.try_send a s.queue).0 _

  -- An open queue takes the first of them, in their order, as far as it has room; the others are
  -- dropped and counted.
  pub enqueue_all-taken :
      (now : ℕ) (xs : List A) (s : Shared p) (room : ℕ)
      → p.channel.is_closed s.queue ≡ false
      → length (p.channel.contents s.queue) + room ≡ p.channel.max_capacity s.queue
      → let s' = enqueue_all p (map (λ a. (now, a)) xs) s in
        (p.channel.contents s'.queue ≡ p.channel.contents s.queue ++ take room xs)
        × (s'.counters.enqueued ≡ s.counters.enqueued + length (take room xs))
        × (s'.counters.dropped ≡ s.counters.dropped + length (drop room xs))
  unfolding enqueue_all
  enqueue_all-taken now [] s zero live fits =
      (sym (append-nil (p.channel.contents s.queue)), omega arith, omega arith)
  enqueue_all-taken now [] s (suc room) live fits =
      (sym (append-nil (p.channel.contents s.queue)), omega arith, omega arith)
  enqueue_all-taken now (x ∷ xs) s zero live fits =
      let s1 = enqueue p now x s in
      let (open_still, size) = l.queue_laws.try_send_keeps x s.queue in
      let q = enqueue-queue now x s in
      elim (enqueue-Admission l now x s) [
        | accepted _ room c k ↦ absurd (omega arith)
        | overflowed _ room c k ↦
            let same = ap length c in
            let max1 = ap p.channel.max_capacity q ∙ size in
            let (others, count, lost) =
              enqueue_all-taken now xs s1 zero (ap p.channel.is_closed q ∙ open_still ∙ live)
                (omega arith) in
            let enq : s1.counters.enqueued ≡ s.counters.enqueued = ap (λ z. z.enqueued) k in
            let one : s1.counters.dropped ≡ s.counters.dropped + 1 = ap (λ z. z.dropped) k in
            (others ∙ ap (λ ys. ys ++ []) c, omega arith, omega arith)
        | too_late closed c still k ↦ cc
      ]
  enqueue_all-taken now (x ∷ xs) s (suc room) live fits =
      let s1 = enqueue p now x s in
      let (open_still, size) = l.queue_laws.try_send_keeps x s.queue in
      let q = enqueue-queue now x s in
      elim (enqueue-Admission l now x s) [
        | accepted _ more c k ↦
            let longer : length (p.channel.contents s1.queue)
                ≡ length (p.channel.contents s.queue) + 1 =
              ap length c ∙ length-append (p.channel.contents s.queue) (x ∷ []) ∙ omega arith in
            let max1 = ap p.channel.max_capacity q ∙ size in
            let (others, count, lost) =
              enqueue_all-taken now xs s1 room (ap p.channel.is_closed q ∙ open_still ∙ live)
                (omega arith) in
            let one : s1.counters.enqueued ≡ s.counters.enqueued + 1 = ap (λ z. z.enqueued) k in
            let none_lost : s1.counters.dropped ≡ s.counters.dropped = ap (λ z. z.dropped) k in
            (
              others
                  ∙ ap (λ ys. ys ++ take room xs) c
                  ∙ append_assoc (p.channel.contents s.queue) (x ∷ []) (take room xs),
              omega arith,
              omega arith,
            )
        | overflowed _ more c k ↦ absurd (omega arith)
        | too_late closed c still k ↦ cc
      ]

module _ (m : Machine) {c : CanLibrary} (r : RecordLibrary c) {p : Parts Sample}
    (l : Lawful p) where
  -- The answer to a batch: raw serial that may not be sent on, or a queue that is closed or all but
  -- full, is refused with nothing of it taken; every other batch is acknowledged, and as many of its
  -- frames are queued as `room` says.
  pub data Answer (room : ℕ) (samples : List Sample) (s : Session m r p) (x : ℕ × Session m r p)
      : Type 0 where
    not_relayed :
        s.relays_raw_serial ≡ false
        → any is_serial samples ≡ true
        → x.0 ≡ m.ack_malformed
        → x.1 ≡ s
        → Answer room samples s x
    overloaded :
        (not s.relays_raw_serial && any is_serial samples) ≡ false
        → (p.channel.is_closed s.archive.queue ≡ true)
          ⊎ (refuse_above_pct ≤ occupancy_pct p s.archive)
        → x.0 ≡ m.ack_overloaded
        → x.1 ≡ s
        → Answer room samples s x
    taken :
        (not s.relays_raw_serial && any is_serial samples) ≡ false
        → p.channel.is_closed s.archive.queue ≡ false
        → occupancy_pct p s.archive < refuse_above_pct
        → x.0 ≡ m.ack_ok
        → p.channel.contents x.1.archive.queue
          ≡ p.channel.contents s.archive.queue ++ take room samples
        → x.1.archive.counters.enqueued ≡ s.archive.counters.enqueued + length (take room samples)
        → x.1.archive.counters.dropped ≡ s.archive.counters.dropped + length (drop room samples)
        → Answer room samples s x

  both_true : (x y : Bool) → (not x && y) ≡ true → (x ≡ false) × (y ≡ true)
  both_true true y e = absurd cc
  both_true false y e = (refl, e)

  either_true : (x : Bool) (n k : ℕ) → (x || leb n k) ≡ true → (x ≡ true) ⊎ (n ≤ k)
  either_true true n k e = inl refl
  either_true false n k e = inr (ground arith)

  neither : (x : Bool) (n k : ℕ) → (x || leb n k) ≡ false → (x ≡ false) × (k < n)
  neither true n k e = absurd cc
  neither false n k e = (refl, ground arith)

  -- Every branch of `batch_status`, with its condition: raw serial that no session here relays is refused as malformed, a batch for a queue that is closed or at least 99 percent full is refused as overloaded, and both leave the archive as it was; any other batch is acknowledged, and its frames are queued in their order and counted as far as the queue has room, and the rest of them are dropped and counted.
  pub batch_status-Answer :
      (now room : ℕ) (samples : List Sample) (s : Session m r p)
      → length (p.channel.contents s.archive.queue) + room ≡ p.channel.max_capacity s.archive.queue
      → Answer room samples s (batch_status m r p now samples s)
  unfolding batch_status
  batch_status-Answer now room samples s fits =
      under_test (Answer room samples s) (not s.relays_raw_serial && any is_serial samples) _ _
        (λ t.
          let (off, serial) = both_true s.relays_raw_serial (any is_serial samples) t in
          not_relayed off serial refl refl)
        (λ t.
          under_test (Answer room samples s)
            (p.channel.is_closed s.archive.queue
              || leb refuse_above_pct (occupancy_pct p s.archive))
            _ _
            (λ e.
              overloaded t
                (either_true (p.channel.is_closed s.archive.queue) refuse_above_pct
                  (occupancy_pct p s.archive) e)
                refl refl)
            (λ e.
              let (live, below) =
                neither (p.channel.is_closed s.archive.queue) refuse_above_pct
                  (occupancy_pct p s.archive) e in
              let (all, count, lost) = enqueue_all-taken l now samples s.archive room live fits in
              taken t live below refl all count lost))

-- ===== src/Archive/Flow.antt =====
-- crates/wiretap-server/src/archive.rs: the counters as an account of the frames.
use wire_tap_server.Prelude.{
  ℕ, ◌+◌, ◌≤◌, ◌<◌, ◌≡◌, true, false, List, [], ◌∷◌, ◌++◌, arith, length, ltb, ltb→lt, ap, ◌∙◌, inl,
  inr, Bool-cases, length-append,
}
use wire_tap_server.Archive.Interface.{Parts, Lawful, sent, full, shut}
use wire_tap_server.Archive.Handle.{
  Shared, enqueue, enqueue_all, after_send, warn_thresholds, log_queue_full, report_closed,
}

module _ {A : Type 0} {p : Parts A} where
  abbrev pub queued : Shared p → ℕ
  queued s = length (p.channel.contents s.queue)

  -- Frames that are queued, and those that the worker has counted as dealt with.
  abbrev pub total : Shared p → ℕ
  total s = queued s + s.counters.written + s.counters.cached + s.counters.dropped

  -- Frames that the queue took, and those that came back from the disk cache.
  abbrev pub owed : Shared p → ℕ
  owed s = s.counters.enqueued + s.counters.cache_recovered

-- From `s` to `s'`, with `hand` frames in the worker's hands before and `hand'` after, while `n`
-- frames were handed over: all are accounted for, `overflow` of them dropped at a full queue.
pub record Flow {A : Type 0} {p : Parts A} (n hand hand' : ℕ) (s s' : Shared p) : Type 0 where
  pub overflow : ℕ
  pub balance : total s' + hand' + owed s ≡ total s + hand + owed s' + overflow
  pub offered : s'.counters.enqueued + overflow ≤ s.counters.enqueued + n

module _ {A : Type 0} {p : Parts A} where
  pub Flow-refl : (hand : ℕ) (s : Shared p) → Flow 0 hand hand s s
  Flow-refl hand s = record { overflow = 0; balance = omega arith; offered = omega arith }

  pub Flow-trans :
      {n m h h' h'' : ℕ} {s s' s'' : Shared p}
      → Flow n h h' s s'
      → Flow m h' h'' s' s''
      → Flow (n + m) h h'' s s''
  Flow-trans f g = record {
    overflow = f.overflow + g.overflow;
    balance = omega arith;
    offered = omega arith;
  }

  -- Frames in hand that take no part.
  pub Flow-frame :
      {n h h' : ℕ} (k : ℕ) {s s' : Shared p} → Flow n h h' s s' → Flow n (h + k) (h' + k) s s'
  Flow-frame k f = record { overflow = f.overflow; balance = omega arith; offered = f.offered }

  pub Flow-more :
      {n h h' : ℕ} (m : ℕ) {s s' : Shared p} → n ≤ m → Flow n h h' s s' → Flow m h h' s s'
  Flow-more m le f = record { overflow = f.overflow; balance = f.balance; offered = omega arith }

-- Reporting leaves the frames and the counters alone.
abbrev Unmoved : {A : Type 0} {p : Parts A} → Shared p → Shared p → Type 0
Unmoved s s' = (s'.queue ≡ s.queue) × (s'.counters ≡ s.counters)

module _ {A : Type 0} (p : Parts A) where
  warn_thresholds_keeps : (s : Shared p) → Unmoved s (warn_thresholds p s)
  unfolding warn_thresholds
  warn_thresholds_keeps s = ground arith

  log_queue_full_keeps : (now prior : ℕ) (s : Shared p) → Unmoved s (log_queue_full p now prior s)
  unfolding log_queue_full
  log_queue_full_keeps now prior s = ground arith

  report_closed_keeps : (s : Shared p) → Unmoved s (report_closed p s)
  unfolding report_closed
  report_closed_keeps s = ground arith

  -- The three answers of `try_send`: what is in the queue and the counters afterwards.
  pub after_sent :
      (now prior : ℕ) (s : Shared p)
      → ((after_send p now sent prior s).queue ≡ s.queue)
        × ((after_send p now sent prior s).counters
            ≡ record s.counters { enqueued = s.counters.enqueued + 1 })
  unfolding after_send
  after_sent now prior s = warn_thresholds_keeps _

  pub after_full :
      (now prior : ℕ) (s : Shared p)
      → ((after_send p now full prior s).queue ≡ s.queue)
        × ((after_send p now full prior s).counters
            ≡ record s.counters { dropped = s.counters.dropped + 1 })
  unfolding after_send
  after_full now prior s = log_queue_full_keeps now prior _

  pub after_shut :
      (now prior : ℕ) (s : Shared p)
      → ((after_send p now shut prior s).queue ≡ s.queue)
        × ((after_send p now shut prior s).counters ≡ s.counters)
  unfolding after_send
  after_shut now prior s = report_closed_keeps s

-- What `enqueue` does with a frame: the queue takes it, it is dropped and counted, or the archive
-- has closed.
pub data Admission {A : Type 0} {p : Parts A} (a : A) (s s' : Shared p) : Type 0 where
  accepted :
      p.channel.is_closed s.queue ≡ false
      → length (p.channel.contents s.queue) < p.channel.max_capacity s.queue
      → p.channel.contents s'.queue ≡ p.channel.contents s.queue ++ (a ∷ [])
      → s'.counters ≡ record s.counters { enqueued = s.counters.enqueued + 1 }
      → Admission a s s'
  overflowed :
      p.channel.is_closed s.queue ≡ false
      → p.channel.max_capacity s.queue ≤ length (p.channel.contents s.queue)
      → p.channel.contents s'.queue ≡ p.channel.contents s.queue
      → s'.counters ≡ record s.counters { dropped = s.counters.dropped + 1 }
      → Admission a s s'
  too_late :
      p.channel.is_closed s.queue ≡ true
      → p.channel.contents s'.queue ≡ p.channel.contents s.queue
      → p.channel.is_closed s'.queue ≡ true
      → s'.counters ≡ s.counters
      → Admission a s s'

module _ {A : Type 0} {p : Parts A} (l : Lawful p) (now : ℕ) (a : A) (s : Shared p) where
  -- The shared state after `try_send`, before it is answered.
  abbrev after_try : Shared p
  after_try = record s { queue = (p.channel.try_send a s.queue).1 }

  -- Every branch of `enqueue`: an open queue with room takes the frame at its end and counts it, a
  -- full one stays as it is and the frame is counted as dropped, and a closed one leaves both the
  -- queue and the counters alone.
  pub enqueue-Admission : Admission a s (enqueue p now a s)
  unfolding enqueue
  enqueue-Admission = elim (Bool-cases (p.channel.is_closed s.queue)) [
    | inl closed ↦
        let e = rw closed at (l.queue_laws.try_send_answer a s.queue) in
        let c = rw closed at (l.queue_laws.try_send_contents a s.queue) in
        let k = after_shut p now s.counters.dropped after_try in
        let still =
          ap p.channel.is_closed k.0 ∙ (l.queue_laws.try_send_keeps a s.queue).0 ∙ closed in
        rw e (too_late closed (ap p.channel.contents k.0 ∙ c) still k.1)
    | inr live ↦
        elim (Bool-cases
          (ltb (length (p.channel.contents s.queue)) (p.channel.max_capacity s.queue))) [
            | inl room ↦
                let e = rw (live, room) at (l.queue_laws.try_send_answer a s.queue) in
                let c = rw (live, room) at (l.queue_laws.try_send_contents a s.queue) in
                let k = after_sent p now s.counters.dropped after_try in
                rw e (accepted live (ltb→lt _ _ room) (ap p.channel.contents k.0 ∙ c) k.1)
            | inr no_room ↦
                let e = rw (live, no_room) at (l.queue_laws.try_send_answer a s.queue) in
                let c = rw (live, no_room) at (l.queue_laws.try_send_contents a s.queue) in
                let k = after_full p now s.counters.dropped after_try in
                rw e (overflowed live (ground arith) (ap p.channel.contents k.0 ∙ c) k.1)
          ]
  ]

module _ {A : Type 0} {p : Parts A} where
  Admission-Flow : {a : A} {s s' : Shared p} → Admission a s s' → Flow 1 0 0 s s'
  Admission-Flow {a} {s} {s'} (accepted live room c k) = record {
    overflow = 0;
    balance = rw (k, c, length-append) (omega arith);
    offered = rw k (omega arith);
  }
  Admission-Flow (overflowed live room c k) = record {
    overflow = 1;
    balance = rw (k, c) (omega arith);
    offered = rw k (omega arith);
  }
  Admission-Flow (too_late closed c still k) = record {
    overflow = 0;
    balance = rw (k, c) (omega arith);
    offered = rw k (omega arith);
  }

  pub enqueue_all-Flow :
      (l : Lawful p) (arrivals : List (ℕ × A)) (s : Shared p)
      → Flow (length arrivals) 0 0 s (enqueue_all p arrivals s)
  unfolding enqueue_all
  enqueue_all-Flow l [] s = Flow-refl 0 s
  enqueue_all-Flow l ((now, a) ∷ rest) s = Flow-more _ (omega arith) (
      Flow-trans (Admission-Flow (enqueue-Admission l now a s))
        (enqueue_all-Flow l rest (enqueue p now a s)))

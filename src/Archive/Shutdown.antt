-- ===== src/Archive/Shutdown.antt =====
-- crates/wiretap-server/src/archive.rs: nothing is queued once a run has ended, and every frame is
-- accounted for.
use wire_tap_server.Prelude.{
  ℕ, ◌+◌, ◌≤◌, ◌≡◌, refl, ap, ◌∙◌, inl, inr, true, false, List, [], ◌∷◌, arith, length, drop,
  Bool-cases, if◌then◌else◌,
}
use wire_tap_server.Archive.Interface.{Parts, Lawful}
use wire_tap_server.Archive.Handle.{Shared, zero_counters, enqueue, enqueue_all}
use wire_tap_server.Archive.Worker.{Worker, is_empty, meanwhile, cache_if_any, take_queued}
use wire_tap_server.Archive.Run.{Turn, turn, flush_to_sink, flush_remaining, shutdown_flush, run}
use wire_tap_server.Archive.Flow.{accepted, overflowed, too_late, enqueue-Admission}
use wire_tap_server.Archive.Receive.{take_queued_lem, receive_up_to_keeps}
use wire_tap_server.Archive.Spill.{Spill, kept, lost, cache_batch-Spill}
use wire_tap_server.Archive.Balance.{run_offers, run-Moves}
use wire_tap_server.Archive.Leaving.{turn-Leaves}

module _ {A : Type 0} {p : Parts A} (l : Lawful p) where
  -- A closed queue takes nothing.
  enqueue-closed :
      (now : ℕ) (a : A) (s : Shared p)
      → p.channel.is_closed s.queue ≡ true
      → (p.channel.contents (enqueue p now a s).queue ≡ p.channel.contents s.queue)
        × (p.channel.is_closed (enqueue p now a s).queue ≡ true)
  enqueue-closed now a s closed = elim (enqueue-Admission l now a s) [
    | accepted live room c k ↦ cc
    | overflowed live room c k ↦ cc
    | too_late was c still k ↦ (c, still)
  ]

  enqueue_all-closed :
      (arrivals : List (ℕ × A)) (s : Shared p)
      → p.channel.is_closed s.queue ≡ true
      → p.channel.contents (enqueue_all p arrivals s).queue ≡ p.channel.contents s.queue
  unfolding enqueue_all
  enqueue_all-closed [] s closed = refl
  enqueue_all-closed ((now, a) ∷ rest) s closed =
      let (same, still) = enqueue-closed now a s closed in
      enqueue_all-closed rest (enqueue p now a s) still ∙ same

  Spill-queue : {batch : List A} {w w' : Worker p} → Spill l batch w w' → w'.queue ≡ w.queue
  Spill-queue (kept c room took s e) = rw e
  Spill-queue (lost c why s e) = rw e

  cache_if_any-queue : (batch : List A) (w : Worker p) → (cache_if_any p batch w).queue ≡ w.queue
  unfolding cache_if_any
  cache_if_any-queue [] w = refl
  cache_if_any-queue (a ∷ rest) w = Spill-queue (cache_batch-Spill l (a ∷ rest) w)

  flush_to_sink-contents :
      (arrivals : List (ℕ × A)) (remaining : List A) (w : Worker p)
      → p.channel.is_closed w.queue ≡ true
      → p.channel.contents (flush_to_sink p arrivals remaining w).1.queue
        ≡ p.channel.contents w.queue
  unfolding flush_to_sink meanwhile
  flush_to_sink-contents arrivals remaining w closed = elim (Bool-cases w.connected) [
    | inl up ↦ simp up (enqueue_all-closed arrivals w.shared closed)
    | inr down ↦ simp down refl
  ]

  flush_remaining-contents :
      (arrivals : List (ℕ × A)) (remaining : List A) (w : Worker p)
      → p.channel.is_closed w.queue ≡ true
      → p.channel.contents (flush_remaining p arrivals remaining w).queue
        ≡ p.channel.contents w.queue
  unfolding flush_remaining
  flush_remaining-contents arrivals remaining w closed =
      ap p.channel.contents
        (cache_if_any-queue (drop (flush_to_sink p arrivals remaining w).0 remaining) _)
      ∙ flush_to_sink-contents arrivals remaining w closed

  flush_if_any-contents :
      (arrivals : List (ℕ × A)) (remaining : List A) (w : Worker p)
      → p.channel.is_closed w.queue ≡ true
      → p.channel.contents
          (if is_empty remaining then w else flush_remaining p arrivals remaining w).queue
        ≡ p.channel.contents w.queue
  flush_if_any-contents arrivals [] w closed = refl
  flush_if_any-contents arrivals (a ∷ rest) w closed =
      flush_remaining-contents arrivals (a ∷ rest) w closed

  -- After the flush of a closed queue nothing is queued.
  pub shutdown_flush-empty :
      (arrivals : List (ℕ × A)) (w : Worker p)
      → p.channel.is_closed w.queue ≡ true
      → p.channel.contents (shutdown_flush p arrivals w).queue ≡ []
  unfolding shutdown_flush take_queued
  shutdown_flush-empty arrivals w closed =
      let n = length (p.channel.contents w.queue) in
      flush_if_any-contents arrivals _ _ (receive_up_to_keeps l n w.queue ∙ closed)
      ∙ (take_queued_lem l w).1

  -- A run that has ended leaves nothing in the queue.
  pub run-empty :
      (ts : List (Turn A)) (at_flush : List (ℕ × A)) (w : Worker p)
      → (run p ts at_flush w).0 ≡ false
      → p.channel.contents (run p ts at_flush w).1.queue ≡ []
  unfolding run
  run-empty [] at_flush w e = cc
  run-empty (t ∷ ts) at_flush w e = elim (Bool-cases (turn p t w).0) [
    | inl on ↦ rw (on, run) (run-empty ts at_flush (turn p t w).1 (rw (on, run) at e))
    | inr off ↦ rw (off, run) (shutdown_flush-empty at_flush _ (turn-Leaves l t w off).0)
  ]

  -- A run that starts with an empty queue and fresh counters, and that has ended, accounts for
  -- every frame: what was written, cached or dropped is what the queue took, what came back from
  -- the disk cache, and the frames that a full queue turned away; of the frames handed over, the
  -- rest arrived after the queue was closed.
  pub run_accounts :
      (ts : List (Turn A)) (at_flush : List (ℕ × A)) (w : Worker p)
      → 1 ≤ w.batch_size
      → p.channel.contents w.queue ≡ []
      → w.counters ≡ zero_counters
      → (run p ts at_flush w).0 ≡ false
      → let c = (run p ts at_flush w).1.counters in
        (overflow : ℕ) × (c.written + c.cached + c.dropped
          ≡ c.enqueued + c.cache_recovered + overflow)
        × (c.enqueued + overflow ≤ run_offers ts at_flush)
  run_accounts ts at_flush w b empty zeros ended =
      let account = run-Moves l ts at_flush w b in
      let overflow = account.flow.overflow in
      let balance = account.flow.balance in
      let offered = account.flow.offered in
      let before : length (p.channel.contents w.queue) ≡ 0 = ap length empty in
      let after : length (p.channel.contents (run p ts at_flush w).1.queue) ≡ 0 =
        ap length (run-empty ts at_flush w ended) in
      let enqueued : w.counters.enqueued ≡ 0 = ap (λ c. c.enqueued) zeros in
      let written : w.counters.written ≡ 0 = ap (λ c. c.written) zeros in
      let cached : w.counters.cached ≡ 0 = ap (λ c. c.cached) zeros in
      let dropped : w.counters.dropped ≡ 0 = ap (λ c. c.dropped) zeros in
      let recovered : w.counters.cache_recovered ≡ 0 = ap (λ c. c.cache_recovered) zeros in
      (overflow, omega arith, omega arith)

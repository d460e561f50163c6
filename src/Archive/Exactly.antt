-- ===== src/Archive/Exactly.antt =====
-- crates/wiretap-server/src/archive.rs: each frame that the queue took is archived exactly once, in
-- the order of its capture, over a whole run.
use wire_tap_server.Prelude.{
  ℕ, ◌≤◌, ◌≡◌, refl, ap, ◌∙◌, ◌⊎◌, inl, inr, Bool, true, false, List, [], ◌∷◌, ◌++◌, append-nil,
  arith, length, Bool-cases, if◌then◌else◌,
}
use wire_tap_server.Archive.Interface.{Parts, Lawful, samples}
use wire_tap_server.Archive.Handle.{zero_counters}
use wire_tap_server.Archive.Worker.{new_worker, Worker, is_empty, take_queued, receive_up_to}
use wire_tap_server.Archive.Run.{
  Turn, turn, run, shutdown_flush, flush_remaining, flush_to_sink, count_written,
}
use wire_tap_server.Archive.Order.{
  Reliable, Accepts, ledger, InOrder, InOrder-trans, InOrder-skip, InOrder-rest, InOrder-still,
}
use wire_tap_server.Archive.Receive.{take_queued_lem}
use wire_tap_server.Archive.Outage.{receive-InOrder, cache_if_any-InOrder}
use wire_tap_server.Archive.Delivery.{InOrder-idle}
use wire_tap_server.Archive.Leaving.{turn-Leaves}
use wire_tap_server.Archive.Rounds.{turn_list, turn-InOrder}

-- What is handed over during a run of these turns.
abbrev pub run_list : {A : Type 0} → List (Turn A) → List (ℕ × A) → List (ℕ × A)
run_list [] at_flush = at_flush
run_list (t ∷ ts) at_flush = turn_list t ++ run_list ts at_flush

module _ {A : Type 0} {p : Parts A} (l : Lawful p) (r : Reliable p) where
  if_false : {B : Type 0} (b : Bool) (x y : B) → b ≡ false → (if b then x else y) ≡ y
  if_false true x y e = cc
  if_false false x y e = refl

  flush_down :
      (arrivals : List (ℕ × A)) (remaining : List A) (w : Worker p)
      → w.connected ≡ false
      → flush_to_sink p arrivals remaining w ≡ (0, w)
  unfolding flush_to_sink
  flush_down arrivals remaining w down = if_false w.connected _ (0, w) down

  -- With the sink gone, what was queued goes to disk.
  flush_if_any-InOrder :
      (arrivals : List (ℕ × A)) (remaining : List A) (w : Worker p)
      → (remaining ≡ []) ⊎ (w.connected ≡ false)
      → InOrder l arrivals remaining [] w
          (if is_empty remaining then w else flush_remaining p arrivals remaining w)
  unfolding flush_remaining count_written
  flush_if_any-InOrder arrivals [] w e = InOrder-idle l r arrivals [] w
  flush_if_any-InOrder arrivals (a ∷ rest) w (inl e) = cc
  flush_if_any-InOrder arrivals (a ∷ rest) w (inr down) =
      rw (flush_down arrivals (a ∷ rest) w down) (
        InOrder-rest {l = l} arrivals (
          InOrder-trans {h' = a ∷ rest} {h'' = []}
            (InOrder-still w (count_written p 0 w) refl refl refl)
            (cache_if_any-InOrder l r (a ∷ rest) (count_written p 0 w))))

  shutdown_flush-InOrder :
      (arrivals : List (ℕ × A)) (w : Worker p)
      → (p.channel.contents w.queue ≡ []) ⊎ (w.connected ≡ false)
      → InOrder l arrivals [] [] w (shutdown_flush p arrivals w)
  unfolding shutdown_flush take_queued
  shutdown_flush-InOrder arrivals w e =
      let n = length (p.channel.contents w.queue) in
      rw append-nil at (
        InOrder-trans {h' = []} {h'' = []}
          (InOrder-trans (receive-InOrder l r n w)
            (flush_if_any-InOrder arrivals (receive_up_to p n w.queue).0 _ (taken e)))
          (InOrder-still _ (shutdown_flush p arrivals w) (rw (l.sink_laws.close_keeps _) refl) refl
            refl))
    where
      taken :
          (p.channel.contents w.queue ≡ []) ⊎ (w.connected ≡ false)
          → ((take_queued p w).0 ≡ []) ⊎ (w.connected ≡ false)
      taken (inl empty) = inl ((take_queued_lem l w).0 ∙ empty)
      taken (inr down) = inr down

  later :
      (ts : List (Turn A)) (at_flush : List (ℕ × A)) {w w' : Worker p}
      → InOrder l at_flush [] [] w w'
      → InOrder l (run_list ts at_flush) [] [] w w'
  later [] at_flush f = f
  later (t ∷ ts) at_flush f = InOrder-skip (turn_list t) (later ts at_flush f)

  run-InOrder :
      (ts : List (Turn A)) (at_flush : List (ℕ × A)) (w : Worker p)
      → 1 ≤ w.batch_size
      → InOrder l (run_list ts at_flush) [] [] w (run p ts at_flush w).1
  unfolding run
  run-InOrder [] at_flush w b = InOrder-idle l r at_flush [] w
  run-InOrder (t ∷ ts) at_flush w b =
      let first = turn-InOrder l r t w b in
      let size = first.size in
      elim (Bool-cases (turn p t w).0) [
        | inl on ↦ rw (on, run) (InOrder-trans first (run-InOrder ts at_flush _ (omega arith)))
        | inr off ↦
            rw (off, run)
              (InOrder-trans first (
                later ts at_flush
                  (shutdown_flush-InOrder at_flush (turn p t w).1 (turn-Leaves l t w off).1)))
      ]

  -- With a disk cache that is reliable, over a run that starts with nothing anywhere: the frames
  -- that the sink has, then those on disk, then those still queued, are exactly the frames that the
  -- queue took, once each and in the order they were handed over, whichever of the sink's calls
  -- fail, and wherever; `enqueued` counts them.
  pub run_keeps_order :
      (ts : List (Turn A)) (at_flush : List (ℕ × A)) (w : Worker p)
      → 1 ≤ w.batch_size
      → ledger l w [] ≡ []
      → w.counters ≡ zero_counters
      → let w' = (run p ts at_flush w).1 in
        (taken : List A) × Accepts (run_list ts at_flush) taken
        × (l.sink_laws.archived w'.sink
              ++ (samples (l.cache_laws.rows w'.cache) ++ p.channel.contents w'.queue)
            ≡ taken)
        × (w'.counters.enqueued ≡ length taken)
  run_keeps_order ts at_flush w b empty zeros =
      let f = run-InOrder ts at_flush w b in
      let counted = f.counted in
      let none : w.counters.enqueued ≡ 0 = ap (λ c. c.enqueued) zeros in
      (f.taken, f.accepts, f.order ∙ ap (λ xs. xs ++ f.taken) empty, omega arith)

  -- The worker that `channel` makes, with an empty queue, a sink that has nothing and an empty
  -- cache, can start such a run.
  pub new_worker_lem :
      (queue : p.channel.State) (sink : p.sink.State) (cache : p.cache.State) (size flush_pct : ℕ)
      → p.channel.contents queue ≡ []
      → l.sink_laws.archived sink ≡ []
      → l.cache_laws.rows cache ≡ []
      → let w = new_worker p queue sink cache size flush_pct in
        (1 ≤ w.batch_size) × (ledger l w [] ≡ []) × (w.counters ≡ zero_counters)
  unfolding new_worker
  new_worker_lem queue sink cache size flush_pct none_queued none_stored none_cached =
      (ground arith, rw (none_queued, none_stored, none_cached) refl, refl)

-- ===== src/Archive/Balance.antt =====
-- crates/wiretap-server/src/archive.rs: the account over a turn, and over a run that has ended.
use wire_tap_server.Prelude.{
  ℕ, ◌+◌, ◌≤◌, ◌≡◌, refl, inl, inr, Bool, true, false, List, [], ◌∷◌, arith, length, drop,
  length-drop, Bool-cases, if◌then◌else◌,
}
use wire_tap_server.Archive.Interface.{Parts, Lawful, SinkResult, done, refused}
use wire_tap_server.Archive.Worker.{
  Worker, Wait, stop_signal, woken, Drained, more, nothing, broken, is_empty, report, next_batch,
  before_first, take_queued, spill_if_queue_filling, meanwhile,
}
use wire_tap_server.Archive.Run.{
  Turn, with_sink, after_drain, work, after_connect, turn, flush_to_sink, count_written,
  flush_remaining, shutdown_flush, run,
}
use wire_tap_server.Archive.Accounting.{
  Moves, Moves-trans, Moves-refl, Moves-idle, report-Moves, meanwhile-Moves, receive-Moves,
  spill-Moves,
}
use wire_tap_server.Archive.Turns.{
  wait_offers, batch_offers, turn_offers, close_queue-Moves, fail-Moves, Moves-sink,
  drain_cache-Moves, send_batch-Moves, cache_if_any-Moves,
}

-- How many frames are handed over during a run of these turns.
abbrev pub run_offers : {A : Type 0} → List (Turn A) → List (ℕ × A) → ℕ
run_offers [] at_flush = length at_flush
run_offers (t ∷ ts) at_flush = turn_offers t + run_offers ts at_flush

flush_le-run_offers :
    {A : Type 0} (ts : List (Turn A)) (at_flush : List (ℕ × A))
    → length at_flush ≤ run_offers ts at_flush
flush_le-run_offers [] at_flush = omega arith
flush_le-run_offers (t ∷ ts) at_flush = omega (arith, flush_le-run_offers ts at_flush)

if_pair-Moves :
    {A : Type 0} {p : Parts A} {B : Type 0} (b : Bool) {n h h' : ℕ} {w : Worker p}
    (x y : B × Worker p)
    → Moves n h h' w x.1
    → Moves n h h' w y.1
    → Moves n h h' w (if b then x else y).1
if_pair-Moves true x y f g = f
if_pair-Moves false x y f g = g

module _ {A : Type 0} {p : Parts A} (l : Lawful p) where
  before_first-Moves :
      (t : Wait A) (w : Worker p) → Moves (wait_offers t) 0 0 w (before_first p t w)
  unfolding before_first
  before_first-Moves stop_signal w = close_queue-Moves l w
  before_first-Moves (woken arrivals) w = meanwhile-Moves l arrivals w

  next_batch-Moves :
      (t : Wait A) (w : Worker p)
      → Moves (wait_offers t) 0 (length (next_batch p t w).0) w (next_batch p t w).1
  unfolding next_batch
  next_batch-Moves t w =
      Moves-trans (before_first-Moves t w)
        (receive-Moves l (before_first p t w).batch_size (before_first p t w)) (omega arith)
        (omega arith)

  after_drain-Moves :
      (t : Turn A) (d : Drained) (w : Worker p)
      → 1 ≤ w.batch_size
      → Moves (batch_offers t) 0 0 w (after_drain p t d w).1
  unfolding after_drain
  after_drain-Moves t more w b = Moves-idle _ 0 w
  after_drain-Moves t nothing w b =
      let taken = next_batch-Moves t.at_batch w in
      let size = taken.size in
      Moves-trans taken (send_batch-Moves l t _ _ (omega arith)) (omega arith) (omega arith)
  after_drain-Moves t (broken e) w b =
      Moves-trans (fail-Moves l t e [] w b) (Moves-refl 0 _) (omega arith) (omega arith)

  work-Moves :
      (t : Turn A) (w : Worker p)
      → 1 ≤ w.batch_size
      → Moves (length t.at_drain + batch_offers t) 0 0 w (work p t w).1
  unfolding work
  work-Moves t w b =
      let drained = drain_cache-Moves l t.ack_ms t.at_drain w in
      let size = drained.size in
      Moves-trans drained (after_drain-Moves t _ _ (omega arith)) (omega arith) (omega arith)

  after_connect-Moves :
      (t : Turn A) (r : SinkResult) (w : Worker p)
      → 1 ≤ w.batch_size
      → Moves (length t.at_drain + batch_offers t) 0 0 w (after_connect p t r w).1
  unfolding after_connect
  after_connect-Moves t done w b =
      Moves-trans (Moves-sink l w _ refl refl) (work-Moves t _ b) (omega arith) (omega arith)
  after_connect-Moves t (refused e) w b =
      Moves-trans (fail-Moves l t e [] w b) (Moves-refl 0 _) (omega arith) (omega arith)

  -- One turn of the loop, whatever the sink, the cache and the producers do in it.
  pub turn-Moves :
      (t : Turn A) (w : Worker p) → 1 ≤ w.batch_size → Moves (turn_offers t) 0 0 w (turn p t w).1
  unfolding turn report
  turn-Moves t w b =
      if_pair-Moves w'.connected _ _
        (Moves-trans ready (work-Moves t w' bound) (omega arith) (omega arith))
        (Moves-trans connecting (after_connect-Moves t _ _ still) (omega arith) (omega arith))
    where
      w' : Worker p
      w' = spill_if_queue_filling p (report p w)

      reported : Moves 0 0 0 w (report p w)
      reported = report-Moves 0 w

      same : (report p w).batch_size ≡ w.batch_size
      same = reported.size

      ready : Moves 0 0 0 w w'
      ready =
          Moves-trans reported (spill-Moves l (report p w) (omega arith)) (omega arith)
            (omega arith)

      bound : 1 ≤ w'.batch_size
      bound = let size = ready.size in omega arith

      trying : Worker p
      trying = with_sink p (p.sink.connect w'.sink).1 w'

      connecting : Moves (length t.at_connect) 0 0 w (meanwhile p t.at_connect trying)
      connecting =
          Moves-trans {n = 0} {m = length t.at_connect} ready
            (Moves-trans {n = 0} {m = length t.at_connect} {k = length t.at_connect} {x = 0} {y = 0}
              (Moves-sink l w' trying refl refl) (meanwhile-Moves l t.at_connect trying)
              (omega arith) (omega arith))
            (omega arith) (omega arith)

      still : 1 ≤ (meanwhile p t.at_connect trying).batch_size
      still = let size = connecting.size in omega arith

  flush_to_sink-Moves :
      (arrivals : List (ℕ × A)) (remaining : List A) (w : Worker p)
      → Moves (length arrivals) 0 0 w (flush_to_sink p arrivals remaining w).1
  unfolding flush_to_sink
  flush_to_sink-Moves arrivals remaining w =
      if_pair-Moves w.connected _ _
        (Moves-trans {n = 0} {m = length arrivals} {k = length arrivals} {x = 0} {y = 0}
          (Moves-sink l w (with_sink p (p.sink.write_batch remaining w.sink).1 w) refl refl)
          (meanwhile-Moves l arrivals _) (omega arith) (omega arith))
        (Moves-idle _ 0 w)

  flush_to_sink_bound :
      (arrivals : List (ℕ × A)) (remaining : List A) (w : Worker p)
      → (flush_to_sink p arrivals remaining w).0 ≤ length remaining
  unfolding flush_to_sink
  flush_to_sink_bound arrivals remaining w = elim (Bool-cases w.connected) [
    | inl up ↦ simp up (l.sink_laws.delivered_bound remaining w.sink)
    | inr down ↦ simp down (omega arith)
  ]

  count_written-Moves : (n h k : ℕ) (w : Worker p) → n + k ≡ h → Moves 0 h k w (count_written p n w)
  unfolding count_written
  count_written-Moves n h k w e = record {
    flow = record { overflow = 0; balance = omega arith; offered = omega arith };
    size = refl;
  }

  flush_remaining-Moves :
      (arrivals : List (ℕ × A)) (remaining : List A) (w : Worker p)
      → Moves (length arrivals) (length remaining) 0 w (flush_remaining p arrivals remaining w)
  unfolding flush_remaining
  flush_remaining-Moves arrivals remaining w =
      let flushed = (flush_to_sink p arrivals remaining w).0 in
      let left = drop flushed remaining in
      Moves-trans {n = length arrivals} {m = 0} (flush_to_sink-Moves arrivals remaining w)
        (Moves-trans {k = 0} {x = length remaining} {y = 0}
          (count_written-Moves flushed (length remaining) (length left) _ (
            omega (arith, length-drop flushed remaining, flush_to_sink_bound arrivals remaining w)))
          (cache_if_any-Moves l left _) (omega arith) (omega arith))
        (omega arith) (omega arith)

  flush_if_any-Moves :
      (arrivals : List (ℕ × A)) (remaining : List A) (w : Worker p)
      → Moves
          (length arrivals)
          (length remaining)
          0
          w
          (if is_empty remaining then w else flush_remaining p arrivals remaining w)
  flush_if_any-Moves arrivals [] w = Moves-idle _ 0 w
  flush_if_any-Moves arrivals (a ∷ rest) w = flush_remaining-Moves arrivals (a ∷ rest) w

  shutdown_flush-Moves :
      (arrivals : List (ℕ × A)) (w : Worker p)
      → Moves (length arrivals) 0 0 w (shutdown_flush p arrivals w)
  unfolding shutdown_flush take_queued
  shutdown_flush-Moves arrivals w =
      Moves-trans {n = length arrivals} {m = 0}
        (Moves-trans {n = 0} {k = length arrivals} {x = 0} {y = 0} (receive-Moves l _ w)
          (flush_if_any-Moves arrivals _ _) (omega arith) (omega arith))
        (Moves-sink l _ _ refl refl) (omega arith) (omega arith)

  -- Over any number of turns, and the flush after the last.
  pub run-Moves :
      (ts : List (Turn A)) (at_flush : List (ℕ × A)) (w : Worker p)
      → 1 ≤ w.batch_size
      → Moves (run_offers ts at_flush) 0 0 w (run p ts at_flush w).1
  unfolding run
  run-Moves [] at_flush w b = Moves-idle _ 0 w
  run-Moves (t ∷ ts) at_flush w b =
      let first = turn-Moves t w b in
      let size = first.size in
      elim (Bool-cases (turn p t w).0) [
        | inl on ↦
            rw (on, run)
              (Moves-trans first (run-Moves ts at_flush _ (omega arith)) (omega arith)
                (omega arith))
        | inr off ↦
            rw (off, run)
              (Moves-trans first (shutdown_flush-Moves at_flush _)
                (omega (arith, flush_le-run_offers ts at_flush)) (omega arith))
      ]

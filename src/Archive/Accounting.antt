-- ===== src/Archive/Accounting.antt =====
-- crates/wiretap-server/src/archive.rs: the worker's operations keep the account of the frames.
use wire_tap_server.Prelude.{
  ℕ, zero, suc, ◌+◌, ◌≤◌, ◌≡◌, refl, ◌∙◌, inl, inr, List, [], ◌∷◌, arith, length, take, drop, leb,
  ◌==◌, ◌*◌, length-take, length-drop, Bool-cases,
}
use wire_tap_server.Archive.Interface.{Parts, Lawful}
use wire_tap_server.Archive.Worker.{
  Worker, meanwhile, report, written, take_queued, cache_batch, cache_chunks, drain_queue_to_cache,
  spill_if_queue_filling, receive_up_to, with_queue,
}
use wire_tap_server.Archive.Flow.{Flow, Flow-refl, enqueue_all-Flow}
use wire_tap_server.Archive.Spill.{Spill, kept, lost, cache_batch-Spill}
use wire_tap_server.Archive.Receive.{receive_up_to_lem}

-- A `Flow` between two states of the worker, which keep the batch size.
pub record Moves {A : Type 0} {p : Parts A} (n hand hand' : ℕ) (w w' : Worker p) : Type 0 where
  pub flow : Flow n hand hand' w.shared w'.shared
  pub size : w'.batch_size ≡ w.batch_size

module _ {A : Type 0} {p : Parts A} where
  -- One after the other: each is about some of the frames in hand.
  pub Moves-trans :
      {n m k h h' g g' x y : ℕ} {w w' w'' : Worker p}
      → Moves n h h' w w'
      → Moves m g g' w' w''
      → n + m ≤ k
      → x + h' + g' ≡ y + h + g
      → Moves k x y w w''
  Moves-trans f g le e = record {
    flow = record {
      overflow = f.flow.overflow + g.flow.overflow;
      balance = omega arith;
      offered = omega arith;
    };
    size = g.size ∙ f.size;
  }

  pub Moves-refl : (h : ℕ) (w : Worker p) → Moves 0 h h w w
  Moves-refl h w = record { flow = Flow-refl h w.shared; size = refl }

  -- Nothing happens, whatever could have been handed over.
  pub Moves-idle : (n h : ℕ) (w : Worker p) → Moves n h h w w
  Moves-idle n h w = Moves-trans (Moves-refl h w) (Moves-refl h w) (omega arith) (omega arith)

  pub report-Moves : (h : ℕ) (w : Worker p) → Moves 0 h h w (report p w)
  unfolding report
  report-Moves h w = record {
    flow = record { overflow = 0; balance = omega arith; offered = omega arith };
    size = refl;
  }

  pub written-Moves : (ack_ms n h : ℕ) (w : Worker p) → Moves 0 (n + h) h w (written p ack_ms n w)
  unfolding written
  written-Moves ack_ms n h w = record {
    flow = record { overflow = 0; balance = omega arith; offered = omega arith };
    size = refl;
  }

  pub meanwhile-Moves :
      (l : Lawful p) (arrivals : List (ℕ × A)) (w : Worker p)
      → Moves (length arrivals) 0 0 w (meanwhile p arrivals w)
  unfolding meanwhile
  meanwhile-Moves l arrivals w = record { flow = enqueue_all-Flow l arrivals w.shared; size = refl }

  Spill-Moves :
      (l : Lawful p) (batch : List A) (w w' : Worker p)
      → Spill l batch w w'
      → Moves 0 (length batch) 0 w w'
  Spill-Moves l batch w w' (kept c room took s e) = rw e (record {
    flow = record { overflow = 0; balance = omega arith; offered = omega arith };
    size = refl;
  })
  Spill-Moves l batch w w' (lost c why s e) = rw e (record {
    flow = record { overflow = 0; balance = omega arith; offered = omega arith };
    size = refl;
  })

  -- A batch in hand is stored on disk, or counted as dropped.
  pub cache_batch-Moves :
      (l : Lawful p) (batch : List A) (w : Worker p)
      → Moves 0 (length batch) 0 w (cache_batch p batch w).1
  cache_batch-Moves l batch w = Spill-Moves l batch w _ (cache_batch-Spill l batch w)

  pub cache_chunks-Moves :
      (l : Lawful p) (rounds : ℕ) (queued : List A) (w : Worker p)
      → length queued ≤ rounds
      → 1 ≤ w.batch_size
      → Moves 0 (length queued) 0 w (cache_chunks p rounds queued w).1
  unfolding cache_chunks
  cache_chunks-Moves l rounds [] w h b = record { flow = Flow-refl 0 w.shared; size = refl }
  cache_chunks-Moves l zero (a ∷ rest) w h b = absurd (omega arith)
  cache_chunks-Moves l (suc rounds) (a ∷ rest) w h b =
      let front = take w.batch_size (a ∷ rest) in
      let back = drop w.batch_size (a ∷ rest) in
      let first = cache_batch-Moves l front w in
      let e = first.size in
      let others =
        cache_chunks-Moves l rounds back (cache_batch p front w).1
          (omega (arith, length-drop w.batch_size (a ∷ rest))) (omega arith) in
      Moves-trans first others (omega arith)
        (omega (arith, length-take w.batch_size (a ∷ rest), length-drop w.batch_size (a ∷ rest)))

  -- What the worker takes off the queue is in its hands.
  with_queue-Moves :
      (w : Worker p) (batch : List A) (q : p.channel.State)
      → length batch + length (p.channel.contents q) ≡ length (p.channel.contents w.queue)
      → Moves 0 0 (length batch) w (with_queue p q w)
  with_queue-Moves w batch q e = record {
    flow = record { overflow = 0; balance = omega arith; offered = omega arith };
    size = refl;
  }

  pub receive-Moves :
      (l : Lawful p) (n : ℕ) (w : Worker p)
      → Moves 0 0
          (length (receive_up_to p n w.queue).0)
          w
          (with_queue p (receive_up_to p n w.queue).1 w)
  receive-Moves l n w =
      let (front, back) = receive_up_to_lem l n w.queue in
      with_queue-Moves w _ _ (
        rw (front, back)
          (omega (
            arith,
            length-take n (p.channel.contents w.queue),
            length-drop n (p.channel.contents w.queue),
          )))

  pub drain_queue-Moves :
      (l : Lawful p) (w : Worker p) → 1 ≤ w.batch_size → Moves 0 0 0 w (drain_queue_to_cache p w)
  unfolding drain_queue_to_cache take_queued
  drain_queue-Moves l w b =
      let n = length (p.channel.contents w.queue) in
      Moves-trans (receive-Moves l n w)
        (cache_chunks-Moves l _ (receive_up_to p n w.queue).0 _ (omega arith) b) (omega arith)
        (omega arith)

  pub spill-Moves :
      (l : Lawful p) (w : Worker p) → 1 ≤ w.batch_size → Moves 0 0 0 w (spill_if_queue_filling p w)
  unfolding spill_if_queue_filling
  spill-Moves l w b = elim (Bool-cases (w.flush_pct == 0)) [
    | inl off ↦ rw off (Moves-refl 0 w)
    | inr on ↦
        rw on
          (elim (Bool-cases (
            leb (w.flush_pct * p.channel.max_capacity w.queue)
              (length (p.channel.contents w.queue) * 100))) [
                | inl filling ↦ rw filling (drain_queue-Moves l w b)
                | inr room ↦ rw room (Moves-refl 0 w)
              ])
  ]

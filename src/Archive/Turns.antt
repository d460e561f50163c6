-- ===== src/Archive/Turns.antt =====
-- crates/wiretap-server/src/archive.rs: the account over one turn of the loop, and over a run.
use wire_tap_server.Prelude.{
  ℕ, ◌+◌, ◌≤◌, ◌≡◌, refl, inl, inr, Bool, true, false, List, [], ◌∷◌, arith, length, drop,
  length-drop, Bool-cases, ◌==◌, not, ◌&&◌, if◌then◌else◌,
}
use wire_tap_server.Archive.Interface.{
  Parts, Lawful, Cached, CacheResult, ok, cache_error, SinkError, SinkResult, done, refused,
  WriteResult, stored, write_error, delivered_of,
}
use wire_tap_server.Archive.Worker.{
  Worker, Wait, stop_signal, woken, unwrap_or, meanwhile, written, queue_finished, sleep_or_stop,
  wait_to_retry, cache_if_any, disconnect, fail, is_closed_error, close_queue,
}
use wire_tap_server.Archive.Run.{
  Turn, with_sink, recovered, end_drain, send_cached, drain_rows, drain_cache, after_keep_alive,
  idle, after_write, send_batch,
}
use wire_tap_server.Archive.Accounting.{
  Moves, Moves-trans, Moves-refl, written-Moves, meanwhile-Moves, cache_batch-Moves, Moves-idle,
  drain_queue-Moves,
}

-- How many frames are handed over during a wait, and during a turn.
abbrev pub wait_offers : {A : Type 0} → Wait A → ℕ
wait_offers stop_signal = 0
wait_offers (woken arrivals) = length arrivals

abbrev pub fail_offers : {A : Type 0} → Turn A → ℕ
fail_offers t = length t.at_close + wait_offers t.at_retry

abbrev pub batch_offers : {A : Type 0} → Turn A → ℕ
batch_offers t = wait_offers t.at_batch + length t.at_keep_alive + length t.at_write + fail_offers t

abbrev pub turn_offers : {A : Type 0} → Turn A → ℕ
turn_offers t = length t.at_connect + length t.at_drain + batch_offers t

module _ {A : Type 0} {p : Parts A} (l : Lawful p) where
  -- Closing the queue moves nothing.
  pub close_queue-Moves : (w : Worker p) → Moves 0 0 0 w (close_queue p w)
  close_queue-Moves w =
      let c = l.queue_laws.close_contents w.queue in
      record {
        flow = record { overflow = 0; balance = rw c (omega arith); offered = omega arith };
        size = refl;
      }

  sleep_or_stop-Moves :
      (t : Wait A) (w : Worker p) → Moves (wait_offers t) 0 0 w (sleep_or_stop p t w).1
  unfolding sleep_or_stop
  sleep_or_stop-Moves stop_signal w = close_queue-Moves w
  sleep_or_stop-Moves (woken arrivals) w = meanwhile-Moves l arrivals w

  wait_to_retry-Moves :
      (t : Wait A) (w : Worker p) → Moves (wait_offers t) 0 0 w (wait_to_retry p t w).1
  unfolding wait_to_retry
  wait_to_retry-Moves t w = elim (Bool-cases (queue_finished p w)) [
    | inl over ↦ rw over (Moves-idle (wait_offers t) 0 w)
    | inr going ↦ rw going (sleep_or_stop-Moves t w)
  ]

  pub cache_if_any-Moves :
      (batch : List A) (w : Worker p) → Moves 0 (length batch) 0 w (cache_if_any p batch w)
  unfolding cache_if_any
  cache_if_any-Moves [] w = Moves-refl 0 w
  cache_if_any-Moves (a ∷ rest) w = cache_batch-Moves l (a ∷ rest) w

  -- The sink, and what the worker knows of it, hold no frame of the account.
  pub Moves-sink :
      (w w' : Worker p) → w'.shared ≡ w.shared → w'.batch_size ≡ w.batch_size → Moves 0 0 0 w w'
  Moves-sink w w' e size = record {
    flow = record { overflow = 0; balance = rw e (omega arith); offered = rw e (omega arith) };
    size = size;
  }

  pub if-Moves :
      (b : Bool) {n h h' : ℕ} {w x y : Worker p}
      → Moves n h h' w x
      → Moves n h h' w y
      → Moves n h h' w (if b then x else y)
  if-Moves true f g = f
  if-Moves false f g = g

  disconnect-Moves :
      (arrivals : List (ℕ × A)) (e : SinkError) (w : Worker p)
      → Moves (length arrivals) 0 0 w (disconnect p arrivals e w)
  unfolding disconnect
  disconnect-Moves arrivals e w =
      Moves-trans (Moves-sink w _ refl refl) (meanwhile-Moves l arrivals _) (omega arith)
        (omega arith)

  pub fail-Moves :
      (t : Turn A) (e : SinkError) (batch : List A) (w : Worker p)
      → 1 ≤ w.batch_size
      → Moves (fail_offers t) (length batch) 0 w (fail p t.at_close t.at_retry e batch w).1
  unfolding fail
  fail-Moves t e batch w b =
      let kept =
        Moves-trans {k = length t.at_close} {x = length batch} {y = 0}
          (disconnect-Moves t.at_close e w) (cache_if_any-Moves batch (disconnect p t.at_close e w))
          (omega arith) (omega arith) in
      elim (Bool-cases (is_closed_error e)) [
        | inl closed ↦ rw closed (Moves-trans kept (Moves-refl 0 _) (omega arith) (omega arith))
        | inr failed ↦
            let s = kept.size in
            let drained =
              Moves-trans {k = length t.at_close} {x = length batch} {y = 0} kept
                (drain_queue-Moves l (cache_if_any p batch (disconnect p t.at_close e w))
                  (omega arith))
                (omega arith) (omega arith) in
            rw failed
              (Moves-trans drained (wait_to_retry-Moves t.at_retry _) (omega arith) (omega arith))
      ]

  -- Frames that come from the disk are counted both ways.
  recovered-Moves :
      (ack_ms n : ℕ) (w : Worker p) → Moves 0 0 0 w (recovered p n (written p ack_ms n w))
  unfolding recovered written
  recovered-Moves ack_ms n w = record {
    flow = record { overflow = 0; balance = omega arith; offered = omega arith };
    size = refl;
  }

  send_cached-Moves :
      (ack_ms : ℕ) (arrivals : List (ℕ × A)) (cached : List (Cached A)) (w : Worker p)
      → Moves (length arrivals) 0 0 w (send_cached p ack_ms arrivals cached w).1
  unfolding send_cached
  send_cached-Moves ack_ms arrivals cached w =
      let sent =
        Moves-trans {n = 0} {m = length arrivals} {k = length arrivals} {x = 0} {y = 0}
          (Moves-sink w _ refl refl) (meanwhile-Moves l arrivals _) (omega arith) (omega arith) in
      let removed =
        Moves-trans {n = length arrivals} {m = 0} {k = length arrivals} {x = 0} {y = 0} sent
          (Moves-sink _ _ refl refl) (omega arith) (omega arith) in
      Moves-trans removed (recovered-Moves ack_ms _ _) (omega arith) (omega arith)

  end_drain-Moves : (w : Worker p) → Moves 0 0 0 w (end_drain p w).1
  unfolding end_drain
  end_drain-Moves w = if-Moves w.draining_cache (Moves-sink w _ refl refl) (Moves-refl 0 w)

  drain_rows-Moves :
      (ack_ms : ℕ) (arrivals : List (ℕ × A)) (r : CacheResult (List (Cached A))) (w : Worker p)
      → Moves (length arrivals) 0 0 w (drain_rows p ack_ms arrivals r w).1
  unfolding drain_rows
  drain_rows-Moves ack_ms arrivals cache_error w = Moves-idle _ 0 w
  drain_rows-Moves ack_ms arrivals (ok []) w =
      Moves-trans (end_drain-Moves w) (Moves-refl 0 _) (omega arith) (omega arith)
  drain_rows-Moves ack_ms arrivals (ok (c ∷ cs)) w = send_cached-Moves ack_ms arrivals (c ∷ cs) w

  pub drain_cache-Moves :
      (ack_ms : ℕ) (arrivals : List (ℕ × A)) (w : Worker p)
      → Moves (length arrivals) 0 0 w (drain_cache p ack_ms arrivals w).1
  unfolding drain_cache
  drain_cache-Moves ack_ms arrivals w =
      elim (Bool-cases (not w.draining_cache && (unwrap_or 1 (p.cache.count w.cache) == 0))) [
        | inl nothing_there ↦ rw nothing_there (Moves-idle _ 0 w)
        | inr pending ↦ rw pending (drain_rows-Moves ack_ms arrivals _ w)
      ]

  idle-Moves :
      (t : Turn A) (w : Worker p)
      → 1 ≤ w.batch_size
      → Moves (length t.at_keep_alive + fail_offers t) 0 0 w (idle p t w).1
  unfolding idle
  idle-Moves t w b = elim (Bool-cases (queue_finished p w)) [
    | inl over ↦ rw over (Moves-idle _ 0 w)
    | inr going ↦ rw going (
        Moves-trans {k = length t.at_keep_alive + fail_offers t} {x = 0} {y = 0} kept
          (answered (p.sink.keep_alive w.sink).0) (omega arith) (omega arith))
  ]
    where
      kept_w : Worker p
      kept_w = meanwhile p t.at_keep_alive (with_sink p (p.sink.keep_alive w.sink).1 w)

      kept : Moves (length t.at_keep_alive) 0 0 w kept_w
      kept =
          Moves-trans (Moves-sink w _ refl refl) (meanwhile-Moves l t.at_keep_alive _) (omega arith)
            (omega arith)

      answered :
          (r : SinkResult) → Moves (fail_offers t) 0 0 kept_w (after_keep_alive p t r kept_w).1
      answered done = Moves-idle _ 0 kept_w
      answered (refused e) = let s = kept.size in fail-Moves t e [] kept_w (omega arith)

  written_part-Moves :
      (ack_ms n h k : ℕ) (w : Worker p) → n + k ≡ h → Moves 0 h k w (written p ack_ms n w)
  written_part-Moves ack_ms n h k w e = rw (← e) (written-Moves ack_ms n k w)

  after_write-Moves :
      (t : Turn A) (batch : List A) (r : WriteResult) (w : Worker p)
      → 1 ≤ w.batch_size
      → delivered_of (length batch) r ≤ length batch
      → Moves (fail_offers t) (length batch) 0 w (after_write p t batch r w).1
  unfolding after_write
  after_write-Moves t batch stored w b d =
      Moves-trans (written_part-Moves t.ack_ms (length batch) (length batch) 0 w (omega arith))
        (Moves-refl 0 _) (omega arith) (omega arith)
  after_write-Moves t batch (write_error n cause) w b d =
      let sent =
        written_part-Moves t.ack_ms n (length batch) (length (drop n batch)) w
          (omega (arith, length-drop n batch)) in
      let size = sent.size in
      Moves-trans sent (fail-Moves t cause (drop n batch) _ (omega arith)) (omega arith)
        (omega arith)

  pub send_batch-Moves :
      (t : Turn A) (batch : List A) (w : Worker p)
      → 1 ≤ w.batch_size
      → Moves
          (length t.at_keep_alive + length t.at_write + fail_offers t)
          (length batch)
          0
          w
          (send_batch p t batch w).1
  unfolding send_batch
  send_batch-Moves t [] w b =
      Moves-trans (idle-Moves t w b) (Moves-refl 0 _) (omega arith) (omega arith)
  send_batch-Moves t (a ∷ rest) w b =
      let result = p.sink.write_batch (a ∷ rest) w.sink in
      let sent =
        Moves-trans {n = 0} {m = length t.at_write} {k = length t.at_write} {x = 0} {y = 0}
          (Moves-sink w _ refl refl) (meanwhile-Moves l t.at_write (with_sink p result.1 w))
          (omega arith) (omega arith) in
      let size = sent.size in
      Moves-trans sent
        (after_write-Moves t (a ∷ rest) result.0 _ (omega arith)
          (l.sink_laws.delivered_bound (a ∷ rest) w.sink))
        (omega arith) (omega arith)

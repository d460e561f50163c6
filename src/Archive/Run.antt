-- ===== src/Archive/Run.antt =====
-- crates/wiretap-server/src/archive.rs: `drain_cache`, the loop of `run`, and `shutdown_flush`.
-- A `Turn` is one round of the loop: what the producers enqueue at each of its awaits.
use wire_tap_server.Prelude.{
  ℕ, ◌+◌, ◌&&◌, Bool, true, false, not, List, [], ◌∷◌, length, take, drop, ◌==◌, if◌then◌else◌,
}
use wire_tap_server.Archive.Interface.{
  Parts, Cached, samples, CacheResult, ok, cache_error, SinkError, SinkResult, done, refused,
  WriteResult, stored, write_error, delivered_of,
}
use wire_tap_server.Archive.Worker.{
  Worker, Wait, Drained, more, nothing, broken, unwrap_or, is_empty, meanwhile, report, written,
  queue_finished, cache_if_any, take_queued, spill_if_queue_filling, next_batch, fail,
}

pub record Turn (A : Type 0) : Type 0 where
  pub ack_ms : ℕ
  pub at_connect : List (ℕ × A)
  pub at_drain : List (ℕ × A)
  pub at_batch : Wait A
  pub at_keep_alive : List (ℕ × A)
  pub at_write : List (ℕ × A)
  pub at_close : List (ℕ × A)
  pub at_retry : Wait A

abbrev pub drained_of : WriteResult → Drained
drained_of stored = more
drained_of (write_error d cause) = broken cause

module _ {A : Type 0} (p : Parts A) where
  abbrev pub with_sink : p.sink.State → Worker p → Worker p
  with_sink s w = record w { sink = s }

  abbrev pub with_cache : p.cache.State → Worker p → Worker p
  with_cache c w = record w { cache = c }

  unfoldable pub recovered : ℕ → Worker p → Worker p
  recovered n w = record w {
    shared = record w.shared {
      counters = record w.counters { cache_recovered = w.counters.cache_recovered + n };
    };
  }

  -- The end of a drain: the empty cache is reset, and an error of that is only logged.
  unfoldable pub end_drain : Worker p → Drained × Worker p
  end_drain w = (
    nothing,
    if w.draining_cache
        then record w { draining_cache = false; cache = (p.cache.reset w.cache).1 }
        else w,
  )

  -- From `write_batch` on; `cached` is not empty.
  unfoldable pub send_cached : ℕ → List (ℕ × A) → List (Cached A) → Worker p → Drained × Worker p
  send_cached ack_ms arrivals cached w =
      let (result, s) = p.sink.write_batch (samples cached) w.sink in
      let n = delivered_of (length cached) result in
      let w1 = meanwhile p arrivals (with_sink s (record w { draining_cache = true })) in
      let w2 = with_cache (p.cache.remove (take n cached) w1.cache).1 w1 in
      (drained_of result, recovered n (written p ack_ms n w2))

  unfoldable pub drain_rows :
      ℕ → List (ℕ × A) → CacheResult (List (Cached A)) → Worker p → Drained × Worker p
  unfolding end_drain send_cached
  drain_rows ack_ms arrivals cache_error w = (nothing, w)
  drain_rows ack_ms arrivals (ok []) w = end_drain w
  drain_rows ack_ms arrivals (ok (c ∷ cs)) w = send_cached ack_ms arrivals (c ∷ cs) w

  unfoldable pub drain_cache : ℕ → List (ℕ × A) → Worker p → Drained × Worker p
  unfolding drain_rows
  drain_cache ack_ms arrivals w =
      if not w.draining_cache && (unwrap_or 1 (p.cache.count w.cache) == 0)
      then (nothing, w)
      else drain_rows ack_ms arrivals (p.cache.oldest w.batch_size w.cache) w

  abbrev fail_in : Turn A → SinkError → List A → Worker p → Bool × Worker p
  fail_in t e batch w = fail p t.at_close t.at_retry e batch w

  -- An empty batch: the queue is finished, or the sink is kept alive.
  unfoldable pub after_keep_alive : Turn A → SinkResult → Worker p → Bool × Worker p
  after_keep_alive t done w = (true, w)
  after_keep_alive t (refused e) w = fail_in t e [] w

  unfoldable pub idle : Turn A → Worker p → Bool × Worker p
  unfolding after_keep_alive
  idle t w =
      let (result, s) = p.sink.keep_alive w.sink in
      if queue_finished p w
      then (false, w)
      else after_keep_alive t result (meanwhile p t.at_keep_alive (with_sink s w))

  unfoldable pub after_write : Turn A → List A → WriteResult → Worker p → Bool × Worker p
  after_write t batch stored w = (true, written p t.ack_ms (length batch) w)
  after_write t batch (write_error d cause) w =
      fail_in t cause (drop d batch) (written p t.ack_ms d w)

  unfoldable pub send_batch : Turn A → List A → Worker p → Bool × Worker p
  unfolding after_write idle
  send_batch t [] w = idle t w
  send_batch t (a ∷ rest) w =
      let (result, s) = p.sink.write_batch (a ∷ rest) w.sink in
      after_write t (a ∷ rest) result (meanwhile p t.at_write (with_sink s w))

  -- After the drain: only when nothing is left on disk does the queue get its turn.
  unfoldable pub after_drain : Turn A → Drained → Worker p → Bool × Worker p
  unfolding send_batch
  after_drain t more w = (true, w)
  after_drain t nothing w = let (batch, w') = next_batch p t.at_batch w in send_batch t batch w'
  after_drain t (broken e) w = fail_in t e [] w

  unfoldable pub work : Turn A → Worker p → Bool × Worker p
  unfolding after_drain
  work t w = let (d, w') = drain_cache t.ack_ms t.at_drain w in after_drain t d w'

  unfoldable pub after_connect : Turn A → SinkResult → Worker p → Bool × Worker p
  after_connect t done w = work t (record w { connected = true; sink_down = false })
  after_connect t (refused e) w = fail_in t e [] w

  unfoldable pub attempt : Turn A → Worker p → Bool × Worker p
  unfolding after_connect
  attempt t w =
      let (result, s) = p.sink.connect w.sink in
      if w.connected
      then work t w
      else after_connect t result (meanwhile p t.at_connect (with_sink s w))

  -- One round of `run`; `false` leaves the loop. What other threads enqueue between two awaits comes with
  -- the next one.
  unfoldable pub turn : Turn A → Worker p → Bool × Worker p
  unfolding attempt
  turn t w = attempt t (spill_if_queue_filling p (report p w))

  -- What is still queued, to a sink that is there; `arrivals` meet a closed queue.
  unfoldable pub flush_to_sink : List (ℕ × A) → List A → Worker p → ℕ × Worker p
  flush_to_sink arrivals remaining w =
      let (result, s) = p.sink.write_batch remaining w.sink in
      if w.connected
      then (delivered_of (length remaining) result, meanwhile p arrivals (with_sink s w))
      else (0, w)

  -- As `written`, without the acknowledgement's time.
  unfoldable pub count_written : ℕ → Worker p → Worker p
  count_written n w = record w {
    shared = record w.shared { counters = record w.counters { written = w.counters.written + n } };
  }

  unfoldable pub flush_remaining : List (ℕ × A) → List A → Worker p → Worker p
  unfolding flush_to_sink count_written
  flush_remaining arrivals remaining w =
      let (flushed, w1) = flush_to_sink arrivals remaining w in
      let w2 = count_written flushed w1 in cache_if_any p (drop flushed remaining) w2

  unfoldable pub shutdown_flush : List (ℕ × A) → Worker p → Worker p
  unfolding flush_remaining
  shutdown_flush arrivals w =
      let (remaining, w1) = take_queued p w in
      let w2 = if is_empty remaining then w1 else flush_remaining arrivals remaining w1 in
      with_sink (p.sink.close w2.sink) w2

  -- `run` over the turns that a run takes: the worker after the last of them, with whether the loop
  -- is still going; once it is left, what is queued is flushed.
  unfoldable pub run : List (Turn A) → List (ℕ × A) → Worker p → Bool × Worker p
  run [] at_flush w = (true, w)
  run (t ∷ ts) at_flush w = elim (turn t w).0 [
    | true ↦ run ts at_flush (turn t w).1
    | false ↦ (false, shutdown_flush at_flush (turn t w).1)
  ]

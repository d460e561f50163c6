-- ===== src/Archive/Worker.antt =====
-- crates/wiretap-server/src/archive.rs: the worker's state, and what it does between two waits.
-- Log lines and the statistics line are left out; a cache error's text is only logged.
use wire_tap_server.Prelude.{
  ℕ, zero, suc, ◌+◌, ◌*◌, ◌&&◌, ◌||◌, Bool, true, false, not, List, [], ◌∷◌, Option, none, some,
  length, take, drop, ltb, leb, ◌==◌, if◌then◌else◌,
}
use wire_tap_server.Archive.Interface.{
  Parts, CacheResult, ok, cache_error, SinkError, failed, peer_closed,
}
use wire_tap_server.Archive.Handle.{zero_counters, below_80, Shared, count_dropped, enqueue_all}

-- `Batcher`, with the end that the producers hold. `flush_pct` is the setting in percent, of which
-- the source keeps the quotient by 100. The periods and the backoff only say how long a wait is.
pub record Worker {A : Type 0} (p : Parts A) : Type 0 where
  pub shared : Shared p
  pub open shared use *
  pub sink : p.sink.State
  pub cache : p.cache.State
  pub batch_size : ℕ
  pub flush_pct : ℕ
  pub connected : Bool
  pub sink_down : Bool
  pub draining_cache : Bool

-- How a wait that `stop` is raced against ends: by the stop signal, or with these frames enqueued
-- in the meantime.
pub data Wait (A : Type 0) : Type 0 where
  stop_signal : Wait A
  woken : List (ℕ × A) → Wait A

-- `Result<bool, SinkError>` of `drain_cache`.
pub data Drained : Type 0 where
  more nothing : Drained
  broken : SinkError → Drained

abbrev pub is_empty {ℓ} : {B : Type ℓ} → List B → Bool
is_empty [] = true
is_empty (x ∷ xs) = false

-- `Result::unwrap_or`.
abbrev pub unwrap_or {ℓ} : {R : Type ℓ} → R → CacheResult R → R
unwrap_or d (ok r) = r
unwrap_or d cache_error = d

abbrev pub is_closed_error : SinkError → Bool
is_closed_error peer_closed = true
is_closed_error failed = false

module _ {A : Type 0} (p : Parts A) where
  -- What the producers do while the worker awaits.
  unfoldable pub meanwhile : List (ℕ × A) → Worker p → Worker p
  meanwhile arrivals w = record w { shared = enqueue_all p arrivals w.shared }

  unfoldable pub report : Worker p → Worker p
  report w = record w {
    shared = record w.shared {
      counters = record w.counters {
        connected = w.connected;
        cache_pending = unwrap_or 0 (p.cache.count w.cache);
      };
    };
  }

  -- `ack_ms` is the wall clock.
  unfoldable pub written : ℕ → ℕ → Worker p → Worker p
  written ack_ms n w = record w {
    shared = record w.shared {
      counters = record w.counters {
        written = w.counters.written + n;
        last_ack_ms = if ltb 0 n then ack_ms else w.counters.last_ack_ms;
      };
    };
  }

  unfoldable pub queue_finished : Worker p → Bool
  queue_finished w = p.channel.is_closed w.queue && is_empty (p.channel.contents w.queue)

  abbrev pub with_queue : p.channel.State → Worker p → Worker p
  with_queue q w = record w { shared = record w.shared { queue = q } }

  abbrev pub close_queue : Worker p → Worker p
  close_queue w = with_queue (p.channel.close w.queue) w

  -- `while batch.len() < limit { match rx.try_recv() … }`, with the room left in the batch.
  unfoldable pub keep_frame :
      Option A × p.channel.State
      → (p.channel.State → List A × p.channel.State)
      → List A × p.channel.State
  keep_frame (none, q) rest = ([], q)
  keep_frame (some a, q) rest = let (batch, q') = rest q in (a ∷ batch, q')

  unfoldable pub receive_up_to : ℕ → p.channel.State → List A × p.channel.State
  unfolding keep_frame
  receive_up_to zero q = ([], q)
  receive_up_to (suc n) q = keep_frame (p.channel.try_recv q) (receive_up_to n)

  -- The queue holds `length contents` frames, so as many rounds empty it.
  unfoldable pub take_queued : Worker p → List A × Worker p
  take_queued w =
      let (queued, q) = receive_up_to (length (p.channel.contents w.queue)) w.queue in
      (queued, with_queue q w)

  unfoldable pub after_append : List A → CacheResult ℕ × p.cache.State → Worker p → ℕ × Worker p
  after_append batch (ok n, c) w = (
    n,
    record w {
      cache = c;
      shared = record w.shared { counters = record w.counters { cached = w.counters.cached + n } };
    },
  )
  after_append batch (cache_error, c) w =
      (0, record w { cache = c; shared = count_dropped p (length batch) w.shared })

  unfoldable pub cache_batch : List A → Worker p → ℕ × Worker p
  unfolding after_append
  cache_batch batch w =
      if p.cache.is_full w.cache
      then (0, record w { shared = count_dropped p (length batch) w.shared })
      else after_append batch (p.cache.append batch w.cache) w

  -- `queued.chunks(batch_size).map(cache_batch).sum()`; a round takes a frame at least.
  unfoldable pub cache_chunks : ℕ → List A → Worker p → ℕ × Worker p
  cache_chunks rounds [] w = (0, w)
  cache_chunks zero (a ∷ rest) w = (0, w)
  cache_chunks (suc rounds) (a ∷ rest) w =
      let (n, w') = cache_batch (take w.batch_size (a ∷ rest)) w in
      let (m, w'') = cache_chunks rounds (drop w.batch_size (a ∷ rest)) w' in (n + m, w'')

  unfoldable pub drain_queue_to_cache : Worker p → Worker p
  drain_queue_to_cache w =
      let (queued, w') = take_queued w in (cache_chunks (length queued) queued w').1

  -- The source compares the two ratios as floats, which round alike for any queue size in use.
  unfoldable pub spill_if_queue_filling : Worker p → Worker p
  spill_if_queue_filling w =
      let size = length (p.channel.contents w.queue) in
      let cap = p.channel.max_capacity w.queue in
      if w.flush_pct == 0
      then w
      else if leb (w.flush_pct * cap) (size * 100)
      then drain_queue_to_cache w
      else w

  -- The `select!` on the backoff.
  unfoldable pub sleep_or_stop : Wait A → Worker p → Bool × Worker p
  sleep_or_stop stop_signal w = (false, close_queue w)
  sleep_or_stop (woken arrivals) w = (true, meanwhile arrivals w)

  unfoldable pub wait_to_retry : Wait A → Worker p → Bool × Worker p
  wait_to_retry wait w = if queue_finished w then (false, w) else sleep_or_stop wait w

  -- The `select!` on the first frame.
  unfoldable pub before_first : Wait A → Worker p → Worker p
  before_first stop_signal w = close_queue w
  before_first (woken arrivals) w = meanwhile arrivals w

  -- `batch_size` is 1 at least: `recv` takes the first frame, the loop the others.
  unfoldable pub next_batch : Wait A → Worker p → List A × Worker p
  unfolding before_first
  next_batch wait w =
      let w' = before_first wait w in
      let (batch, q) = receive_up_to w'.batch_size w'.queue in (batch, with_queue q w')

  -- The sink is closed and marked as gone; `at_close` is enqueued meanwhile.
  unfoldable pub disconnect : List (ℕ × A) → SinkError → Worker p → Worker p
  disconnect at_close e w = meanwhile at_close (record w {
    sink = p.sink.close w.sink;
    connected = false;
    sink_down = w.sink_down || not (is_closed_error e);
  })

  unfoldable pub cache_if_any : List A → Worker p → Worker p
  cache_if_any batch w = if is_empty batch then w else (cache_batch batch w).1

  unfoldable pub fail : List (ℕ × A) → Wait A → SinkError → List A → Worker p → Bool × Worker p
  fail at_close at_retry e batch w =
      let w' = cache_if_any batch (disconnect at_close e w) in
      if is_closed_error e then (true, w') else wait_to_retry at_retry (drain_queue_to_cache w')

  -- `max(1)`.
  abbrev pub at_least_one : ℕ → ℕ
  at_least_one n = if ltb n 1 then 1 else n

  -- `channel`, with the queue that it makes for `at_least_one` of the setting's frames.
  unfoldable pub new_worker : p.channel.State → p.sink.State → p.cache.State → ℕ → ℕ → Worker p
  new_worker queue sink cache size flush_pct = record {
    shared = record {
      queue = queue;
      counters = zero_counters;
      last_bucket = below_80;
      last_full_log = none;
      closed_reported = false;
      log = [];
    };
    sink = sink;
    cache = cache;
    batch_size = at_least_one size;
    flush_pct = flush_pct;
    connected = false;
    sink_down = false;
    draining_cache = false;
  }

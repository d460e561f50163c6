-- ===== src/Examples/Archives.antt =====
-- crates/wiretap-server/src/archive.rs: runs of an archive whose sink goes away and comes back.
use wire_tap_server.Prelude.{
  ℕ, ◌+◌, ◌≤◌, ◌≡◌, ◌⊎◌, refl, true, false, List, [], ◌∷◌, none, ◌++◌, arith, length,
}
use wire_tap_server.Archive.Interface.{Parts, samples}
use wire_tap_server.Archive.Handle.{
  bucket_of, may_log_full, depth, occupancy_pct, warn_thresholds, log_queue_full, report_closed,
  after_send, enqueue, enqueue_all, zero_counters, enqueue, enqueue_all, Bucket,
}
use wire_tap_server.Archive.Worker.{
  meanwhile, report, written, queue_finished, keep_frame, receive_up_to, take_queued, after_append,
  cache_batch, cache_chunks, drain_queue_to_cache, spill_if_queue_filling, sleep_or_stop,
  wait_to_retry, before_first, next_batch, disconnect, cache_if_any, fail, Worker, stop_signal,
  woken,
}
use wire_tap_server.Archive.Run.{
  recovered, end_drain, send_cached, drain_rows, drain_cache, after_keep_alive, idle, after_write,
  send_batch, after_drain, work, after_connect, attempt, turn, flush_to_sink, count_written,
  flush_remaining, shutdown_flush, run, Turn, run, turn, shutdown_flush,
}
use wire_tap_server.Archive.Order.{Accepts}
use wire_tap_server.Archive.Balance.{run_offers}
use wire_tap_server.Archive.Shutdown.{run_accounts, run-empty}
use wire_tap_server.Archive.Leaving.{turn_left}
use wire_tap_server.Archive.Flow.{Admission, enqueue-Admission}
use wire_tap_server.Archive.Spill.{Spill, cache_batch-Spill}
use wire_tap_server.Archive.Exactly.{run_list, run_keeps_order}
use wire_tap_server.Examples.Parts.{list_parts, lawful, reliable}

abbrev parts : Parts ℕ
parts = list_parts

-- A queue for four frames, batches of two, and a sink whose first write fails.
abbrev start : Worker parts
start = record {
  shared = record {
    queue = record { frames = []; room = 4; ended = false };
    counters = zero_counters;
    last_bucket = Bucket.below_80;
    last_full_log = none;
    closed_reported = false;
    log = [];
  };
  sink = record { has = []; answers = true ∷ false ∷ [] };
  cache = record { rows = []; next = 1 };
  batch_size = 2;
  flush_pct = 80;
  connected = false;
  sink_down = false;
  draining_cache = false;
}

abbrev quiet : Turn ℕ
quiet = record {
  ack_ms = 7;
  at_connect = [];
  at_drain = [];
  at_batch = stop_signal;
  at_keep_alive = [];
  at_write = [];
  at_close = [];
  at_retry = woken [];
}

-- Four frames arrive around the failure; then the disk is drained, and the queue shut down.
abbrev turns : List (Turn ℕ)
turns =
    record quiet {
      at_connect = (0, 10) ∷ (0, 20) ∷ [];
      at_batch = woken ((0, 30) ∷ []);
      at_retry = woken ((0, 40) ∷ []);
    }
    ∷ quiet
    ∷ quiet
    ∷ quiet
    ∷ []

after_run : (run parts turns [] start).1.sink.has ≡ 10 ∷ 20 ∷ 30 ∷ 40 ∷ []
unfolding bucket_of may_log_full depth occupancy_pct warn_thresholds log_queue_full report_closed
    after_send enqueue enqueue_all meanwhile report written queue_finished keep_frame receive_up_to
    take_queued after_append cache_batch cache_chunks drain_queue_to_cache spill_if_queue_filling
    sleep_or_stop wait_to_retry before_first next_batch disconnect cache_if_any fail recovered
    end_drain send_cached drain_rows drain_cache after_keep_alive idle after_write send_batch
    after_drain work after_connect attempt turn flush_to_sink count_written flush_remaining
    shutdown_flush run
after_run = refl

abbrev ended : Worker parts
ended = (run parts turns [] start).1

run_ended : (run parts turns [] start).0 ≡ false
unfolding bucket_of may_log_full depth occupancy_pct warn_thresholds log_queue_full report_closed
    after_send enqueue enqueue_all meanwhile report written queue_finished keep_frame receive_up_to
    take_queued after_append cache_batch cache_chunks drain_queue_to_cache spill_if_queue_filling
    sleep_or_stop wait_to_retry before_first next_batch disconnect cache_if_any fail recovered
    end_drain send_cached drain_rows drain_cache after_keep_alive idle after_write send_batch
    after_drain work after_connect attempt turn flush_to_sink count_written flush_remaining
    shutdown_flush run
run_ended = refl

run_accounts_example :
    (overflow : ℕ) × (ended.counters.written + ended.counters.cached + ended.counters.dropped
      ≡ ended.counters.enqueued + ended.counters.cache_recovered + overflow)
    × (ended.counters.enqueued + overflow ≤ run_offers turns [])
run_accounts_example = run_accounts lawful turns [] start (omega arith) refl refl run_ended

run_keeps_order_example :
    (taken : List ℕ) × Accepts (run_list turns []) taken
    × (ended.sink.has ++ (samples ended.cache.rows ++ ended.queue.frames) ≡ taken)
    × (ended.counters.enqueued ≡ length taken)
run_keeps_order_example = run_keeps_order lawful reliable turns [] start (omega arith) refl refl

run-empty_example : ended.queue.frames ≡ []
run-empty_example = run-empty lawful turns [] start run_ended

enqueue-Admission_example : Admission 5 start.shared (enqueue parts 0 5 start.shared)
enqueue-Admission_example = enqueue-Admission lawful 0 5 start.shared

cache_batch-Spill_example : Spill lawful (5 ∷ 6 ∷ []) start (cache_batch parts (5 ∷ 6 ∷ []) start).1
cache_batch-Spill_example = cache_batch-Spill lawful (5 ∷ 6 ∷ []) start

-- The stop signal comes while the first connect is retried.
abbrev stopped : Turn ℕ
stopped = record quiet { at_connect = (0, 10) ∷ []; at_retry = stop_signal }

abbrev unreachable : Worker parts
unreachable = record start { sink = record { has = []; answers = false ∷ [] } }

stopped_leaves : (turn parts stopped unreachable).0 ≡ false
unfolding bucket_of may_log_full depth occupancy_pct warn_thresholds log_queue_full report_closed
    after_send enqueue enqueue_all meanwhile report written queue_finished keep_frame receive_up_to
    take_queued after_append cache_batch cache_chunks drain_queue_to_cache spill_if_queue_filling
    sleep_or_stop wait_to_retry before_first next_batch disconnect cache_if_any fail recovered
    end_drain send_cached drain_rows drain_cache after_keep_alive idle after_write send_batch
    after_drain work after_connect attempt turn flush_to_sink count_written flush_remaining
    shutdown_flush run
stopped_leaves = refl

turn_left_example :
    ((turn parts stopped unreachable).1.queue.ended ≡ true)
    × (((turn parts stopped unreachable).1.queue.frames ≡ [])
        ⊎ ((turn parts stopped unreachable).1.connected ≡ false))
turn_left_example = turn_left lawful stopped unreachable stopped_leaves

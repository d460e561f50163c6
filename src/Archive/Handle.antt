-- ===== src/Archive/Handle.antt =====
-- crates/wiretap-server/src/archive.rs: the producer's end, and what it shares with the worker.
use wire_tap_server.Prelude.{
  ℕ, ◌+◌, ◌-◌, ◌*◌, ◌/◌, ◌%◌, ◌&&◌, Bool, true, false, List, [], ◌∷◌, Option, none, some, ltb, leb,
  ◌==◌, if◌then◌else◌,
}
use wire_tap_server.Archive.Interface.{Parts, SendResult, sent, full, shut}

-- The counters wrap at 2 ^ 64 in the source, which no run reaches.
pub record Counters : Type 0 where
  pub enqueued : ℕ
  pub written : ℕ
  pub dropped : ℕ
  pub cached : ℕ
  pub cache_recovered : ℕ
  pub connected : Bool
  pub last_ack_ms : ℕ
  pub cache_pending : ℕ

-- `Counters::default()`.
abbrev pub zero_counters : Counters
zero_counters = record {
  enqueued = 0;
  written = 0;
  dropped = 0;
  cached = 0;
  cache_recovered = 0;
  connected = false;
  last_ack_ms = 0;
  cache_pending = 0;
}

-- The buckets that the queue's depth is reported in: -1, 80, 95 and 100 in the source.
pub data Bucket : Type 0 where
  below_80 at_80 at_95 at_100 : Bucket

abbrev pub bucket_eq : Bucket → Bucket → Bool
bucket_eq below_80 below_80 = true
bucket_eq at_80 at_80 = true
bucket_eq at_95 at_95 = true
bucket_eq at_100 at_100 = true
bucket_eq _ _ = false

-- The handle's log lines, each with its numbers.
pub data LogLine : Type 0 where
  queue_recovered : ℕ → ℕ → LogLine
  high_water : Bucket → ℕ → ℕ → LogLine
  queue_full : ℕ → ℕ → ℕ → LogLine
  arrived_after_shutdown : LogLine

abbrev pub drops_per_clock_check : ℕ
drops_per_clock_check = 1024

-- Five seconds, in nanoseconds.
abbrev pub full_log_interval : ℕ
full_log_interval = 5_000_000_000

-- `Archive`, the queue included. The newest log line comes first.
pub record Shared {A : Type 0} (p : Parts A) : Type 0 where
  pub queue : p.channel.State
  pub counters : Counters
  pub last_bucket : Bucket
  pub last_full_log : Option ℕ
  pub closed_reported : Bool
  pub log : List LogLine

-- `warn_thresholds`, on the numbers that `depth` gives.
unfoldable pub bucket_of : ℕ → ℕ → Bucket
bucket_of size cap =
    if leb cap size
    then at_100
    else if leb (cap * 95) (size * 100)
    then at_95
    else if leb (cap * 80) (size * 100)
    then at_80
    else below_80

abbrev pub threshold_line : Bucket → ℕ → ℕ → LogLine
threshold_line below_80 size cap = queue_recovered size cap
threshold_line at_80 size cap = high_water at_80 size cap
threshold_line at_95 size cap = high_water at_95 size cap
threshold_line at_100 size cap = high_water at_100 size cap

-- Whether the clock allows another "queue FULL" line.
unfoldable pub may_log_full : ℕ → Option ℕ → Bool
may_log_full now none = true
may_log_full now (some t) = leb full_log_interval (now - t)

module _ {A : Type 0} (p : Parts A) where
  -- `(size, cap)`.
  unfoldable pub depth : Shared p → ℕ × ℕ
  depth s =
      (p.channel.max_capacity s.queue - p.channel.capacity s.queue, p.channel.max_capacity s.queue)

  -- `u8::try_from(..).unwrap_or(100)`.
  unfoldable pub occupancy_pct : Shared p → ℕ
  unfolding depth
  occupancy_pct s =
      let (size, cap) = depth s in let pct = size * 100 / cap in if ltb pct 256 then pct else 100

  unfoldable pub warn_thresholds : Shared p → Shared p
  unfolding depth bucket_of
  warn_thresholds s =
      let (size, cap) = depth s in
      let bucket = bucket_of size cap in
      if bucket_eq s.last_bucket bucket
      then s
      else record s { last_bucket = bucket; log = threshold_line bucket size cap ∷ s.log }

  -- `prior` is the drop count before this drop, which the counters already hold.
  unfoldable pub log_queue_full : ℕ → ℕ → Shared p → Shared p
  unfolding depth may_log_full
  log_queue_full now prior s =
      let (size, cap) = depth s in
      if (prior % drops_per_clock_check == 0) && may_log_full now s.last_full_log
      then record s {
        last_full_log = some now;
        log = queue_full size cap s.counters.dropped ∷ s.log;
      }
      else s

  unfoldable pub report_closed : Shared p → Shared p
  report_closed s =
      if s.closed_reported
      then s
      else record s { closed_reported = true; log = arrived_after_shutdown ∷ s.log }

  abbrev pub count_enqueued : Shared p → Shared p
  count_enqueued s = record s {
    counters = record s.counters { enqueued = s.counters.enqueued + 1 };
  }

  abbrev pub count_dropped : ℕ → Shared p → Shared p
  count_dropped n s = record s { counters = record s.counters { dropped = s.counters.dropped + n } }

  -- `enqueue`'s answer to `try_send`; `prior` is what `dropped` held before.
  unfoldable pub after_send : ℕ → SendResult → ℕ → Shared p → Shared p
  after_send now sent prior s = warn_thresholds (count_enqueued s)
  after_send now full prior s = log_queue_full now prior (count_dropped 1 s)
  after_send now shut prior s = report_closed s

  -- `now` is the clock, in nanoseconds, should the drop be logged.
  unfoldable pub enqueue : ℕ → A → Shared p → Shared p
  enqueue now sample s =
      let (answer, queue) = p.channel.try_send sample s.queue in
      after_send now answer s.counters.dropped (record s { queue = queue })

  -- What the producers hand over while the worker waits: each frame with its time.
  unfoldable pub enqueue_all : List (ℕ × A) → Shared p → Shared p
  enqueue_all [] s = s
  enqueue_all ((now, a) ∷ rest) s = enqueue_all rest (enqueue now a s)

-- ===== src/Archive/Interface.antt =====
-- crates/wiretap-server/src/archive.rs: the parts that the archive is generic over, the sink and
-- the disk cache, and the bounded channel between a capture and the worker.
use wire_tap_server.Prelude.{
  ℕ, ◌+◌, ◌≤◌, ◌≡◌, ◌⊎◌, Bool, true, List, [], ◌∷◌, ◌++◌, map, Option, none, some, length, take,
  drop, ltb, if◌then◌else◌,
}

-- `SinkError`: `peer_closed` is a session that the far end ended on purpose.
pub data SinkError : Type 0 where
  failed peer_closed : SinkError

pub data SinkResult : Type 0 where
  done : SinkResult
  refused : SinkError → SinkResult

-- The result of `write_batch`: a `WriteError` says how many frames were stored anyway.
pub data WriteResult : Type 0 where
  stored : WriteResult
  write_error : ℕ → SinkError → WriteResult

-- How many frames of a batch of `n` the sink has stored.
abbrev pub delivered_of : ℕ → WriteResult → ℕ
delivered_of n stored = n
delivered_of n (write_error d cause) = d

pub record BatchSink (A : Type 0) : Type 1 where
  pub State : Type 0
  pub connect : State → SinkResult × State
  pub write_batch : List A → State → WriteResult × State
  pub keep_alive : State → SinkResult × State
  pub close : State → State

-- What the trait's documentation asks of a sink, over the frames that it has stored, in order.
pub record BatchSinkLaws {A : Type 0} (s : BatchSink A) : Type 0 where
  pub archived : s.State → List A
  pub connect_keeps : (x : s.State) → archived (s.connect x).1 ≡ archived x
  pub keep_alive_keeps : (x : s.State) → archived (s.keep_alive x).1 ≡ archived x
  pub close_keeps : (x : s.State) → archived (s.close x) ≡ archived x
  pub delivered_bound :
      (b : List A) (x : s.State) → delivered_of (length b) (s.write_batch b x).0 ≤ length b
  pub write_stores :
      (b : List A) (x : s.State)
      → archived (s.write_batch b x).1
        ≡ archived x ++ take (delivered_of (length b) (s.write_batch b x).0) b

-- A cache operation's `Result`; the text of a `CacheError` is only logged.
pub data CacheResult {ℓ} (R : Type ℓ) : Type ℓ where
  ok : R → CacheResult R
  cache_error : CacheResult R

pub record Cached (A : Type 0) : Type 0 where
  pub id : ℕ
  pub sample : A

pub record FrameCache (A : Type 0) : Type 1 where
  pub State : Type 0
  pub append : List A → State → CacheResult ℕ × State
  pub oldest : ℕ → State → CacheResult (List (Cached A))
  pub remove : List (Cached A) → State → CacheResult (Unit {0}) × State
  pub count : State → CacheResult ℕ
  pub size_bytes : State → ℕ
  pub is_full : State → Bool
  pub reset : State → CacheResult (Unit {0}) × State

abbrev pub samples : {A : Type 0} → List (Cached A) → List A
samples = map (λ c. c.sample)

-- The contract of the trait: a FIFO of frames, on which an operation works or changes nothing.
pub record FrameCacheLaws {A : Type 0} (f : FrameCache A) : Type 0 where
  pub rows : f.State → List (Cached A)
  pub append_law :
      (b : List A) (x : f.State)
      → ((f.append b x).0 ≡ ok (length b))
          × (samples (rows (f.append b x).1) ≡ samples (rows x) ++ b)
        ⊎ ((f.append b x).0 ≡ cache_error) × (rows (f.append b x).1 ≡ rows x)
  pub oldest_law :
      (n : ℕ) (x : f.State) → (f.oldest n x ≡ ok (take n (rows x))) ⊎ (f.oldest n x ≡ cache_error)
  pub remove_law :
      (n : ℕ) (x : f.State)
      → ((f.remove (take n (rows x)) x).0 ≡ ok tt)
          × (rows (f.remove (take n (rows x)) x).1 ≡ drop n (rows x))
        ⊎ ((f.remove (take n (rows x)) x).0 ≡ cache_error)
          × (rows (f.remove (take n (rows x)) x).1 ≡ rows x)
  pub count_law : (x : f.State) → (f.count x ≡ ok (length (rows x))) ⊎ (f.count x ≡ cache_error)
  pub reset_law : (x : f.State) → rows x ≡ [] → rows (f.reset x).1 ≡ []

-- `try_send`'s answer: `sent`, `TrySendError::Full`, `TrySendError::Closed`.
pub data SendResult : Type 0 where
  sent full shut : SendResult

-- The bounded `mpsc` channel, as far as the archive uses it.
pub record Channel (A : Type 0) : Type 1 where
  pub State : Type 0
  pub contents : State → List A
  pub try_send : A → State → SendResult × State
  pub try_recv : State → Option A × State
  pub close : State → State
  pub is_closed : State → Bool
  pub capacity : State → ℕ
  pub max_capacity : State → ℕ

abbrev pub head? : {A : Type 0} → List A → Option A
head? [] = none
head? (x ∷ xs) = some x

-- What the channel documents: a FIFO of at most `max_capacity` frames, and `capacity` is the
-- room left.
pub record ChannelLaws {A : Type 0} (c : Channel A) : Type 0 where
  pub try_send_answer :
      (a : A) (q : c.State)
      → (c.try_send a q).0 ≡ (
          if c.is_closed q
          then shut
          else if ltb (length (c.contents q)) (c.max_capacity q)
          then sent
          else full)
  pub try_send_contents :
      (a : A) (q : c.State)
      → c.contents (c.try_send a q).1 ≡ (
          if c.is_closed q
          then c.contents q
          else if ltb (length (c.contents q)) (c.max_capacity q)
          then c.contents q ++ (a ∷ [])
          else c.contents q)
  pub try_recv_answer : (q : c.State) → (c.try_recv q).0 ≡ head? (c.contents q)
  pub try_recv_contents : (q : c.State) → c.contents (c.try_recv q).1 ≡ drop 1 (c.contents q)
  pub close_contents : (q : c.State) → c.contents (c.close q) ≡ c.contents q
  pub close_closes : (q : c.State) → c.is_closed (c.close q) ≡ true
  pub try_send_keeps :
      (a : A) (q : c.State)
      → (c.is_closed (c.try_send a q).1 ≡ c.is_closed q)
        × (c.max_capacity (c.try_send a q).1 ≡ c.max_capacity q)
  pub try_recv_keeps :
      (q : c.State)
      → (c.is_closed (c.try_recv q).1 ≡ c.is_closed q)
        × (c.max_capacity (c.try_recv q).1 ≡ c.max_capacity q)
  pub close_keeps : (q : c.State) → c.max_capacity (c.close q) ≡ c.max_capacity q
  pub capacity_law : (q : c.State) → c.capacity q + length (c.contents q) ≡ c.max_capacity q

-- What one archive is put together from, as `channel` takes them.
pub record Parts (A : Type 0) : Type 1 where
  pub channel : Channel A
  pub sink : BatchSink A
  pub cache : FrameCache A

pub record Lawful {A : Type 0} (p : Parts A) : Type 0 where
  pub queue_laws : ChannelLaws p.channel
  pub sink_laws : BatchSinkLaws p.sink
  pub cache_laws : FrameCacheLaws p.cache

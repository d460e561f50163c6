-- ===== src/Examples/Parts.antt =====
-- crates/wiretap-server/src/archive.rs: a channel, a sink and a disk cache over lists, for examples.
use wire_tap_server.Prelude.{
  ℕ, zero, suc, ◌+◌, ◌*◌, ◌≤◌, ◌≡◌, refl, sym, ap, ◌∙◌, inl, inr, Bool, true, false, List, [], ◌∷◌,
  ◌++◌, arith, length, take, drop, ltb, if◌then◌else◌, Option, none, some, map-append, take_all,
  append-nil, length-append, Bool-cases,
}
use wire_tap_server.Archive.Interface.{
  Parts, Lawful, Channel, ChannelLaws, SendResult, sent, full, shut, BatchSink, BatchSinkLaws,
  SinkResult, done, refused, failed, WriteResult, stored, write_error, delivered_of, FrameCache,
  FrameCacheLaws, ok, Cached, samples, head?,
}
use wire_tap_server.Archive.Order.{Reliable}

-- A queue with `room` for that many frames more.
pub record Queue (A : Type 0) : Type 0 where
  pub frames : List A
  pub room : ℕ
  pub ended : Bool

-- A sink that answers by a script: `true` for a call that works, and at its end each one does. A
-- write that fails has stored one frame.
pub record Script (A : Type 0) : Type 0 where
  pub has : List A
  pub answers : List Bool

-- A table of the rows on disk, the oldest first, with the key of the next.
pub record Table (A : Type 0) : Type 0 where
  pub rows : List (Cached A)
  pub next : ℕ

module _ {A : Type 0} where
  abbrev push_open : A → List A → ℕ → SendResult × (Queue A)
  push_open a frames zero = (full, record { frames = frames; room = zero; ended = false })
  push_open a frames (suc room) =
      (sent, record { frames = frames ++ (a ∷ []); room = room; ended = false })

  abbrev push : A → (Queue A) → SendResult × (Queue A)
  push a q = if q.ended then (shut, q) else push_open a q.frames q.room

  abbrev pull : List A → (Queue A) → Option A × (Queue A)
  pull [] q = (none, q)
  pull (a ∷ rest) q = (some a, record { frames = rest; room = suc q.room; ended = q.ended })

  abbrev pub channel : Channel A
  channel = record {
    State = (Queue A);
    contents = λ q. q.frames;
    try_send = push;
    try_recv = λ q. pull q.frames q;
    close = λ q. record q { ended = true };
    is_closed = λ q. q.ended;
    capacity = λ q. q.room;
    max_capacity = λ q. q.room + length q.frames;
  }

  module _ (a : A) where
    push_answer :
        (frames : List A) (room : ℕ)
        → (push_open a frames room).0
          ≡ (if ltb (length frames) (room + length frames) then sent else full)
    push_answer frames zero = ground arith
    push_answer frames (suc room) = ground arith

    push_contents :
        (frames : List A) (room : ℕ)
        → (push_open a frames room).1.frames
          ≡ (if ltb (length frames) (room + length frames) then frames ++ (a ∷ []) else frames)
    push_contents frames zero = ground arith
    push_contents frames (suc room) = ground arith

    push_keeps :
        (frames : List A) (room : ℕ)
        → ((push_open a frames room).1.ended ≡ false)
          × ((push_open a frames room).1.room + length (push_open a frames room).1.frames
              ≡ room + length frames)
    push_keeps frames zero = (refl, refl)
    push_keeps frames (suc room) = (refl, omega (arith, length-append frames (a ∷ [])))

  pull_laws :
      (frames : List A) (q : (Queue A))
      → q.frames ≡ frames
      → ((pull frames q).0 ≡ head? frames)
        × ((pull frames q).1.frames ≡ drop 1 frames)
        × ((pull frames q).1.ended ≡ q.ended)
        × ((pull frames q).1.room + length (pull frames q).1.frames ≡ q.room + length q.frames)
  pull_laws [] q e = (refl, e, refl, refl)
  pull_laws (a ∷ rest) q e = (refl, refl, refl, rw e (omega arith))

  pub queue_laws : ChannelLaws channel
  queue_laws = record {
    try_send_answer = λ a q. elim (Bool-cases q.ended) [
      | inl e ↦ simp e refl
      | inr e ↦ simp e (push_answer a q.frames q.room)
    ];
    try_send_contents = λ a q. elim (Bool-cases q.ended) [
      | inl e ↦ simp e refl
      | inr e ↦ simp e (push_contents a q.frames q.room)
    ];
    try_recv_answer = λ q. (pull_laws q.frames q refl).0;
    try_recv_contents = λ q. (pull_laws q.frames q refl).1;
    close_contents = λ q. refl;
    close_closes = λ q. refl;
    try_send_keeps = λ a q. elim (Bool-cases q.ended) [
      | inl e ↦ simp e (refl, refl)
      | inr e ↦ simp e (push_keeps a q.frames q.room)
    ];
    try_recv_keeps = λ q. ((pull_laws q.frames q refl).2, (pull_laws q.frames q refl).3);
    close_keeps = λ q. refl;
    capacity_law = λ q. refl;
  }

  abbrev reply : List Bool → List A → SinkResult × (Script A)
  reply [] has = (done, record { has = has; answers = [] })
  reply (true ∷ rest) has = (done, record { has = has; answers = rest })
  reply (false ∷ rest) has = (refused failed, record { has = has; answers = rest })

  abbrev store : List Bool → List A → List A → WriteResult × (Script A)
  store [] batch has = (stored, record { has = has ++ batch; answers = [] })
  store (true ∷ rest) batch has = (stored, record { has = has ++ batch; answers = rest })
  store (false ∷ rest) [] has = (stored, record { has = has; answers = rest })
  store (false ∷ rest) (a ∷ others) has =
      (write_error 1 failed, record { has = has ++ (a ∷ []); answers = rest })

  abbrev pub sink : BatchSink A
  sink = record {
    State = (Script A);
    connect = λ s. reply s.answers s.has;
    write_batch = λ batch s. store s.answers batch s.has;
    keep_alive = λ s. reply s.answers s.has;
    close = λ s. s;
  }

  pub reply_keeps : (answers : List Bool) (has : List A) → (reply answers has).1.has ≡ has
  reply_keeps [] has = refl
  reply_keeps (true ∷ rest) has = refl
  reply_keeps (false ∷ rest) has = refl

  pub store_bound :
      (answers : List Bool) (batch has : List A)
      → delivered_of (length batch) (store answers batch has).0 ≤ length batch
  store_bound [] batch has = omega arith
  store_bound (true ∷ rest) batch has = omega arith
  store_bound (false ∷ rest) [] has = omega arith
  store_bound (false ∷ rest) (a ∷ others) has = omega arith

  pub store_lem :
      (answers : List Bool) (batch has : List A)
      → (store answers batch has).1.has
        ≡ has ++ take (delivered_of (length batch) (store answers batch has).0) batch
  store_lem [] batch has = rw (take_all (length batch) batch (omega arith)) refl
  store_lem (true ∷ rest) batch has = rw (take_all (length batch) batch (omega arith)) refl
  store_lem (false ∷ rest) [] has = sym (append-nil has)
  store_lem (false ∷ rest) (a ∷ others) has = refl

  abbrev pub sink_laws : BatchSinkLaws sink
  sink_laws = record {
    archived = λ s. s.has;
    connect_keeps = λ s. reply_keeps s.answers s.has;
    keep_alive_keeps = λ s. reply_keeps s.answers s.has;
    close_keeps = λ s. refl;
    delivered_bound = λ batch s. store_bound s.answers batch s.has;
    write_stores = λ batch s. store_lem s.answers batch s.has;
  }

  abbrev number : ℕ → List A → List (Cached A)
  number n [] = []
  number n (a ∷ rest) = record { id = n; sample = a } ∷ number (suc n) rest

  abbrev pub cache : FrameCache A
  cache = record {
    State = (Table A);
    append = λ batch t. (
      ok (length batch),
      record { rows = t.rows ++ number t.next batch; next = t.next + length batch },
    );
    oldest = λ n t. ok (take n t.rows);
    remove = λ rows t. (ok tt, record t { rows = drop (length rows) t.rows });
    count = λ t. ok (length t.rows);
    size_bytes = λ t. 100 * length t.rows;
    is_full = λ t. false;
    reset = λ t. (ok tt, record { rows = []; next = 1 });
  }

  number-samples : (n : ℕ) (batch : List A) → samples (number n batch) ≡ batch
  number-samples n [] = refl
  number-samples n (a ∷ rest) = ap (λ xs. a ∷ xs) (number-samples (suc n) rest)

  drop_taken : (n : ℕ) (rows : List (Cached A)) → drop (length (take n rows)) rows ≡ drop n rows
  drop_taken zero rows = refl
  drop_taken (suc n) [] = refl
  drop_taken (suc n) (c ∷ cs) = drop_taken n cs

  pub append_lem :
      (batch : List A) (t : (Table A))
      → samples (t.rows ++ number t.next batch) ≡ samples t.rows ++ batch
  append_lem batch t =
      map-append (λ c. c.sample) t.rows (number t.next batch)
      ∙ ap (λ xs. samples t.rows ++ xs) (number-samples t.next batch)

  pub remove_lem : (n : ℕ) (t : (Table A)) → drop (length (take n t.rows)) t.rows ≡ drop n t.rows
  remove_lem n t = drop_taken n t.rows

  abbrev pub cache_laws : FrameCacheLaws cache
  cache_laws = record {
    rows = λ t. t.rows;
    append_law = λ batch t. inl (refl, append_lem batch t);
    oldest_law = λ n t. inl refl;
    remove_law = λ n t. inl (refl, remove_lem n t);
    count_law = λ t. inl refl;
    reset_law = λ t e. refl;
  }

  abbrev pub list_parts : Parts A
  list_parts = record { channel = channel; sink = sink; cache = cache }

  abbrev pub lawful : Lawful list_parts
  lawful = record { queue_laws = queue_laws; sink_laws = sink_laws; cache_laws = cache_laws }

  pub reliable : Reliable list_parts
  reliable = record {
    has_room = λ t. refl;
    appends = λ batch t e. cc;
    reads = λ n t e. cc;
    removes = λ rows t e. cc;
    counts = λ t e. cc;
  }

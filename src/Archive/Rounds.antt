-- ===== src/Archive/Rounds.antt =====
-- crates/wiretap-server/src/archive.rs: over the rounds of `run`, no frame overtakes another and
-- none is stored twice.
use wire_tap_server.Prelude.{
  ℕ, ◌≤◌, ◌≡◌, refl, sym, ap, ◌∙◌, true, false, List, [], ◌∷◌, ◌++◌, append-nil, append_assoc,
  arith, length, take, drop, drop_all, take-append-drop,
}
use wire_tap_server.Archive.Interface.{
  Parts, Lawful, SinkResult, done, refused, WriteResult, stored, write_error, delivered_of,
}
use wire_tap_server.Archive.Worker.{
  Worker, Wait, stop_signal, woken, Drained, more, nothing, broken, meanwhile, report, written,
  queue_finished, before_first, next_batch, spill_if_queue_filling,
}
use wire_tap_server.Archive.Run.{
  Turn, with_sink, drain_cache, after_keep_alive, idle, after_write, send_batch, after_drain, work,
  after_connect, attempt, turn,
}
use wire_tap_server.Archive.Order.{
  Reliable, InOrder, InOrder-trans, InOrder-skip, InOrder-rest, InOrder-still, meanwhile-InOrder,
}
use wire_tap_server.Archive.Outage.{receive-InOrder, spill-InOrder}
use wire_tap_server.Archive.Delivery.{
  wait_list, fail_list, if_pair-InOrder, InOrder-idle, close_queue-InOrder, fail-InOrder,
}
use wire_tap_server.Archive.Redelivery.{drain_cache-InOrder, drain_cache-Clears}

-- What is handed over during a turn.
abbrev pub batch_list : {A : Type 0} → Turn A → List (ℕ × A)
batch_list t = wait_list t.at_batch ++ (t.at_keep_alive ++ (t.at_write ++ fail_list t))

abbrev pub turn_list : {A : Type 0} → Turn A → List (ℕ × A)
turn_list t = t.at_connect ++ (t.at_drain ++ batch_list t)

module _ {A : Type 0} {p : Parts A} (l : Lawful p) (r : Reliable p) where
  before_first-InOrder :
      (t : Wait A) (w : Worker p) → InOrder l (wait_list t) [] [] w (before_first p t w)
  unfolding before_first
  before_first-InOrder stop_signal w = close_queue-InOrder l r [] w
  before_first-InOrder (woken arrivals) w = meanwhile-InOrder l arrivals [] w

  next_batch-InOrder :
      (t : Wait A) (w : Worker p)
      → InOrder l (wait_list t) [] (next_batch p t w).0 w (next_batch p t w).1
  unfolding next_batch
  next_batch-InOrder t w = rw append-nil at (
      InOrder-trans (before_first-InOrder t w)
        (receive-InOrder l r (before_first p t w).batch_size (before_first p t w)))

  next_batch-rows :
      (t : Wait A) (w : Worker p)
      → l.cache_laws.rows (next_batch p t w).1.cache ≡ l.cache_laws.rows w.cache
  unfolding next_batch before_first meanwhile
  next_batch-rows stop_signal w = refl
  next_batch-rows (woken arrivals) w = refl

  -- What a sink stores of a batch in hand follows what it has, with nothing on disk between.
  stored-InOrder :
      (ack_ms : ℕ) (arrivals : List (ℕ × A)) (batch : List A) (w : Worker p)
      → l.cache_laws.rows w.cache ≡ []
      → let x = p.sink.write_batch batch w.sink in
        let n = delivered_of (length batch) x.0 in
        InOrder l arrivals batch
          (drop n batch)
          w
          (written p ack_ms n (meanwhile p arrivals (with_sink p x.1 w)))
  unfolding written meanwhile
  stored-InOrder ack_ms arrivals batch w e =
      let x = p.sink.write_batch batch w.sink in
      let n = delivered_of (length batch) x.0 in
      let w1 = meanwhile p arrivals w in
      rw append-nil at (
        InOrder-trans {h'' = drop n batch} (meanwhile-InOrder l arrivals batch w) (
          InOrder-still w1 (written p ack_ms n (meanwhile p arrivals (with_sink p x.1 w)))
            (rw (e, l.sink_laws.write_stores batch w.sink)
              (append_assoc (l.sink_laws.archived w.sink) (take n batch) _
                ∙ ap (λ xs. l.sink_laws.archived w.sink ++ xs)
                    (sym (append_assoc (take n batch) (drop n batch) _)
                      ∙ ap (λ xs. xs ++ p.channel.contents w1.queue) (take-append-drop n batch))))
            refl refl))

  after_write-InOrder :
      (t : Turn A) (arrivals : List (ℕ × A)) (batch : List A) (result : WriteResult)
      (w w' : Worker p)
      → 1 ≤ w.batch_size
      → InOrder l arrivals batch
          (drop (delivered_of (length batch) result) batch)
          w
          (written p t.ack_ms (delivered_of (length batch) result) w')
      → InOrder l (arrivals ++ fail_list t) batch [] w (after_write p t batch result w').1
  unfolding after_write
  after_write-InOrder t arrivals batch stored w w' b f =
      InOrder-rest (fail_list t) (rw (drop_all (length batch) batch (omega arith)) at f)
  after_write-InOrder t arrivals batch (write_error d cause) w w' b f =
      let size = f.size in
      InOrder-trans f
        (fail-InOrder l r t cause (drop d batch) (written p t.ack_ms d w') (omega arith))

  after_keep_alive-InOrder :
      (t : Turn A) (result : SinkResult) (w : Worker p)
      → 1 ≤ w.batch_size
      → InOrder l (fail_list t) [] [] w (after_keep_alive p t result w).1
  unfolding after_keep_alive
  after_keep_alive-InOrder t done w b = InOrder-idle l r (fail_list t) [] w
  after_keep_alive-InOrder t (refused e) w b = fail-InOrder l r t e [] w b

  -- A call of the sink that stores nothing, and what is handed over meanwhile.
  kept_sink-InOrder :
      (s : p.sink.State) (arrivals : List (ℕ × A)) (w : Worker p)
      → l.sink_laws.archived s ≡ l.sink_laws.archived w.sink
      → InOrder l arrivals [] [] w (meanwhile p arrivals (with_sink p s w))
  kept_sink-InOrder s arrivals w e =
      InOrder-trans (InOrder-still w (with_sink p s w) (rw e refl) refl refl)
        (meanwhile-InOrder l arrivals [] (with_sink p s w))

  idle-InOrder :
      (t : Turn A) (w : Worker p)
      → 1 ≤ w.batch_size
      → InOrder l (t.at_keep_alive ++ (t.at_write ++ fail_list t)) [] [] w (idle p t w).1
  unfolding idle meanwhile
  idle-InOrder t w b =
      let s = (p.sink.keep_alive w.sink).1 in
      let kept = kept_sink-InOrder s t.at_keep_alive w (l.sink_laws.keep_alive_keeps w.sink) in
      if_pair-InOrder (queue_finished p w) _ _
        (InOrder-idle l r (t.at_keep_alive ++ (t.at_write ++ fail_list t)) [] w)
        (InOrder-trans kept
          (InOrder-skip t.at_write (after_keep_alive-InOrder t (p.sink.keep_alive w.sink).0 _ b)))

  send_batch-InOrder :
      (t : Turn A) (batch : List A) (w : Worker p)
      → 1 ≤ w.batch_size
      → l.cache_laws.rows w.cache ≡ []
      → InOrder l
          (t.at_keep_alive ++ (t.at_write ++ fail_list t))
          batch
          []
          w
          (send_batch p t batch w).1
  unfolding send_batch
  send_batch-InOrder t [] w b e = idle-InOrder t w b
  send_batch-InOrder t (a ∷ rest) w b e = InOrder-skip t.at_keep_alive (
      after_write-InOrder t t.at_write (a ∷ rest) _ w _ b
        (stored-InOrder t.ack_ms t.at_write (a ∷ rest) w e))

  after_drain-InOrder :
      (t : Turn A) (d : Drained) (w : Worker p)
      → 1 ≤ w.batch_size
      → (d ≡ nothing → l.cache_laws.rows w.cache ≡ [])
      → InOrder l (batch_list t) [] [] w (after_drain p t d w).1
  unfolding after_drain
  after_drain-InOrder t more w b e = InOrder-idle l r (batch_list t) [] w
  after_drain-InOrder t nothing w b e =
      let taken = next_batch-InOrder t.at_batch w in
      let size = taken.size in
      InOrder-trans taken (
        send_batch-InOrder t (next_batch p t.at_batch w).0 (next_batch p t.at_batch w).1
          (omega arith) (next_batch-rows t.at_batch w ∙ e refl))
  after_drain-InOrder t (broken cause) w b e =
      InOrder-skip (wait_list t.at_batch)
        (InOrder-skip t.at_keep_alive (InOrder-skip t.at_write (fail-InOrder l r t cause [] w b)))

  work-InOrder :
      (t : Turn A) (w : Worker p)
      → 1 ≤ w.batch_size
      → InOrder l (t.at_drain ++ batch_list t) [] [] w (work p t w).1
  unfolding work
  work-InOrder t w b =
      let drained = drain_cache-InOrder l r t.ack_ms t.at_drain w b in
      let size = drained.size in
      InOrder-trans drained (
        after_drain-InOrder t (drain_cache p t.ack_ms t.at_drain w).0
          (drain_cache p t.ack_ms t.at_drain w).1 (omega arith)
          (drain_cache-Clears l r t.ack_ms t.at_drain w b))

  after_connect-InOrder :
      (t : Turn A) (result : SinkResult) (w : Worker p)
      → 1 ≤ w.batch_size
      → InOrder l (t.at_drain ++ batch_list t) [] [] w (after_connect p t result w).1
  unfolding after_connect
  after_connect-InOrder t done w b =
      InOrder-trans
        (InOrder-still w (record w { connected = true; sink_down = false }) refl refl refl)
        (work-InOrder t _ b)
  after_connect-InOrder t (refused e) w b = InOrder-skip t.at_drain (
      InOrder-skip (wait_list t.at_batch)
        (InOrder-skip t.at_keep_alive (InOrder-skip t.at_write (fail-InOrder l r t e [] w b))))

  attempt-InOrder :
      (t : Turn A) (w : Worker p)
      → 1 ≤ w.batch_size
      → InOrder l (turn_list t) [] [] w (attempt p t w).1
  unfolding attempt meanwhile
  attempt-InOrder t w b =
      let x = p.sink.connect w.sink in
      let kept = kept_sink-InOrder x.1 t.at_connect w (l.sink_laws.connect_keeps w.sink) in
      if_pair-InOrder w.connected _ _ (InOrder-skip t.at_connect (work-InOrder t w b)) (
        InOrder-trans kept
          (after_connect-InOrder t x.0 (meanwhile p t.at_connect (with_sink p x.1 w)) b))

  pub turn-InOrder :
      (t : Turn A) (w : Worker p)
      → 1 ≤ w.batch_size
      → InOrder l (turn_list t) [] [] w (turn p t w).1
  unfolding turn report
  turn-InOrder t w b =
      let spilled = spill-InOrder l r (report p w) b in
      let size = spilled.size in
      InOrder-trans (InOrder-still w (report p w) refl refl refl) (
        InOrder-trans spilled
          (attempt-InOrder t (spill_if_queue_filling p (report p w)) (omega arith)))

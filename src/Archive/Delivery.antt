-- ===== src/Archive/Delivery.antt =====
-- crates/wiretap-server/src/archive.rs: writes to the sink, off the disk and off the queue, keep the
-- order.
use wire_tap_server.Prelude.{
  ℕ, ◌≤◌, refl, Bool, true, false, List, [], ◌++◌, append-nil, arith, if◌then◌else◌,
}
use wire_tap_server.Archive.Interface.{Parts, Lawful, SinkError}
use wire_tap_server.Archive.Worker.{
  Worker, Wait, stop_signal, woken, cache_if_any, drain_queue_to_cache, disconnect, fail,
  sleep_or_stop, wait_to_retry, queue_finished, is_closed_error, close_queue,
}
use wire_tap_server.Archive.Run.{Turn}
use wire_tap_server.Archive.Order.{
  Reliable, InOrder, InOrder-trans, InOrder-rest, InOrder-still, InOrder-refl, meanwhile-InOrder,
}
use wire_tap_server.Archive.Outage.{cache_if_any-InOrder, drain_queue-InOrder}

-- What is handed over during a wait, and while a failure is dealt with.
abbrev pub wait_list : {A : Type 0} → Wait A → List (ℕ × A)
wait_list stop_signal = []
wait_list (woken arrivals) = arrivals

abbrev pub fail_list : {A : Type 0} → Turn A → List (ℕ × A)
fail_list t = t.at_close ++ wait_list t.at_retry

pub if_pair-InOrder :
    {A B : Type 0} {p : Parts A} {l : Lawful p} (b : Bool) {o : List (ℕ × A)} {h h' : List A}
    {w : Worker p} (x y : B × Worker p)
    → InOrder l o h h' w x.1
    → InOrder l o h h' w y.1
    → InOrder l o h h' w (if b then x else y).1
if_pair-InOrder true x y f g = f
if_pair-InOrder false x y f g = g

module _ {A : Type 0} {p : Parts A} (l : Lawful p) (r : Reliable p) where
  pub close_queue-InOrder : (h : List A) (w : Worker p) → InOrder l [] h h w (close_queue p w)
  close_queue-InOrder h w =
      InOrder-still w _ (rw (l.queue_laws.close_contents w.queue) refl) refl refl

  sleep_or_stop-InOrder :
      (t : Wait A) (w : Worker p) → InOrder l (wait_list t) [] [] w (sleep_or_stop p t w).1
  unfolding sleep_or_stop
  sleep_or_stop-InOrder stop_signal w = close_queue-InOrder [] w
  sleep_or_stop-InOrder (woken arrivals) w = meanwhile-InOrder l arrivals [] w

  -- Nothing is enqueued of what could have been.
  pub InOrder-idle : (o : List (ℕ × A)) (h : List A) (w : Worker p) → InOrder l o h h w w
  InOrder-idle o h w = InOrder-rest o (InOrder-refl h w)

  wait_to_retry-InOrder :
      (t : Wait A) (w : Worker p) → InOrder l (wait_list t) [] [] w (wait_to_retry p t w).1
  unfolding wait_to_retry
  wait_to_retry-InOrder t w =
      if_pair-InOrder (queue_finished p w) _ _ (InOrder-idle (wait_list t) [] w)
        (sleep_or_stop-InOrder t w)

  disconnect-InOrder :
      (arrivals : List (ℕ × A)) (e : SinkError) (h : List A) (w : Worker p)
      → InOrder l arrivals h h w (disconnect p arrivals e w)
  unfolding disconnect
  disconnect-InOrder arrivals e h w =
      InOrder-trans (InOrder-still w _ (rw (l.sink_laws.close_keeps w.sink) refl) refl refl)
        (meanwhile-InOrder l arrivals h _)

  -- A failure puts the rest of the batch on disk, with what is queued behind it.
  pub fail-InOrder :
      (t : Turn A) (e : SinkError) (batch : List A) (w : Worker p)
      → 1 ≤ w.batch_size
      → InOrder l (fail_list t) batch [] w (fail p t.at_close t.at_retry e batch w).1
  unfolding fail
  fail-InOrder t e batch w b =
      if_pair-InOrder (is_closed_error e) _ _ (InOrder-rest (wait_list t.at_retry) kept)
        (InOrder-trans drained (wait_to_retry-InOrder t.at_retry _))
    where
      gone : Worker p
      gone = disconnect p t.at_close e w

      kept : InOrder l t.at_close batch [] w (cache_if_any p batch gone)
      kept = rw append-nil at (
          InOrder-trans (disconnect-InOrder t.at_close e batch w)
            (cache_if_any-InOrder l r batch gone))

      drained : InOrder l t.at_close batch [] w (drain_queue_to_cache p (cache_if_any p batch gone))
      drained =
          let size = kept.size in
          rw append-nil at
            (InOrder-trans kept (drain_queue-InOrder l r (cache_if_any p batch gone) (omega arith)))

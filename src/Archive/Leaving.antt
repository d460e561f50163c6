-- ===== src/Archive/Leaving.antt =====
-- crates/wiretap-server/src/archive.rs: how `run` leaves its loop.
use wire_tap_server.Prelude.{
  ℕ, ◌≡◌, refl, ◌∙◌, inl, inr, Bool, true, false, ◌&&◌, List, [], ◌∷◌, zero, suc, ◌⊎◌, take, drop,
  if◌then◌else◌,
}
use wire_tap_server.Archive.Interface.{
  Parts, Lawful, SinkError, SinkResult, done, refused, WriteResult, stored, write_error,
}
use wire_tap_server.Archive.Worker.{
  Worker, Wait, stop_signal, woken, Drained, more, nothing, broken, is_empty, queue_finished,
  sleep_or_stop, wait_to_retry, fail, is_closed_error, meanwhile, cache_batch, cache_if_any,
  take_queued, cache_chunks, drain_queue_to_cache, disconnect,
}
use wire_tap_server.Archive.Run.{
  Turn, after_keep_alive, idle, after_write, send_batch, after_drain, work, after_connect, attempt,
  turn, with_sink,
}
use wire_tap_server.Archive.Spill.{Spill, kept, lost, cache_batch-Spill}

-- Where the loop is left: the queue is closed, and it is empty or the sink is gone.
abbrev pub Leaves : {A : Type 0} (p : Parts A) → Bool × Worker p → Type 0
Leaves p r =
    r.0 ≡ false
    → (p.channel.is_closed r.1.queue ≡ true)
      × ((p.channel.contents r.1.queue ≡ []) ⊎ (r.1.connected ≡ false))

if-Leaves :
    {A : Type 0} {p : Parts A} (b : Bool) (x y : Bool × Worker p)
    → (b ≡ true → Leaves p x)
    → Leaves p y
    → Leaves p (if b then x else y)
if-Leaves true x y f g = f refl
if-Leaves false x y f g = g

module _ {A : Type 0} {p : Parts A} (l : Lawful p) where
  queue_finished-closed :
      (w : Worker p)
      → queue_finished p w ≡ true
      → (p.channel.is_closed w.queue ≡ true) × (p.channel.contents w.queue ≡ [])
  unfolding queue_finished
  queue_finished-closed w e = both (p.channel.is_closed w.queue) (p.channel.contents w.queue) e
    where
      both : (x : Bool) (xs : List A) → (x && is_empty xs) ≡ true → (x ≡ true) × (xs ≡ [])
      both true [] h = (refl, refl)
      both true (a ∷ rest) h = cc
      both false xs h = cc

  -- The queue is closed and empty.
  finished-Leaves : (w : Worker p) (b : Bool) → queue_finished p w ≡ true → Leaves p (b, w)
  finished-Leaves w b e _ = let (closed, empty) = queue_finished-closed w e in (closed, inl empty)

  sleep_or_stop-Leaves :
      (t : Wait A) (w : Worker p) → w.connected ≡ false → Leaves p (sleep_or_stop p t w)
  unfolding sleep_or_stop
  sleep_or_stop-Leaves stop_signal w down e = (l.queue_laws.close_closes w.queue, inr down)
  sleep_or_stop-Leaves (woken arrivals) w down e = cc

  wait_to_retry-Leaves :
      (t : Wait A) (w : Worker p) → w.connected ≡ false → Leaves p (wait_to_retry p t w)
  unfolding wait_to_retry
  wait_to_retry-Leaves t w down =
      if-Leaves (queue_finished p w) _ _ (finished-Leaves w false) (sleep_or_stop-Leaves t w down)

  Spill-connected :
      {batch : List A} {w w' : Worker p} → Spill l batch w w' → w'.connected ≡ w.connected
  Spill-connected (kept c room took s e) = rw e refl
  Spill-connected (lost c why s e) = rw e refl

  cache_if_any-connected :
      (batch : List A) (w : Worker p) → (cache_if_any p batch w).connected ≡ w.connected
  unfolding cache_if_any
  cache_if_any-connected [] w = refl
  cache_if_any-connected (a ∷ rest) w = Spill-connected (cache_batch-Spill l (a ∷ rest) w)

  cache_chunks-connected :
      (rounds : ℕ) (queued : List A) (w : Worker p)
      → (cache_chunks p rounds queued w).1.connected ≡ w.connected
  unfolding cache_chunks
  cache_chunks-connected rounds [] w = refl
  cache_chunks-connected zero (a ∷ rest) w = refl
  cache_chunks-connected (suc rounds) (a ∷ rest) w =
      cache_chunks-connected rounds (drop w.batch_size (a ∷ rest))
        (cache_batch p (take w.batch_size (a ∷ rest)) w).1
      ∙ Spill-connected (cache_batch-Spill l (take w.batch_size (a ∷ rest)) w)

  drain_queue-connected : (w : Worker p) → (drain_queue_to_cache p w).connected ≡ w.connected
  unfolding drain_queue_to_cache take_queued
  drain_queue-connected w = cache_chunks-connected _ _ _

  -- `fail` has disconnected before it waits.
  fail-Leaves :
      (at_close : List (ℕ × A)) (t : Wait A) (e : SinkError) (batch : List A) (w : Worker p)
      → Leaves p (fail p at_close t e batch w)
  unfolding fail disconnect meanwhile
  fail-Leaves at_close t e batch w =
      if-Leaves (is_closed_error e) _ _ (λ _ f. cc)
        (wait_to_retry-Leaves t _ (drain_queue-connected _ ∙ cache_if_any-connected batch _))

  after_keep_alive-Leaves :
      (t : Turn A) (r : SinkResult) (w : Worker p) → Leaves p (after_keep_alive p t r w)
  unfolding after_keep_alive
  after_keep_alive-Leaves t done w = λ e. cc
  after_keep_alive-Leaves t (refused e) w = fail-Leaves t.at_close t.at_retry e [] w

  idle-Leaves : (t : Turn A) (w : Worker p) → Leaves p (idle p t w)
  unfolding idle
  idle-Leaves t w =
      if-Leaves (queue_finished p w) _ _ (finished-Leaves w false) (after_keep_alive-Leaves t _ _)

  after_write-Leaves :
      (t : Turn A) (batch : List A) (r : WriteResult) (w : Worker p)
      → Leaves p (after_write p t batch r w)
  unfolding after_write
  after_write-Leaves t batch stored w = λ e. cc
  after_write-Leaves t batch (write_error d cause) w =
      fail-Leaves t.at_close t.at_retry cause (drop d batch) _

  send_batch-Leaves :
      (t : Turn A) (batch : List A) (w : Worker p) → Leaves p (send_batch p t batch w)
  unfolding send_batch
  send_batch-Leaves t [] w = idle-Leaves t w
  send_batch-Leaves t (a ∷ rest) w = after_write-Leaves t (a ∷ rest) _ _

  after_drain-Leaves : (t : Turn A) (d : Drained) (w : Worker p) → Leaves p (after_drain p t d w)
  unfolding after_drain
  after_drain-Leaves t more w = λ e. cc
  after_drain-Leaves t nothing w = send_batch-Leaves t _ _
  after_drain-Leaves t (broken e) w = fail-Leaves t.at_close t.at_retry e [] w

  work-Leaves : (t : Turn A) (w : Worker p) → Leaves p (work p t w)
  unfolding work
  work-Leaves t w = after_drain-Leaves t _ _

  after_connect-Leaves :
      (t : Turn A) (r : SinkResult) (w : Worker p) → Leaves p (after_connect p t r w)
  unfolding after_connect
  after_connect-Leaves t done w = work-Leaves t _
  after_connect-Leaves t (refused e) w = fail-Leaves t.at_close t.at_retry e [] w

  attempt-Leaves : (t : Turn A) (w : Worker p) → Leaves p (attempt p t w)
  unfolding attempt
  attempt-Leaves t w =
      if-Leaves w.connected (work p t w) _ (λ _. work-Leaves t w)
        (after_connect-Leaves t (p.sink.connect w.sink).0
          (meanwhile p t.at_connect (with_sink p (p.sink.connect w.sink).1 w)))

  pub turn-Leaves : (t : Turn A) (w : Worker p) → Leaves p (turn p t w)
  unfolding turn
  turn-Leaves t w = attempt-Leaves t _

  -- A turn that leaves the loop has the queue closed, and either nothing is queued or the sink is
  -- disconnected: what is then flushed goes straight behind the frames on disk.
  pub turn_left :
      (t : Turn A) (w : Worker p)
      → (turn p t w).0 ≡ false
      → (p.channel.is_closed (turn p t w).1.queue ≡ true)
        × ((p.channel.contents (turn p t w).1.queue ≡ []) ⊎ ((turn p t w).1.connected ≡ false))
  turn_left t w e = turn-Leaves t w e

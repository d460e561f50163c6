-- ===== src/Archive/Outage.antt =====
-- crates/wiretap-server/src/archive.rs: what goes to disk and what comes back keeps its place.
use wire_tap_server.Prelude.{
  ℕ, zero, suc, ◌≤◌, ◌≡◌, refl, sym, ◌∙◌, inl, inr, Bool, true, false, List, [], ◌∷◌, ◌++◌,
  append-nil, append_assoc, arith, length, length-drop, take, drop, take-append-drop, if◌then◌else◌,
  leb, ◌==◌, ◌*◌,
}
use wire_tap_server.Archive.Interface.{Parts, Lawful}
use wire_tap_server.Archive.Worker.{
  Worker, cache_batch, cache_chunks, cache_if_any, drain_queue_to_cache, spill_if_queue_filling,
  take_queued, receive_up_to, with_queue,
}
use wire_tap_server.Archive.Receive.{receive_up_to_lem}
use wire_tap_server.Archive.Spill.{Spill, kept, lost, cache_batch-Spill}
use wire_tap_server.Archive.Order.{Reliable, InOrder, InOrder-trans, InOrder-still, InOrder-refl}

module _ {A : Type 0} {p : Parts A} (l : Lawful p) (r : Reliable p) where
  -- A batch in hand goes behind what is on disk; `later` are the frames still in hand behind it.
  Spill-InOrder :
      (batch later : List A) (w w' : Worker p)
      → Spill l batch w w'
      → InOrder l [] (batch ++ later) later w w'
  Spill-InOrder batch later w w' (kept c room took s e) =
      rw e (InOrder-still w _ (rw s (simp append_assoc)) refl refl)
  Spill-InOrder batch later w w' (lost c (inl is_full) s e) =
      absurd (true_not_false (sym is_full ∙ r.has_room w.cache))
    where
      true_not_false : true ≡ false → ⊥
      true_not_false h = cc
  Spill-InOrder batch later w w' (lost c (inr error) s e) = absurd (r.appends batch w.cache error)

  pub cache_batch-InOrder :
      (batch later : List A) (w : Worker p)
      → InOrder l [] (batch ++ later) later w (cache_batch p batch w).1
  cache_batch-InOrder batch later w = Spill-InOrder batch later w _ (cache_batch-Spill l batch w)

  pub cache_if_any-InOrder :
      (batch : List A) (w : Worker p) → InOrder l [] batch [] w (cache_if_any p batch w)
  unfolding cache_if_any
  cache_if_any-InOrder [] w = InOrder-refl [] w
  cache_if_any-InOrder (a ∷ rest) w = rw append-nil at (cache_batch-InOrder (a ∷ rest) [] w)

  cache_chunks-InOrder :
      (rounds : ℕ) (queued : List A) (w : Worker p)
      → length queued ≤ rounds
      → 1 ≤ w.batch_size
      → InOrder l [] queued [] w (cache_chunks p rounds queued w).1
  unfolding cache_chunks
  cache_chunks-InOrder rounds [] w h b = InOrder-refl [] w
  cache_chunks-InOrder zero (a ∷ rest) w h b = absurd (omega arith)
  cache_chunks-InOrder (suc rounds) (a ∷ rest) w h b =
      let queued = a ∷ rest in
      let front = take w.batch_size queued in
      let back = drop w.batch_size queued in
      let first = cache_batch-InOrder front back w in
      let size = first.size in
      let others =
        cache_chunks-InOrder rounds back (cache_batch p front w).1
          (omega (arith, length-drop w.batch_size queued)) (omega arith) in
      let both = InOrder-trans first others in rw (take-append-drop w.batch_size queued) at both

  -- What is taken off the queue is in hand.
  pub receive-InOrder :
      (n : ℕ) (w : Worker p)
      → InOrder l [] []
          (receive_up_to p n w.queue).0
          w
          (with_queue p (receive_up_to p n w.queue).1 w)
  receive-InOrder n w =
      let (front, back) = receive_up_to_lem l n w.queue in
      InOrder-still w _ (rw (front, back, take-append-drop n (p.channel.contents w.queue)) refl)
        refl refl

  pub drain_queue-InOrder :
      (w : Worker p) → 1 ≤ w.batch_size → InOrder l [] [] [] w (drain_queue_to_cache p w)
  unfolding drain_queue_to_cache take_queued
  drain_queue-InOrder w b =
      let n = length (p.channel.contents w.queue) in
      InOrder-trans (receive-InOrder n w)
        (cache_chunks-InOrder _ (receive_up_to p n w.queue).0 _ (omega arith) b)

  pub if-InOrder :
      (b : Bool) {o : List (ℕ × A)} {h h' : List A} {w x y : Worker p}
      → InOrder l o h h' w x
      → InOrder l o h h' w y
      → InOrder l o h h' w (if b then x else y)
  if-InOrder true f g = f
  if-InOrder false f g = g

  pub spill-InOrder :
      (w : Worker p) → 1 ≤ w.batch_size → InOrder l [] [] [] w (spill_if_queue_filling p w)
  unfolding spill_if_queue_filling
  spill-InOrder w b = if-InOrder (w.flush_pct == 0) (InOrder-refl [] w) (
      if-InOrder
        (leb (w.flush_pct * p.channel.max_capacity w.queue)
          (length (p.channel.contents w.queue) * 100))
        (drain_queue-InOrder w b) (InOrder-refl [] w))

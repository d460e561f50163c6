-- ===== src/Archive/Redelivery.antt =====
-- crates/wiretap-server/src/archive.rs: `drain_cache` sends what is on disk, the oldest first, and
-- takes off the disk what the sink has stored.
use wire_tap_server.Prelude.{
  ℕ, zero, suc, ◌≤◌, ◌≡◌, ◌≢◌, refl, sym, ap, ◌∙◌, inl, inr, Bool, true, false, not, ◌&&◌, List, [],
  ◌∷◌, ◌++◌, append-nil, append_assoc, map-append, arith, length, length-map, take, drop,
  take-append-drop, take-take, take-map, Bool-cases, if◌then◌else◌, ◌==◌,
}
use wire_tap_server.Archive.Interface.{
  Parts, Lawful, Cached, samples, CacheResult, ok, cache_error, WriteResult, delivered_of, stored,
  write_error,
}
use wire_tap_server.Archive.Worker.{Worker, meanwhile, written, Drained, nothing, unwrap_or}
use wire_tap_server.Archive.Run.{
  recovered, end_drain, send_cached, drain_rows, drain_cache, drained_of,
}
use wire_tap_server.Archive.Order.{
  Reliable, InOrder, InOrder-trans, InOrder-skip, InOrder-still, InOrder-refl, meanwhile-InOrder,
}
use wire_tap_server.Archive.Outage.{if-InOrder}
use wire_tap_server.Archive.Delivery.{if_pair-InOrder, InOrder-idle}

-- The frames sent of the oldest `k`, and the rows that stay.
resent :
    {A : Type 0} (n k : ℕ) (rows : List (Cached A))
    → n ≤ length (take k rows)
    → take n (samples (take k rows)) ++ samples (drop n rows) ≡ samples rows
resent n k rows h =
    rw (take-map (λ c. c.sample) n (take k rows), take-take n k rows h)
      (sym (map-append (λ c. c.sample) (take n rows) (drop n rows))
        ∙ ap samples (take-append-drop n rows))

module _ {A : Type 0} {p : Parts A} (l : Lawful p) (r : Reliable p) where
  removed :
      (n k : ℕ) (c : p.cache.State)
      → n ≤ length (take k (l.cache_laws.rows c))
      → l.cache_laws.rows (p.cache.remove (take n (take k (l.cache_laws.rows c))) c).1
        ≡ drop n (l.cache_laws.rows c)
  removed n k c h = rw (take-take n k (l.cache_laws.rows c) h) (elim (l.cache_laws.remove_law n c) [
    | inl (e, x) ↦ x
    | inr (e, x) ↦ absurd (r.removes _ c e)
  ])

  -- The frames that `send_cached` sends, in hand behind those that the sink has: none moves.
  send_cached-order :
      (w : Worker p) (queue : List A)
      → let cached = take w.batch_size (l.cache_laws.rows w.cache) in
        let n = delivered_of (length cached) (p.sink.write_batch (samples cached) w.sink).0 in
        l.sink_laws.archived (p.sink.write_batch (samples cached) w.sink).1
          ++ (samples (l.cache_laws.rows (p.cache.remove (take n cached) w.cache).1) ++ queue)
        ≡ l.sink_laws.archived w.sink ++ (samples (l.cache_laws.rows w.cache) ++ queue)
  send_cached-order w queue =
      let rows = l.cache_laws.rows w.cache in
      let cached = take w.batch_size rows in
      let result = (p.sink.write_batch (samples cached) w.sink).0 in
      let same : length (samples cached) ≡ length cached = length-map (λ c. c.sample) cached in
      let n = delivered_of (length cached) result in
      let bound : n ≤ length cached =
        rw same at (l.sink_laws.delivered_bound (samples cached) w.sink) in
      let stores : l.sink_laws.archived (p.sink.write_batch (samples cached) w.sink).1
          ≡ l.sink_laws.archived w.sink ++ take n (samples cached) =
        rw same at (l.sink_laws.write_stores (samples cached) w.sink) in
      rw (stores, removed n w.batch_size w.cache bound)
        (append_assoc (l.sink_laws.archived w.sink) (take n (samples cached)) _
          ∙ ap (λ xs. l.sink_laws.archived w.sink ++ xs)
              (sym (append_assoc (take n (samples cached)) (samples (drop n rows)) queue)
                ∙ ap (λ xs. xs ++ queue) (resent n w.batch_size rows bound)))

  send_cached-InOrder :
      (ack_ms : ℕ) (arrivals : List (ℕ × A)) (w : Worker p)
      → InOrder l arrivals [] [] w
          (send_cached p ack_ms arrivals (take w.batch_size (l.cache_laws.rows w.cache)) w).1
  unfolding send_cached meanwhile recovered written
  send_cached-InOrder ack_ms arrivals w = rw append-nil at (
      InOrder-trans {h'' = []} (meanwhile-InOrder l arrivals [] w) (
        InOrder-still (meanwhile p arrivals w)
          (send_cached p ack_ms arrivals (take w.batch_size (l.cache_laws.rows w.cache)) w).1
          (send_cached-order w _) refl refl))

  end_drain-InOrder :
      (w : Worker p) → l.cache_laws.rows w.cache ≡ [] → InOrder l [] [] [] w (end_drain p w).1
  unfolding end_drain
  end_drain-InOrder w e =
      if-InOrder l r w.draining_cache
        (InOrder-still w _ (rw (e, l.cache_laws.reset_law w.cache e) refl) refl refl)
        (InOrder-refl [] w)

  -- What is read is the front of what is on disk.
  oldest-rows :
      (w : Worker p) (cached : List (Cached A))
      → p.cache.oldest w.batch_size w.cache ≡ ok cached
      → cached ≡ take w.batch_size (l.cache_laws.rows w.cache)
  oldest-rows w cached e = elim (l.cache_laws.oldest_law w.batch_size w.cache) [
    | inl found ↦ cc
    | inr error ↦ absurd (r.reads _ _ error)
  ]

  take-nil : (n : ℕ) (rows : List (Cached A)) → 1 ≤ n → [] ≡ take n rows → rows ≡ []
  take-nil zero rows h e = absurd (omega arith)
  take-nil (suc n) [] h e = refl
  take-nil (suc n) (c ∷ cs) h e = cc

  drain_rows-InOrder :
      (ack_ms : ℕ) (arrivals : List (ℕ × A)) (o : CacheResult (List (Cached A))) (w : Worker p)
      → p.cache.oldest w.batch_size w.cache ≡ o
      → 1 ≤ w.batch_size
      → InOrder l arrivals [] [] w (drain_rows p ack_ms arrivals o w).1
  unfolding drain_rows
  drain_rows-InOrder ack_ms arrivals cache_error w e b = InOrder-idle l r arrivals [] w
  drain_rows-InOrder ack_ms arrivals (ok []) w e b =
      rw append-nil at (
        InOrder-skip arrivals
          (end_drain-InOrder w (take-nil w.batch_size _ b (oldest-rows w [] e))))
  drain_rows-InOrder ack_ms arrivals (ok (c ∷ cs)) w e b =
      rw (sym (oldest-rows w (c ∷ cs) e)) at (send_cached-InOrder ack_ms arrivals w)

  pub drain_cache-InOrder :
      (ack_ms : ℕ) (arrivals : List (ℕ × A)) (w : Worker p)
      → 1 ≤ w.batch_size
      → InOrder l arrivals [] [] w (drain_cache p ack_ms arrivals w).1
  unfolding drain_cache
  drain_cache-InOrder ack_ms arrivals w b =
      if_pair-InOrder (not w.draining_cache && (unwrap_or 1 (p.cache.count w.cache) == 0)) _ _
        (InOrder-idle l r arrivals [] w)
        (drain_rows-InOrder ack_ms arrivals (p.cache.oldest w.batch_size w.cache) w refl b)

  -- The queue gets its turn only with nothing left on disk.
  abbrev pub Clears : Drained × Worker p → Type 0
  Clears x = x.0 ≡ nothing → l.cache_laws.rows x.1.cache ≡ []

  if-Clears :
      (b : Bool) (x y : Drained × Worker p)
      → (b ≡ true → Clears x)
      → Clears y
      → Clears (if b then x else y)
  if-Clears true x y f g = f refl
  if-Clears false x y f g = g

  drained_of_lem : (result : WriteResult) → drained_of result ≢ nothing
  drained_of_lem stored e = cc
  drained_of_lem (write_error d cause) e = cc

  end_drain-Clears : (w : Worker p) → l.cache_laws.rows w.cache ≡ [] → Clears (end_drain p w)
  unfolding end_drain
  end_drain-Clears w e = elim (Bool-cases w.draining_cache) [
    | inl draining ↦ simp draining (λ _. l.cache_laws.reset_law w.cache e)
    | inr idle ↦ simp idle (λ _. e)
  ]

  drain_rows-Clears :
      (ack_ms : ℕ) (arrivals : List (ℕ × A)) (o : CacheResult (List (Cached A))) (w : Worker p)
      → p.cache.oldest w.batch_size w.cache ≡ o
      → 1 ≤ w.batch_size
      → Clears (drain_rows p ack_ms arrivals o w)
  unfolding drain_rows send_cached
  drain_rows-Clears ack_ms arrivals cache_error w e b n = absurd (r.reads _ _ e)
  drain_rows-Clears ack_ms arrivals (ok []) w e b n =
      end_drain-Clears w (take-nil w.batch_size _ b (oldest-rows w [] e)) n
  drain_rows-Clears ack_ms arrivals (ok (c ∷ cs)) w e b n = absurd (drained_of_lem _ n)

  count-rows :
      (w : Worker p)
      → (unwrap_or 1 (p.cache.count w.cache) == 0) ≡ true
      → l.cache_laws.rows w.cache ≡ []
  count-rows w e = elim (l.cache_laws.count_law w.cache) [
    | inl counted ↦ none_of (l.cache_laws.rows w.cache) (rw counted at e)
    | inr error ↦ absurd (r.counts _ error)
  ]
    where
      none_of : (rows : List (Cached A)) → (length rows == 0) ≡ true → rows ≡ []
      none_of [] h = refl
      none_of (c ∷ cs) h = absurd (ground arith)

  pub drain_cache-Clears :
      (ack_ms : ℕ) (arrivals : List (ℕ × A)) (w : Worker p)
      → 1 ≤ w.batch_size
      → Clears (drain_cache p ack_ms arrivals w)
  unfolding drain_cache
  drain_cache-Clears ack_ms arrivals w b =
      let none_left = unwrap_or 1 (p.cache.count w.cache) == 0 in
      if-Clears (not w.draining_cache && none_left) _ _
        (λ e _. count-rows w (second (not w.draining_cache) none_left e))
        (drain_rows-Clears ack_ms arrivals (p.cache.oldest w.batch_size w.cache) w refl b)
    where
      second : (x y : Bool) → (x && y) ≡ true → y ≡ true
      second true y e = e
      second false y e = cc

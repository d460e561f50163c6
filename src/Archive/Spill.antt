-- ===== src/Archive/Spill.antt =====
-- crates/wiretap-server/src/archive.rs: what becomes of a batch that is put on disk.
use wire_tap_server.Prelude.{
  ℕ, ◌+◌, ◌≡◌, refl, ◌⊎◌, inl, inr, true, false, List, ◌++◌, length, Bool-cases, arith,
}
use wire_tap_server.Archive.Interface.{Parts, Lawful, samples, CacheResult, ok, cache_error}
use wire_tap_server.Archive.Handle.{count_dropped}
use wire_tap_server.Archive.Worker.{Worker, cache_batch, after_append}

-- The batch is the newest on disk, where the cache has room and takes it, or its frames are counted as dropped: only where the cache is
-- full or fails.
pub data Spill {A : Type 0} {p : Parts A} (l : Lawful p) (batch : List A) (w w' : Worker p)
    : Type 0 where
  kept :
      (c : p.cache.State)
      → p.cache.is_full w.cache ≡ false
      → (p.cache.append batch w.cache).0 ≡ ok (length batch)
      → samples (l.cache_laws.rows c) ≡ samples (l.cache_laws.rows w.cache) ++ batch
      → w' ≡ record w {
        cache = c;
        shared = record w.shared {
          counters = record w.counters { cached = w.counters.cached + length batch };
        };
      }
      → Spill l batch w w'
  lost :
      (c : p.cache.State)
      → (p.cache.is_full w.cache ≡ true) ⊎ ((p.cache.append batch w.cache).0 ≡ cache_error)
      → l.cache_laws.rows c ≡ l.cache_laws.rows w.cache
      → w' ≡ record w { cache = c; shared = count_dropped p (length batch) w.shared }
      → Spill l batch w w'

module _ {A : Type 0} {p : Parts A} (l : Lawful p) (batch : List A) (w : Worker p) where
  after_append-ok :
      (r : CacheResult ℕ × p.cache.State) (n : ℕ)
      → r.0 ≡ ok n
      → (after_append p batch r w).1 ≡ record w {
        cache = r.1;
        shared = record w.shared {
          counters = record w.counters { cached = w.counters.cached + n };
        };
      }
  unfolding after_append
  after_append-ok (ok m, c) n e = ground arith
  after_append-ok (cache_error, c) n e = cc

  after_append-error :
      (r : CacheResult ℕ × p.cache.State)
      → r.0 ≡ cache_error
      → (after_append p batch r w).1
        ≡ record w { cache = r.1; shared = count_dropped p (length batch) w.shared }
  unfolding after_append
  after_append-error (ok m, c) e = cc
  after_append-error (cache_error, c) e = refl

  -- Every branch of `cache_batch`: where the cache is not full and takes the batch it is stored whole, behind what is there; or the whole of it is dropped and
  -- counted, which happens only where the cache is full or fails, and leaves the rows as they were.
  pub cache_batch-Spill : Spill l batch w (cache_batch p batch w).1
  unfolding cache_batch
  cache_batch-Spill = elim (Bool-cases (p.cache.is_full w.cache)) [
    | inl is_full ↦ rw is_full (lost w.cache (inl is_full) refl refl)
    | inr room ↦ rw room (elim (l.cache_laws.append_law batch w.cache) [
      | inl (e, c) ↦ kept (p.cache.append batch w.cache).1 room e c (after_append-ok _ _ e)
      | inr (e, c) ↦ lost (p.cache.append batch w.cache).1 (inr e) c (after_append-error _ e)
    ])
  ]

-- ===== src/Cache/Store.antt =====
-- crates/wiretap-server/src/cache.rs: `SqliteCache` over a database file.
use wire_tap_server.Prelude.{
  ℕ, ◌+◌, ◌-◌, ◌*◌, ◌≡◌, ◌⊎◌, Bool, true, false, List, [], ◌∷◌, ◌++◌, map, Option, none, some,
  length, take, leb, ◌==◌, any, if◌then◌else◌, min,
}
use wire_tap_server.Model.{Sample}
use wire_tap_server.Archive.Interface.{CacheResult, ok, cache_error, Cached}
use wire_tap_server.Wire.Library.{CanLibrary}
use wire_tap_server.Cache.Rows.{RowLibrary, Row, encode_row, decode_row}

-- SQLite and the files of one cache. A `Bool` says whether the call worked.
pub record Database (R : Type 0) : Type 1 where
  pub State : Type 0
  pub insert_all : List R → State → Bool × State
  pub select_oldest : ℕ → State → Option (List (ℕ × R))
  pub delete_ids : List ℕ → State → Option ℕ × State
  pub count_rows : State → Option ℕ
  pub file_sizes : State → List (Option ℕ)
  pub disconnect : State → Bool × State
  pub unlink : State → Bool × State
  pub reopen : State → Bool × State

-- The rows outside `ids`.
abbrev pub without : {R : Type 0} → List ℕ → List (ℕ × R) → List (ℕ × R)
without ids [] = []
without ids (x ∷ xs) = if any (λ i. i == x.0) ids then without ids xs else x ∷ without ids xs

abbrev pub keys : {R : Type 0} → List (ℕ × R) → List ℕ
keys = map (λ x. x.0)

-- No key twice.
abbrev pub Distinct : List ℕ → Type 0
Distinct [] = Unit
Distinct (i ∷ is) = (any (λ j. j == i) is ≡ false) × Distinct is

-- What SQLite documents of the statements: a transaction inserts all rows or none, a delete by key
-- takes what it is given, `id` is a primary key in the order of insertion, and a new file is empty.
pub record DatabaseLaws {R : Type 0} (d : Database R) : Type 0 where
  pub table : d.State → List (ℕ × R)
  pub distinct : (s : d.State) → Distinct (keys (table s))
  pub insert_law :
      (rows : List R) (s : d.State)
      → ((d.insert_all rows s).0 ≡ true)
          × ((new : List (ℕ × R)) × (map (λ x. x.1) new ≡ rows)
              × (table (d.insert_all rows s).1 ≡ table s ++ new))
        ⊎ ((d.insert_all rows s).0 ≡ false) × (table (d.insert_all rows s).1 ≡ table s)
  pub select_law :
      (n : ℕ) (s : d.State)
      → (d.select_oldest n s ≡ some (take n (table s))) ⊎ (d.select_oldest n s ≡ none)
  pub delete_law :
      (ids : List ℕ) (s : d.State)
      → ((d.delete_ids ids s).0 ≡ some (length (table s) - length (without ids (table s))))
          × (table (d.delete_ids ids s).1 ≡ without ids (table s))
        ⊎ ((d.delete_ids ids s).0 ≡ none) × (table (d.delete_ids ids s).1 ≡ table s)
  pub count_law :
      (s : d.State) → (d.count_rows s ≡ some (length (table s))) ⊎ (d.count_rows s ≡ none)
  pub unlinked : (s : d.State) → (d.unlink s).0 ≡ true → table (d.unlink s).1 ≡ []
  pub reopened : (s : d.State) → table (d.reopen s).1 ≡ table s

module _ (c : CanLibrary) (r : RowLibrary) (d : Database (Row r.Real)) where
  pub record SqliteCache : Type 0 where
    pub db : d.State
    pub max_bytes : ℕ
    pub rows : ℕ

  -- `max_mb.saturating_mul(1024 * 1024)`, and the rows as they are counted.
  abbrev pub opened : ℕ → d.State → Option ℕ → Option SqliteCache
  opened max_mb s none = none
  opened max_mb s (some n) =
      some (record {
        db = s;
        max_bytes = min (max_mb * 1_048_576) 18_446_744_073_709_551_615;
        rows = n;
      })

  -- `open`, on a file whose connection could be made.
  unfoldable pub open_file : ℕ → d.State → Option SqliteCache
  open_file max_mb s = opened max_mb s (d.count_rows s)

  abbrev pub appended : ℕ → Bool × d.State → SqliteCache → CacheResult ℕ × SqliteCache
  appended n (true, s) x = (ok n, record x { db = s; rows = x.rows + n })
  appended n (false, s) x = (cache_error, record x { db = s })

  unfoldable pub append : List Sample → SqliteCache → CacheResult ℕ × SqliteCache
  append [] x = (ok 0, x)
  append (f ∷ fs) x =
      appended (length (f ∷ fs)) (d.insert_all (map (encode_row c r) (f ∷ fs)) x.db) x

  abbrev pub cons_decoded :
      ℕ → Option Sample → Option (List (Cached Sample)) → Option (List (Cached Sample))
  cons_decoded id (some s) (some rest) = some (record { id = id; sample = s } ∷ rest)
  cons_decoded id (some s) none = none
  cons_decoded id none rest = none

  -- One row that cannot be read fails the whole read.
  abbrev pub decode_all : List (ℕ × Row r.Real) → Option (List (Cached Sample))
  decode_all [] = some []
  decode_all (x ∷ xs) = cons_decoded x.0 (decode_row c r x.1) (decode_all xs)

  abbrev pub as_result : {B : Type 0} → Option B → CacheResult B
  as_result none = cache_error
  as_result (some b) = ok b

  abbrev pub decode_found : Option (List (ℕ × Row r.Real)) → CacheResult (List (Cached Sample))
  decode_found none = cache_error
  decode_found (some rows) = as_result (decode_all rows)

  unfoldable pub oldest : ℕ → SqliteCache → CacheResult (List (Cached Sample))
  oldest limit x = decode_found (d.select_oldest limit x.db)

  abbrev pub removed_rows : Option ℕ × d.State → SqliteCache → CacheResult (Unit {0}) × SqliteCache
  removed_rows (some n, s) x = (ok tt, record x { db = s; rows = x.rows - n })
  removed_rows (none, s) x = (cache_error, record x { db = s })

  unfoldable pub remove : List (Cached Sample) → SqliteCache → CacheResult (Unit {0}) × SqliteCache
  remove [] x = (ok tt, x)
  remove (f ∷ fs) x = removed_rows (d.delete_ids (map (λ f. f.id) (f ∷ fs)) x.db) x

  abbrev pub count : SqliteCache → CacheResult ℕ
  count x = ok x.rows

  abbrev pub total_size : List (Option ℕ) → ℕ
  total_size [] = 0
  total_size (none ∷ rest) = total_size rest
  total_size (some n ∷ rest) = n + total_size rest

  unfoldable pub size_bytes : SqliteCache → ℕ
  size_bytes x = total_size (d.file_sizes x.db)

  unfoldable pub is_full : SqliteCache → Bool
  unfolding size_bytes
  is_full x = leb x.max_bytes (size_bytes x)

  -- Each call that fails ends it, with what was done before.
  abbrev pub reset_opened : Bool × d.State → SqliteCache → CacheResult (Unit {0}) × SqliteCache
  reset_opened (true, s) x = (ok tt, record x { db = s; rows = 0 })
  reset_opened (false, s) x = (cache_error, record x { db = s })

  abbrev pub reset_unlinked : Bool × d.State → SqliteCache → CacheResult (Unit {0}) × SqliteCache
  reset_unlinked (true, s) x = reset_opened (d.reopen s) x
  reset_unlinked (false, s) x = (cache_error, record x { db = s })

  abbrev pub reset_closed : Bool × d.State → SqliteCache → CacheResult (Unit {0}) × SqliteCache
  reset_closed (true, s) x = reset_unlinked (d.unlink s) x
  reset_closed (false, s) x = (cache_error, record x { db = s })

  unfoldable pub reset : SqliteCache → CacheResult (Unit {0}) × SqliteCache
  reset x = reset_closed (d.disconnect x.db) x

-- ===== src/Cache/Counted.antt =====
-- crates/wiretap-server/src/cache.rs: what is removed, and the number of rows that is tracked.
use wire_tap_server.Prelude.{
  ℕ, zero, suc, ◌+◌, ◌-◌, ◌≤◌, ◌≡◌, ◌≢◌, refl, sym, ap, ◌∙◌, ◌⊎◌, inl, inr, Bool, true, false, List,
  [], ◌∷◌, map, Option, none, some, length, take, drop, arith, any, ◌==◌, Bool-cases, length-append,
  length-map, ◌||◌,
}
use wire_tap_server.Model.{Sample}
use wire_tap_server.Archive.Interface.{CacheResult, ok, cache_error, Cached}
use wire_tap_server.Wire.Library.{CanLibrary}
use wire_tap_server.Cache.Rows.{RowLibrary, Row, encode_row, decode_row}
use wire_tap_server.Cache.Store.{
  Database, DatabaseLaws, SqliteCache, append, appended, decode_all, remove, removed_rows, without,
  keys, Distinct, reset, reset_closed, reset_unlinked, reset_opened,
}
use wire_tap_server.Cache.Contents.{contents, cons_inv, decode_all-drop}

apart : (a : Bool) (i j : ℕ) → ((j == i) || a) ≡ false → ((i == j) ≡ false) × (a ≡ false)
apart a i j e = ground arith

module _ {R : Type 0} where
  without-nil : (t : List (ℕ × R)) → without [] t ≡ t
  without-nil [] = refl
  without-nil (x ∷ xs) = ap (λ ys. x ∷ ys) (without-nil xs)

  -- A key that no row has.
  without_other :
      (i : ℕ) (ids : List ℕ) (t : List (ℕ × R))
      → any (λ j. j == i) (keys t) ≡ false
      → without (i ∷ ids) t ≡ without ids t
  without_other i ids [] e = refl
  without_other i ids (x ∷ xs) e =
      let (first, others) = apart (any (λ j. j == i) (keys xs)) i x.0 e in
      rw (first, without_other i ids xs others) refl

  -- The keys of the first rows take away just these.
  pub without-take :
      (n : ℕ) (t : List (ℕ × R)) → Distinct (keys t) → without (keys (take n t)) t ≡ drop n t
  without-take zero t h = without-nil t
  without-take (suc n) [] h = refl
  without-take (suc n) (x ∷ xs) (here, there) =
      rw (same x.0) (without_other x.0 (keys (take n xs)) xs here ∙ without-take n xs there)
    where
      same : (i : ℕ) → (i == i) ≡ true
      same i = ground arith

  length-without : (ids : List ℕ) (t : List (ℕ × R)) → length (without ids t) ≤ length t
  length-without ids [] = omega arith
  length-without ids (x ∷ xs) = elim (Bool-cases (any (λ i. i == x.0) ids)) [
    | inl e ↦ rw e (omega (arith, length-without ids xs))
    | inr e ↦ rw e (omega (arith, length-without ids xs))
  ]

module _ (c : CanLibrary) (r : RowLibrary) {d : Database (Row r.Real)} (g : DatabaseLaws d) where
  -- The tracked number of rows is the number of rows.
  abbrev pub Counted : SqliteCache c r d → Type 0
  Counted x = x.rows ≡ length (g.table x.db)

  appended-Counted :
      (n : ℕ) (p : Bool × d.State) (x : SqliteCache c r d)
      → (p.0 ≡ true → length (g.table p.1) ≡ x.rows + n)
      → (p.0 ≡ false → length (g.table p.1) ≡ x.rows)
      → Counted (appended c r d n p x).1
  appended-Counted n (true, s) x good bad = sym (good refl)
  appended-Counted n (false, s) x good bad = sym (bad refl)

  pub append-Counted :
      (fs : List Sample) (x : SqliteCache c r d) → Counted x → Counted (append c r d fs x).1
  unfolding append
  append-Counted [] x e = e
  append-Counted (f ∷ fs) x e =
      let rows = map (encode_row c r) (f ∷ fs) in
      appended-Counted (length (f ∷ fs)) (d.insert_all rows x.db) x
        (λ good. elim (g.insert_law rows x.db) [
          | inl (_, (new, same, table)) ↦
              let n =
                sym (length-map (λ y. y.1) new)
                ∙ ap length same
                ∙ length-map (encode_row c r) (f ∷ fs) in
              ap length table ∙ length-append (g.table x.db) new ∙ omega (arith, n)
          | inr (bad, table) ↦ cc
        ])
        (λ bad. elim (g.insert_law rows x.db) [
          | inl (good, more) ↦ cc
          | inr (_, table) ↦ ap length table ∙ sym e
        ])

  removed_some :
      (n : ℕ) (p : Option ℕ × d.State) (x : SqliteCache c r d)
      → p.0 ≡ some n
      → removed_rows c r d p x ≡ (ok tt, record x { db = p.1; rows = x.rows - n })
  removed_some n (some m, s) x e = ap (λ z. (ok tt, record x { db = s; rows = x.rows - z })) cc
  removed_some n (none, s) x e = cc

  removed_none :
      (p : Option ℕ × d.State) (x : SqliteCache c r d)
      → p.0 ≡ none
      → removed_rows c r d p x ≡ (cache_error, record x { db = p.1 })
  removed_none (some m, s) x e = cc
  removed_none (none, s) x e = refl

  -- Whatever becomes of the statement.
  pub remove-Counted :
      (cs : List (Cached Sample)) (x : SqliteCache c r d)
      → Counted x
      → Counted (remove c r d cs x).1
  unfolding remove
  remove-Counted [] x e = e
  remove-Counted (f ∷ fs) x e =
      let ids = map (λ y. y.id) (f ∷ fs) in
      elim (g.delete_law ids x.db) [
        | inl (gone, table) ↦
            rw (removed_some _ (d.delete_ids ids x.db) x gone, table)
              (omega (arith, e, length-without ids (g.table x.db)))
        | inr (bad, table) ↦ rw (removed_none (d.delete_ids ids x.db) x bad, table) e
      ]

  reset_opened-Counted :
      (p : Bool × d.State) (x : SqliteCache c r d)
      → (reset_opened c r d p x).0 ≡ ok tt
      → g.table p.1 ≡ []
      → Counted (reset_opened c r d p x).1 × (g.table (reset_opened c r d p x).1.db ≡ [])
  reset_opened-Counted (true, s) x e t = (sym (ap length t), t)
  reset_opened-Counted (false, s) x e t = cc

  reset_unlinked-Counted :
      (p : Bool × d.State) (x : SqliteCache c r d)
      → (reset_unlinked c r d p x).0 ≡ ok tt
      → (p.0 ≡ true → g.table p.1 ≡ [])
      → Counted (reset_unlinked c r d p x).1 × (g.table (reset_unlinked c r d p x).1.db ≡ [])
  reset_unlinked-Counted (true, s) x e t =
      reset_opened-Counted (d.reopen s) x e (g.reopened s ∙ t refl)
  reset_unlinked-Counted (false, s) x e t = cc

  reset_closed-Counted :
      (p : Bool × d.State) (x : SqliteCache c r d)
      → (reset_closed c r d p x).0 ≡ ok tt
      → Counted (reset_closed c r d p x).1 × (g.table (reset_closed c r d p x).1.db ≡ [])
  reset_closed-Counted (true, s) x e = reset_unlinked-Counted (d.unlink s) x e (g.unlinked s)
  reset_closed-Counted (false, s) x e = cc

  -- The tracked number of rows stays the number of rows, whether a statement works or fails: after
  -- appending any frames, and after removing any. A reset that works leaves no row, and counts none.
  pub operations-Counted :
      (fs : List Sample) (cs : List (Cached Sample)) (x : SqliteCache c r d)
      → x.rows ≡ length (g.table x.db)
      → ((append c r d fs x).1.rows ≡ length (g.table (append c r d fs x).1.db))
        × ((remove c r d cs x).1.rows ≡ length (g.table (remove c r d cs x).1.db))
        × (((reset c r d x).0 ≡ cache_error)
            ⊎ ((reset c r d x).1.rows ≡ 0) × (g.table (reset c r d x).1.db ≡ []))
  unfolding reset
  operations-Counted fs cs x e =
      (append-Counted fs x e, remove-Counted cs x e, after_reset (reset c r d x).0 refl)
    where
      after_reset :
          (z : CacheResult (Unit {0}))
          → (reset c r d x).0 ≡ z
          → ((reset c r d x).0 ≡ cache_error)
            ⊎ ((reset c r d x).1.rows ≡ 0) × (g.table (reset c r d x).1.db ≡ [])
      after_reset cache_error q = inl q
      after_reset (ok tt) q =
          let (counted, empty) = reset_closed-Counted (d.disconnect x.db) x q in
          inr (counted ∙ ap length empty, empty)

  keys-decode_all :
      (n : ℕ) (t : List (ℕ × Row r.Real)) (cs : List (Cached Sample))
      → decode_all c r d t ≡ some cs
      → map (λ y. y.id) (take n cs) ≡ keys (take n t)
  keys-decode_all zero t cs e = refl
  keys-decode_all (suc n) [] cs e =
      let z : [] ≡ cs = cc in ap (λ zs. map (λ y. y.id) (take (suc n) zs)) (sym z)
  keys-decode_all (suc n) (x ∷ xs) cs e =
      let (s, others, o, rest, all) =
        cons_inv c r g x.0 (decode_row c r x.1) (decode_all c r d xs) cs e in
      rw all (ap (λ zs. x.0 ∷ zs) (keys-decode_all n xs others rest))

  remove-table :
      (batch : List (Cached Sample)) (x : SqliteCache c r d)
      → (remove c r d batch x).0 ≢ cache_error
      → g.table (remove c r d batch x).1.db ≡ without (map (λ y. y.id) batch) (g.table x.db)
  unfolding remove
  remove-table [] x works = sym (without-nil (g.table x.db))
  remove-table (f ∷ fs) x works =
      let ids = map (λ y. y.id) (f ∷ fs) in
      elim (g.delete_law ids x.db) [
        | inl (gone, table) ↦ rw (removed_some _ (d.delete_ids ids x.db) x gone) table
        | inr (bad, table) ↦
            absurd (works (ap (λ y. y.0) (removed_none (d.delete_ids ids x.db) x bad)))
      ]

  -- Removing what `oldest` read, where that works, leaves just the frames behind it, in their order.
  pub remove-oldest :
      (n : ℕ) (x : SqliteCache c r d) (cs : List (Cached Sample))
      → contents c r g x ≡ some cs
      → (remove c r d (take n cs) x).0 ≢ cache_error
      → contents c r g (remove c r d (take n cs) x).1 ≡ some (drop n cs)
  remove-oldest n x cs e works =
      let table = g.table x.db in
      let left : g.table (remove c r d (take n cs) x).1.db ≡ drop n table =
        remove-table (take n cs) x works
        ∙ ap (λ ids. without ids table) (keys-decode_all n table cs e)
        ∙ without-take n table (g.distinct x.db) in
      rw left (decode_all-drop c r g n table cs e)

-- ===== src/Cache/Contents.antt =====
-- crates/wiretap-server/src/cache.rs: the cache is a queue of the frames that it was given.
use wire_tap_server.Prelude.{
  ℕ, zero, suc, ◌+◌, ◌≡◌, ◌≢◌, refl, sym, ap, ◌∙◌, inl, inr, Bool, true, false, List, [], ◌∷◌, ◌++◌,
  map, append-nil, Option, none, some, length, take, drop, All, map-append, take-map,
}
use wire_tap_server.Model.{Sample}
use wire_tap_server.Archive.Interface.{ok, cache_error, Cached, samples}
use wire_tap_server.Wire.Library.{CanLibrary, CanLaws}
use wire_tap_server.Cache.Rows.{RowLibrary, RowLaws, Row, encode_row, decode_row}
use wire_tap_server.Cache.RowsBack.{Storable, decode_row-encode_row}
use wire_tap_server.Cache.Store.{
  Database, DatabaseLaws, SqliteCache, append, appended, oldest, decode_all, cons_decoded,
}

module _ (c : CanLibrary) (r : RowLibrary) {d : Database (Row r.Real)} (g : DatabaseLaws d) where
  -- The frames in a cache, the oldest first, where each can be read.
  abbrev pub contents : SqliteCache c r d → Option (List (Cached Sample))
  contents x = decode_all c r d (g.table x.db)

  pub cons_inv :
      (id : ℕ) (o : Option Sample) (rest : Option (List (Cached Sample)))
      (cs : List (Cached Sample))
      → cons_decoded c r d id o rest ≡ some cs
      → (s : Sample) × (others : List (Cached Sample)) × (o ≡ some s)
        × (rest ≡ some others)
        × (cs ≡ record { id = id; sample = s } ∷ others)
  cons_inv id (some s) (some others) cs e = (s, others, refl, refl, cc)
  cons_inv id (some s) none cs e = cc
  cons_inv id none rest cs e = cc

  decode_all-append :
      (xs ys : List (ℕ × Row r.Real)) (cs ds : List (Cached Sample))
      → decode_all c r d xs ≡ some cs
      → decode_all c r d ys ≡ some ds
      → decode_all c r d (xs ++ ys) ≡ some (cs ++ ds)
  decode_all-append [] ys cs ds e f = let z : [] ≡ cs = cc in f ∙ ap (λ zs. some (zs ++ ds)) z
  decode_all-append (x ∷ xs) ys cs ds e f =
      let (s, others, o, rest, all) =
        cons_inv x.0 (decode_row c r x.1) (decode_all c r d xs) cs e in
      rw (o, decode_all-append xs ys others ds rest f, all) refl

  decode_all-take :
      (n : ℕ) (xs : List (ℕ × Row r.Real)) (cs : List (Cached Sample))
      → decode_all c r d xs ≡ some cs
      → decode_all c r d (take n xs) ≡ some (take n cs)
  decode_all-take zero xs cs e = refl
  decode_all-take (suc n) [] cs e = let z : [] ≡ cs = cc in ap (λ zs. some (take (suc n) zs)) z
  decode_all-take (suc n) (x ∷ xs) cs e =
      let (s, others, o, rest, all) =
        cons_inv x.0 (decode_row c r x.1) (decode_all c r d xs) cs e in
      rw (o, decode_all-take n xs others rest, all) refl

  pub decode_all-drop :
      (n : ℕ) (xs : List (ℕ × Row r.Real)) (cs : List (Cached Sample))
      → decode_all c r d xs ≡ some cs
      → decode_all c r d (drop n xs) ≡ some (drop n cs)
  decode_all-drop zero xs cs e = e
  decode_all-drop (suc n) [] cs e = let z : [] ≡ cs = cc in ap (λ zs. some (drop (suc n) zs)) z
  decode_all-drop (suc n) (x ∷ xs) cs e =
      let (s, others, o, rest, all) =
        cons_inv x.0 (decode_row c r x.1) (decode_all c r d xs) cs e in
      rw all (decode_all-drop n xs others rest)

module _ {c : CanLibrary} (l : CanLaws c) {r : RowLibrary} (k : RowLaws r)
    {d : Database (Row r.Real)} (g : DatabaseLaws d) where
  -- Rows that storable frames were written as.
  decode_all-encode :
      (new : List (ℕ × Row r.Real)) (fs : List Sample)
      → All Storable fs
      → map (λ x. x.1) new ≡ map (encode_row c r) fs
      → (ds : List (Cached Sample)) × (decode_all c r d new ≡ some ds) × (samples ds ≡ fs)
  decode_all-encode [] [] h e = ([], refl, refl)
  decode_all-encode [] (f ∷ fs) h e = cc
  decode_all-encode (x ∷ xs) [] h e = cc
  decode_all-encode (x ∷ xs) (f ∷ fs) (here, there) e =
      let first : x.1 ≡ encode_row c r f = cc in
      let others : map (λ x. x.1) xs ≡ map (encode_row c r) fs = cc in
      let (ds, all, same) = decode_all-encode xs fs there others in
      (
        record { id = x.0; sample = f } ∷ ds,
        rw (first, decode_row-encode_row l k f here, all) refl,
        ap (λ zs. f ∷ zs) same,
      )

  appended_ok :
      (n : ℕ) (p : Bool × d.State) (x : SqliteCache c r d)
      → p.0 ≡ true
      → appended c r d n p x ≡ (ok n, record x { db = p.1; rows = x.rows + n })
  appended_ok n (true, s) x e = refl
  appended_ok n (false, s) x e = cc

  appended_error :
      (n : ℕ) (p : Bool × d.State) (x : SqliteCache c r d)
      → p.0 ≡ false
      → appended c r d n p x ≡ (cache_error, record x { db = p.1 })
  appended_error n (true, s) x e = cc
  appended_error n (false, s) x e = refl

  -- What is appended goes behind what is there.
  pub append-contents :
      (fs : List Sample) (x : SqliteCache c r d) (cs : List (Cached Sample))
      → All Storable fs
      → contents c r g x ≡ some cs
      → (append c r d fs x).0 ≢ cache_error
      → (after : List (Cached Sample)) × (contents c r g (append c r d fs x).1 ≡ some after)
        × (samples after ≡ samples cs ++ fs)
  unfolding append
  append-contents [] x cs h e works = (cs, e, sym (append-nil (samples cs)))
  append-contents (f ∷ fs) x cs h e works =
      let all = f ∷ fs in
      elim (g.insert_law (map (encode_row c r) all) x.db) [
        | inl (good, (new, same, table)) ↦
            let (ds, read, are) = decode_all-encode new all h same in
            (
              cs ++ ds,
              rw
                  (
                    appended_ok (length all) (d.insert_all (map (encode_row c r) all) x.db) x good,
                    table,
                  )
                  (decode_all-append c r g (g.table x.db) new cs ds e read),
              map-append (λ y. y.sample) cs ds ∙ ap (λ zs. samples cs ++ zs) are,
            )
        | inr (bad, table) ↦ absurd (
            works (
              ap (λ y. y.0)
                (appended_error (length all) (d.insert_all (map (encode_row c r) all) x.db) x bad)))
      ]

  pub oldest-contents :
      (n : ℕ) (x : SqliteCache c r d) (cs : List (Cached Sample))
      → contents c r g x ≡ some cs
      → oldest c r d n x ≢ cache_error
      → oldest c r d n x ≡ ok (take n cs)
  unfolding oldest
  oldest-contents n x cs e works = elim (g.select_law n x.db) [
    | inl found ↦ rw (found, decode_all-take c r g n (g.table x.db) cs e) refl
    | inr failed ↦ absurd (works (rw failed refl))
  ]

  -- In a cache whose rows can all be read, frames that are appended come out behind those that were
  -- there, each as it went in: what `oldest` then reads is the front of the two together. Where
  -- neither call fails, and the frames are well-formed and dated from 1970 to 2105.
  pub oldest-append :
      (n : ℕ) (fs : List Sample) (x : SqliteCache c r d) (cs : List (Cached Sample))
      → All Storable fs
      → contents c r g x ≡ some cs
      → (append c r d fs x).0 ≢ cache_error
      → oldest c r d n (append c r d fs x).1 ≢ cache_error
      → (read : List (Cached Sample)) × (oldest c r d n (append c r d fs x).1 ≡ ok read)
        × (samples read ≡ take n (samples cs ++ fs))
  oldest-append n fs x cs h e works reads =
      let (after, all, are) = append-contents fs x cs h e works in
      (
        take n after,
        oldest-contents n (append c r d fs x).1 after all reads,
        sym (take-map (λ y. y.sample) n after) ∙ ap (take n) are,
      )

-- ===== src/Upload/Filling.antt =====
-- crates/wiretap-backend/src/archive.rs: `Reader::fill` and `Reader::take`, to what is yet to come.
use mathlib.Core.Path.{subst}
use wire_tap_server.Prelude.{
  ℕ, zero, suc, ◌+◌, ◌-◌, ◌≤◌, ◌<◌, ◌≡◌, refl, sym, ap, ◌∙◌, arith, Bool, true, false, List, [],
  ◌∷◌, ◌++◌, length, take, drop, length-append, append_assoc, ltb, ltb→lt, if◌then◌else◌,
  under_test,
}
use wire_tap_server.Upload.Reader.{
  Inflater, Reader, Read, fine, bad, fetched, take_decoded, filled, fill_after, fill_loop, rounds,
  fill, take_after, take_loop, take_bytes,
}
use wire_tap_server.Upload.Coming.{InflaterLaws, Good, going, over, Fetched, heads}
use wire_tap_server.Upload.Fetching.{fetched-Fetched}

front :
    (bytes w d p : List ℕ)
    → d ++ p ≡ bytes ++ w
    → length bytes ≤ length d
    → (take (length bytes) d ≡ bytes) × (drop (length bytes) d ++ p ≡ w)
front [] w d p e le = (refl, e)
front (b ∷ bytes) w [] p e le = absurd (omega arith)
front (b ∷ bytes) w (a ∷ d) p e le =
    let (same, rest) = heads a b (d ++ p) (bytes ++ w) e in
    let (got, left) = front bytes w d p rest (omega arith) in
    (ap (λ x. x ∷ take (length bytes) d) same ∙ ap (λ x. b ∷ x) got, left)

module _ {gz : Inflater} (l : InflaterLaws gz) where
  -- What a fill comes to: a byte more at least, or nothing that was to come.
  abbrev pub Filled : List ℕ → Reader gz → Read (Bool × Reader gz) → Type 0
  Filled p r bad = ⊥
  Filled p r (fine (false, r')) = p ≡ []
  Filled p r (fine (true, r')) =
      (p' : List ℕ) × (r.decoded ++ p ≡ r'.decoded ++ p')
      × Good l p' r'
      × (length r.decoded < length r'.decoded)

  quiet_round :
      (p p' : List ℕ) (r r1 : Reader gz) (x : Read (Bool × Reader gz))
      → p ≡ p'
      → r1.decoded ≡ r.decoded
      → Filled p' r1 x
      → Filled p r x
  quiet_round p p' r r1 bad e d f = absurd f
  quiet_round p p' r r1 (fine (false, r')) e d f = e ∙ f
  quiet_round p p' r r1 (fine (true, r')) e d (q, whole, good, more) =
      let same : length r1.decoded ≡ length r.decoded = ap length d in
      (q, ap (λ x. x ++ p) (sym d) ∙ ap (λ x. r1.decoded ++ x) e ∙ whole, good, omega arith)

  put_aside :
      (p decoded : List ℕ) (r : Reader gz) → Good l p r → Good l p (record r { decoded = decoded })
  put_aside p decoded r (over e none_left) = over e none_left
  put_aside p decoded r (going z c) = going z (record {
    complete = c.complete;
    short = c.short;
    early = c.early;
    sent = c.sent;
    reads = c.reads;
    quiet = c.quiet;
    live = c.live;
  })

  round-Filled :
      (fuel : ℕ) (p : List ℕ) (r : Reader gz) (x : Read (Reader gz))
      (next : Reader gz → Read (Bool × Reader gz))
      → rounds gz r < suc fuel
      → ((q : List ℕ) (r' : Reader gz) → Good l q r' → rounds gz r' < fuel → Filled q r' (next r'))
      → Fetched l p r x
      → Filled p r (fill_after gz x next)
  round-Filled fuel p r bad next enough on f = absurd f
  round-Filled fuel p r (fine r1) next enough on (p', comes, good, same, fewer) = by_out r1.out refl
    where
      by_out : (out : List ℕ) → r1.out ≡ out → Filled p r (filled gz (take_decoded gz out r1) next)
      by_out [] e =
          quiet_round p p' r (record r1 { out = [] }) (next (record r1 { out = [] }))
            (comes ∙ ap (λ o. o ++ p') e) same (on p' (record r1 { out = [] }) good (omega arith))
      by_out (b ∷ bs) e =
          let decoded : List ℕ = r1.decoded ++ (b ∷ bs) in
          let before : length r1.decoded ≡ length r.decoded = ap length same in
          let longer : length decoded ≡ length r1.decoded + suc (length bs) =
            length-append r1.decoded (b ∷ bs) in
          (
            p',
            ap (λ x. x ++ p) (sym same)
                ∙ ap (λ x. r1.decoded ++ x) (comes ∙ ap (λ o. o ++ p') e)
                ∙ sym (append_assoc r1.decoded (b ∷ bs) p'),
            put_aside p' decoded (record r1 { out = [] }) good,
            omega arith,
          )

  fill_loop-Filled :
      (fuel : ℕ) (p : List ℕ) (r : Reader gz)
      → Good l p r
      → rounds gz r < fuel
      → Filled p r (fill_loop gz fuel r)
  unfolding fill_loop
  fill_loop-Filled zero p r good enough = absurd (omega arith)
  fill_loop-Filled (suc fuel) p r (over e none_left) enough =
      subst
        (λ b. Filled p r (
          if b
          then fine (false, r)
          else fill_after gz (fetched gz r.received r) (fill_loop gz fuel)))
        (sym e) none_left
  fill_loop-Filled (suc fuel) p r (going z c) enough =
      subst
        (λ b. Filled p r (
          if b
          then fine (false, r)
          else fill_after gz (fetched gz r.received r) (fill_loop gz fuel)))
        (sym c.live)
        (round-Filled fuel p r (fetched gz r.received r) (fill_loop gz fuel) enough
          (fill_loop-Filled fuel) (fetched-Fetched l z p r c))

  pub fill-Filled : (p : List ℕ) (r : Reader gz) → Good l p r → Filled p r (fill gz r)
  unfolding fill
  fill-Filled p r good = fill_loop-Filled (suc (rounds gz r)) p r good (omega arith)

  -- What is decoded and what is yet to be: `w`.
  abbrev pub Stream : List ℕ → Reader gz → Type 0
  Stream w r = (p : List ℕ) × Good l p r × (r.decoded ++ p ≡ w)

  -- These bytes came off, and `w` is left.
  abbrev pub Taken : List ℕ → List ℕ → Read (List ℕ × Reader gz) → Type 0
  Taken bytes w bad = ⊥
  Taken bytes w (fine (got, r)) = (got ≡ bytes) × Stream w r

  cut-Taken :
      (bytes w p : List ℕ) (r : Reader gz)
      → Good l p r
      → r.decoded ++ p ≡ bytes ++ w
      → length bytes ≤ length r.decoded
      → Taken bytes w (
          fine
            (take (length bytes) r.decoded, record r { decoded = drop (length bytes) r.decoded }))
  cut-Taken bytes w p r good e enough =
      let (got, left) = front bytes w r.decoded p e enough in
      (got, (p, put_aside p (drop (length bytes) r.decoded) r good, left))

  take_loop-Taken :
      (fuel : ℕ) (bytes w p : List ℕ) (r : Reader gz)
      → Good l p r
      → r.decoded ++ p ≡ bytes ++ w
      → length bytes - length r.decoded < fuel
      → Taken bytes w (take_loop gz fuel (length bytes) r)
  unfolding take_loop
  take_loop-Taken zero bytes w p r good e enough = absurd (omega arith)
  take_loop-Taken (suc fuel) bytes w p r good e enough =
      under_test (Taken bytes w) (ltb (length r.decoded) (length bytes))
        (take_after gz (fill gz r) (take_loop gz fuel (length bytes)))
        (fine (take (length bytes) r.decoded, record r { decoded = drop (length bytes) r.decoded }))
        (λ t.
          by_fill (ltb→lt (length r.decoded) (length bytes) t) (take_loop gz fuel (length bytes))
            (take_loop-Taken fuel bytes w) (fill gz r) (fill-Filled p r good))
        (λ t. cut-Taken bytes w p r good e (ground arith))
    where
      by_fill :
          length r.decoded < length bytes
          → (next : Reader gz → Read (List ℕ × Reader gz))
          → ((p' : List ℕ) (r' : Reader gz)
              → Good l p' r'
              → r'.decoded ++ p' ≡ bytes ++ w
              → length bytes - length r'.decoded < fuel
              → Taken bytes w (next r'))
          → (x : Read (Bool × Reader gz)) → Filled p r x
          → Taken bytes w (take_after gz x next)
      by_fill few next on bad f = absurd f
      by_fill few next on (fine (false, r')) f =
          let whole : length (r.decoded ++ p) ≡ length (bytes ++ w) = ap length e in
          let left : length (r.decoded ++ p) ≡ length r.decoded + length p =
            length-append r.decoded p in
          let right : length (bytes ++ w) ≡ length bytes + length w = length-append bytes w in
          let gone : length p ≡ 0 = ap length f in absurd (omega arith)
      by_fill few next on (fine (true, r')) (p', whole, good', more) =
          on p' r' good' (sym whole ∙ e) (omega arith)

  pub take_bytes-Taken :
      (bytes w : List ℕ) (r : Reader gz)
      → Stream (bytes ++ w) r
      → Taken bytes w (take_bytes gz (length bytes) r)
  unfolding take_bytes
  take_bytes-Taken bytes w r (p, good, e) =
      take_loop-Taken (suc (length bytes)) bytes w p r good e (omega arith)

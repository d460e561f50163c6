-- ===== src/Gvret/Drained.antt =====
-- crates/wiretap-server/src/gvret.rs: what a drain writes, against the frames that it took.
use wire_tap_server.Prelude.{
  ℕ, ◌+◌, ◌≤◌, ◌<◌, ◌≡◌, refl, sym, ap, ◌∙◌, ◌⊎◌, inl, inr, arith, Bool, true, false, List, [], ◌∷◌,
  ◌++◌, length, length-append, append-nil, append_assoc, ltb, ltb→lt, Option, none, some,
  under_test,
}
use wire_tap_server.Model.{can_sample, modbus_sample, serial_sample}
use wire_tap_server.Gvret.Client.{
  Codec, write_coalesce, Item, sample_in, lagged_by, Drain, waiting, gone, ready, encode,
  unless_remote, encode_can, item_bytes, item_lag, drain_loop, drain,
}

-- The most that a frame is encoded in.
pub record CodecLaws (codec : Codec) : Type 0 where
  pub max_frame_bytes : ℕ
  pub frame_fits :
      (ts id bus : ℕ) (extended fd : Bool) (payload : List ℕ)
      → length (codec.encode_frame ts id extended bus payload fd) ≤ max_frame_bytes

module _ (codec : Codec) where
  -- The encodings of what a drain took, in order, and the frames that were dropped between.
  abbrev pub all_bytes : ℕ → Bool → List Item → List ℕ
  all_bytes t0 binary [] = []
  all_bytes t0 binary (i ∷ rest) = item_bytes codec t0 binary i ++ all_bytes t0 binary rest

  abbrev pub all_lag : List Item → ℕ
  all_lag [] = 0
  all_lag (i ∷ rest) = item_lag codec i + all_lag rest

module _ {codec : Codec} (l : CodecLaws codec) where
  item-fits :
      (t0 : ℕ) (binary : Bool) (i : Item)
      → length (item_bytes codec t0 binary i) ≤ l.max_frame_bytes
  unfolding encode_can encode
  item-fits t0 true (sample_in now (can_sample c)) = remote c.rtr
    where
      remote :
          (r : Option ℕ)
          → length (unless_remote codec r (encode codec t0 now c)) ≤ l.max_frame_bytes
      remote none = l.frame_fits _ _ _ _ _ _
      remote (some dlc) = omega arith
  item-fits t0 true (sample_in now (modbus_sample m)) = omega arith
  item-fits t0 true (sample_in now (serial_sample s)) = omega arith
  item-fits t0 false (sample_in now s) = omega arith
  item-fits t0 true (lagged_by n) = omega arith
  item-fits t0 false (lagged_by n) = omega arith

  -- A drain of `items` onto `out0` that leaves `r`: some took their turn, and what is left waits
  -- only for room.
  abbrev pub Took : ℕ → Bool → Bool → List Item → List ℕ → ℕ → Drain → Type 0
  Took t0 binary closed items out0 lag0 waiting = ⊥
  Took t0 binary closed items out0 lag0 gone = ⊥
  Took t0 binary closed items out0 lag0 (ready lagged out r) =
      (taken : List Item) × (items ≡ taken ++ r.items)
      × (out ≡ out0 ++ all_bytes codec t0 binary taken)
      × (lagged ≡ lag0 + all_lag codec taken)
      × (length out < write_coalesce + l.max_frame_bytes)
      × ((r.items ≡ []) ⊎ (write_coalesce ≤ length out))
      × (r.closed ≡ closed)

  Took-more :
      (t0 : ℕ) (binary closed : Bool) (i : Item) (rest : List Item) (out0 : List ℕ) (lag0 : ℕ)
      (d : Drain)
      → Took t0 binary closed rest
          (out0 ++ item_bytes codec t0 binary i)
          (lag0 + item_lag codec i)
          d
      → Took t0 binary closed (i ∷ rest) out0 lag0 d
  Took-more t0 binary closed i rest out0 lag0 waiting h = h
  Took-more t0 binary closed i rest out0 lag0 gone h = h
  Took-more t0 binary closed i rest out0 lag0 (ready lagged out r) (taken, e, o, g, small, why, c) =
      (
        i ∷ taken,
        ap (λ xs. i ∷ xs) e,
        o ∙ append_assoc out0 (item_bytes codec t0 binary i) (all_bytes codec t0 binary taken),
        omega arith,
        small,
        why,
        c,
      )

  loop-Took :
      (t0 : ℕ) (binary closed : Bool) (items : List Item) (out : List ℕ) (lagged : ℕ)
      → length out < write_coalesce + l.max_frame_bytes
      → Took t0 binary closed items out lagged (drain_loop codec t0 binary closed items out lagged)
  unfolding drain_loop
  loop-Took t0 binary closed [] out lagged h =
      ([], refl, sym (append-nil out), omega arith, h, inl refl, refl)
  loop-Took t0 binary closed (i ∷ rest) out lagged h =
      under_test (Took t0 binary closed (i ∷ rest) out lagged) (ltb (length out) write_coalesce) _ _
        (λ small. Took-more t0 binary closed i rest out lagged _ (
          loop-Took t0 binary closed rest (out ++ item_bytes codec t0 binary i)
            (lagged + item_lag codec i) (grown i out small)))
        (λ big.
          ([], refl, sym (append-nil out), omega arith, h, inr (enough (length out) big), refl))
    where
      grown :
          (i : Item) (out : List ℕ)
          → ltb (length out) write_coalesce ≡ true
          → length (out ++ item_bytes codec t0 binary i) < write_coalesce + l.max_frame_bytes
      grown i out small =
          let fits = item-fits t0 binary i in
          let both = length-append out (item_bytes codec t0 binary i) in
          let less = ltb→lt (length out) write_coalesce small in omega arith

      enough : (n : ℕ) → ltb n write_coalesce ≡ false → write_coalesce ≤ n
      enough n e = ground arith

  -- A receiver that has something gives it up to a drain: the bytes to write are the encodings of the frames that were taken, in order and each once, with those that were dropped between counted; they fit the buffer; and what is left waits only because the buffer is full.
  pub drain-Took :
      (t0 : ℕ) (binary : Bool) (i : Item) (rest : List Item) (closed : Bool)
      → Took t0 binary closed
          (i ∷ rest)
          []
          0
          (drain codec t0 binary (record { items = i ∷ rest; closed = closed }) [])
  unfolding drain
  drain-Took t0 binary i rest closed = Took-more t0 binary closed i rest [] 0 _ (
      loop-Took t0 binary closed rest (item_bytes codec t0 binary i) (0 + item_lag codec i)
        (first (item-fits t0 binary i)))
    where
      first :
          length (item_bytes codec t0 binary i) ≤ l.max_frame_bytes
          → length (item_bytes codec t0 binary i) < write_coalesce + l.max_frame_bytes
      first h = omega arith

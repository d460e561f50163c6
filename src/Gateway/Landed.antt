-- ===== src/Gateway/Landed.antt =====
-- crates/wiretap-backend/src/ingest/writer.rs: a batch is added whole, or not at all.
use wire_tap_server.Prelude.{
  ◌≡◌, refl, sym, ◌∙◌, ap, inl, Bool, true, false, List, none, some, all, if◌then◌else◌,
}
use wire_tap_server.Gateway.Postgres.{
  Postgres, PostgresLaws, Tables, Answer, worked, broke, capture_frame, Copied,
}
use wire_tap_server.Gateway.Writer.{
  Written, buffered, live, after, decide, copy_into, buffer_in, buffer_begun, buffer_checked,
  buffer_rows, copy_text, copy_checked, copy_rows, datetime_field_overflow,
}
use wire_tap_server.Gateway.Effects.{Does, Leaves, and_then, weaken, concluded-Leaves}
use wire_tap_server.Gateway.Buffer.{Added, decide-Asked, copy_into-Added}

module _ {R : Type 0} where
  -- Where `rows` went; a batch that is held goes to the buffer.
  abbrev pub Landed : Bool → List R → Tables R → Written → Tables R → Type 0
  Landed held rows x w y = Added rows x w y × (held ≡ true → w ≡ buffered)

module _ {R : Type 0} {pg : Postgres R} (l : PostgresLaws pg) where
  placed :
      (held current : Bool) (rows : List R) (x v : Tables R) (t : pg.Tx)
      → l.before t ≡ x
      → l.view t ≡ v
      → (held ≡ true → current ≡ false)
      → Does l x (Landed held rows v) (copy_into pg current rows t)
  placed held current rows x v t e s h =
      weaken l x (λ w y. Added rows v w y × (w ≡ (if current then live else buffered)))
        (Landed held rows v) (copy_into pg current rows t)
        (λ w y p. (p.0, λ held_so. p.1 ∙ ap (λ b. if b then live else buffered) (h held_so)))
        (copy_into-Added l current rows x v t e s)

  buffer_in-Landed :
      (held : Bool) (rows : List R) (t : pg.Tx)
      → l.before t ≡ l.view t
      → Does l (l.before t) (Landed held rows (l.before t)) (buffer_in pg held rows t)
  unfolding buffer_in
  buffer_in-Landed held rows t fresh =
      and_then l (l.before t) (λ b y. y ≡ l.view t) (Landed held rows (l.before t)) t _ _ refl
        (l.shared_law t) (λ locked t' e s. under locked t' e (s ∙ sym fresh))
    where
      under :
          (locked : Bool) (t' : pg.Tx)
          → l.before t' ≡ l.before t
          → l.view t' ≡ l.before t
          → Does l (l.before t) (Landed held rows (l.before t)) (
              if locked
              then after (decide pg held t') (λ current t. copy_into pg current rows t)
              else (broke none, t'))
      under false t' e s = e
      under true t' e s =
          and_then l (l.before t) (λ b y. (y ≡ l.view t') × (held ≡ true → b ≡ false))
            (Landed held rows (l.before t)) t' _ _ e (decide-Asked l held t')
            (λ b t'' e' p. placed held b rows (l.before t) (l.before t) t'' e' (p.0 ∙ s) p.1)

  begun :
      (held : Bool) (rows : List R) (x : Tables R) (r : Answer pg.Tx × pg.Db)
      → l.tables r.1 ≡ x
      → ((t : pg.Tx) → r.0 ≡ worked t → (l.before t ≡ x) × (l.view t ≡ x))
      → Leaves l x (Landed held rows x) (buffer_begun pg held rows r)
  begun held rows x (broke code, d) e f = inl e
  begun held rows x (worked t, d) e f =
      let (b, v) = f t refl in
      concluded-Leaves l x (Landed held rows x) (buffer_in pg held rows t)
        (rw (sym b) (buffer_in-Landed held rows t (b ∙ sym v)))

  checked :
      (in_range : R → Bool) (held b : Bool) (rows : List R) (d : pg.Db)
      → Leaves l (l.tables d) (Landed held rows (l.tables d)) (
          buffer_checked in_range pg held
            (if b then worked rows else broke (some datetime_field_overflow))
            d)
  checked in_range held false rows d = inl refl
  checked in_range held true rows d =
      begun held rows (l.tables d) (pg.begin d) (l.begin_law d).0 (l.begin_law d).1

  -- A batch that is buffered is added whole to the buffer, or to `capture_frame` where the answer is `live`, and to nothing else; one that is held for an import goes to the buffer; and one that fails is added whole or not at all.
  pub buffer_rows-Landed :
      (in_range : R → Bool) (rows : List R) (held : Bool) (d : pg.Db)
      → Leaves l (l.tables d) (Landed held rows (l.tables d)) (buffer_rows in_range pg rows held d)
  unfolding buffer_rows copy_text
  buffer_rows-Landed in_range rows held d = checked in_range held (all in_range rows) rows d

  copied :
      (in_range : R → Bool) (b : Bool) (rows : List R) (d : pg.Db)
      → Leaves l
          (l.tables d)
          (λ u y. Copied capture_frame rows (l.tables d) y)
          (copy_checked in_range pg
            (if b then worked rows else broke (some datetime_field_overflow))
            d)
  copied in_range false rows d = inl refl
  copied in_range true rows d = l.copy_live_law rows d

  pub copy_rows-Copied :
      (in_range : R → Bool) (rows : List R) (d : pg.Db)
      → Leaves l
          (l.tables d)
          (λ u y. Copied capture_frame rows (l.tables d) y)
          (copy_rows in_range pg rows d)
  unfolding copy_rows copy_text
  copy_rows-Copied in_range rows d = copied in_range (all in_range rows) rows d

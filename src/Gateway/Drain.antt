-- ===== src/Gateway/Drain.antt =====
-- crates/wiretap-backend/src/ingest/writer.rs: the buffer's rows move to `capture_frame`, each once.
use mathlib.Core.List.{Perm}
use wire_tap_server.Prelude.{
  ℕ, ◌≡◌, refl, sym, ◌∙◌, ap, ◌⊎◌, inl, inr, Bool, true, false, List, Option, none, some, length,
  append-nil, is_some,
}
use wire_tap_server.Gateway.Postgres.{
  Postgres, PostgresLaws, Tables, Answer, worked, broke, capture_frame, rows_in, stored, Copied,
}
use wire_tap_server.Gateway.Writer.{drain_in, drain_locked, drain_begun, drain_found, drain_pending}
use wire_tap_server.Gateway.Effects.{Does, Leaves, and_then, weaken, concluded-Leaves}

-- What a drain finds: the others' transactions come before its own where it waits for the lock.
abbrev pub start : {D : Type 0} → (D → D) → Answer Bool × D → D
start others (broke code, d) = d
start others (worked false, d) = d
start others (worked true, d) = others d

module _ {R : Type 0} where
  -- A drain of `x` that leaves `y`, and moves `n` rows.
  abbrev pub Drained : Tables R → ℕ → Tables R → Type 0
  Drained x n y = (n ≡ length (rows_in x.pending)) × Perm y.live (stored x) × (y.pending ≡ none)

  pub Drained-stored :
      (x : Tables R) (n : ℕ) (y : Tables R) → Drained x n y → Perm (stored y) (stored x)
  Drained-stored x n y (_, p, e) = rw (e, append-nil y.live) p

  -- What a drain comes to: it leaves everything as it is where there is no buffer.
  abbrev pub Emptied : Tables R → ℕ → Tables R → Type 0
  Emptied x n y = ((n ≡ 0) × (x.pending ≡ none) × (y ≡ x)) ⊎ Drained x n y

module _ {R : Type 0} {pg : Postgres R} (l : PostgresLaws pg) where
  abbrev Spanned : Tables R → Tables R → Type 0
  Spanned v y = y ≡ record v { drained = true }

  moved_once :
      (v v1 v2 y : Tables R) (n : ℕ)
      → Spanned v v1
      → n ≡ length (rows_in v1.pending)
      → Copied capture_frame (rows_in v1.pending) v1 v2
      → y ≡ record v2 { pending = none }
      → Drained v n y
  moved_once v v1 v2 y n e1 count (moved, _, _) e3 =
      let q : rows_in v1.pending ≡ rows_in v.pending = ap (λ z. rows_in z.pending) e1 in
      let w : v1.live ≡ v.live = ap (λ z. z.live) e1 in
      (count ∙ ap length q, rw (ap (λ z. z.live) e3, sym w, sym q) moved, ap (λ z. z.pending) e3)

  drain_in-Drained :
      (t : pg.Tx) → Does l (l.before t) (λ n y. Drained (l.view t) n y) (drain_in pg t)
  unfolding drain_in
  drain_in-Drained t =
      and_then l (l.before t) (λ b y. Spanned (l.view t) y) (Drained (l.view t)) t _ _ refl
        (l.span_law t)
        (λ b t1 e1 s1.
          and_then l (l.before t)
            (λ n y.
              (n ≡ length (rows_in (l.view t1).pending))
              × Copied capture_frame (rows_in (l.view t1).pending) (l.view t1) y)
            (Drained (l.view t)) t1 _ _ e1 (l.insert_law t1)
            (λ n t2 e2 (count, moved).
              and_then l (l.before t) (λ b y. y ≡ record (l.view t2) { pending = none })
                (Drained (l.view t)) t2 _ _ e2 (l.drop_law t2)
                (λ b t3 e3 s3. (
                  e3,
                  moved_once (l.view t) (l.view t1) (l.view t2) (l.view t3) n s1 count moved s3,
                ))))

  none_there : (o : Option (List R)) → false ≡ is_some o → o ≡ none
  none_there none e = refl
  none_there (some rs) e = absurd cc

  drained_from :
      (x v : Tables R) (t : pg.Tx)
      → l.before t ≡ x
      → l.view t ≡ v
      → Does l x (Drained v) (drain_in pg t)
  drained_from x v t e s = rw (sym e, sym s) (drain_in-Drained t)

  locked-Emptied :
      (x : Tables R) (r : Answer Bool × pg.Tx)
      → Does l x (λ b y. (y ≡ x) × (b ≡ is_some x.pending)) r
      → Leaves l x (Emptied x) (drain_locked pg r)
  locked-Emptied x (broke code, t) e = inl (l.rollback_law t ∙ e)
  locked-Emptied x (worked false, t) (e, (v, b)) =
      inl (refl, none_there x.pending b, l.rollback_law t ∙ e)
  locked-Emptied x (worked true, t) (e, (v, b)) =
      concluded-Leaves l x (Emptied x) (drain_in pg t) (
        weaken l x (Drained x) (Emptied x) (drain_in pg t) (λ n y p. inr p)
          (drained_from x x t e v))

  asked :
      (x v : Tables R) (t : pg.Tx)
      → l.before t ≡ x
      → l.view t ≡ v
      → Does l x (λ c y. (y ≡ v) × (c ≡ is_some v.pending)) (pg.has_pending t)
  asked x v t e s = rw (sym e, sym s) (l.has_pending_law t)

  begun-Emptied :
      (x : Tables R) (r : Answer pg.Tx × pg.Db)
      → l.tables r.1 ≡ x
      → ((t : pg.Tx) → r.0 ≡ worked t → (l.before t ≡ x) × (l.view t ≡ x))
      → Leaves l x (Emptied x) (drain_begun pg r)
  begun-Emptied x (broke code, d) e f = inl e
  begun-Emptied x (worked t, d) e f =
      let (b, v) = f t refl in
      let P : Bool → Tables R → Type 0 = λ c y. (y ≡ x) × (c ≡ is_some x.pending) in
      locked-Emptied x _ (
        and_then l x (λ u y. y ≡ l.view t) P t _ _ b (l.exclusive_law t)
          (λ u t' e' s. asked x x t' e' (s ∙ v)))

  found-Emptied :
      (others : pg.Db → pg.Db) (r : Answer Bool × pg.Db)
      → ((b : Bool) → r.0 ≡ worked b → b ≡ is_some (l.tables r.1).pending)
      → let x = l.tables (start others r) in Leaves l x (Emptied x) (drain_found pg others r)
  found-Emptied others (broke code, d) f = inl refl
  found-Emptied others (worked false, d) f =
      inl (refl, none_there (l.tables d).pending (f false refl), refl)
  found-Emptied others (worked true, d) f =
      begun-Emptied (l.tables (others d)) (pg.begin (others d)) (l.begin_law (others d)).0
        (l.begin_law (others d)).1

  -- A drain that works moves every row of the buffer into `capture_frame`, once, counts them and drops the buffer, or finds no buffer under its lock and changes nothing; one that fails leaves everything as it was, or has moved them all.
  pub drain_pending-Emptied :
      (others : pg.Db → pg.Db) (d : pg.Db)
      → let x = l.tables (start others (pg.pending_now d)) in
        Leaves l x (Emptied x) (drain_pending pg others d)
  unfolding drain_pending
  drain_pending-Emptied others d =
      found-Emptied others (pg.pending_now d)
        (λ b e. l.pending_is d b e ∙ ap (λ z. is_some z.pending) (sym (l.pending_now_law d)))

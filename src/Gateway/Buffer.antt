-- ===== src/Gateway/Buffer.antt =====
-- crates/wiretap-backend/src/ingest/writer.rs: where a batch lands.
use mathlib.Core.List.{Perm, perm_append_comm}
use mathlib.Core.List.Perm
use wire_tap_server.Prelude.{
  ◌≡◌, refl, sym, ◌∙◌, ap, Bool, true, false, List, ◌++◌, Option, none, some, append_assoc, is_some,
  if◌then◌else◌,
}
use wire_tap_server.Gateway.Postgres.{
  Postgres, PostgresLaws, Tables, Answer, worked, capture_frame, capture_frame_pending, Fingerprint,
  rows_in, stored, Copied,
}
use wire_tap_server.Gateway.Writer.{
  Written, buffered, live, after, uncoded, detect_version, version_of, decide, ensure_pending,
  copy_into,
}
use wire_tap_server.Gateway.Effects.{Does, and_then, uncoded_lem}

module _ {R : Type 0} where
  -- The rows that a batch adds to what a database holds.
  abbrev pub Taken : List R → Tables R → Tables R → Type 0
  Taken rows x y = Perm (stored y) (stored x ++ rows)

  -- Where `rows` went.
  abbrev pub Added : List R → Tables R → Written → Tables R → Type 0
  Added rows x live y = Copied capture_frame rows x y
  Added rows x buffered y =
      (y.live ≡ x.live)
      × Perm (rows_in y.pending) (rows_in x.pending ++ rows)
      × (is_some y.pending ≡ true)
      × (y.drained ≡ x.drained)

  -- Rows between two lists, at the end of both.
  pub last_two : (xs ys zs : List R) → Perm ((xs ++ ys) ++ zs) ((xs ++ zs) ++ ys)
  last_two xs ys zs =
      rw (append_assoc xs ys zs, append_assoc xs zs ys)
        (Perm.append_left xs (perm_append_comm ys zs))

  pub Added-Taken :
      (rows : List R) (x : Tables R) (w : Written) (y : Tables R)
      → Added rows x w y
      → Taken rows x y
  Added-Taken rows x live y (p, e, _) = rw e (
      Perm.trans (Perm.append_right (rows_in x.pending) p)
        (last_two x.live rows (rows_in x.pending)))
  Added-Taken rows x buffered y (e, p, _, _) =
      rw (e, append_assoc x.live (rows_in x.pending) rows) (Perm.append_left x.live p)

module _ {R : Type 0} {pg : Postgres R} (l : PostgresLaws pg) where
  -- An answer that leaves the view as it was.
  abbrev pub Asked : {B : Type 0} → Tables R → Tables R → Answer B × pg.Tx → Type 0
  Asked {B} x v r = Does l {B = B} x (λ b y. y ≡ v) r

  detected :
      (x v : Tables R) (f : Fingerprint) (tracked : Bool) (t : pg.Tx)
      → l.before t ≡ x
      → l.view t ≡ v
      → Asked x v (
          if tracked
          then after (uncoded (pg.recorded_version t)) (λ v t. (worked (some v), t))
          else (worked (version_of f), t))
  detected x v f true t e s =
      and_then l x (λ b y. y ≡ l.view t) (λ b y. y ≡ v) t _ _ e
        (uncoded_lem l (l.before t) (λ b y. y ≡ l.view t) _ (l.version_law t))
        (λ b t' e' s'. (e', s' ∙ s))
  detected x v f false t e s = (e, s)

  detect_version-Asked :
      (t : pg.Tx)
      → Asked (l.before t) (l.view t) (detect_version pg.fingerprint pg.recorded_version t)
  unfolding detect_version
  detect_version-Asked t =
      and_then l (l.before t) (λ b y. y ≡ l.view t) (λ b y. y ≡ l.view t) t _ _ refl
        (uncoded_lem l (l.before t) (λ b y. y ≡ l.view t) (pg.fingerprint t) (l.fingerprint_law t))
        (λ f t' e s. detected (l.before t) (l.view t) f f.tracked t' e s)

  -- What is held goes to the buffer.
  pub decide-Asked :
      (held : Bool) (t : pg.Tx)
      → Does l (l.before t) (λ b y. (y ≡ l.view t) × (held ≡ true → b ≡ false)) (decide pg held t)
  unfolding decide
  decide-Asked true t = (refl, (refl, λ h. refl))
  decide-Asked false t =
      and_then l (l.before t) (λ b y. y ≡ l.view t)
        (λ b y. (y ≡ l.view t) × (false ≡ true → b ≡ false)) t _ _ refl
        (uncoded_lem l (l.before t) (λ b y. y ≡ l.view t) _ (detect_version-Asked t))
        (λ v t' e s. (e, (s, λ h. absurd cc)))

  abbrev Opened : Tables R → Tables R → Type 0
  Opened v y = y ≡ record v { pending = some (rows_in v.pending) }

  there_still : (o : Option (List R)) → is_some o ≡ true → o ≡ some (rows_in o)
  there_still none h = absurd cc
  there_still (some rs) h = refl

  reopened : (v : Tables R) → is_some v.pending ≡ true → Opened v v
  reopened v h = ap (λ o. record v { pending = o }) (there_still v.pending h)

  created :
      (x v : Tables R) (t : pg.Tx)
      → l.before t ≡ x
      → l.view t ≡ v
      → Does l x (λ b y. Opened v y) (pg.create_pending t)
  created x v t e s = rw (sym e, sym s) (l.create_law t)

  opened :
      (x v : Tables R) (there : Bool) (t : pg.Tx)
      → l.before t ≡ x
      → l.view t ≡ v
      → there ≡ is_some v.pending
      → Does l x
          (λ b y. Opened v y)
          (if there
            then (worked tt, t)
            else after (pg.lock_create t) (λ done t. pg.create_pending t))
  opened x v true t e s h = (e, s ∙ reopened v (sym h))
  opened x v false t e s h =
      and_then l x (λ b y. y ≡ l.view t) (λ b y. Opened v y) t _ _ e (l.lock_create_law t)
        (λ b t' e' s'. created x v t' e' (s' ∙ s))

  ensure_pending-Opened :
      (t : pg.Tx) → Does l (l.before t) (λ b y. Opened (l.view t) y) (ensure_pending pg t)
  unfolding ensure_pending
  ensure_pending-Opened t =
      and_then l (l.before t) (λ b y. (y ≡ l.view t) × (b ≡ is_some (l.view t).pending))
        (λ b y. Opened (l.view t) y) t _ _ refl
        (uncoded_lem l (l.before t) (λ b y. (y ≡ l.view t) × (b ≡ is_some (l.view t).pending))
          (pg.has_pending t) (l.has_pending_law t))
        (λ b t' e s. opened (l.before t) (l.view t) b t' e s.0 s.1)

  into_opened :
      (rows : List R) (v w y : Tables R)
      → Opened v w
      → Copied capture_frame_pending rows w y
      → Added rows v buffered y
  into_opened rows v w y e (a, b, c, d, f) = (
    a ∙ ap (λ z. z.live) e,
    rw (sym (ap (λ z. rows_in z.pending) e)) b,
    d,
    f ∙ ap (λ z. z.drained) e,
  )

  pub copy_into-Added :
      (current : Bool) (rows : List R) (x v : Tables R) (t : pg.Tx)
      → l.before t ≡ x
      → l.view t ≡ v
      → Does l x
          (λ w y. Added rows v w y × (w ≡ (if current then live else buffered)))
          (copy_into pg current rows t)
  copy_into-Added true rows x v t e s =
      and_then l x (λ b y. Copied capture_frame rows (l.view t) y)
        (λ w y. Added rows v w y × (w ≡ live)) t _ _ e (l.copy_law capture_frame rows t)
        (λ b t' e' c. (e', (rw (sym s) c, refl)))
  copy_into-Added false rows x v t e s =
      and_then l x (λ b y. Opened (l.view t) y) (λ w y. Added rows v w y × (w ≡ buffered)) t _ _ e
        (ensure_pending-Opened t)
        (λ b t' e' o.
          and_then l x (λ b y. Copied capture_frame_pending rows (l.view t') y)
            (λ w y. Added rows v w y × (w ≡ buffered)) t' _ _ e'
            (l.copy_law capture_frame_pending rows t')
            (λ b t'' e'' c.
              (e'', (into_opened rows v (l.view t') (l.view t'') (rw (sym s) o) c, refl))))

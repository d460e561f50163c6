-- ===== src/Gateway/Effects.antt =====
-- crates/wiretap-backend/src/ingest/writer.rs: what statements, one after another, and a
-- transaction leave.
use wire_tap_server.Prelude.{◌≡◌, ◌∙◌, ◌⊎◌, inl, inr, Option}
use wire_tap_server.Gateway.Postgres.{
  Postgres, PostgresLaws, Tables, Answer, worked, broke, Holds, Ends,
}
use wire_tap_server.Gateway.Writer.{after, uncoded, concluded, commit_with}

module _ {R : Type 0} {pg : Postgres R} (l : PostgresLaws pg) where
  -- What a transaction that began with `x` comes to.
  abbrev pub Does : {B : Type 0} → Tables R → (B → Tables R → Type 0) → Answer B × pg.Tx → Type 0
  Does x P r = Holds pg l.before l.view x P r

  abbrev pub Leaves : {B : Type 0} → Tables R → (B → Tables R → Type 0) → Answer B × pg.Db → Type 0
  Leaves x P r = Ends pg l.tables x P r

  pub uncoded_lem :
      {B : Type 0} (x : Tables R) (P : B → Tables R → Type 0) (r : Answer B × pg.Tx)
      → Does x P r
      → Does x P (uncoded r)
  uncoded_lem x P (worked b, t) h = h
  uncoded_lem x P (broke code, t) h = h

  -- A statement, and then what follows from the view that it leaves, in a transaction that began with `x`.
  pub and_then :
      {B C : Type 0} (x : Tables R) (P : B → Tables R → Type 0) (Q : C → Tables R → Type 0)
      (t : pg.Tx) (r : Answer B × pg.Tx) (k : B → pg.Tx → Answer C × pg.Tx)
      → l.before t ≡ x
      → Does (l.before t) P r
      → ((b : B) (t' : pg.Tx) → l.before t' ≡ x → P b (l.view t') → Does x Q (k b t'))
      → Does x Q (after r k)
  and_then x P Q t (worked b, t') k e (e', p) next = next b t' (e' ∙ e) p
  and_then x P Q t (broke code, t') k e e' next = e' ∙ e

  pub weaken :
      {B : Type 0} (x : Tables R) (P Q : B → Tables R → Type 0) (r : Answer B × pg.Tx)
      → ((b : B) (y : Tables R) → P b y → Q b y)
      → Does x P r
      → Does x Q r
  weaken x P Q (worked b, t) f (e, p) = (e, f b (l.view t) p)
  weaken x P Q (broke code, t) f e = e

  commit_with-Leaves :
      {B : Type 0} (x : Tables R) (P : B → Tables R → Type 0) (b : B) (t : pg.Tx)
      (r : Answer (Unit {0}) × pg.Db)
      → l.before t ≡ x
      → P b (l.view t)
      → (l.tables r.1 ≡ l.view t)
        ⊎ ((code : Option _) × (r.0 ≡ broke code)) × (l.tables r.1 ≡ l.before t)
      → Leaves x P (commit_with pg b r)
  commit_with-Leaves x P b t (worked u, d) e p (inl h) = rw h p
  commit_with-Leaves x P b t (worked u, d) e p (inr ((code, wrong), h)) = absurd cc
  commit_with-Leaves x P b t (broke code, d) e p (inl h) = inr (b, rw h p)
  commit_with-Leaves x P b t (broke code, d) e p (inr (why, h)) = inl (h ∙ e)

  pub concluded-Leaves :
      {B : Type 0} (x : Tables R) (P : B → Tables R → Type 0) (r : Answer B × pg.Tx)
      → Does x P r
      → Leaves x P (concluded pg r)
  concluded-Leaves x P (broke code, t) e = inl (l.rollback_law t ∙ e)
  concluded-Leaves x P (worked b, t) (e, p) =
      commit_with-Leaves x P b t (pg.commit t) e p (l.commit_law t)

-- ===== src/Upload/Copying.antt =====
-- crates/wiretap-backend/src/archive.rs: a table of `Reader::load`, and a copy of its chunks without a reader.
use mathlib.Core.Path.{subst}
use wire_tap_server.Prelude.{
  ℕ, zero, suc, ◌≤◌, ◌<◌, ◌≡◌, refl, sym, ap, arith, Bool, true, false, not, List, [], ◌∷◌, ◌++◌,
  Option, none, some, length, ◌==◌, if◌then◌else◌,
}
use wire_tap_server.Upload.Reader.{
  Inflater, Reader, Read, fine, bad, from_be_bytes, max_chunk, section,
}
use wire_tap_server.Upload.Coming.{InflaterLaws}
use wire_tap_server.Upload.Filling.{Stream}
use wire_tap_server.Upload.Sections.{Found, section-Found}
use wire_tap_server.Upload.Load.{
  Table, Copier, sent, send_section, send_loop, counted, finished, load_table,
}

-- A section of an archive: its length in four bytes, and itself.
abbrev pub Section : List ℕ → List ℕ → List ℕ → Type 0
Section bytes behind w =
    (size : List ℕ) × (length size ≡ 4)
    × (from_be_bytes size ≡ length bytes)
    × (length bytes ≤ max_chunk)
    × (w ≡ size ++ (bytes ++ behind))

-- Chunks, none of them empty, and an empty one, as sections.
abbrev pub Chunked : List (List ℕ) → List ℕ → List ℕ → Type 0
Chunked [] behind w = Section [] behind w
Chunked (c ∷ cs) behind w =
    (next : List ℕ) × (1 ≤ length c) × Section c next w × Chunked cs behind next

-- The chunks of every table, and no more.
abbrev pub Archived : List (List (List ℕ)) → List ℕ → Type 0
Archived [] w = w ≡ []
Archived (cs ∷ more) w = (next : List ℕ) × Chunked cs next w × Archived more next

module _ (pg : Copier) where
  abbrev pub after {ℓ} : {B : Type ℓ} → Option pg.Sink → (pg.Sink → Option B) → Option B
  after none next = none
  after (some s) next = next s

  abbrev pub send_all : List (List ℕ) → pg.Sink → Option pg.Sink
  send_all [] s = some s
  send_all (c ∷ cs) s = after (pg.send c s) (send_all cs)

  abbrev pub checked : ℕ → Option (ℕ × pg.Database) → Option pg.Database
  checked expected none = none
  checked expected (some (rows, d)) = if not (rows == expected) then none else some d

  abbrev pub copy_after : Option pg.Database → (pg.Database → Read pg.Database) → Read pg.Database
  copy_after none next = bad
  copy_after (some d) next = next d

  -- Each table's chunks sent to it, and as many rows as its manifest says; bad where one is refused.
  abbrev pub copy_all : List ℕ → List Table → List (List (List ℕ)) → pg.Database → Read pg.Database
  copy_all (n ∷ rows) (t ∷ ts) (cs ∷ more) d =
      copy_after (checked n (after (after (pg.copy_in t d) (send_all cs)) pg.finish))
        (copy_all rows ts more)
  copy_all rows ts more d = fine d

module _ {gz : Inflater} (l : InflaterLaws gz) (pg : Copier) where
  -- The same refusal, or the same result with `behind` left to read.
  abbrev pub Done : {A : Type 0} → List ℕ → Option A → Read (A × Reader gz) → Type 0
  Done behind none x = x ≡ bad
  Done behind (some a) x = (r : Reader gz) × (x ≡ fine (a, r)) × Stream l behind r

  found :
      (c behind w : List ℕ) (r : Reader gz)
      → Section c behind w
      → Stream l w r
      → Found l c behind (section gz max_chunk r)
  found c behind w r (size, four, sized, within, e) s =
      section-Found l max_chunk size c behind r four sized within (subst (λ x. Stream l x r) e s)

  send_loop-Done :
      (fuel : ℕ) (cs : List (List ℕ)) (behind w : List ℕ) (s : pg.Sink) (r : Reader gz)
      → length cs < fuel
      → Chunked cs behind w
      → Stream l w r
      → Done behind (send_all pg cs s) (send_loop gz pg fuel s r)
  unfolding send_loop
  send_loop-Done zero cs behind w s r enough c up = absurd (omega arith)
  send_loop-Done (suc fuel) [] behind w s r enough c up =
      let (r', e, up') = found [] behind w r c up in
      (r', ap (λ x. send_section gz pg x s (send_loop gz pg fuel)) e, up')
  send_loop-Done (suc fuel) ([] ∷ cs) behind w s r enough (next, held, c, more) up =
      absurd (omega arith)
  send_loop-Done (suc fuel) ((b ∷ bs) ∷ cs) behind w s r enough (next, held, c, more) up =
      let (r', e, up') = found (b ∷ bs) next w r c up in
      subst
        (λ x.
          Done behind (after pg (pg.send (b ∷ bs) s) (send_all pg cs))
            (send_section gz pg x s (send_loop gz pg fuel)))
        (sym e)
        (on (pg.send (b ∷ bs) s) r'
          (λ s1. send_loop-Done fuel cs behind next s1 r' (omega arith) more up'))
    where
      on :
          (o : Option pg.Sink) (r' : Reader gz)
          → ((s1 : pg.Sink) → Done behind (send_all pg cs s1) (send_loop gz pg fuel s1 r'))
          → Done behind
              (after pg o (send_all pg cs))
              (sent gz pg o (λ s'. send_loop gz pg fuel s' r'))
      on none r' rest = refl
      on (some s1) r' rest = rest s1

  branch-Done :
      (b : Bool) (behind : List ℕ) (d : pg.Database) (r : Reader gz)
      → Stream l behind r
      → Done behind (if not b then none else some d) (if not b then bad else fine (d, r))
  branch-Done true behind d r up = (r, refl, up)
  branch-Done false behind d r up = refl

  counted-Done :
      (n : ℕ) (o : Option (ℕ × pg.Database)) (behind : List ℕ) (r : Reader gz)
      → Stream l behind r
      → Done behind (checked pg n o) (counted gz pg n o r)
  counted-Done n none behind r up = refl
  counted-Done n (some (rows, d)) behind r up = branch-Done (rows == n) behind d r up

  finished-Done :
      (n : ℕ) (o : Option pg.Sink) (x : Read (pg.Sink × Reader gz)) (behind : List ℕ)
      → Done behind o x
      → Done behind (checked pg n (after pg o pg.finish)) (finished gz pg n x)
  finished-Done n none x behind e = ap (finished gz pg n) e
  finished-Done n (some s) x behind (r, e, up) =
      subst (λ y. Done behind (checked pg n (pg.finish s)) (finished gz pg n y)) (sym e)
        (counted-Done n (pg.finish s) behind r up)

  pub load_table-Done :
      (fuel n : ℕ) (o : Option pg.Sink) (cs : List (List ℕ)) (behind w : List ℕ) (r : Reader gz)
      → length cs < fuel
      → Chunked cs behind w
      → Stream l w r
      → Done behind
          (checked pg n (after pg (after pg o (send_all pg cs)) pg.finish))
          (load_table gz pg fuel n o r)
  load_table-Done fuel n none cs behind w r enough c up = refl
  load_table-Done fuel n (some s) cs behind w r enough c up =
      finished-Done n (send_all pg cs s) (send_loop gz pg fuel s r) behind
        (send_loop-Done fuel cs behind w s r enough c up)

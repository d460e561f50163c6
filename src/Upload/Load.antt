-- ===== src/Upload/Load.antt =====
-- crates/wiretap-backend/src/archive.rs: `Reader::load`, over an archive's tables.
use wire_tap_server.Prelude.{
  ℕ, zero, suc, Bool, true, false, not, List, [], ◌∷◌, Option, none, some, ◌==◌, if◌then◌else◌,
}
use wire_tap_server.Upload.Reader.{Inflater, Reader, Read, fine, bad, max_chunk, section, fill}

-- `TABLES`; the columns stand in the statement.
pub data Table : Type 0 where
  capture_frame : Table
  events : Table

abbrev pub tables : List Table
tables = capture_frame ∷ events ∷ []

-- `COPY … FROM STDIN`: PostgreSQL's, `none` being refused.
pub record Copier : Type 1 where
  pub Database : Type 0
  pub Sink : Type 0
  pub copy_in : Table → Database → Option Sink
  pub send : List ℕ → Sink → Option Sink
  pub finish : Sink → Option (ℕ × Database)

module _ (gz : Inflater) (pg : Copier) where
  abbrev pub sent :
      Option pg.Sink → (pg.Sink → Read (pg.Sink × Reader gz)) → Read (pg.Sink × Reader gz)
  sent none next = bad
  sent (some s) next = next s

  abbrev pub send_section :
      Read (List ℕ × Reader gz)
      → pg.Sink
      → (pg.Sink → Reader gz → Read (pg.Sink × Reader gz))
      → Read (pg.Sink × Reader gz)
  send_section bad s next = bad
  send_section (fine ([], r)) s next = fine (s, r)
  send_section (fine (b ∷ bs, r)) s next = sent (pg.send (b ∷ bs) s) (λ s'. next s' r)

  -- A table's chunks, up to an empty one; `bad` where the fuel runs out.
  unfoldable pub send_loop : ℕ → pg.Sink → Reader gz → Read (pg.Sink × Reader gz)
  send_loop zero s r = bad
  send_loop (suc fuel) s r = send_section (section gz max_chunk r) s (send_loop fuel)

  abbrev pub counted : ℕ → Option (ℕ × pg.Database) → Reader gz → Read (pg.Database × Reader gz)
  counted expected none r = bad
  counted expected (some (rows, d)) r = if not (rows == expected) then bad else fine (d, r)

  abbrev pub finished : ℕ → Read (pg.Sink × Reader gz) → Read (pg.Database × Reader gz)
  finished expected bad = bad
  finished expected (fine (s, r)) = counted expected (pg.finish s) r

  abbrev pub load_table : ℕ → ℕ → Option pg.Sink → Reader gz → Read (pg.Database × Reader gz)
  load_table fuel expected none r = bad
  load_table fuel expected (some s) r = finished expected (send_loop fuel s r)

  abbrev pub onward :
      Read (pg.Database × Reader gz)
      → (pg.Database → Reader gz → Read pg.Database)
      → Read pg.Database
  onward bad next = bad
  onward (fine (d, r)) next = next d r

  abbrev pub unless_more : pg.Database → Read (Bool × Reader gz) → Read pg.Database
  unless_more d bad = bad
  unless_more d (fine (true, r)) = bad
  unless_more d (fine (false, r)) = fine d

  abbrev pub at_end : List ℕ → pg.Database → Reader gz → Read pg.Database
  at_end [] d r = unless_more d (fill gz r)
  at_end (b ∷ bs) d r = bad

  -- `rows` are the manifest's, zipped with the tables.
  unfoldable pub load_tables : ℕ → List ℕ → List Table → pg.Database → Reader gz → Read pg.Database
  load_tables fuel (n ∷ rows) (t ∷ ts) d r =
      onward (load_table fuel n (pg.copy_in t d) r) (λ d' r'. load_tables fuel rows ts d' r')
  load_tables fuel rows ts d r = at_end r.decoded d r

  unfoldable pub load : ℕ → List ℕ → pg.Database → Reader gz → Read pg.Database
  load fuel rows d r = load_tables fuel rows tables d r

-- ===== src/Upload/Loaded.antt =====
-- crates/wiretap-backend/src/archive.rs: `Reader::load`, to a copy of each table's chunks.
use mathlib.Core.Path.{subst}
use wire_tap_server.Prelude.{
  ℕ, ◌+◌, ◌≤◌, ◌<◌, ◌≡◌, refl, sym, ap, ◌∙◌, arith, Bool, true, false, List, [], ◌∷◌, ◌++◌, Option,
  none, some, length, length-append, drop_all, All,
}
use wire_tap_server.Upload.Reader.{
  Inflater, Reader, Read, fine, bad, from_be_bytes, max_manifest, section, fill, new_reader,
}
use wire_tap_server.Upload.Coming.{InflaterLaws, head, joined, Sent}
use wire_tap_server.Upload.Filling.{Stream, Filled, fill-Filled}
use wire_tap_server.Upload.Sections.{section-Found, new_reader-Stream}
use wire_tap_server.Upload.Load.{
  Table, tables, Copier, load_table, onward, unless_more, at_end, load_tables, load,
}
use wire_tap_server.Upload.Copying.{
  Archived, after, send_all, checked, copy_after, copy_all, Done, load_table-Done,
}

module _ {gz : Inflater} (l : InflaterLaws gz) (pg : Copier) where
  at_end_lem :
      (d : pg.Database) (r : Reader gz) → Stream l [] r → at_end gz pg r.decoded d r ≡ fine d
  at_end_lem d r (p, good, e) =
      let whole : length (r.decoded ++ p) ≡ 0 = ap length e in
      let parts : length (r.decoded ++ p) ≡ length r.decoded + length p =
        length-append r.decoded p in
      subst (λ x. at_end gz pg x d r ≡ fine d) (sym (drop_all 0 r.decoded (omega arith)))
        (nothing_more (fill gz r) (fill-Filled l p r good))
    where
      nothing_more : (x : Read (Bool × Reader gz)) → Filled l p r x → unless_more gz pg d x ≡ fine d
      nothing_more bad f = absurd f
      nothing_more (fine (false, r')) f = refl
      nothing_more (fine (true, r')) (p', same, good', more) =
          let none_left : length (r'.decoded ++ p') ≡ 0 = ap length (sym same ∙ e) in
          let parts : length (r'.decoded ++ p') ≡ length r'.decoded + length p' =
            length-append r'.decoded p' in
          absurd (omega arith)

  onward_lem :
      (o : Option pg.Database) (x : Read (pg.Database × Reader gz)) (behind : List ℕ)
      (f : pg.Database → Reader gz → Read pg.Database) (g : pg.Database → Read pg.Database)
      → Done l pg behind o x
      → ((d : pg.Database) (r : Reader gz) → Stream l behind r → f d r ≡ g d)
      → onward gz pg x f ≡ copy_after pg o g
  onward_lem none x behind f g e on = ap (λ y. onward gz pg y f) e
  onward_lem (some d) x behind f g (r, e, up) on = ap (λ y. onward gz pg y f) e ∙ on d r up

  load_tables_lem :
      (fuel : ℕ) (rows : List ℕ) (ts : List Table) (carried : List (List (List ℕ)))
      (d : pg.Database) (w : List ℕ) (r : Reader gz)
      → length rows ≡ length ts
      → length carried ≡ length ts
      → All (λ cs. length cs < fuel) carried
      → Archived carried w
      → Stream l w r
      → load_tables gz pg fuel rows ts d r ≡ copy_all pg rows ts carried d
  unfolding load_tables
  load_tables_lem fuel [] [] [] d w r same one enough held up =
      at_end_lem d r (subst (λ x. Stream l x r) held up)
  load_tables_lem fuel [] [] (cs ∷ more) d w r same one enough held up = absurd (omega arith)
  load_tables_lem fuel (n ∷ rows) [] carried d w r same one enough held up = absurd (omega arith)
  load_tables_lem fuel [] (t ∷ ts) carried d w r same one enough held up = absurd (omega arith)
  load_tables_lem fuel (n ∷ rows) (t ∷ ts) [] d w r same one enough held up = absurd (omega arith)
  load_tables_lem fuel (n ∷ rows) (t ∷ ts) (cs ∷ more) d w r same one enough (next, c, held) up =
      onward_lem (checked pg n (after pg (after pg (pg.copy_in t d) (send_all pg cs)) pg.finish))
        (load_table gz pg fuel n (pg.copy_in t d) r) next
        (λ d' r'. load_tables gz pg fuel rows ts d' r') (copy_all pg rows ts more)
        (load_table-Done l pg fuel n (pg.copy_in t d) cs next w r enough.0 c up)
        (λ d' r'.
          load_tables_lem fuel rows ts more d' next r' (omega arith) (omega arith) enough.1 held)

  -- Where an upload's chunks are the header and a stream that decodes to a manifest as a section, the chunks
  -- of both tables, each table's nonempty ones and then an empty one, and no more, a new reader reads the
  -- manifest, and loading the rest is copying those chunks to each table in turn: the same database where the
  -- copies hold as many rows as they should, or a refusal where one does not or is refused.
  pub load-copy_all :
      (fuel : ℕ) (rows manifest size behind : List ℕ) (carried : List (List (List ℕ)))
      (d : pg.Database) (z : List ℕ) (s : gz.State) (body : List (Option (List ℕ)))
      → joined body ≡ head ++ z
      → Sent body
      → l.Reads z (size ++ (manifest ++ behind)) s
      → length size ≡ 4
      → from_be_bytes size ≡ length manifest
      → length manifest ≤ max_manifest
      → Archived carried behind
      → length rows ≡ 2
      → length carried ≡ 2
      → All (λ cs. length cs < fuel) carried
      → (r : Reader gz) × (section gz max_manifest (new_reader gz s body) ≡ fine (manifest, r))
        × (load gz pg fuel rows d r ≡ copy_all pg rows tables carried d)
  unfolding load
  load-copy_all fuel rows manifest size behind carried d z s body e all_sent reads four sized within
        held two both enough =
      let (r, read, up) =
        section-Found l max_manifest size manifest behind (new_reader gz s body) four sized within
          (new_reader-Stream l z (size ++ (manifest ++ behind)) s body e all_sent reads) in
      (r, read, load_tables_lem fuel rows tables carried d behind r two both enough held up)

-- ===== src/Examples/Uploads.antt =====
-- crates/wiretap-backend/src/archive.rs: an upload of two sections in four chunks, stored as they are.
use wire_tap_server.Prelude.{
  ℕ, ◌≡◌, refl, sym, ap, arith, List, [], ◌∷◌, Option, some, none, false, zero, suc, length, drop,
  ◌++◌,
}
use wire_tap_server.Upload.Reader.{
  Inflater, max_chunk, max_manifest, Reader, bad, new_reader, section, fine, take_bytes, take_loop,
  fill, fill_loop, receive, check_header,
}
use wire_tap_server.Upload.Coming.{InflaterLaws}
use wire_tap_server.Upload.Load.{Copier, tables, load}
use wire_tap_server.Upload.Copying.{Section, Archived, copy_all}
use wire_tap_server.Upload.Loaded.{load-copy_all}
use wire_tap_server.Upload.Sections.{Framed, Yields, section-Yields}

abbrev stored : Inflater
stored = record {
  State = Unit;
  write_all = λ piece s. some (piece, s);
  try_finish = λ s. some ([], s);
}

abbrev stored_laws : InflaterLaws stored
stored_laws = record {
  Reads = λ z p s. z ≡ p;
  write_law = λ piece z p s e. (piece, z, s, refl, sym e, refl);
  finish_law = λ p s e. (s, ap (λ x. some (x, s)) e);
}

abbrev chunks : List (Option (List ℕ))
chunks =
    some (87 ∷ 84 ∷ [])
    ∷ some (65 ∷ 82 ∷ 1 ∷ 0 ∷ 0 ∷ [])
    ∷ some (0 ∷ 2 ∷ 7 ∷ [])
    ∷ some (8 ∷ 0 ∷ 0 ∷ 0 ∷ 1 ∷ 9 ∷ [])
    ∷ []

abbrev packed : List ℕ
packed = 0 ∷ 0 ∷ 0 ∷ 2 ∷ 7 ∷ 8 ∷ 0 ∷ 0 ∷ 0 ∷ 1 ∷ 9 ∷ []

abbrev carried : List (List ℕ)
carried = (7 ∷ 8 ∷ []) ∷ (9 ∷ []) ∷ []

packed-Framed : Framed max_chunk carried [] packed
packed-Framed = (
  0 ∷ 0 ∷ 0 ∷ 2 ∷ [],
  0 ∷ 0 ∷ 0 ∷ 1 ∷ 9 ∷ [],
  refl,
  refl,
  omega arith,
  refl,
  (0 ∷ 0 ∷ 0 ∷ 1 ∷ [], [], refl, refl, omega arith, refl, refl),
)

section-Yields_example : Yields stored max_chunk carried (new_reader stored tt chunks)
section-Yields_example =
    section-Yields stored_laws max_chunk carried packed packed [] tt chunks refl tt refl
      packed-Framed

-- The first section, run.
first_section :
    section stored max_chunk (new_reader stored tt chunks)
    ≡ fine (
      7 ∷ 8 ∷ [],
      record {
        body = [];
        header = 87 ∷ 84 ∷ 65 ∷ 82 ∷ 1 ∷ [];
        received = [];
        decoder = tt;
        out = [];
        decoded = 0 ∷ 0 ∷ 0 ∷ 1 ∷ 9 ∷ [];
        ended = false;
      },
    )
unfolding section new_reader take_bytes take_loop fill fill_loop receive check_header
first_section = refl

-- A chunk that starts with 0 is refused.
abbrev accepted : List ℕ → List ℕ × List (List ℕ) → Option (List ℕ × List (List ℕ))
accepted [] s = none
accepted (zero ∷ c) s = none
accepted (suc b ∷ c) s = some (s.0 ++ (suc b ∷ c), s.1)

-- The database is what was copied to each table, in order.
abbrev copier : Copier
copier = record {
  Database = List (List ℕ);
  Sink = List ℕ × List (List ℕ);
  copy_in = λ t d. some ([], d);
  send = λ c s. accepted c s;
  finish = λ s. some (length s.0, s.0 ∷ s.1);
}

-- The manifest 3, then a table of 7 8 and one of 5.
abbrev table_chunks : List (List (List ℕ))
table_chunks = ((7 ∷ []) ∷ (8 ∷ []) ∷ []) ∷ ((5 ∷ []) ∷ []) ∷ []

abbrev table_bytes : List ℕ
table_bytes =
    0 ∷ 0 ∷ 0 ∷ 1 ∷ 7 ∷ 0 ∷ 0 ∷ 0 ∷ 1 ∷ 8 ∷ 0 ∷ 0 ∷ 0 ∷ 0 ∷ 0 ∷ 0 ∷ 0 ∷ 1 ∷ 5 ∷ 0 ∷ 0 ∷ 0 ∷ 0 ∷ []

abbrev archive : List ℕ
archive = 0 ∷ 0 ∷ 0 ∷ 1 ∷ 3 ∷ table_bytes

one_byte : (b : ℕ) (behind : List ℕ) → Section (b ∷ []) behind (0 ∷ 0 ∷ 0 ∷ 1 ∷ b ∷ behind)
one_byte b behind = (0 ∷ 0 ∷ 0 ∷ 1 ∷ [], refl, refl, omega arith, refl)

no_byte : (behind : List ℕ) → Section [] behind (0 ∷ 0 ∷ 0 ∷ 0 ∷ behind)
no_byte behind = (0 ∷ 0 ∷ 0 ∷ 0 ∷ [], refl, refl, omega arith, refl)

tables-Archived : Archived table_chunks table_bytes
tables-Archived = (
  drop 14 table_bytes,
  (
    drop 5 table_bytes,
    omega arith,
    one_byte 7 (drop 5 table_bytes),
    (
      drop 10 table_bytes,
      omega arith,
      one_byte 8 (drop 10 table_bytes),
      no_byte (drop 14 table_bytes),
    ),
  ),
  ([], (drop 19 table_bytes, omega arith, one_byte 5 (drop 19 table_bytes), no_byte []), refl),
)

load-copy_all_example :
    (r : Reader stored) × (section stored max_manifest
        (new_reader stored tt (some (87 ∷ 84 ∷ 65 ∷ 82 ∷ []) ∷ some (1 ∷ archive) ∷ []))
      ≡ fine (3 ∷ [], r))
    × (load stored copier 3 (2 ∷ 1 ∷ []) [] r ≡ copy_all copier (2 ∷ 1 ∷ []) tables table_chunks [])
load-copy_all_example =
    load-copy_all stored_laws copier 3 (2 ∷ 1 ∷ []) (3 ∷ []) (0 ∷ 0 ∷ 0 ∷ 1 ∷ []) table_bytes
      table_chunks [] archive tt (some (87 ∷ 84 ∷ 65 ∷ 82 ∷ []) ∷ some (1 ∷ archive) ∷ []) refl tt
      refl refl refl (omega arith) tables-Archived refl refl (omega arith, (omega arith, tt))

-- What the copies come to.
copied : copy_all copier (2 ∷ 1 ∷ []) tables table_chunks [] ≡ fine ((5 ∷ []) ∷ (7 ∷ 8 ∷ []) ∷ [])
copied = refl

-- A row too few.
row_missing : copy_all copier (3 ∷ 1 ∷ []) tables table_chunks [] ≡ bad
row_missing = refl

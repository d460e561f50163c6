-- ===== src/Examples/Caches.antt =====
-- crates/wiretap-server/src/cache.rs: a frame that is put into a cache, read and removed.
use wire_tap_server.Prelude.{◌≡◌, ◌≢◌, ◌⊎◌, refl, arith, List, [], ◌∷◌, some, length, take}
use wire_tap_server.Prelude.Int.{pos}
use wire_tap_server.Model.{Sample, can_sample, timestamp, serial_sample, protocol, parse_direction}
use wire_tap_server.Wire.Records.{can_frame}
use wire_tap_server.Archive.Interface.{ok, cache_error, Cached, samples}
use wire_tap_server.Wire.RoundTrip.{serial_ok}
use wire_tap_server.Cache.Rows.{encode_row, decode_row, to_secs, from_secs, decode_as, decode_can}
use wire_tap_server.Cache.RowsBack.{Storable, decode_row-encode_row}
use wire_tap_server.Cache.Store.{SqliteCache, append, oldest, remove, reset}
use wire_tap_server.Cache.Contents.{contents, oldest-append}
use wire_tap_server.Cache.Counted.{operations-Counted, remove-oldest}
use wire_tap_server.Examples.Frames.{can_library, can_laws, fd_sample, fd_sample-WellFormed}
use wire_tap_server.Examples.Tables.{row_library, row_laws, database, database_laws}

abbrev pub fd_frame : Sample
fd_frame = can_sample fd_sample

fd_frame-Storable : Storable fd_frame
unfolding timestamp
fd_frame-Storable = record {
  well_formed = fd_sample-WellFormed;
  micros = 1_700_000_000_000_000;
  stamped = refl;
  in_range = omega arith;
}

abbrev pub read_frame : Sample
read_frame = serial_sample (record {
  ts_us = pos 1_700_000_000_000_007;
  bus = record { id = 2 };
  seq = 40;
  payload = 9 ∷ 8 ∷ [];
})

read_frame-Storable : Storable read_frame
unfolding timestamp
read_frame-Storable = record {
  well_formed = serial_ok (omega arith) (omega arith);
  micros = 1_700_000_000_000_007;
  stamped = refl;
  in_range = omega arith;
}

decode_row-encode_row_example :
    decode_row can_library row_library (encode_row can_library row_library fd_frame) ≡ some fd_frame
decode_row-encode_row_example = decode_row-encode_row can_laws row_laws fd_frame fd_frame-Storable

abbrev Store : Type 0
Store = SqliteCache can_library row_library database

-- The second frame is on disk, with key 7.
abbrev one_row : Store
one_row = record {
  db = record { start = 7; values = encode_row can_library row_library read_frame ∷ [] };
  max_bytes = 100_000;
  rows = 1;
}

abbrev one_cached : List (Cached Sample)
one_cached = record { id = 7; sample = read_frame } ∷ []

one_row-contents : contents can_library row_library database_laws one_row ≡ some one_cached
unfolding encode_row decode_row decode_as decode_can to_secs from_secs protocol
one_row-contents = refl

abbrev two_rows : Store
two_rows = (append can_library row_library database (fd_frame ∷ []) one_row).1

append_works : (append can_library row_library database (fd_frame ∷ []) one_row).0 ≢ cache_error
unfolding append
append_works e = cc

two_cached :
    oldest can_library row_library database 5 two_rows
    ≡ ok (record { id = 7; sample = read_frame } ∷ record { id = 8; sample = fd_frame } ∷ [])
unfolding append oldest encode_row decode_row decode_as decode_can to_secs from_secs protocol
    can_frame parse_direction
two_cached = refl

read_works : oldest can_library row_library database 5 two_rows ≢ cache_error
read_works e = cc two_cached

oldest-append_example :
    (found : List (Cached Sample)) × (oldest can_library row_library database 5 two_rows ≡ ok found)
    × (samples found ≡ read_frame ∷ fd_frame ∷ [])
oldest-append_example =
    oldest-append can_laws row_laws database_laws 5 (fd_frame ∷ []) one_row one_cached
      (fd_frame-Storable, tt) one_row-contents append_works read_works

remove_works : (remove can_library row_library database (take 1 one_cached) one_row).0 ≢ cache_error
unfolding remove
remove_works e = cc

remove-oldest_example :
    contents can_library row_library database_laws
      (remove can_library row_library database (take 1 one_cached) one_row).1
    ≡ some []
remove-oldest_example =
    remove-oldest can_library row_library database_laws 1 one_row one_cached one_row-contents
      remove_works

operations-Counted_example :
    (two_rows.rows ≡ length (database_laws.table two_rows.db))
    × ((remove can_library row_library database one_cached one_row).1.rows
        ≡ length
            (database_laws.table (remove can_library row_library database one_cached one_row).1.db))
    × (((reset can_library row_library database one_row).0 ≡ cache_error)
        ⊎ ((reset can_library row_library database one_row).1.rows ≡ 0)
          × (database_laws.table (reset can_library row_library database one_row).1.db ≡ []))
operations-Counted_example =
    operations-Counted can_library row_library database_laws (fd_frame ∷ []) one_cached one_row refl

-- ===== src/Upload/Reader.antt =====
-- crates/wiretap-backend/src/archive.rs: `Reader`, from an upload to an archive's sections.
use wire_tap_server.Prelude.{
  ℕ, zero, suc, ◌+◌, ◌-◌, ◌*◌, ◌&&◌, Bool, true, false, not, List, [], ◌∷◌, ◌++◌, Option, none,
  some, length, take, drop, ltb, ◌==◌, min, if◌then◌else◌,
}
use wire_tap_server.Model.{same_text}

-- `WTAR`.
abbrev pub magic : List ℕ
magic = 87 ∷ 84 ∷ 65 ∷ 82 ∷ []

abbrev pub format_version : ℕ
format_version = 1

abbrev pub max_chunk : ℕ
max_chunk = 16_777_216

abbrev pub max_manifest : ℕ
max_manifest = 1_048_576

abbrev pub inflate_at : ℕ
inflate_at = 8192

-- A step of the reading, or a bad request.
pub data Read (B : Type 0) : Type 0 where
  fine : B → Read B
  bad : Read B

-- `GzDecoder`; what it has decoded is appended to its writer.
pub record Inflater : Type 1 where
  pub State : Type 0
  pub write_all : List ℕ → State → Option (List ℕ × State)
  pub try_finish : State → Option (List ℕ × State)

abbrev pub version_at : List ℕ → Option ℕ
version_at [] = none
version_at (v ∷ rest) = some v

abbrev pub wrong_version : Option ℕ → Bool
wrong_version none = false
wrong_version (some v) = not (v == format_version)

unfoldable pub check_header : List ℕ → Bool
check_header header =
    if not (same_text (take (min (length header) 4) header) (take (min (length header) 4) magic))
    then false
    else not (wrong_version (version_at (drop 4 header)))

-- `u32::from_be_bytes` of four bytes.
abbrev pub from_be_bytes : List ℕ → ℕ
from_be_bytes (a ∷ b ∷ c ∷ d ∷ rest) = a * 16_777_216 + b * 65_536 + c * 256 + d
from_be_bytes _ = 0

module _ (gz : Inflater) where
  -- `body` is the upload's chunks, a failed one being `none`; `out` what the decoder has written.
  pub record Reader : Type 0 where
    pub body : List (Option (List ℕ))
    pub header : List ℕ
    pub received : List ℕ
    pub decoder : gz.State
    pub out : List ℕ
    pub decoded : List ℕ
    pub ended : Bool

  abbrev pub wrote : Option (List ℕ × gz.State) → Reader → Read Reader
  wrote none r = bad
  wrote (some (o, s)) r = fine (record r { decoder = s; out = r.out ++ o })

  abbrev pub with_head : ℕ → List ℕ → List (Option (List ℕ)) → Reader → Read Reader
  with_head wanted bytes rest r =
      let header = r.header ++ take wanted bytes in
      if ltb 0 wanted && not (check_header header)
      then bad
      else fine (record r { body = rest; header = header; received = drop wanted bytes })

  abbrev pub received_next : List (Option (List ℕ)) → Reader → Read Reader
  received_next [] r =
      if ltb (length r.header) 5
      then bad
      else wrote (gz.try_finish r.decoder) (record r { ended = true })
  received_next (none ∷ rest) r = bad
  received_next (some bytes ∷ rest) r = with_head (5 - length r.header) bytes rest r

  unfoldable pub receive : Reader → Read Reader
  receive r = received_next r.body r

  abbrev pub inflated : List ℕ → Reader → Read Reader
  inflated received r =
      let n = min (length received) inflate_at in
      wrote (gz.write_all (take n received) r.decoder) (record r { received = drop n received })

  -- What a round of `fill` does before it looks at what was decoded.
  abbrev pub fetched : List ℕ → Reader → Read Reader
  fetched [] r = receive r
  fetched (b ∷ bs) r = inflated (b ∷ bs) r

  -- `take_decoded`, and whether there was anything.
  abbrev pub take_decoded : List ℕ → Reader → Bool × Reader
  take_decoded [] r = (false, record r { out = [] })
  take_decoded (b ∷ bs) r = (true, record r { decoded = r.decoded ++ (b ∷ bs); out = [] })

  abbrev pub filled : Bool × Reader → (Reader → Read (Bool × Reader)) → Read (Bool × Reader)
  filled (true, r) next = fine (true, r)
  filled (false, r) next = next r

  abbrev pub fill_after : Read Reader → (Reader → Read (Bool × Reader)) → Read (Bool × Reader)
  fill_after bad next = bad
  fill_after (fine r) next = filled (take_decoded r.out r) next

  -- `bad` where the rounds run out.
  unfoldable pub fill_loop : ℕ → Reader → Read (Bool × Reader)
  fill_loop zero r = bad
  fill_loop (suc fuel) r =
      if r.ended then fine (false, r) else fill_after (fetched r.received r) (fill_loop fuel)

  abbrev pub body_rounds : List (Option (List ℕ)) → ℕ
  body_rounds [] = 0
  body_rounds (none ∷ rest) = suc (body_rounds rest)
  body_rounds (some bytes ∷ rest) = suc (length bytes + body_rounds rest)

  abbrev pub end_round : Bool → ℕ
  end_round true = 0
  end_round false = 1

  -- A round for each byte that is yet to be inflated, each chunk and the end.
  abbrev pub rounds : Reader → ℕ
  rounds r = body_rounds r.body + length r.received + end_round r.ended

  unfoldable pub fill : Reader → Read (Bool × Reader)
  fill r = fill_loop (suc (rounds r)) r

  abbrev pub take_after :
      Read (Bool × Reader) → (Reader → Read (List ℕ × Reader)) → Read (List ℕ × Reader)
  take_after bad next = bad
  take_after (fine (false, r)) next = bad
  take_after (fine (true, r)) next = next r

  unfoldable pub take_loop : ℕ → ℕ → Reader → Read (List ℕ × Reader)
  take_loop zero n r = bad
  take_loop (suc fuel) n r =
      if ltb (length r.decoded) n
      then take_after (fill r) (take_loop fuel n)
      else fine (take n r.decoded, record r { decoded = drop n r.decoded })

  -- Every fill that goes on decodes a byte at least.
  unfoldable pub take_bytes : ℕ → Reader → Read (List ℕ × Reader)
  take_bytes n r = take_loop (suc n) n r

  abbrev pub section_of : ℕ → Read (List ℕ × Reader) → Read (List ℕ × Reader)
  section_of most bad = bad
  section_of most (fine (bytes, r)) =
      if ltb most (from_be_bytes bytes) then bad else take_bytes (from_be_bytes bytes) r

  unfoldable pub section : ℕ → Reader → Read (List ℕ × Reader)
  section most r = section_of most (take_bytes 4 r)

  -- `Reader::new`.
  unfoldable pub new_reader : gz.State → List (Option (List ℕ)) → Reader
  new_reader s body = record {
    body = body;
    header = [];
    received = [];
    decoder = s;
    out = [];
    decoded = [];
    ended = false;
  }

-- ===== src/Examples/Tables.antt =====
-- crates/wiretap-server/src/cache.rs: a table of rows with consecutive keys, for examples.
use wire_tap_server.Prelude.{
  ℕ, zero, suc, ◌+◌, ◌-◌, ◌*◌, ◌/◌, ◌%◌, ◌≡◌, ◌<◌, ◌≤◌, ◌⊎◌, ◌&&◌, refl, sym, ap, ◌∙◌, inl, inr,
  Bool, true, false, List, [], ◌∷◌, ◌++◌, map, Option, none, some, length, take, drop, arith, any,
  ◌==◌, ==_iff,
}
use wire_tap_server.Prelude.Int.{ℤ, pos}
use wire_tap_server.Model.{Protocol, can, modbus_rtu, serial, Text}
use wire_tap_server.Cache.Rows.{RowLibrary, RowLaws}
use wire_tap_server.Cache.Store.{Database, DatabaseLaws, without, keys, Distinct}
use wire_tap_server.Cache.Counted.{without-take}

abbrev tag_of : Protocol → Text
tag_of can = []
tag_of modbus_rtu = 109 ∷ []
tag_of serial = 115 ∷ 115 ∷ []

abbrev of_tag : Text → Option Protocol
of_tag [] = some can
of_tag (c ∷ []) = some modbus_rtu
of_tag (c ∷ d ∷ []) = some serial
of_tag _ = none

-- Whole numbers, and seconds with 21 bits behind the point, which is what a double has below 2 ^ 32.
pub data Real : Type 0 where
  whole : ℤ → Real
  ticks : ℕ → Real

abbrev divided : Real → Real → Real
divided (whole (pos n)) m = ticks ((n * 2_097_152 + 500_000) / 1_000_000)
divided x m = x

abbrev multiplied : Real → Real → Real
multiplied (ticks q) m = whole (pos ((q * 1_000_000 + 1_048_576) / 2_097_152))
multiplied x m = x

abbrev rounded : Real → ℤ
rounded (whole n) = n
rounded (ticks q) = pos (q / 2_097_152)

abbrev pub row_library : RowLibrary
row_library = record {
  Real = Real;
  of_int = whole;
  million = whole (pos 1_000_000);
  over = divided;
  times = multiplied;
  round = rounded;
  protocol_text = tag_of;
  parse_protocol = of_tag;
  modbus_id = λ unit func. unit * 256 + func;
  modbus_unit_func = λ id. (id / 256, id % 256);
}

pub tag_back : (p : Protocol) → of_tag (tag_of p) ≡ some p
tag_back can = refl
tag_back modbus_rtu = refl
tag_back serial = refl

pub pair_eq : (p q : ℕ × ℕ) → p.0 ≡ q.0 → p.1 ≡ q.1 → p ≡ q
pair_eq (a, b) (x, y) e f = rw (e, f) refl

exact : (n : ℕ) → ((n * 2_097_152 + 500_000) / 1_000_000 * 1_000_000 + 1_048_576) / 2_097_152 ≡ n
exact n = omega arith

pub row_laws : RowLaws row_library
row_laws = record {
  seconds_exact = λ n h. ap pos (exact n);
  parse_text = tag_back;
  unit_func_back = λ unit func h h'. pair_eq _ (unit, func) (omega arith) (omega arith);
  modbus_id_u32 = λ unit func h h'. omega arith;
}

module _ {R : Type 0} where
  -- The rows, with the key of the first.
  abbrev pub number : ℕ → List R → List (ℕ × R)
  number start [] = []
  number start (x ∷ xs) = (start, x) ∷ number (suc start) xs

  pub number-append :
      (start : ℕ) (xs ys : List R)
      → number start (xs ++ ys) ≡ number start xs ++ number (start + length xs) ys
  number-append start [] ys = ap (λ n. number n ys) (omega arith)
  number-append start (x ∷ xs) ys =
      ap (λ zs. (start, x) ∷ zs)
        (number-append (suc start) xs ys
          ∙ ap (λ n. number (suc start) xs ++ number n ys) (omega arith))

  pub drop-number :
      (start n : ℕ) (xs : List R)
      → n ≤ length xs
      → drop n (number start xs) ≡ number (start + n) (drop n xs)
  drop-number start zero xs h = ap (λ m. number m xs) (omega arith)
  drop-number start (suc n) [] h = absurd (omega arith)
  drop-number start (suc n) (x ∷ xs) h =
      drop-number (suc start) n xs (omega arith) ∙ ap (λ m. number m (drop n xs)) (omega arith)

  pub fresh :
      (i start : ℕ) (xs : List R) → i < start → any (λ j. j == i) (keys (number start xs)) ≡ false
  fresh i start [] h = refl
  fresh i start (x ∷ xs) h = let rest = fresh i (suc start) xs (omega arith) in ground arith

  pub number-Distinct : (start : ℕ) (xs : List R) → Distinct (keys (number start xs))
  number-Distinct start [] = tt
  number-Distinct start (x ∷ xs) =
      (fresh start (suc start) xs (omega arith), number-Distinct (suc start) xs)

  pub values-number : (start : ℕ) (xs : List R) → map (λ x. x.1) (number start xs) ≡ xs
  values-number start [] = refl
  values-number start (x ∷ xs) = ap (λ ys. x ∷ ys) (values-number (suc start) xs)

-- Whether `ids` are `start`, `start + 1`, and so on, `n` of them at most.
abbrev is_front : ℕ → ℕ → List ℕ → Bool
is_front n start [] = true
is_front zero start (i ∷ ids) = false
is_front (suc n) start (i ∷ ids) = (i == start) && is_front n (suc start) ids

pub is_front-keys :
    {R : Type 0} (start : ℕ) (ids : List ℕ) (xs : List R)
    → is_front (length xs) start ids ≡ true
    → (ids ≡ keys (take (length ids) (number start xs))) × (length ids ≤ length xs)
is_front-keys start [] xs e = (refl, omega arith)
is_front-keys start (i ∷ ids) [] e = cc
is_front-keys start (i ∷ ids) (x ∷ xs) e =
    let (first, others) = both (i == start) (is_front (length xs) (suc start) ids) e in
    let (same, bound) = is_front-keys (suc start) ids xs others in
    let (to, _) = ==_iff i start in (rw (to first) (ap (λ js. start ∷ js) same), omega arith)
  where
    both : (a b : Bool) → (a && b) ≡ true → (a ≡ true) × (b ≡ true)
    both true b h = (refl, h)
    both false b h = cc

pub record Rows (R : Type 0) : Type 0 where
  pub start : ℕ
  pub values : List R

module _ {R : Type 0} where
  abbrev table_of : Rows R → List (ℕ × R)
  table_of s = number s.start s.values

  abbrev deleted_count : List ℕ → Rows R → ℕ
  deleted_count ids s = length (table_of s) - length (without ids (table_of s))

  abbrev delete_front : Bool → List ℕ → Rows R → Option ℕ × Rows R
  delete_front false ids s = (none, s)
  delete_front true ids s = (
    some (deleted_count ids s),
    record { start = s.start + length ids; values = drop (length ids) s.values },
  )

  -- It deletes from the front only, and refuses other keys.
  abbrev pub database : Database R
  database = record {
    State = Rows R;
    insert_all = λ rows s. (true, record s { values = s.values ++ rows });
    select_oldest = λ n s. some (take n (table_of s));
    delete_ids = λ ids s. delete_front (is_front (length s.values) s.start ids) ids s;
    count_rows = λ s. some (length (table_of s));
    file_sizes = λ s. some (4096 + 100 * length s.values) ∷ none ∷ none ∷ [];
    disconnect = λ s. (true, s);
    unlink = λ s. (true, record { start = 1; values = [] });
    reopen = λ s. (true, s);
  }

  pub delete_front_lem :
      (b : Bool) (ids : List ℕ) (s : Rows R)
      → (b ≡ true → is_front (length s.values) s.start ids ≡ true)
      → ((delete_front b ids s).0 ≡ some (deleted_count ids s))
          × (table_of (delete_front b ids s).1 ≡ without ids (table_of s))
        ⊎ ((delete_front b ids s).0 ≡ none) × (table_of (delete_front b ids s).1 ≡ table_of s)
  delete_front_lem false ids s h = inr (refl, refl)
  delete_front_lem true ids s h =
      let (same, bound) = is_front-keys s.start ids s.values (h refl) in
      inl (
        refl,
        sym (drop-number s.start (length ids) s.values bound)
            ∙ sym (without-take (length ids) (table_of s) (number-Distinct s.start s.values))
            ∙ ap (λ js. without js (table_of s)) (sym same),
      )

  abbrev pub database_laws : DatabaseLaws database
  database_laws = record {
    table = table_of;
    distinct = λ s. number-Distinct s.start s.values;
    insert_law = λ rows s. inl (
      refl,
      (
        number (s.start + length s.values) rows,
        values-number (s.start + length s.values) rows,
        number-append s.start s.values rows,
      ),
    );
    select_law = λ n s. inl refl;
    delete_law = λ ids s. delete_front_lem (is_front (length s.values) s.start ids) ids s (λ e. e);
    count_law = λ s. inl refl;
    unlinked = λ s e. refl;
    reopened = λ s. refl;
  }

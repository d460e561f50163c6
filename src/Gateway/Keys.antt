-- ===== src/Gateway/Keys.antt =====
-- crates/wiretap-backend/src/keys.rs: who a key stands for.
use wire_tap_server.Prelude.{ℕ, Bool, true, false, List, [], ◌∷◌, Option, none, some, if◌then◌else◌}
use wire_tap_server.Model.{Text, same_text}

pub data Role : Type 0 where
  read ingest admin : Role

pub record KeyInfo : Type 0 where
  pub id : ℕ
  pub name : Text
  pub role : Role
  pub database_pin : Option Text

-- `read`, `ingest` and `admin`.
abbrev pub role_text : Role → Text
role_text read = 114 ∷ 101 ∷ 97 ∷ 100 ∷ []
role_text ingest = 105 ∷ 110 ∷ 103 ∷ 101 ∷ 115 ∷ 116 ∷ []
role_text admin = 97 ∷ 100 ∷ 109 ∷ 105 ∷ 110 ∷ []

unfoldable pub parse_role : Text → Option Role
parse_role s =
    if same_text s (role_text read)
    then some read
    else if same_text s (role_text ingest)
    then some ingest
    else if same_text s (role_text admin)
    then some admin
    else none

abbrev pub allows_read : Role → Bool
allows_read read = true
allows_read ingest = false
allows_read admin = true

abbrev pub allows_ingest : Role → Bool
allows_ingest read = false
allows_ingest ingest = true
allows_ingest admin = true

abbrev pub allows_admin : Role → Bool
allows_admin read = false
allows_admin ingest = false
allows_admin admin = true

-- The hash and the limit on wrong keys, which `admit` counts by address.
pub record KeyLibrary : Type 1 where
  pub Attempts : Type 0
  pub hash_key : Text → Text
  pub admit : ℕ → Attempts → Bool × Attempts

-- `bootstrap-admin`.
abbrev pub bootstrap_admin : KeyInfo
bootstrap_admin = record {
  id = 0;
  name = 98 ∷ 111 ∷ 111 ∷ 116 ∷ 115 ∷ 116 ∷ 114 ∷ 97 ∷ 112 ∷ 45 ∷ 97 ∷ 100 ∷ 109 ∷ 105 ∷ 110 ∷ [];
  role = admin;
  database_pin = none;
}

abbrev pub cached : Text → List (Text × KeyInfo) → Option KeyInfo
cached h [] = none
cached h ((k, info) ∷ rest) = if same_text k h then some info else cached h rest

abbrev pub is_hash : Option Text → Text → Bool
is_hash none h = false
is_hash (some current) h = same_text current h

module _ (k : KeyLibrary) where
  -- `touched` has the keys whose last use is to be written.
  pub record KeyStore : Type 0 where
    pub bootstrap_current : Option Text
    pub cache : List (Text × KeyInfo)
    pub wrong_keys : k.Attempts
    pub touched : List ℕ

  abbrev pub touch : Option KeyInfo → KeyStore → Option KeyInfo × KeyStore
  touch none s = (none, s)
  touch (some info) s = (some info, record s { touched = info.id ∷ s.touched })

  unfoldable pub validate : Text → KeyStore → Option KeyInfo × KeyStore
  validate key s =
      let h = k.hash_key key in
      if is_hash s.bootstrap_current h
      then (some bootstrap_admin, s)
      else touch (cached h s.cache) s

  -- `none` is too many attempts.
  abbrev pub counted : Bool × k.Attempts → KeyStore → Option (Option KeyInfo) × KeyStore
  counted (true, wrong) s = (some none, record s { wrong_keys = wrong })
  counted (false, wrong) s = (none, record s { wrong_keys = wrong })

  abbrev pub validated : ℕ → Option KeyInfo × KeyStore → Option (Option KeyInfo) × KeyStore
  validated peer (some info, s) = (some (some info), s)
  validated peer (none, s) = counted (k.admit peer s.wrong_keys) s

  unfoldable pub validate_from : ℕ → Text → KeyStore → Option (Option KeyInfo) × KeyStore
  validate_from peer key s = validated peer (validate key s)

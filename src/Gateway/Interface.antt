-- ===== src/Gateway/Interface.antt =====
-- crates/wiretap-backend/src/ingest/mod.rs: what the ingest listener takes from the gateway's other
-- parts, its capture databases and its catalogues, and from the protocol's library.
use mathlib.Core.List.{Perm}
use wire_tap_server.Prelude.{
  ℕ, ◌≤◌, ◌<◌, ◌≡◌, ◌≢◌, ◌⊎◌, Bool, true, List, ◌++◌, Option, some, is_some, length,
}
use wire_tap_server.Model.{Text}
use wire_tap_server.Gateway.Databases.{DbResult, Write, stored_now, write_error, WriteError}
use wire_tap_server.Gateway.Sessions.{Device}

-- `Databases`: a database by its name, made or found, and a batch for it.
pub record Captures (R : Type 0) : Type 1 where
  pub State : Type 0
  pub ensure_database : ℕ → Text → Bool → State → DbResult (Unit {0}) × State
  pub write_rows : ℕ → Text → List R → State → Write × State

-- The rows that each database holds: a batch goes to its own, once, where it is stored, and once or
-- not at all where PostgreSQL fails it; no other database changes.
pub record CapturesLaws {R : Type 0} (k : Captures R) : Type 0 where
  pub rows_of : Text → k.State → List R
  pub ensure_others :
      (now : ℕ) (name other : Text) (allow : Bool) (s : k.State)
      → other ≢ name
      → rows_of other (k.ensure_database now name allow s).1 ≡ rows_of other s
  pub write_others :
      (now : ℕ) (name other : Text) (rows : List R) (s : k.State)
      → other ≢ name
      → rows_of other (k.write_rows now name rows s).1 ≡ rows_of other s
  pub write_stored :
      (now : ℕ) (name : Text) (rows : List R) (s : k.State)
      → (k.write_rows now name rows s).0 ≡ stored_now
      → Perm (rows_of name (k.write_rows now name rows s).1) (rows_of name s ++ rows)
  pub write_failed :
      (now : ℕ) (name : Text) (rows : List R) (s : k.State) (e : WriteError)
      → (k.write_rows now name rows s).0 ≡ write_error e
      → Perm (rows_of name (k.write_rows now name rows s).1) (rows_of name s)
        ⊎ Perm (rows_of name (k.write_rows now name rows s).1) (rows_of name s ++ rows)

-- `Catalogs`, as far as a session uses it; `none` and `false` are a failure of the meta database.
pub record CatalogStore : Type 1 where
  pub State : Type 0
  pub Assignment : Type 0
  pub Status : Type 0
  pub record_hello : Text → Text → List Device → State → Bool × State
  pub assignments_for : Text → List Device → State → Option (List Assignment) × State
  pub blob : Text → State → Option (Option Text) × State
  pub record_status : Text → List Device → Status → State → State

-- At most one assignment a device.
pub record CatalogLaws (k : CatalogStore) : Type 0 where
  pub one_each :
      (daemon : Text) (devices : List Device) (s t : k.State) (as_given : List k.Assignment)
      → k.assignments_for daemon devices s ≡ (some as_given, t)
      → length as_given ≤ length devices

-- `Hello`.
pub record Hello : Type 0 where
  pub version : ℕ
  pub token : List ℕ
  pub database : Text
  pub daemon_id : Text
  pub devices : List Device

-- Why the state machine asks for a close.
pub data CloseReason : Type 0 where
  refused_hello reassigned broken : CloseReason

-- `Action`; a batch's records are stamped.
pub data Action (H S : Type 0) : Type 0 where
  reply : List ℕ → Action H S
  hello_from : Hello → Action H S
  hello_refused : ℕ → Action H S
  batch_in : ℕ → List (ℕ × H) → Action H S
  nack : ℕ → ℕ → Action H S
  catalogue_get : Text → Action H S
  catalogue_status : S → Action H S
  close : CloseReason → Action H S

-- `ServerSession` and the protocol's constants.
pub record Machine (H A S : Type 0) : Type 1 where
  pub State : Type 0
  pub receive : List ℕ → State → State
  pub close_reassigned : State → State
  pub poll : State → Option (Action H S) × State
  -- `none` is an error, of more assignments than an answer holds.
  pub answer_hello : ℕ → ℕ → List A → State → Option (List ℕ × State)
  pub ack : ℕ → ℕ → ℕ → State → List ℕ × State
  pub answer_catalogue : ℕ ⊎ Text → State → List ℕ × State
  pub hello_ok : ℕ
  pub hello_bad_auth : ℕ
  pub hello_bad_database : ℕ
  pub hello_unavailable : ℕ
  pub ack_ok : ℕ
  pub ack_malformed : ℕ
  pub ack_overloaded : ℕ
  pub catalogue_unknown : ℕ
  pub catalogue_unavailable : ℕ

-- The statuses differ; a poll uses up what was received, and an answer adds nothing to it; a batch
-- is asked for only once a hello was answered with `hello_ok`; a hello names 255 devices at most, and
-- its answer holds as many assignments.
pub record MachineLaws {H A S : Type 0} (m : Machine H A S) : Type 0 where
  pub ok_auth : m.hello_ok ≢ m.hello_bad_auth
  pub ok_database : m.hello_ok ≢ m.hello_bad_database
  pub ok_unavailable : m.hello_ok ≢ m.hello_unavailable
  pub ok_malformed : m.ack_ok ≢ m.ack_malformed
  pub ok_overloaded : m.ack_ok ≢ m.ack_overloaded
  pub owed : m.State → ℕ
  pub accepted : m.State → Bool
  pub poll_owed :
      (s : m.State) (a : Action H S) → (m.poll s).0 ≡ some a → owed (m.poll s).1 < owed s
  pub poll_accepted : (s : m.State) → accepted (m.poll s).1 ≡ accepted s
  pub batch_accepted :
      (s : m.State) (seq : ℕ) (records : List (ℕ × H))
      → (m.poll s).0 ≡ some (batch_in seq records)
      → accepted s ≡ true
  pub refused_status :
      (s : m.State) (status : ℕ) → (m.poll s).0 ≡ some (hello_refused status) → status ≢ m.hello_ok
  pub hello_owed :
      (status now : ℕ) (as_given : List A) (s t : m.State) (bytes : List ℕ)
      → m.answer_hello status now as_given s ≡ some (bytes, t)
      → owed t ≡ owed s
  pub hello_accepted :
      (status now : ℕ) (as_given : List A) (s t : m.State) (bytes : List ℕ)
      → m.answer_hello status now as_given s ≡ some (bytes, t)
      → accepted t ≡ true
      → (accepted s ≡ true) ⊎ (status ≡ m.hello_ok)
  pub hello_fits :
      (status now : ℕ) (as_given : List A) (s : m.State)
      → length as_given ≤ 255
      → is_some (m.answer_hello status now as_given s) ≡ true
  pub hello_devices :
      (s : m.State) (h : Hello) → (m.poll s).0 ≡ some (hello_from h) → length h.devices ≤ 255
  pub ack_owed : (seq status pct : ℕ) (s : m.State) → owed (m.ack seq status pct s).1 ≡ owed s
  pub ack_accepted :
      (seq status pct : ℕ) (s : m.State) → accepted (m.ack seq status pct s).1 ≡ accepted s
  pub catalogue_owed :
      (answer : ℕ ⊎ Text) (s : m.State) → owed (m.answer_catalogue answer s).1 ≡ owed s
  pub catalogue_accepted :
      (answer : ℕ ⊎ Text) (s : m.State) → accepted (m.answer_catalogue answer s).1 ≡ accepted s
  pub receive_accepted : (bytes : List ℕ) (s : m.State) → accepted (m.receive bytes s) ≡ accepted s
  pub reassigned_accepted : (s : m.State) → accepted (m.close_reassigned s) ≡ accepted s

-- ===== src/Ingest/Session.antt =====
-- crates/wiretap-server/src/ingest.rs: one connected device. The protocol's state machine, the
-- stamping of a batch and the limit on wrong tokens are libraries'.
use wire_tap_server.Prelude.{
  ℕ, ◌-◌, ◌^◌, ◌&&◌, ◌||◌, Bool, true, false, not, List, [], ◌∷◌, ◌++◌, map, Option, none, some,
  any, ltb, leb, if◌then◌else◌,
}
use wire_tap_server.Prelude.Int.{ℤ, pos, negsuc}
use wire_tap_server.Model.{Sample, can_sample, modbus_sample, serial_sample, Text}
use wire_tap_server.Archive.Interface.{Parts}
use wire_tap_server.Archive.Handle.{Shared, enqueue_all, occupancy_pct}
use wire_tap_server.Wire.Library.{CanLibrary, RecordLibrary}
use wire_tap_server.Wire.Records.{WireRecord, decode}

-- A batch as it came in, its records stamped with their absolute time.
pub record IncomingBatch (H : Type 0) : Type 0 where
  pub seq : ℕ
  pub records : List (ℕ × WireRecord H)

-- `Action`, what the state machine asks for.
pub data Action (H : Type 0) : Type 0 where
  reply : List ℕ → Action H
  hello_from : List ℕ → Text → Action H
  hello_refused : ℕ → Action H
  batch_in : IncomingBatch H → Action H
  nack : ℕ → ℕ → Action H
  catalogue_get catalogue_status close_now : Action H

-- The machine's answers as bytes, its status numbers, and the tokens' check with its state.
pub record Machine : Type 1 where
  pub Attempts : Type 0
  pub hello_ok : ℕ
  pub hello_bad_auth : ℕ
  pub ack_ok : ℕ
  pub ack_malformed : ℕ
  pub ack_overloaded : ℕ
  pub answer_hello : ℕ → List ℕ
  pub ack : ℕ → ℕ → ℕ → List ℕ
  pub unknown_catalogue : List ℕ
  pub admit : Attempts → Bool × Attempts
  pub succeeded : Attempts → Attempts
  pub token_matches : List ℕ → Bool

abbrev pub refuse_above_pct : ℕ
refuse_above_pct = 99

-- `as i64`, of a `u64`.
abbrev pub as_i64 : ℕ → ℤ
as_i64 n = if ltb n (2 ^ 63) then pos n else negsuc (2 ^ 64 - 1 - n)

abbrev pub is_serial : Sample → Bool
is_serial (can_sample s) = false
is_serial (modbus_sample s) = false
is_serial (serial_sample s) = true

module _ (m : Machine) {c : CanLibrary} (r : RecordLibrary c) (p : Parts Sample) where
  -- A session with the archive and the attempts that it shares with the others.
  pub record Session : Type 0 where
    pub archive : Shared p
    pub attempts : m.Attempts
    pub has_token : Bool
    pub relays_raw_serial : Bool
    pub written : List (List ℕ)

  abbrev pub cons_sample : Option Sample → Option (List Sample) → Option (List Sample)
  cons_sample (some s) (some rest) = some (s ∷ rest)
  cons_sample (some s) none = none
  cons_sample none rest = none

  -- `none` where `decode` panics.
  unfoldable pub decode_batch : List (ℕ × WireRecord r.Header) → Option (List Sample)
  decode_batch [] = some []
  decode_batch ((ts_us, w) ∷ rest) = cons_sample (decode r (as_i64 ts_us) w) (decode_batch rest)

  -- `token.matches` after an attempt that was admitted.
  abbrev pub check_token : List ℕ → Bool × m.Attempts → Session → ℕ × Session
  check_token token (false, attempts) s = (m.hello_bad_auth, record s { attempts = attempts })
  check_token token (true, attempts) s =
      if m.token_matches token
      then (m.hello_ok, record s { attempts = m.succeeded attempts })
      else (m.hello_bad_auth, record s { attempts = attempts })

  unfoldable pub hello_status : List ℕ → Session → ℕ × Session
  hello_status token s =
      if s.has_token then check_token token (m.admit s.attempts) s else (m.hello_ok, s)

  -- `now` is the clock of the queue's reports.
  unfoldable pub batch_status : ℕ → List Sample → Session → ℕ × Session
  batch_status now samples s =
      if not s.relays_raw_serial && any is_serial samples
      then (m.ack_malformed, s)
      else if p.channel.is_closed s.archive.queue
          || leb refuse_above_pct (occupancy_pct p s.archive)
      then (m.ack_overloaded, s)
      else (m.ack_ok, record s { archive = enqueue_all p (map (λ a. (now, a)) samples) s.archive })

  abbrev pub acked : ℕ → ℕ × Session → Option (List ℕ) × Session
  acked seq (status, s) = (some (m.ack seq status (occupancy_pct p s.archive)), s)

  abbrev pub answer_batch :
      ℕ → ℕ → Option (List Sample) → Session → Option (Option (List ℕ) × Session)
  answer_batch now seq none s = none
  answer_batch now seq (some samples) s = some (acked seq (batch_status now samples s))

  abbrev pub greeted : ℕ × Session → Option (List ℕ) × Session
  greeted (status, s) = (some (m.answer_hello status), s)

  -- The reply to an action, if it has one; `none` ends the session.
  unfoldable pub act : ℕ → Action r.Header → Session → Option (Option (List ℕ) × Session)
  act now (reply bytes) s = some (some bytes, s)
  act now (hello_from token database) s = some (greeted (hello_status token s))
  act now (hello_refused status) s = some (some (m.answer_hello status), s)
  act now (batch_in b) s = answer_batch now b.seq (decode_batch b.records) s
  act now (nack seq status) s = some (some (m.ack seq status (occupancy_pct p s.archive)), s)
  act now catalogue_get s = some (some m.unknown_catalogue, s)
  act now catalogue_status s = some (none, s)
  act now close_now s = none

  abbrev pub wrote : Option (Option (List ℕ) × Session) → Option Session
  wrote none = none
  wrote (some (none, s)) = some s
  wrote (some (some bytes, s)) = some (record s { written = s.written ++ (bytes ∷ []) })

  -- The loop of `serve`, over the actions that the device's bytes come to, with the clock of each;
  -- every write works. The session's last state, and whether it is still open.
  unfoldable pub serve : List (ℕ × Action r.Header) → Session → Bool × Session
  serve [] s = (true, s)
  serve ((now, a) ∷ rest) s = elim (wrote (act now a s)) [
    | none ↦ (false, s)
    | some s' ↦ serve rest s'
  ]

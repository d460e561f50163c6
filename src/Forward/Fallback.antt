-- ===== src/Forward/Fallback.antt =====
-- crates/wiretap-server/src/forward.rs: what a connect leaves behind.
use wire_tap_server.Prelude.{
  ◌≡◌, ◌⊎◌, arith, refl, sym, inl, inr, ◌∙◌, Bool, true, false, List, [], ◌∷◌, Option, none, some,
  ◌==◌, if◌then◌else◌,
}
use wire_tap_server.Archive.Interface.{SinkResult, done, refused}
use wire_tap_server.Forward.Interface.{Bytes, HelloAck, Stream, Connection}
use wire_tap_server.Forward.Receive.{send}
use wire_tap_server.Forward.Session.{
  Gear, ForwardSink, works, fails, Greeting, handshake, dialled, may_fall_back, settle, report,
  reported, admitted, first, second, connect,
}

-- From `s`: the version is kept, or is 2 where it was 3 and there is no raw serial line; a
-- connection is kept where the connect worked, and otherwise is the one there was.
pub record Connected {e : Gear} (s : ForwardSink e) (x : SinkResult × ForwardSink e) : Type 0 where
  pub version :
      (x.1.version ≡ s.version) ⊎ (s.version ≡ 3) × (s.raw_serial ≡ false) × (x.1.version ≡ 2)
  pub serial : x.1.raw_serial ≡ s.raw_serial
  pub kept : ((x.0 ≡ done) × ((c : Connection) × (x.1.conn ≡ some c))) ⊎ (x.1.conn ≡ s.conn)

-- The same version, and only where it worked another connection.
record Same {e : Gear} (s : ForwardSink e) (x : SinkResult × ForwardSink e) : Type 0 where
  version : x.1.version ≡ s.version
  serial : x.1.raw_serial ≡ s.raw_serial
  kept : ((x.0 ≡ done) × ((c : Connection) × (x.1.conn ≡ some c))) ⊎ (x.1.conn ≡ s.conn)

module _ {e : Gear} where
  report-Same : (m : Option Bytes) (c : Connection) (s : ForwardSink e) → Same s (report e m c s)
  report-Same none c s = record { version = refl; serial = refl; kept = inl (refl, (c, refl)) }
  report-Same (some message) c s = go (send message c)
    where
      go : (x : SinkResult × Connection) → Same s (reported e x s)
      go (done, c') = record { version = refl; serial = refl; kept = inl (refl, (c', refl)) }
      go (refused why, c') = record { version = refl; serial = refl; kept = inr refl }

  if-Same :
      (b : Bool) (s : ForwardSink e) (x y : SinkResult × ForwardSink e)
      → Same s x
      → Same s y
      → Same s (if b then x else y)
  if-Same true s x y h h' = h
  if-Same false s x y h h' = h'

  settle-Same :
      (c : Connection) (ack : HelloAck e.ingest.Assignment) (s : ForwardSink e)
      → Same s (settle e c ack s)
  unfolding settle
  settle-Same c ack s =
      let pulled = e.lines.pull ack.assignments s.lines c in
      let told = record s { lines = (e.lines.status_message pulled.0).1 } in
      let r = report-Same (e.lines.status_message pulled.0).0 pulled.1 told in
      if-Same (s.version == 3) s _ _
        (record { version = r.version; serial = r.serial; kept = r.kept })
        (record { version = refl; serial = refl; kept = inl (refl, (c, refl)) })

  admitted-Same : (x : Greeting e) (s : ForwardSink e) → Same s (admitted e x s)
  unfolding admitted
  admitted-Same (fails why) s = record { version = refl; serial = refl; kept = inr refl }
  admitted-Same (works (c, ack)) s =
      if-Same (ack.status == e.ingest.hello_ok) s _ _ (settle-Same c ack s)
        (record { version = refl; serial = refl; kept = inr refl })

  -- A handshake takes a dial, and leaves the rest as it is.
  record Dialled (s t : ForwardSink e) : Type 0 where
    version : t.version ≡ s.version
    serial : t.raw_serial ≡ s.raw_serial
    conn : t.conn ≡ s.conn

  dialled-Dialled :
      (dials : List (Option Stream)) (s : ForwardSink e) → Dialled s (dialled e dials s).1
  dialled-Dialled [] s = record { version = refl; serial = refl; conn = refl }
  dialled-Dialled (none ∷ rest) s = record { version = refl; serial = refl; conn = refl }
  dialled-Dialled (some stream ∷ rest) s = record { version = refl; serial = refl; conn = refl }

  handshake-Dialled : (s : ForwardSink e) → Dialled s (handshake e s).1
  unfolding handshake
  handshake-Dialled s = dialled-Dialled s.dials s

  may_fall_back_lem :
      (ack : HelloAck e.ingest.Assignment) (s : ForwardSink e)
      → may_fall_back e ack s ≡ true
      → (s.version ≡ 3) × (s.raw_serial ≡ false)
  unfolding may_fall_back
  may_fall_back_lem ack s h = ground arith

  second-Same : (x : Greeting e × ForwardSink e) → Same x.1 (second e x)
  unfolding second
  second-Same (greeting, s) = admitted-Same greeting s

  Same-Connected :
      (s t : ForwardSink e) (x : SinkResult × ForwardSink e)
      → Dialled s t
      → Same t x
      → Connected s x
  Same-Connected s t x d h = record {
    version = inl (h.version ∙ d.version);
    serial = h.serial ∙ d.serial;
    kept = elim h.kept [ inl new ↦ inl new | inr same ↦ inr (same ∙ d.conn) ];
  }

  if-Connected :
      (b : Bool) (s : ForwardSink e) (x y : SinkResult × ForwardSink e)
      → (b ≡ true → Connected s x)
      → Connected s y
      → Connected s (if b then x else y)
  if-Connected true s x y h h' = h refl
  if-Connected false s x y h h' = h'

  first-Connected :
      (s : ForwardSink e) (x : Greeting e × ForwardSink e) → Dialled s x.1 → Connected s (first e x)
  unfolding first
  first-Connected s (fails why, t) d = record {
    version = inl d.version;
    serial = d.serial;
    kept = inr d.conn;
  }
  first-Connected s (works (c, ack), t) d =
      if-Connected (may_fall_back e ack t) s _ _
        (λ falls.
          let (three, none_serial) = may_fall_back_lem ack t falls in
          let older = record t { version = 2 } in
          let again = handshake-Dialled older in
          let last = second-Same (handshake e older) in
          record {
            version =
                inr
                  (sym d.version ∙ three, sym d.serial ∙ none_serial, last.version ∙ again.version);
            serial = last.serial ∙ again.serial ∙ d.serial;
            kept = elim last.kept [
              | inl new ↦ inl new
              | inr same ↦ inr (same ∙ again.conn ∙ d.conn)
            ];
          })
        (Same-Connected s t _ d (admitted-Same (works (c, ack)) t))

  -- However the gateway answers, a connect keeps the protocol version or goes from 3 to 2, the
  -- latter never with a raw serial line, which version 2 cannot carry; and it replaces the
  -- connection only where it works.
  pub connect-Connected : (s : ForwardSink e) → Connected s (connect e s)
  unfolding connect
  connect-Connected s = first-Connected s (handshake e s) (handshake-Dialled s)

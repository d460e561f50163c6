-- ===== src/Examples/Machines.antt =====
-- crates/wiretap-backend/src/ingest/mod.rs: a state machine that follows a script, for examples.
use wire_tap_server.Prelude.{
  ℕ, ◌<◌, ◌≡◌, ◌≢◌, ◌⊎◌, refl, inl, inr, arith, Bool, true, false, List, [], ◌∷◌, Option, none,
  some, length, take, length-take, leb, is_some, sym, ap, ◌∙◌, ◌≤◌, ◌==◌, ==_iff, if◌then◌else◌,
  under_test,
}
use wire_tap_server.Gateway.Interface.{
  Hello, Action, hello_from, hello_refused, batch_in, Machine, MachineLaws,
}

-- What a client says.
pub data Say (H : Type 0) : Type 0 where
  says_hello : Hello → Say H
  says_batch : ℕ → List (ℕ × H) → Say H

pub record Script (H : Type 0) : Type 0 where
  pub said : List (Say H)
  pub accepted : Bool

pub script_hello :
    (status : ℕ) (known : Bool)
    → (if status == 0 then true else known) ≡ true
    → (known ≡ true) ⊎ (status ≡ 0)
script_hello status known =
    under_test (λ b. b ≡ true → (known ≡ true) ⊎ (status ≡ 0)) (status == 0) true known
      (λ z e. inr ((==_iff status 0).0 z)) (λ z e. inl e)

pub far : (a b : ℕ) → a < b → a ≢ b
far a b h e = omega arith

module _ {H : Type 0} (S : Type 0) where
  -- A hello names 255 devices at most; a batch before an accepted hello is dropped.
  abbrev pub polled_script : List (Say H) → Bool → Option (Action H S) × Script H
  polled_script [] known = (none, record { said = []; accepted = known })
  polled_script (says_hello h ∷ rest) known = (
    some (hello_from (record h { devices = take 255 h.devices })),
    record { said = rest; accepted = known },
  )
  polled_script (says_batch seq records ∷ rest) true =
      (some (batch_in seq records), record { said = rest; accepted = true })
  polled_script (says_batch seq records ∷ rest) false =
      (none, record { said = rest; accepted = false })

  pub script_owed :
      (said : List (Say H)) (known : Bool) (a : Action H S)
      → (polled_script said known).0 ≡ some a
      → length (polled_script said known).1.said < length said
  script_owed [] known a e = absurd cc
  script_owed (says_hello h ∷ rest) known a e = omega arith
  script_owed (says_batch seq records ∷ rest) true a e = omega arith
  script_owed (says_batch seq records ∷ rest) false a e = omega arith

  pub script_accepted :
      (said : List (Say H)) (known : Bool) → (polled_script said known).1.accepted ≡ known
  script_accepted [] known = refl
  script_accepted (says_hello h ∷ rest) known = refl
  script_accepted (says_batch seq records ∷ rest) true = refl
  script_accepted (says_batch seq records ∷ rest) false = refl

  pub script_batch :
      (said : List (Say H)) (known : Bool) (seq : ℕ) (records : List (ℕ × H))
      → (polled_script said known).0 ≡ some (batch_in seq records)
      → known ≡ true
  script_batch [] known seq records e = absurd cc
  script_batch (says_hello h ∷ rest) known seq records e = absurd cc
  script_batch (says_batch seq' records' ∷ rest) true seq records e = refl
  script_batch (says_batch seq' records' ∷ rest) false seq records e = absurd cc

  pub script_refused :
      (said : List (Say H)) (known : Bool) (status : ℕ)
      → (polled_script said known).0 ≡ some (hello_refused status)
      → status ≢ 0
  script_refused [] known status e = absurd cc
  script_refused (says_hello h ∷ rest) known status e = absurd cc
  script_refused (says_batch seq' records' ∷ rest) true status e = absurd cc
  script_refused (says_batch seq' records' ∷ rest) false status e = absurd cc

  pub script_devices :
      (said : List (Say H)) (known : Bool) (h : Hello)
      → (polled_script said known).0 ≡ some (hello_from h)
      → length h.devices ≤ 255
  script_devices [] known h e = absurd cc
  script_devices (says_hello x ∷ rest) known h e =
      let same : record x { devices = take 255 x.devices } ≡ h = cc in
      let cut = length-take 255 x.devices in
      let sized : length (take 255 x.devices) ≡ length h.devices =
        ap (λ (y : Hello). length y.devices) same in
      omega arith
  script_devices (says_batch seq' records' ∷ rest) true h e = absurd cc
  script_devices (says_batch seq' records' ∷ rest) false h e = absurd cc

pub short :
    {B : Type 0} (n : ℕ) (b : B) → n ≤ 255 → is_some (if leb n 255 then some b else none) ≡ true
short n b few =
    under_test (λ o. is_some o ≡ true) (leb n 255) (some b) none (λ t. refl) (λ t. over n few t)
  where
    over : (n : ℕ) → n ≤ 255 → leb n 255 ≡ false → false ≡ true
    over n few t = ground arith

pub answered_script :
    {H : Type 0} (fits : Bool) (status : ℕ) (s t : Script H) (bytes : List ℕ)
    → ◌≡◌ {A = Option (List ℕ × Script H)}
        (if fits
          then some (status ∷ [], record s { accepted = if status == 0 then true else s.accepted })
          else none)
        (some (bytes, t))
    → (length t.said ≡ length s.said) × (t.accepted ≡ true → (s.accepted ≡ true) ⊎ (status ≡ 0))
answered_script false status s t bytes e = absurd cc
answered_script true status s t bytes e =
    let same : record s { accepted = if status == 0 then true else s.accepted } ≡ t = cc in
    (
      sym (ap (λ z. length z.said) same),
      λ a. script_hello status s.accepted (ap (λ z. z.accepted) same ∙ a),
    )

module _ {H A S : Type 0} where
  abbrev pub script_machine : Machine H A S
  script_machine = record {
    State = Script H;
    receive = λ bytes s. s;
    close_reassigned = λ s. s;
    poll = λ s. polled_script S s.said s.accepted;
    answer_hello = λ status now as_given s.
        if leb (length as_given) 255
        then some (status ∷ [], record s { accepted = if status == 0 then true else s.accepted })
        else none;
    ack = λ seq status pct s. (seq ∷ status ∷ pct ∷ [], s);
    answer_catalogue = λ answer s. ([], s);
    hello_ok = 0;
    hello_bad_auth = 1;
    hello_bad_database = 2;
    hello_unavailable = 3;
    ack_ok = 0;
    ack_malformed = 1;
    ack_overloaded = 2;
    catalogue_unknown = 1;
    catalogue_unavailable = 2;
  }

  abbrev pub script_laws : MachineLaws script_machine
  script_laws = record {
    ok_auth = far 0 1 (omega arith);
    ok_database = far 0 2 (omega arith);
    ok_unavailable = far 0 3 (omega arith);
    ok_malformed = far 0 1 (omega arith);
    ok_overloaded = far 0 2 (omega arith);
    owed = λ s. length s.said;
    accepted = λ s. s.accepted;
    poll_owed = λ s. script_owed S s.said s.accepted;
    poll_accepted = λ s. script_accepted S s.said s.accepted;
    batch_accepted = λ s. script_batch S s.said s.accepted;
    refused_status = λ s. script_refused S s.said s.accepted;
    hello_owed = λ status now as_given s t bytes e.
        (answered_script (leb (length as_given) 255) status s t bytes e).0;
    hello_accepted = λ status now as_given s t bytes e.
        (answered_script (leb (length as_given) 255) status s t bytes e).1;
    hello_fits = λ status now as_given s few. short (length as_given) _ few;
    hello_devices = λ s h. script_devices S s.said s.accepted h;
    ack_owed = λ seq status pct s. refl;
    ack_accepted = λ seq status pct s. refl;
    catalogue_owed = λ answer s. refl;
    catalogue_accepted = λ answer s. refl;
    receive_accepted = λ bytes s. refl;
    reassigned_accepted = λ s. refl;
  }

-- ===== src/Gateway/Registry.antt =====
-- crates/wiretap-backend/src/ingest/mod.rs: each live session has an id of its own, and belongs to
-- the connection that opened it.
use wire_tap_server.Prelude.{
  ℕ, ◌+◌, ◌<◌, ◌≤◌, ◌≡◌, refl, true, List, [], ◌∷◌, All, ◌==◌, Bool-cases, inl, inr, arith,
  if◌then◌else◌,
}
use wire_tap_server.Model.{Text}
use wire_tap_server.Gateway.Sessions.{
  Live, Device, Sessions, IngestSessionInfo, without_id, open_session, count_batch, update_id,
}

-- The ids of a connection's sessions.
abbrev pub tagged : ℕ → List (ℕ × Live) → List ℕ
tagged tag [] = []
tagged tag ((i, x) ∷ rest) = if x.reassigned == tag then i ∷ tagged tag rest else tagged tag rest

abbrev pub drop_id : ℕ → List ℕ → List ℕ
drop_id id [] = []
drop_id id (i ∷ is) = if i == id then drop_id id is else i ∷ drop_id id is

-- Every id was given out.
abbrev pub Below : Sessions → Type 0
Below s = All (λ e. e.0 < s.next_id) s.inner

pub tagged-without_id :
    (tag id : ℕ) (m : List (ℕ × Live)) → tagged tag (without_id id m) ≡ drop_id id (tagged tag m)
tagged-without_id tag id [] = refl
tagged-without_id tag id ((i, x) ∷ rest) = ground (arith, tagged-without_id tag id rest)

pub without_id-All :
    (n id : ℕ) (m : List (ℕ × Live)) → All (λ e. e.0 < n) m → All (λ e. e.0 < n) (without_id id m)
without_id-All n id [] h = tt
without_id-All n id ((i, x) ∷ rest) (h, hs) = elim (Bool-cases (i == id)) [
  | inl e ↦ rw e (without_id-All n id rest hs)
  | inr e ↦ rw e (h, without_id-All n id rest hs)
]

All-later : (n k : ℕ) (m : List (ℕ × Live)) → n ≤ k → All (λ e. e.0 < n) m → All (λ e. e.0 < k) m
All-later n k [] le h = tt
All-later n k ((i, x) ∷ rest) le (h, hs) = (omega arith, All-later n k rest le hs)

-- An id that was not given out is none of the map's.
without_new : (n : ℕ) (m : List (ℕ × Live)) → All (λ e. e.0 < n) m → without_id n m ≡ m
without_new n [] h = refl
without_new n ((i, x) ∷ rest) (h, hs) = ground (arith, without_new n rest hs)

pub tagged-All :
    (tag n : ℕ) (m : List (ℕ × Live)) → All (λ e. e.0 < n) m → All (λ i. i < n) (tagged tag m)
tagged-All tag n [] h = tt
tagged-All tag n ((i, x) ∷ rest) (h, hs) = elim (Bool-cases (x.reassigned == tag)) [
  | inl e ↦ rw e (h, tagged-All tag n rest hs)
  | inr e ↦ rw e (tagged-All tag n rest hs)
]

pub open_session-Below :
    (info : IngestSessionInfo) (daemon_id : Text) (devices : List Device) (tag : ℕ) (s : Sessions)
    → Below s
    → Below (open_session info daemon_id devices tag s).1
unfolding open_session
open_session-Below info daemon_id devices tag s h = (
  omega arith,
  rw (without_new s.next_id s.inner h)
      (All-later s.next_id (s.next_id + 1) s.inner (omega arith) h),
)

pub tagged-open_session :
    (info : IngestSessionInfo) (daemon_id : Text) (devices : List Device) (tag : ℕ) (s : Sessions)
    → Below s
    → tagged tag (open_session info daemon_id devices tag s).1.inner
      ≡ s.next_id ∷ tagged tag s.inner
unfolding open_session
tagged-open_session info daemon_id devices tag s h =
    rw (without_new s.next_id s.inner h, same tag) refl
  where
    same : (n : ℕ) → (n == n) ≡ true
    same n = ground arith

pub update_id-tagged :
    (tag n id : ℕ) (m : List (ℕ × Live))
    → tagged tag (update_id (count_batch n) id m) ≡ tagged tag m
update_id-tagged tag n id [] = refl
update_id-tagged tag n id ((i, x) ∷ rest) = ground (arith, update_id-tagged tag n id rest)

pub update_id-All :
    (k n id : ℕ) (m : List (ℕ × Live))
    → All (λ e. e.0 < k) m
    → All (λ e. e.0 < k) (update_id (count_batch n) id m)
update_id-All k n id [] h = tt
update_id-All k n id ((i, x) ∷ rest) (h, hs) = elim (Bool-cases (i == id)) [
  | inl e ↦ rw e (h, hs)
  | inr e ↦ rw e (h, update_id-All k n id rest hs)
]

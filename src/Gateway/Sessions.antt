-- ===== src/Gateway/Sessions.antt =====
-- crates/wiretap-backend/src/ingest/mod.rs: the live sessions.
use wire_tap_server.Prelude.{
  ℕ, ◌+◌, ◌&&◌, Bool, List, [], ◌∷◌, ◌++◌, map, Option, none, some, length, any, ◌==◌,
  if◌then◌else◌,
}
use wire_tap_server.Model.{Text, same_text}

pub record IngestSessionInfo : Type 0 where
  pub peer : Text
  pub key_name : Text
  pub database : Text
  pub protocol_version : ℕ
  pub frames : ℕ
  pub batches : ℕ
  pub connected_at : ℕ

-- `reassigned` is the connection whose `Notify` the session shares.
pub record Live : Type 0 where
  pub info : IngestSessionInfo
  pub daemon_id : Text
  pub interfaces : List Text
  pub reassigned : ℕ

-- `Device`, as the protocol names it.
pub record Device : Type 0 where
  pub bus : ℕ
  pub name : Text

-- `told` has the connections that `notify_one` was called for.
pub record Sessions : Type 0 where
  pub inner : List (ℕ × Live)
  pub next_id : ℕ
  pub told : List ℕ

abbrev pub entry : ℕ → List (ℕ × Live) → Option Live
entry id [] = none
entry id ((i, x) ∷ rest) = if i == id then some x else entry id rest

abbrev pub without_id : ℕ → List (ℕ × Live) → List (ℕ × Live)
without_id id [] = []
without_id id ((i, x) ∷ rest) = if i == id then without_id id rest else (i, x) ∷ without_id id rest

-- `insert` of a `HashMap`.
abbrev pub with_id : ℕ → Live → List (ℕ × Live) → List (ℕ × Live)
with_id id x m = (id, x) ∷ without_id id m

unfoldable pub list_live : Sessions → List IngestSessionInfo
list_live s = map (λ e. e.1.info) s.inner

unfoldable pub open_session : IngestSessionInfo → Text → List Device → ℕ → Sessions → ℕ × Sessions
open_session info daemon_id devices reassigned s =
    let live : Live = record {
      info = info;
      daemon_id = daemon_id;
      interfaces = map (λ d. d.name) devices;
      reassigned = reassigned;
    } in
    (s.next_id, record s { next_id = s.next_id + 1; inner = with_id s.next_id live s.inner })

unfoldable pub close_session : ℕ → Sessions → Sessions
close_session id s = record s { inner = without_id id s.inner }

abbrev pub affects : Text → Text → Live → Bool
affects daemon_id interface l =
    same_text l.daemon_id daemon_id && any (λ i. same_text i interface) l.interfaces

abbrev pub affected : Text → Text → List (ℕ × Live) → List ℕ
affected daemon_id interface [] = []
affected daemon_id interface ((i, x) ∷ rest) =
    let others = affected daemon_id interface rest in
    if affects daemon_id interface x then x.reassigned ∷ others else others

unfoldable pub reassign : Text → Text → Sessions → ℕ × Sessions
reassign daemon_id interface s =
    let told = affected daemon_id interface s.inner in
    (length told, record s { told = told ++ s.told })

-- The counters of a session that has stored a batch.
abbrev pub count_batch : ℕ → Live → Live
count_batch frames l = record l {
  info = record (l.info) { frames = l.info.frames + frames; batches = l.info.batches + 1 };
}

abbrev pub update_id : (Live → Live) → ℕ → List (ℕ × Live) → List (ℕ × Live)
update_id f id [] = []
update_id f id ((i, x) ∷ rest) = if i == id then (i, f x) ∷ rest else (i, x) ∷ update_id f id rest

unfoldable pub stored_batch : ℕ → ℕ → Sessions → Sessions
stored_batch id frames s = record s { inner = update_id (count_batch frames) id s.inner }

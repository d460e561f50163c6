-- ===== src/Gateway/Offered.antt =====
-- crates/wiretap-backend/src/ingest/mod.rs: an accepted hello is given one assignment a device at most.
use wire_tap_server.Prelude.{
  ℕ, ◌≤◌, ◌≡◌, refl, ◌⊎◌, inl, inr, Bool, true, false, List, [], ◌∷◌, Option, none, some, length,
  arith, both_branches,
}
use wire_tap_server.Model.{Text}
use wire_tap_server.Gateway.Databases.{DbResult, fine, db_error, refused, unavailable}
use wire_tap_server.Gateway.Keys.{KeyInfo, KeyStore, allows_ingest}
use wire_tap_server.Gateway.Interface.{Hello, CatalogLaws}
use wire_tap_server.Gateway.Hello.{
  Gear, IngestServer, Verdict, accepted, rejected, assigned, hello_recorded, daemon_hello,
  assignments, assignments_of, ensured, chosen, known, validated, handle_hello,
}

module _ (g : Gear) where
  abbrev pub Fits : Hello → Verdict g → Type 0
  Fits h (accepted session as_given) = length as_given ≤ length h.devices
  Fits h (rejected status) = Unit

module _ (g : Gear) (k : CatalogLaws g.catalog) (now : ℕ) (h : Hello) (peer : Text) (tag : ℕ) where
  assigned-few :
      (x : Option (List g.catalog.Assignment) × g.catalog.State) (s : g.catalog.State)
      → g.catalog.assignments_for h.daemon_id h.devices s ≡ x
      → length (assigned g x).0 ≤ length h.devices
  assigned-few (none, t) s e = omega arith
  assigned-few (some as_given, t) s e = k.one_each h.daemon_id h.devices s t as_given e

  recorded-few : (x : Bool × g.catalog.State) → length (hello_recorded g h x).0 ≤ length h.devices
  recorded-few (false, s) = omega arith
  recorded-few (true, s) = assigned-few (g.catalog.assignments_for h.daemon_id h.devices s) s refl

  daemon-few :
      (database : Text) (s : g.catalog.State)
      → length (daemon_hello g h database s).0 ≤ length h.devices
  unfolding daemon_hello
  daemon-few database s = recorded-few (g.catalog.record_hello h.daemon_id database h.devices s)

  assignments-few :
      (database : Text) (s : g.catalog.State)
      → length (assignments g h database s).0 ≤ length h.devices
  assignments-few database s = by_daemon h.daemon_id
    where
      by_daemon :
          (daemon : Text) → length (assignments_of g daemon h database s).0 ≤ length h.devices
      by_daemon [] = omega arith
      by_daemon (c ∷ cs) = daemon-few database s

  ensured-Fits :
      (info : KeyInfo) (database : Text) (r : DbResult (Unit {0}) × g.capture.State)
      (s : IngestServer g)
      → Fits g h (ensured g now h peer tag info database r s).0
  ensured-Fits info database (db_error refused, d) s = tt
  ensured-Fits info database (db_error unavailable, d) s = tt
  ensured-Fits info database (fine done, d) s = assignments-few database s.catalogs

  chosen-Fits :
      (info : KeyInfo) (r : ℕ ⊎ Text) (s : IngestServer g)
      → Fits g h (chosen g now h peer tag info r s).0
  chosen-Fits info (inl status) s = tt
  chosen-Fits info (inr database) s = ensured-Fits info database _ s

  known-Fits : (info : KeyInfo) (s : IngestServer g) → Fits g h (known g now h peer tag info s).0
  known-Fits info s =
      both_branches (λ (r : Verdict g × IngestServer g). Fits g h r.0) (allows_ingest info.role) _ _
        (chosen-Fits info _ s) tt

  validated-Fits :
      (r : Option (Option KeyInfo) × KeyStore g.key) (s : IngestServer g)
      → Fits g h (validated g now h peer tag r s).0
  validated-Fits (none, x) s = tt
  validated-Fits (some none, x) s = tt
  validated-Fits (some (some info), x) s = known-Fits info _

pub handle_hello-Fits :
    (g : Gear) (k : CatalogLaws g.catalog) (now : ℕ) (h : Hello) (ip : ℕ) (peer : Text) (tag : ℕ)
    (s : IngestServer g)
    → Fits g h (handle_hello g now h ip peer tag s).0
unfolding handle_hello
handle_hello-Fits g k now h ip peer tag s = validated-Fits g k now h peer tag _ s

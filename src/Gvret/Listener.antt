-- ===== src/Gvret/Listener.antt =====
-- crates/wiretap-server/src/gvret.rs: `Server::run`, who may connect.
use wire_tap_server.Prelude.{ℕ, Bool, false, List, [], ◌∷◌, length, any, ◌==◌, if◌then◌else◌}
use wire_tap_server.Cidr.Range.{IpAddr, v4, v6, Cidr, contains}

-- `REFUSED_REMEMBERED`.
abbrev pub refused_remembered : ℕ
refused_remembered = 1024

abbrev pub same_address : IpAddr → IpAddr → Bool
same_address (v4 a) (v4 b) = a == b
same_address (v4 a) (v6 b) = false
same_address (v6 a) (v4 b) = false
same_address (v6 a) (v6 b) = a == b

-- What `accept` gives.
pub data Accepted : Type 0 where
  accept_failed : Accepted
  peer_at : IpAddr → Accepted

-- `warned` has the refusals that were logged, and `started` the clients that were given a task.
pub record Server : Type 0 where
  pub allowed : List Cidr
  pub refused : List IpAddr
  pub warned : List IpAddr
  pub started : List IpAddr

abbrev pub remembered : List IpAddr → List IpAddr
remembered refused = if length refused == refused_remembered then [] else refused

-- `insert` of a `HashSet`, and the warning where it is new.
abbrev pub refuse : IpAddr → List IpAddr → Server → Server
refuse peer refused s =
    if any (same_address peer) refused
    then record s { refused = refused }
    else record s { refused = peer ∷ refused; warned = peer ∷ s.warned }

unfoldable pub accept : Accepted → Server → Server
accept accept_failed s = s
accept (peer_at peer) s =
    if any (λ n. contains n peer) s.allowed
    then record s { started = peer ∷ s.started }
    else refuse peer (remembered s.refused) s

unfoldable pub run : List Accepted → Server → Server
run [] s = s
run (a ∷ rest) s = run rest (accept a s)

-- ===== src/Gvret/Refused.antt =====
-- crates/wiretap-server/src/gvret.rs: the refused addresses that are remembered, and who is served.
use wire_tap_server.Prelude.{
  ℕ, ◌≤◌, ◌<◌, ◌≡◌, arith, true, false, List, [], ◌∷◌, length, any, All, ◌==◌, under_test,
}
use wire_tap_server.Cidr.Range.{IpAddr, contains}
use wire_tap_server.Gvret.Listener.{
  refused_remembered, same_address, Accepted, accept_failed, peer_at, Server, remembered, refuse,
  accept, run,
}

-- No address twice.
abbrev pub Once : List IpAddr → Type 0
Once [] = Unit
Once (a ∷ rest) = (any (same_address a) rest ≡ false) × Once rest

-- The remembered addresses differ, are bounded, and every client that was started was allowed.
pub record Guarded (s : Server) : Type 0 where
  pub bounded : length s.refused ≤ refused_remembered
  pub once : Once s.refused
  pub served : All (λ peer. any (λ n. contains n peer) s.allowed ≡ true) s.started

-- Room for one more.
remembered-bound :
    (refused : List IpAddr)
    → length refused ≤ refused_remembered
    → Once refused
    → (length (remembered refused) < refused_remembered) × Once (remembered refused)
remembered-bound refused h o =
    under_test (λ r. (length r < refused_remembered) × Once r)
      (length refused == refused_remembered) _ _ (λ full. (omega arith, tt))
      (λ other. (below (length refused) h other, o))
  where
    below : (n : ℕ) → n ≤ 1024 → (n == 1024) ≡ false → n < 1024
    below n h e = ground arith

refuse-Guarded :
    (peer : IpAddr) (refused : List IpAddr) (s : Server)
    → length refused < refused_remembered
    → Once refused
    → Guarded s
    → Guarded (refuse peer refused s)
refuse-Guarded peer refused s h o g =
    under_test Guarded (any (same_address peer) refused) _ _
      (λ seen. record { bounded = omega arith; once = o; served = g.served })
      (λ new. record { bounded = omega arith; once = (new, o); served = g.served })

accept-Guarded : (a : Accepted) (s : Server) → Guarded s → Guarded (accept a s)
unfolding accept
accept-Guarded accept_failed s g = g
accept-Guarded (peer_at peer) s g =
    let (room, o) = remembered-bound s.refused g.bounded g.once in
    under_test Guarded (any (λ n. contains n peer) s.allowed) _ _
      (λ may. record { bounded = g.bounded; once = g.once; served = (may, g.served) })
      (λ not_allowed. refuse-Guarded peer (remembered s.refused) s room o g)

-- Whoever connects: at most 1024 refused addresses are remembered, none of them twice, and only a client whose address a configured range holds is served.
pub run-Guarded : (as_given : List Accepted) (s : Server) → Guarded s → Guarded (run as_given s)
unfolding run
run-Guarded [] s g = g
run-Guarded (a ∷ rest) s g = run-Guarded rest (accept a s) (accept-Guarded a s g)

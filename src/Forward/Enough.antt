-- ===== src/Forward/Enough.antt =====
-- crates/wiretap-server/src/forward.rs: `recv` ends.
use wire_tap_server.Prelude.{
  ℕ, zero, suc, ◌+◌, ◌<◌, ◌≡◌, ◌≢◌, not, both_branches, refl, ap, List, [], ◌∷◌, ◌++◌, Option, none,
  some, length, arith, length-append, if◌then◌else◌, ◌==◌,
}
use wire_tap_server.Forward.Interface.{
  Bytes, WireFrame, Taken, malformed, incomplete, frame, Ingest, IngestLaws, Connection,
}
use wire_tap_server.Forward.Receive.{
  Received, got, broken_off, out_of_rounds, checked, look, or_read, receive_from, recv_any, unread,
  pending, skip, recv_rounds, recv,
}

module _ {i : Ingest} (k : IngestLaws i) where
  -- A message that is taken leaves fewer than `n` bytes.
  abbrev Shrinks : ℕ → Received × Bytes × List (Option Bytes) → Type 0
  Shrinks n x = (f : WireFrame) → x.0 ≡ got f → length x.1 + unread i x.2 < n

  or_read-Shrinks :
      (t : Taken) (rx : Bytes) (more : Received × Bytes × List (Option Bytes))
      (reads : List (Option Bytes))
      → i.take_frame rx ≡ t
      → Shrinks (length rx + unread i reads) more
      → Shrinks (length rx + unread i reads) (or_read i (look i t rx) more reads)
  or_read-Shrinks malformed rx more reads e h f q = cc
  or_read-Shrinks (frame m rest) rx more reads e h f q =
      let less = k.takes rx rest m e in omega arith
  or_read-Shrinks incomplete rx more reads e h f q = h f q

  receive_from-Shrinks :
      (reads : List (Option Bytes)) (rx : Bytes)
      → Shrinks (length rx + unread i reads) (receive_from i reads rx)
  unfolding receive_from
  receive_from-Shrinks [] rx = or_read-Shrinks (i.take_frame rx) rx _ [] refl (λ f q. cc)
  receive_from-Shrinks (none ∷ reads) rx =
      or_read-Shrinks (i.take_frame rx) rx _ (none ∷ reads) refl (λ f q. cc)
  receive_from-Shrinks (some [] ∷ reads) rx =
      or_read-Shrinks (i.take_frame rx) rx _ (some [] ∷ reads) refl (λ f q. cc)
  receive_from-Shrinks (some (b ∷ bs) ∷ reads) rx =
      or_read-Shrinks (i.take_frame rx) rx _ (some (b ∷ bs) ∷ reads) refl (λ f q.
        let less = receive_from-Shrinks reads (rx ++ (b ∷ bs)) f q in
        omega (arith, length-append rx (b ∷ bs)))

  skip-same :
      (x : Received × Connection) (p q : Connection → Received × Connection)
      → ((f : WireFrame) → x.0 ≡ got f → p x.1 ≡ q x.1)
      → skip i x p ≡ skip i x q
  skip-same (broken_off e, c) p q h = refl
  skip-same (out_of_rounds, c) p q h = refl
  skip-same (got f, c) p q h =
      ap (λ z. if f.mtype == i.msg_catalogue then z else (got f, c)) (h f refl)

  recv_rounds-enough :
      (n m : ℕ) (c : Connection)
      → pending i c < n
      → pending i c < m
      → recv_rounds i n c ≡ recv_rounds i m c
  unfolding recv_rounds recv_any
  recv_rounds-enough zero m c h h' = absurd (omega arith)
  recv_rounds-enough (suc n) zero c h h' = absurd (omega arith)
  recv_rounds-enough (suc n) (suc m) c h h' =
      skip-same (recv_any i c) (recv_rounds i n) (recv_rounds i m) (λ f q.
        let less = receive_from-Shrinks c.stream.reads c.rx f q in
        recv_rounds-enough n m (recv_any i c).1 (omega arith) (omega arith))

  abbrev Ends : Received × Connection → Type 0
  Ends x = x.0 ≢ out_of_rounds

  skip-Ends :
      (x : Received × Connection) (next : Connection → Received × Connection)
      → Ends x
      → ((f : WireFrame) → x.0 ≡ got f → Ends (next x.1))
      → Ends (skip i x next)
  skip-Ends (broken_off e, c) next h on = λ q. absurd cc
  skip-Ends (out_of_rounds, c) next h on = h
  skip-Ends (got f, c) next h on =
      both_branches Ends (f.mtype == i.msg_catalogue) (next c) (got f, c) (on f refl) h

  or_read-Ends :
      (t : Taken) (rx : Bytes) (more : Received × Bytes × List (Option Bytes))
      (reads : List (Option Bytes))
      → more.0 ≢ out_of_rounds
      → (or_read i (look i t rx) more reads).0 ≢ out_of_rounds
  or_read-Ends malformed rx more reads h = λ q. absurd cc
  or_read-Ends (frame m rest) rx more reads h = checked_ends
    where
      checked_ends : checked i m ≢ out_of_rounds
      checked_ends =
          both_branches (λ (x : Received). x ≢ out_of_rounds) (not m.crc_ok) _ _ (λ q. absurd cc)
            (both_branches (λ (x : Received). x ≢ out_of_rounds) (m.mtype == i.msg_close) _ _
              (λ q. absurd cc) (λ q. absurd cc))
  or_read-Ends incomplete rx more reads h = h

  receive_from-Ends :
      (reads : List (Option Bytes)) (rx : Bytes) → (receive_from i reads rx).0 ≢ out_of_rounds
  unfolding receive_from
  receive_from-Ends [] rx = or_read-Ends (i.take_frame rx) rx _ [] (λ q. absurd cc)
  receive_from-Ends (none ∷ reads) rx =
      or_read-Ends (i.take_frame rx) rx _ (none ∷ reads) (λ q. absurd cc)
  receive_from-Ends (some [] ∷ reads) rx =
      or_read-Ends (i.take_frame rx) rx _ (some [] ∷ reads) (λ q. absurd cc)
  receive_from-Ends (some (b ∷ bs) ∷ reads) rx =
      or_read-Ends (i.take_frame rx) rx _ (some (b ∷ bs) ∷ reads)
        (receive_from-Ends reads (rx ++ (b ∷ bs)))

  recv_rounds-Ends : (n : ℕ) (c : Connection) → pending i c < n → Ends (recv_rounds i n c)
  unfolding recv_rounds recv_any
  recv_rounds-Ends zero c h = absurd (omega arith)
  recv_rounds-Ends (suc n) c h =
      skip-Ends (recv_any i c) (recv_rounds i n) (receive_from-Ends c.stream.reads c.rx) (λ f q.
        let less = receive_from-Shrinks c.stream.reads c.rx f q in
        recv_rounds-Ends n (recv_any i c).1 (omega arith))

  -- `recv` ends with a reply or an error of the connection, never for want of a round, and any number of rounds beyond the bytes that are yet to come gives the same.
  pub recv-enough :
      (n : ℕ) (c : Connection)
      → pending i c < n
      → ((recv i c).0 ≢ out_of_rounds) × (recv_rounds i n c ≡ recv i c)
  unfolding recv
  recv-enough n c h = (
    recv_rounds-Ends (suc (pending i c)) c (omega arith),
    recv_rounds-enough n (suc (pending i c)) c h (omega arith),
  )

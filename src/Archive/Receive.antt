-- ===== src/Archive/Receive.antt =====
-- crates/wiretap-server/src/archive.rs: what the worker takes off the queue, in terms of its contents.
use wire_tap_server.Prelude.{
  ℕ, zero, suc, ◌≡◌, refl, sym, ap, ◌∙◌, inl, inr, List, [], ◌∷◌, Option, none, some, arith, length,
  take, drop, take_all, drop_all, Option-cases,
}
use wire_tap_server.Archive.Interface.{Parts, Lawful, head?}
use wire_tap_server.Archive.Worker.{Worker, receive_up_to, keep_frame, take_queued}

head?-none : {A : Type 0} (xs : List A) → head? xs ≡ none → xs ≡ []
head?-none [] e = refl
head?-none (x ∷ xs) e = cc

head?-some : {A : Type 0} {a : A} (xs : List A) → head? xs ≡ some a → xs ≡ a ∷ drop 1 xs
head?-some [] e = cc
head?-some (x ∷ xs) e = ground arith

module _ {A : Type 0} (p : Parts A) where
  keep_frame-none :
      (r : Option A × p.channel.State) (k : p.channel.State → List A × p.channel.State)
      → r.0 ≡ none
      → keep_frame p r k ≡ ([], r.1)
  unfolding keep_frame
  keep_frame-none (none, q) k e = refl
  keep_frame-none (some a, q) k e = cc

  keep_frame-some :
      {a : A} (r : Option A × p.channel.State) (k : p.channel.State → List A × p.channel.State)
      → r.0 ≡ some a
      → keep_frame p r k ≡ (a ∷ (k r.1).0, (k r.1).1)
  unfolding keep_frame
  keep_frame-some (none, q) k e = cc
  keep_frame-some (some a, q) k e = ground arith

module _ {A : Type 0} {p : Parts A} (l : Lawful p) where
  -- `n` calls of `try_recv` at most: a batch is what is first in the queue.
  pub receive_up_to_lem :
      (n : ℕ) (q : p.channel.State)
      → ((receive_up_to p n q).0 ≡ take n (p.channel.contents q))
        × (p.channel.contents (receive_up_to p n q).1 ≡ drop n (p.channel.contents q))
  unfolding receive_up_to
  receive_up_to_lem zero q = (refl, refl)
  receive_up_to_lem (suc n) q = elim (Option-cases (p.channel.try_recv q).0) [
    | inl e ↦
        let gone = head?-none _ (sym (l.queue_laws.try_recv_answer q) ∙ e) in
        let c = rw gone at (l.queue_laws.try_recv_contents q) in
        rw (keep_frame-none p (p.channel.try_recv q) (receive_up_to p n) e, gone) (refl, c)
    | inr (a, e) ↦
        let split = head?-some _ (sym (l.queue_laws.try_recv_answer q) ∙ e) in
        let c = l.queue_laws.try_recv_contents q in
        let (batch, rest) = receive_up_to_lem n (p.channel.try_recv q).1 in
        rw (keep_frame-some p (p.channel.try_recv q) (receive_up_to p n) e, split)
          (ap (λ b. a ∷ b) (batch ∙ ap (take n) c), rest ∙ ap (drop n) c)
  ]

  pub take_queued_lem :
      (w : Worker p)
      → ((take_queued p w).0 ≡ p.channel.contents w.queue)
        × (p.channel.contents (take_queued p w).1.queue ≡ [])
  unfolding take_queued
  take_queued_lem w =
      let (all, left) = receive_up_to_lem (length (p.channel.contents w.queue)) w.queue in
      (
        all
            ∙ take_all (length (p.channel.contents w.queue)) (p.channel.contents w.queue)
                (omega arith),
        left
            ∙ drop_all (length (p.channel.contents w.queue)) (p.channel.contents w.queue)
                (omega arith),
      )

  -- Receiving leaves the channel's end and size alone.
  pub receive_up_to_keeps :
      (n : ℕ) (q : p.channel.State)
      → p.channel.is_closed (receive_up_to p n q).1 ≡ p.channel.is_closed q
  unfolding receive_up_to
  receive_up_to_keeps zero q = refl
  receive_up_to_keeps (suc n) q = elim (Option-cases (p.channel.try_recv q).0) [
    | inl e ↦
        rw (keep_frame-none p (p.channel.try_recv q) (receive_up_to p n) e)
          (l.queue_laws.try_recv_keeps q).0
    | inr (a, e) ↦
        rw (keep_frame-some p (p.channel.try_recv q) (receive_up_to p n) e)
          (receive_up_to_keeps n (p.channel.try_recv q).1 ∙ (l.queue_laws.try_recv_keeps q).0)
  ]

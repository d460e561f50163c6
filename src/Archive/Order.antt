-- ===== src/Archive/Order.antt =====
-- crates/wiretap-server/src/archive.rs: the order of frames across an outage. The frames that the
-- sink has, those on disk, those in the worker's hands and those queued are one sequence.
use wire_tap_server.Prelude.{
  ℕ, ◌+◌, ◌≡◌, ◌≢◌, refl, sym, ap, ◌∙◌, false, List, [], ◌∷◌, ◌++◌, append-nil, append_assoc, arith,
  length, length-append,
}
use wire_tap_server.Archive.Interface.{Parts, Lawful, Cached, samples, cache_error}
use wire_tap_server.Archive.Handle.{Shared, enqueue, enqueue_all}
use wire_tap_server.Archive.Worker.{Worker, meanwhile}
use wire_tap_server.Archive.Flow.{Admission, accepted, overflowed, too_late, enqueue-Admission}

-- A disk cache that never fills up and never fails.
pub record Reliable {A : Type 0} (p : Parts A) : Type 0 where
  pub has_room : (c : p.cache.State) → p.cache.is_full c ≡ false
  pub appends : (b : List A) (c : p.cache.State) → (p.cache.append b c).0 ≢ cache_error
  pub reads : (n : ℕ) (c : p.cache.State) → p.cache.oldest n c ≢ cache_error
  pub removes : (r : List (Cached A)) (c : p.cache.State) → (p.cache.remove r c).0 ≢ cache_error
  pub counts : (c : p.cache.State) → p.cache.count c ≢ cache_error

-- Which of the frames handed over the queue took, in their order.
pub data Accepts {A : Type 0} : List (ℕ × A) → List A → Type 0 where
  none_left : Accepts [] []
  took :
      {now : ℕ} {a : A} {offers : List (ℕ × A)} {taken : List A}
      → Accepts offers taken
      → Accepts ((now, a) ∷ offers) (a ∷ taken)
  turned_away :
      {o : ℕ × A} {offers : List (ℕ × A)} {taken : List A}
      → Accepts offers taken
      → Accepts (o ∷ offers) taken

pub Accepts-append :
    {A : Type 0} {o o' : List (ℕ × A)} {t t' : List A}
    → Accepts o t
    → Accepts o' t'
    → Accepts (o ++ o') (t ++ t')
Accepts-append none_left b = b
Accepts-append (took a) b = took (Accepts-append a b)
Accepts-append (turned_away a) b = turned_away (Accepts-append a b)

pub Accepts-none : {A : Type 0} (o : List (ℕ × A)) → Accepts o []
Accepts-none [] = none_left
Accepts-none (o ∷ os) = turned_away (Accepts-none os)

-- The whole sequence: stored by the sink, on disk, in hand, queued.
abbrev pub ledger : {A : Type 0} {p : Parts A} → Lawful p → Worker p → List A → List A
ledger {p} l w hand =
    l.sink_laws.archived w.sink
    ++ (samples (l.cache_laws.rows w.cache) ++ (hand ++ p.channel.contents w.queue))

-- From `w` to `w'` the sequence grows at its end by the frames that the queue took.
pub record InOrder {A : Type 0} {p : Parts A} (l : Lawful p) (offers : List (ℕ × A))
    (hand hand' : List A) (w w' : Worker p) : Type 0 where
  pub taken : List A
  pub accepts : Accepts offers taken
  pub order : ledger l w' hand' ≡ ledger l w hand ++ taken
  pub counted : w'.counters.enqueued ≡ w.counters.enqueued + length taken
  pub size : w'.batch_size ≡ w.batch_size

module _ {A : Type 0} {p : Parts A} {l : Lawful p} where
  pub InOrder-trans :
      {o o' : List (ℕ × A)} {h h' h'' : List A} {w w' w'' : Worker p}
      → InOrder l o h h' w w'
      → InOrder l o' h' h'' w' w''
      → InOrder l (o ++ o') h h'' w w''
  InOrder-trans f g = record {
    taken = f.taken ++ g.taken;
    accepts = Accepts-append f.accepts g.accepts;
    order = g.order ∙ ap (λ xs. xs ++ g.taken) f.order ∙ append_assoc _ f.taken g.taken;
    counted = omega (arith, length-append f.taken g.taken);
    size = g.size ∙ f.size;
  }

  -- Frames that could have been handed over before, or after, and were not reached.
  pub InOrder-skip :
      {o : List (ℕ × A)} {h h' : List A} {w w' : Worker p} (before : List (ℕ × A))
      → InOrder l o h h' w w'
      → InOrder l (before ++ o) h h' w w'
  InOrder-skip before f = record {
    taken = f.taken;
    accepts = Accepts-append (Accepts-none before) f.accepts;
    order = f.order;
    counted = f.counted;
    size = f.size;
  }

  pub InOrder-rest :
      {o : List (ℕ × A)} {h h' : List A} {w w' : Worker p} (after : List (ℕ × A))
      → InOrder l o h h' w w'
      → InOrder l (o ++ after) h h' w w'
  InOrder-rest after f = record {
    taken = f.taken;
    accepts = rw append-nil at (Accepts-append f.accepts (Accepts-none after));
    order = f.order;
    counted = f.counted;
    size = f.size;
  }

  -- The sequence stays as it is.
  pub InOrder-still :
      {h h' : List A} (w w' : Worker p)
      → ledger l w' h' ≡ ledger l w h
      → w'.counters.enqueued ≡ w.counters.enqueued
      → w'.batch_size ≡ w.batch_size
      → InOrder l [] h h' w w'
  InOrder-still w w' e c s = record {
    taken = [];
    accepts = none_left;
    order = e ∙ sym (append-nil _);
    counted = omega arith;
    size = s;
  }

  pub InOrder-refl : (h : List A) (w : Worker p) → InOrder l [] h h w w
  InOrder-refl h w = InOrder-still w w refl refl refl

-- A queue's growth by enqueueing.
record Grows {A : Type 0} {p : Parts A} (offers : List (ℕ × A)) (s s' : Shared p) : Type 0 where
  taken : List A
  accepts : Accepts offers taken
  grown : p.channel.contents s'.queue ≡ p.channel.contents s.queue ++ taken
  counted : s'.counters.enqueued ≡ s.counters.enqueued + length taken

module _ {A : Type 0} {p : Parts A} (l : Lawful p) where
  Admission-Grows :
      {now : ℕ} {a : A} {s s' : Shared p} → Admission a s s' → Grows ((now, a) ∷ []) s s'
  Admission-Grows {a} (accepted live room c k) = record {
    taken = a ∷ [];
    accepts = took none_left;
    grown = c;
    counted = rw k (omega arith);
  }
  Admission-Grows (overflowed live room c k) = record {
    taken = [];
    accepts = turned_away none_left;
    grown = c ∙ sym (append-nil _);
    counted = rw k (omega arith);
  }
  Admission-Grows (too_late closed c still k) = record {
    taken = [];
    accepts = turned_away none_left;
    grown = c ∙ sym (append-nil _);
    counted = rw k (omega arith);
  }

  enqueue_all-Grows :
      (arrivals : List (ℕ × A)) (s : Shared p) → Grows arrivals s (enqueue_all p arrivals s)
  unfolding enqueue_all
  enqueue_all-Grows [] s = record {
    taken = [];
    accepts = none_left;
    grown = sym (append-nil _);
    counted = omega arith;
  }
  enqueue_all-Grows ((now, a) ∷ rest) s =
      let f = Admission-Grows {now = now} (enqueue-Admission l now a s) in
      let g = enqueue_all-Grows rest (enqueue p now a s) in
      record {
        taken = f.taken ++ g.taken;
        accepts = Accepts-append f.accepts g.accepts;
        grown = g.grown ∙ ap (λ xs. xs ++ g.taken) f.grown ∙ append_assoc _ f.taken g.taken;
        counted = omega (arith, length-append f.taken g.taken);
      }

  pub meanwhile-InOrder :
      (arrivals : List (ℕ × A)) (hand : List A) (w : Worker p)
      → InOrder l arrivals hand hand w (meanwhile p arrivals w)
  unfolding meanwhile
  meanwhile-InOrder arrivals hand w =
      let g = enqueue_all-Grows arrivals w.shared in
      record {
        taken = g.taken;
        accepts = g.accepts;
        order = rw g.grown (simp append_assoc);
        counted = g.counted;
        size = refl;
      }

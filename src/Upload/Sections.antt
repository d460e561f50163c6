-- ===== src/Upload/Sections.antt =====
-- crates/wiretap-backend/src/archive.rs: `Reader::section`, over an archive that arrives in chunks.
use mathlib.Core.Path.{subst}
use wire_tap_server.Prelude.{
  ℕ, ◌≤◌, ◌≡◌, refl, sym, ap, ◌∙◌, arith, List, [], ◌∷◌, ◌++◌, Option, length, ltb, ltb→lt,
  if◌then◌else◌, under_test,
}
use wire_tap_server.Upload.Reader.{
  Inflater, Reader, Read, fine, bad, from_be_bytes, take_bytes, section_of, section, new_reader,
}
use wire_tap_server.Upload.Coming.{InflaterLaws, going, head, joined, Sent}
use wire_tap_server.Upload.Filling.{Stream, Taken, take_bytes-Taken}

-- `w` is these sections, each behind its length in four bytes and none longer than `most`, and then `rest`.
abbrev pub Framed : ℕ → List (List ℕ) → List ℕ → List ℕ → Type 0
Framed most [] rest w = w ≡ rest
Framed most (bytes ∷ more) rest w =
    (size : List ℕ) × (behind : List ℕ) × (length size ≡ 4)
    × (from_be_bytes size ≡ length bytes)
    × (length bytes ≤ most)
    × (w ≡ size ++ (bytes ++ behind))
    × Framed most more rest behind

module _ (gz : Inflater) where
  -- `section`, called again and again, returns these.
  abbrev pub Yields : ℕ → List (List ℕ) → Reader gz → Type 0
  Yields most [] r = Unit
  Yields most (bytes ∷ more) r =
      (r' : Reader gz) × (section gz most r ≡ fine (bytes, r')) × Yields most more r'

module _ {gz : Inflater} (l : InflaterLaws gz) where
  abbrev pub Found : List ℕ → List ℕ → Read (List ℕ × Reader gz) → Type 0
  Found bytes w x = (r' : Reader gz) × (x ≡ fine (bytes, r')) × Stream l w r'

  Taken-Found :
      (bytes w : List ℕ) (x : Read (List ℕ × Reader gz)) → Taken l bytes w x → Found bytes w x
  Taken-Found bytes w bad t = absurd t
  Taken-Found bytes w (fine (got, r)) (e, s) = (r, ap (λ b. fine (b, r)) e, s)

  pub section-Found :
      (most : ℕ) (size bytes w : List ℕ) (r : Reader gz)
      → length size ≡ 4
      → from_be_bytes size ≡ length bytes
      → length bytes ≤ most
      → Stream l (size ++ (bytes ++ w)) r
      → Found bytes w (section gz most r)
  unfolding section
  section-Found most size bytes w r four sized within s =
      let (r1, e, s1) =
        Taken-Found size (bytes ++ w) (take_bytes gz (length size) r)
          (take_bytes-Taken l size (bytes ++ w) r s) in
      let first : take_bytes gz 4 r ≡ fine (size, r1) =
        ap (λ n. take_bytes gz n r) (sym four) ∙ e in
      let payload : Found bytes w (take_bytes gz (length bytes) r1) =
        Taken-Found bytes w (take_bytes gz (length bytes) r1) (take_bytes-Taken l bytes w r1 s1) in
      subst (λ x. Found bytes w (section_of gz most x)) (sym first)
        (subst (λ n. Found bytes w (if ltb most n then bad else take_bytes gz n r1)) (sym sized)
          (under_test (Found bytes w) (ltb most (length bytes)) bad
            (take_bytes gz (length bytes) r1)
            (λ t. absurd (omega (arith, ltb→lt most (length bytes) t))) (λ t. payload)))

  stream-Yields :
      (most : ℕ) (sections : List (List ℕ)) (rest w : List ℕ) (r : Reader gz)
      → Framed most sections rest w
      → Stream l w r
      → Yields gz most sections r
  stream-Yields most [] rest w r f s = tt
  stream-Yields most (bytes ∷ more) rest w r (size, behind, four, sized, within, e, f) s =
      let (r', found, s') =
        section-Found most size bytes behind r four sized within (subst (λ x. Stream l x r) e s) in
      (r', found, stream-Yields most more rest behind r' f s')

  pub new_reader-Stream :
      (z p : List ℕ) (s : gz.State) (body : List (Option (List ℕ)))
      → joined body ≡ head ++ z
      → Sent body
      → l.Reads z p s
      → Stream l p (new_reader gz s body)
  unfolding new_reader
  new_reader-Stream z p s body e sent reads = (
    p,
    going z (record {
      complete = e;
      short = omega arith;
      early = λ h. refl;
      sent = sent;
      reads = reads;
      quiet = refl;
      live = refl;
    }),
    refl,
  )

  -- Where an upload is the header and a stream that decodes to sections, each behind its length and within
  -- the limit, then, however it is cut into chunks, reading section after section from a new reader returns
  -- exactly these, in their order.
  pub section-Yields :
      (most : ℕ) (sections : List (List ℕ)) (z p rest : List ℕ) (s : gz.State)
      (body : List (Option (List ℕ)))
      → joined body ≡ head ++ z
      → Sent body
      → l.Reads z p s
      → Framed most sections rest p
      → Yields gz most sections (new_reader gz s body)
  section-Yields most sections z p rest s body e sent reads f =
      stream-Yields most sections rest p (new_reader gz s body) f
        (new_reader-Stream z p s body e sent reads)

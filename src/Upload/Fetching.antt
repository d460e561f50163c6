-- ===== src/Upload/Fetching.antt =====
-- crates/wiretap-backend/src/archive.rs: `fetched`, a round of `Reader::fill`.
use mathlib.Core.Path.{subst}
use wire_tap_server.Prelude.{
  ℕ, suc, ◌+◌, ◌-◌, ◌≤◌, ◌<◌, ◌≡◌, refl, sym, ap, ◌∙◌, inl, inr, arith, true, List, [], ◌∷◌, ◌++◌,
  Option, none, some, length, take, drop, length-append, length-take, length-drop, take-append-drop,
  drop_all, ltb→lt, append-nil, append_assoc, ltb, Bool-cases, min, under_test,
}
use wire_tap_server.Upload.Reader.{
  Inflater, Reader, fine, bad, wrote, with_head, received_next, receive, inflated, fetched,
  inflate_at, body_rounds, end_round,
}
use wire_tap_server.Upload.Coming.{
  InflaterLaws, Coming, going, over, Fetched, passes, prefix-take, cancel, check_head, head, joined,
  Sent,
}

split_again :
    (w : ℕ) (h bytes j : List ℕ) → (h ++ take w bytes) ++ (drop w bytes ++ j) ≡ h ++ (bytes ++ j)
split_again w h bytes j =
    append_assoc h (take w bytes) (drop w bytes ++ j)
    ∙ ap (λ x. h ++ x) (sym (append_assoc (take w bytes) (drop w bytes) j))
    ∙ ap (λ x. h ++ (x ++ j)) (take-append-drop w bytes)

came :
    (h received bytes t : List ℕ) (body rest : List (Option (List ℕ)))
    → received ≡ []
    → body ≡ some bytes ∷ rest
    → h ++ (received ++ joined body) ≡ t
    → h ++ (bytes ++ joined rest) ≡ t
came h received bytes t body rest none_left e c =
    ap (λ x. h ++ (x ++ joined (some bytes ∷ rest))) (sym none_left)
    ∙ ap (λ b. h ++ (received ++ joined b)) (sym e)
    ∙ c

sent_rest :
    (bytes : List ℕ) (body rest : List (Option (List ℕ)))
    → body ≡ some bytes ∷ rest
    → Sent body
    → Sent rest
sent_rest bytes body rest e s = subst Sent e s

full :
    (n b : ℕ) (bs received : List ℕ) → n ≤ 5 → (n < 5 → received ≡ []) → received ≡ b ∷ bs → n ≡ 5
full n b bs received short early e = elim (Bool-cases (ltb n 5)) [
  | inl t ↦ nonempty (sym e ∙ early (ltb→lt n 5 t))
  | inr f ↦ ground arith
]
  where
    nonempty : b ∷ bs ≡ [] → n ≡ 5
    nonempty h = absurd cc

module _ {gz : Inflater} (l : InflaterLaws gz) where
  chunk-Fetched :
      (bytes : List ℕ) (rest : List (Option (List ℕ))) (z p : List ℕ) (r : Reader gz)
      → Coming l z p r
      → r.received ≡ []
      → r.body ≡ some bytes ∷ rest
      → Fetched l p r (with_head gz (5 - length r.header) bytes rest r)
  chunk-Fetched bytes rest z p r c none_left e =
      let wanted : ℕ = 5 - length r.header in
      let header : List ℕ = r.header ++ take wanted bytes in
      let whole : header ++ (drop wanted bytes ++ joined rest) ≡ head ++ z =
        split_again wanted r.header bytes (joined rest)
        ∙ came r.header r.received bytes (head ++ z) r.body rest none_left e c.complete in
      let sized : length header ≡ length r.header + length (take wanted bytes) =
        length-append r.header (take wanted bytes) in
      let cut : length (take wanted bytes) ≡ min wanted (length bytes) = length-take wanted bytes in
      let left : length (drop wanted bytes) ≡ length bytes - wanted = length-drop wanted bytes in
      let counted : body_rounds gz r.body ≡ suc (length bytes + body_rounds gz rest) =
        ap (body_rounds gz) e in
      let held : length r.header ≤ 5 = c.short in
      let within : length header ≤ 5 = omega arith in
      passes l wanted header (Fetched l p r)
        (fine (record r { body = rest; header = header; received = drop wanted bytes }))
        (rw (prefix-take header (drop wanted bytes ++ joined rest) head z whole within)
          (check_head (length header) within))
        (
          p,
          ap (λ o. o ++ p) (sym c.quiet),
          going z (record {
            complete = whole;
            short = within;
            early = λ h. drop_all wanted bytes (omega arith);
            sent = sent_rest bytes r.body rest e c.sent;
            reads = c.reads;
            quiet = refl;
            live = c.live;
          }),
          refl,
          omega arith,
        )

  ended :
      (h received z : List ℕ) (body : List (Option (List ℕ)))
      → received ≡ []
      → body ≡ []
      → h ++ (received ++ joined body) ≡ head ++ z
      → h ≡ head ++ z
  ended h received z body none_left e c =
      sym (append-nil h)
      ∙ ap (λ x. h ++ (x ++ joined [])) (sym none_left)
      ∙ ap (λ b. h ++ (received ++ joined b)) (sym e)
      ∙ c

  end-Fetched :
      (z p : List ℕ) (r : Reader gz)
      → Coming l z p r
      → r.received ≡ []
      → r.body ≡ []
      → Fetched l p r (received_next gz [] r)
  end-Fetched z p r c none_left e =
      let sized : length r.header ≡ suc (suc (suc (suc (suc (length z))))) =
        ap length (ended r.header r.received z r.body none_left e c.complete) in
      let held : length r.header ≤ 5 = c.short in
      let last : 1 ≡ end_round gz r.ended = sym (ap (end_round gz) c.live) in
      let none_to_come : z ≡ [] = drop_all 0 z (omega arith) in
      let (s', finish) =
        l.finish_law p r.decoder (subst (λ x. l.Reads x p r.decoder) none_to_come c.reads) in
      under_test (Fetched l p r) (ltb (length r.header) 5) bad
        (wrote gz (gz.try_finish r.decoder) (record r { ended = true }))
        (λ t. absurd (omega (arith, ltb→lt (length r.header) 5 t)))
        (λ t.
          subst (λ x. Fetched l p r (wrote gz x (record r { ended = true }))) (sym finish)
            (
              [],
              ap (λ o. o ++ p) (sym c.quiet) ∙ sym (append-nil (r.out ++ p)),
              over refl refl,
              refl,
              omega arith,
            ))

  receive-Fetched :
      (z p : List ℕ) (r : Reader gz)
      → Coming l z p r
      → r.received ≡ []
      → Fetched l p r (receive gz r)
  unfolding receive
  receive-Fetched z p r c none_left = from_body r.body refl
    where
      from_body :
          (body : List (Option (List ℕ))) → r.body ≡ body → Fetched l p r (received_next gz body r)
      from_body [] e = end-Fetched z p r c none_left e
      from_body (none ∷ rest) e = absurd (subst Sent e c.sent)
      from_body (some bytes ∷ rest) e = chunk-Fetched bytes rest z p r c none_left e

  inflated-Fetched :
      (b : ℕ) (bs z p : List ℕ) (r : Reader gz)
      → Coming l z p r
      → r.received ≡ b ∷ bs
      → Fetched l p r (inflated gz (b ∷ bs) r)
  inflated-Fetched b bs z p r c e =
      let received : List ℕ = b ∷ bs in
      let n : ℕ = min (length received) inflate_at in
      let whole : length r.header ≡ 5 = full (length r.header) b bs r.received c.short c.early e in
      let next : r.received ++ joined r.body ≡ z =
        cancel r.header (r.received ++ joined r.body) head z c.complete whole in
      let cut : take n received ++ (drop n received ++ joined r.body) ≡ z =
        sym (append_assoc (take n received) (drop n received) (joined r.body))
        ∙ ap (λ x. x ++ joined r.body) (take-append-drop n received)
        ∙ ap (λ x. x ++ joined r.body) (sym e)
        ∙ next in
      let headed : r.header ≡ head =
        prefix-take r.header (r.received ++ joined r.body) head z c.complete (omega arith)
        ∙ ap (λ k. take k head) whole in
      let (o, p', s', written, comes, reads) =
        l.write_law (take n received) (drop n received ++ joined r.body) p r.decoder
          (subst (λ x. l.Reads x p r.decoder) (sym cut) c.reads) in
      let left : length (drop n received) ≡ length received - n = length-drop n received in
      let held : length r.received ≡ length received = ap length e in
      subst (λ x. Fetched l p r (wrote gz x (record r { received = drop n received })))
        (sym written)
        (
          p',
          comes ∙ ap (λ x. (x ++ o) ++ p') (sym c.quiet),
          going (drop n received ++ joined r.body) (record {
            complete = ap (λ x. x ++ (drop n received ++ joined r.body)) headed;
            short = c.short;
            early = λ h. absurd (omega arith);
            sent = c.sent;
            reads = reads;
            quiet = refl;
            live = c.live;
          }),
          refl,
          omega arith,
        )

  pub fetched-Fetched :
      (z p : List ℕ) (r : Reader gz) → Coming l z p r → Fetched l p r (fetched gz r.received r)
  fetched-Fetched z p r c = from_received r.received refl
    where
      from_received :
          (received : List ℕ) → r.received ≡ received → Fetched l p r (fetched gz received r)
      from_received [] e = receive-Fetched z p r c e
      from_received (b ∷ bs) e = inflated-Fetched b bs z p r c e

-- ===== src/Upload/Coming.antt =====
-- crates/wiretap-backend/src/archive.rs: what is yet to come of an archive, however its upload is cut.
use wire_tap_server.Prelude.{
  ℕ, zero, suc, ◌≤◌, ◌<◌, ◌≡◌, refl, ap, arith, ◌&&◌, Bool, true, false, not, List, [], ◌∷◌, ◌++◌,
  Option, none, some, length, take, ltb, if◌then◌else◌,
}
use wire_tap_server.Upload.Reader.{Inflater, Reader, Read, fine, bad, check_header, rounds}

-- The magic and the version.
abbrev pub head : List ℕ
head = 87 ∷ 84 ∷ 65 ∷ 82 ∷ 1 ∷ []

-- What a streaming decoder promises: `z`, yet to be given to it, comes to `p`.
pub record InflaterLaws (gz : Inflater) : Type 1 where
  pub Reads : List ℕ → List ℕ → gz.State → Type 0
  pub write_law :
      (piece z p : List ℕ) (s : gz.State)
      → Reads (piece ++ z) p s
      → (o : List ℕ) × (p' : List ℕ) × (s' : gz.State) × (gz.write_all piece s ≡ some (o, s'))
        × (p ≡ o ++ p')
        × Reads z p' s'
  pub finish_law :
      (p : List ℕ) (s : gz.State)
      → Reads [] p s
      → (s' : gz.State) × (gz.try_finish s ≡ some (p, s'))

abbrev pub joined : List (Option (List ℕ)) → List ℕ
joined [] = []
joined (none ∷ rest) = joined rest
joined (some bytes ∷ rest) = bytes ++ joined rest

-- No chunk failed.
abbrev pub Sent : List (Option (List ℕ)) → Type 0
Sent [] = Unit
Sent (none ∷ rest) = ⊥
Sent (some bytes ∷ rest) = Sent rest

pub heads : (a b : ℕ) (xs ys : List ℕ) → a ∷ xs ≡ b ∷ ys → (a ≡ b) × (xs ≡ ys)
heads a b xs ys e = (cc, cc)

pub prefix-take : (h x m z : List ℕ) → h ++ x ≡ m ++ z → length h ≤ length m → h ≡ take (length h) m
prefix-take [] x m z e le = refl
prefix-take (a ∷ h) x [] z e le = absurd (omega arith)
prefix-take (a ∷ h) x (b ∷ m) z e le =
    let (same, rest) = heads a b (h ++ x) (m ++ z) e in
    rw same (ap (λ ys. b ∷ ys) (prefix-take h x m z rest (omega arith)))

pub cancel : (h x m z : List ℕ) → h ++ x ≡ m ++ z → length h ≡ length m → x ≡ z
cancel [] x [] z e le = e
cancel [] x (b ∷ m) z e le = absurd (omega arith)
cancel (a ∷ h) x [] z e le = absurd (omega arith)
cancel (a ∷ h) x (b ∷ m) z e le = cancel h x m z ((heads a b (h ++ x) (m ++ z) e).1) (omega arith)

pub check_head : (k : ℕ) → k ≤ 5 → check_header (take k head) ≡ true
unfolding check_header
check_head zero h = refl
check_head (suc zero) h = refl
check_head (suc (suc zero)) h = refl
check_head (suc (suc (suc zero))) h = refl
check_head (suc (suc (suc (suc zero)))) h = refl
check_head (suc (suc (suc (suc (suc zero))))) h = refl
check_head (suc (suc (suc (suc (suc (suc k)))))) h = absurd (omega arith)

module _ {gz : Inflater} (l : InflaterLaws gz) where
  -- `z` is yet to be given to the decoder, and comes to `p`.
  pub record Coming (z p : List ℕ) (r : Reader gz) : Type 0 where
    pub complete : r.header ++ (r.received ++ joined r.body) ≡ head ++ z
    pub short : length r.header ≤ 5
    pub early : length r.header < 5 → r.received ≡ []
    pub sent : Sent r.body
    pub reads : l.Reads z p r.decoder
    pub quiet : r.out ≡ []
    pub live : r.ended ≡ false

  -- `p` is yet to be decoded.
  pub data Good (p : List ℕ) (r : Reader gz) : Type 0 where
    going : (z : List ℕ) → Coming z p r → Good p r
    over : r.ended ≡ true → p ≡ [] → Good p r

  abbrev pub Fetched : List ℕ → Reader gz → Read (Reader gz) → Type 0
  Fetched p r bad = ⊥
  Fetched p r (fine r1) =
      (p' : List ℕ) × (p ≡ r1.out ++ p')
      × Good p' (record r1 { out = [] })
      × (r1.decoded ≡ r.decoded)
      × (rounds gz r1 < rounds gz r)

  and_false : (b : Bool) → (b && false) ≡ false
  and_false true = refl
  and_false false = refl

  pub passes :
      (w : ℕ) (header : List ℕ) (P : Read (Reader gz) → Type 0) (x : Read (Reader gz))
      → check_header header ≡ true
      → P x
      → P (if ltb 0 w && not (check_header header) then bad else x)
  passes w header P x e p = rw (e, and_false (ltb 0 w)) p

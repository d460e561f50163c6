-- ===== src/Gvret/Replies.antt =====
-- crates/wiretap-server/src/gvret.rs: the answers to a client's commands, and the frames it may send.
use wire_tap_server.Prelude.{
  ℕ, zero, suc, ◌+◌, ◌-◌, ◌<◌, ◌≡◌, refl, sym, ap, ◌∙◌, arith, Bool, true, false, List, [], ◌∷◌,
  ◌++◌, length, take, length-append, append-nil, append_assoc, ltb, ltb→lt, if◌then◌else◌,
  under_test, both_branches,
}
use wire_tap_server.Gvret.Client.{
  Codec, Transmit, ClientCommand, dev_info, canbus_params, num_buses, timebase, keepalive, transmit,
  elapsed_us, Client, queue_transmit, reply, reply_all,
}

module _ (codec : Codec) where
  -- What a command is answered with, which no other command changes.
  abbrev pub answer_to : ℕ → Client codec → ClientCommand → List ℕ
  answer_to now c dev_info = codec.encode_dev_info
  answer_to now c canbus_params = codec.encode_canbus_params c.count c.speeds
  answer_to now c num_buses = codec.encode_num_buses c.count
  answer_to now c timebase = codec.encode_timebase (elapsed_us c.t0 now)
  answer_to now c keepalive = codec.encode_keepalive
  answer_to now c (transmit t declared) = []

  abbrev pub answers : ℕ → Client codec → List ClientCommand → List ℕ
  answers now c [] = []
  answers now c (command ∷ rest) = answer_to now c command ++ answers now c rest

  -- The frames that came whole.
  abbrev pub whole : List ClientCommand → List Transmit
  whole [] = []
  whole (dev_info ∷ rest) = whole rest
  whole (canbus_params ∷ rest) = whole rest
  whole (num_buses ∷ rest) = whole rest
  whole (timebase ∷ rest) = whole rest
  whole (keepalive ∷ rest) = whole rest
  whole (transmit t declared ∷ rest) =
      if ltb (length t.payload) declared then whole rest else t ∷ whole rest

  -- The answers of all commands in order, and of the whole frames as many as the queue has room for.
  abbrev pub Replied :
      ℕ → List ClientCommand → List ℕ → Client codec → List ℕ × Client codec → Type 0
  Replied now commands out c (out', c') =
      (out' ≡ out ++ answers now c commands)
      × (c' ≡ record c {
        transmits = c.transmits ++ take (c.room - length c.transmits) (whole commands);
      })

  no_more : (xs : List Transmit) (n : ℕ) → n ≡ 0 → take n xs ≡ []
  no_more xs zero e = refl
  no_more xs (suc n) e = absurd (omega arith)

  room_left : (r n k : ℕ) → n < r → k ≡ n + 1 → r - n ≡ suc (r - k)
  room_left r n k h e = omega arith

  -- A frame that finds room, and one that does not.
  queued :
      (t : Transmit) (ts rest : List Transmit) (r : ℕ)
      → length ts < r
      → (ts ++ (t ∷ [])) ++ take (r - length (ts ++ (t ∷ []))) rest
        ≡ ts ++ take (r - length ts) (t ∷ rest)
  queued t ts rest r h =
      rw (room_left r (length ts) (length (ts ++ (t ∷ []))) h (length-append ts (t ∷ [])))
        (append_assoc ts (t ∷ []) (take (r - length (ts ++ (t ∷ []))) rest))

  left_out :
      (t : Transmit) (ts rest : List Transmit) (r : ℕ)
      → ltb (length ts) r ≡ false
      → ts ++ take (r - length ts) rest ≡ ts ++ take (r - length ts) (t ∷ rest)
  left_out t ts rest r full =
      let none_left : r - length ts ≡ 0 = over (length ts) r full in
      rw (no_more rest (r - length ts) none_left, no_more (t ∷ rest) (r - length ts) none_left) refl
    where
      over : (n r : ℕ) → ltb n r ≡ false → r - n ≡ 0
      over n r e = ground arith

  -- A client whose queue takes what it has room for.
  abbrev pub with_room : List Transmit → Client codec → Client codec
  with_room ts c = record c { transmits = c.transmits ++ take (c.room - length c.transmits) ts }

  queue_transmit-with_room :
      (t : Transmit) (rest : List Transmit) (c : Client codec)
      → with_room rest (queue_transmit codec t c) ≡ with_room (t ∷ rest) c
  queue_transmit-with_room t rest c =
      under_test (λ (c' : Client codec). with_room rest c' ≡ with_room (t ∷ rest) c)
        (ltb (length c.transmits) c.room) _ _
        (λ room.
          ap (λ ts. record c { transmits = ts })
            (queued t c.transmits rest c.room (ltb→lt (length c.transmits) c.room room)))
        (λ full. ap (λ ts. record c { transmits = ts }) (left_out t c.transmits rest c.room full))

  abbrev Alike : Client codec → Client codec → Type 0
  Alike c c' = (c.t0 ≡ c'.t0) × (c.count ≡ c'.count) × (c.speeds ≡ c'.speeds)

  queue_transmit-Alike : (t : Transmit) (c : Client codec) → Alike (queue_transmit codec t c) c
  queue_transmit-Alike t c =
      both_branches (λ c'. Alike c' c) (ltb (length c.transmits) c.room) _ _ (refl, refl, refl)
        (refl, refl, refl)

  answer-Alike :
      (now : ℕ) (c c' : Client codec) (command : ClientCommand)
      → Alike c c'
      → answer_to now c command ≡ answer_to now c' command
  answer-Alike now c c' dev_info e = refl
  answer-Alike now c c' canbus_params (t, n, s) = rw (n, s) refl
  answer-Alike now c c' num_buses (t, n, s) = rw n refl
  answer-Alike now c c' timebase (t, n, s) = rw t refl
  answer-Alike now c c' keepalive e = refl
  answer-Alike now c c' (transmit t declared) e = refl

  answers-Alike :
      (now : ℕ) (c c' : Client codec) (commands : List ClientCommand)
      → Alike c c'
      → answers now c commands ≡ answers now c' commands
  answers-Alike now c c' [] e = refl
  answers-Alike now c c' (command ∷ rest) e =
      rw (answer-Alike now c c' command e, answers-Alike now c c' rest e) refl

  transmitted :
      (now : ℕ) (t : Transmit) (cut : Bool) (rest : List ClientCommand) (out : List ℕ)
      (c : Client codec)
      → ((c1 : Client codec) → Replied now rest out c1 (reply_all codec now rest (out, c1)))
      → let r = reply_all codec now rest (out, if cut then c else queue_transmit codec t c) in
        (r.0 ≡ out ++ answers now c rest)
        × (r.1 ≡ with_room (if cut then whole rest else t ∷ whole rest) c)
  transmitted now t true rest out c h = h c
  transmitted now t false rest out c h =
      let (o, e) = h (queue_transmit codec t c) in
      (
        o
            ∙ ap (λ bs. out ++ bs)
                (answers-Alike now (queue_transmit codec t c) c rest (queue_transmit-Alike t c)),
        e ∙ queue_transmit-with_room t (whole rest) c,
      )

  answered :
      (now : ℕ) (a out : List ℕ) (rest : List ClientCommand) (c : Client codec)
      → Replied now rest (out ++ a) c (reply_all codec now rest (out ++ a, c))
      → let r = reply_all codec now rest (out ++ a, c) in
        (r.0 ≡ out ++ (a ++ answers now c rest)) × (r.1 ≡ with_room (whole rest) c)
  answered now a out rest c (o, e) = (o ∙ append_assoc out a (answers now c rest), e)

  nothing_more : (c : Client codec) → c ≡ with_room [] c
  nothing_more c =
      ap (λ ts. record c { transmits = ts }) (sym (none_taken (c.room - length c.transmits)))
    where
      none_taken : (n : ℕ) → c.transmits ++ take n [] ≡ c.transmits
      none_taken zero = append-nil c.transmits
      none_taken (suc n) = append-nil c.transmits

  -- A client's commands are answered in their order, each as it is alone; and of the frames that it sends, those that came whole are queued in their order as far as the queue has room, and no other is.
  pub reply_all-Replied :
      (now : ℕ) (commands : List ClientCommand) (out : List ℕ) (c : Client codec)
      → Replied now commands out c (reply_all codec now commands (out, c))
  unfolding reply_all reply
  reply_all-Replied now [] out c = (sym (append-nil out), nothing_more c)
  reply_all-Replied now (dev_info ∷ rest) out c =
      answered now _ out rest c (reply_all-Replied now rest _ c)
  reply_all-Replied now (canbus_params ∷ rest) out c =
      answered now _ out rest c (reply_all-Replied now rest _ c)
  reply_all-Replied now (num_buses ∷ rest) out c =
      answered now _ out rest c (reply_all-Replied now rest _ c)
  reply_all-Replied now (timebase ∷ rest) out c =
      answered now _ out rest c (reply_all-Replied now rest _ c)
  reply_all-Replied now (keepalive ∷ rest) out c =
      answered now _ out rest c (reply_all-Replied now rest _ c)
  reply_all-Replied now (transmit t declared ∷ rest) out c =
      transmitted now t (ltb (length t.payload) declared) rest out c
        (reply_all-Replied now rest out)

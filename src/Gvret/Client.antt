-- ===== src/Gvret/Client.antt =====
-- crates/wiretap-server/src/gvret.rs: one connected client.
use wire_tap_server.Prelude.{
  ℕ, ◌+◌, ◌-◌, ◌%◌, ◌^◌, Bool, true, false, List, [], ◌∷◌, ◌++◌, Option, none, some, length, ltb,
  if◌then◌else◌,
}
use wire_tap_server.Model.{Sample, CanSample, can_sample, modbus_sample, serial_sample}

-- `WRITE_COALESCE`.
abbrev pub write_coalesce : ℕ
write_coalesce = 8192

-- `Transmit`, and a client's command.
pub record Transmit : Type 0 where
  pub bus : ℕ
  pub arb_id : ℕ
  pub extended : Bool
  pub payload : List ℕ

pub data ClientCommand : Type 0 where
  dev_info canbus_params num_buses timebase keepalive : ClientCommand
  transmit : Transmit → ℕ → ClientCommand

-- The codec, with the bytes of each answer.
pub record Codec : Type 1 where
  pub Decoder : Type 0
  pub feed : List ℕ → Decoder → List ClientCommand × Decoder
  pub is_binary : Decoder → Bool
  pub encode_dev_info : List ℕ
  pub encode_canbus_params : ℕ → List ℕ → List ℕ
  pub encode_num_buses : ℕ → List ℕ
  pub encode_timebase : ℕ → List ℕ
  pub encode_keepalive : List ℕ
  pub encode_frame : ℕ → ℕ → Bool → ℕ → List ℕ → Bool → List ℕ

-- What a receiver of the broadcast has: samples, and how many were dropped between; each with the
-- clock when it is taken.
pub data Item : Type 0 where
  sample_in : ℕ → Sample → Item
  lagged_by : ℕ → Item

pub record Receiver : Type 0 where
  pub items : List Item
  pub closed : Bool

-- What a drain comes to: still waiting, gone, or the frames that were dropped, with the bytes to write.
pub data Drain : Type 0 where
  waiting gone : Drain
  ready : ℕ → List ℕ → Receiver → Drain

-- Microseconds since `t0`, as a `u32`.
abbrev pub elapsed_us : ℕ → ℕ → ℕ
elapsed_us t0 now = (now - t0) % 2 ^ 32

module _ (codec : Codec) where
  unfoldable pub encode : ℕ → ℕ → CanSample → List ℕ
  encode t0 now c =
      codec.encode_frame (elapsed_us t0 now) c.arb_id c.extended c.bus.id c.payload c.is_fd

  abbrev pub unless_remote : Option ℕ → List ℕ → List ℕ
  unless_remote none bytes = bytes
  unless_remote (some dlc) bytes = []

  -- What `encode_can` appends.
  unfoldable pub encode_can : ℕ → ℕ → Sample → List ℕ
  encode_can t0 now (can_sample c) = unless_remote c.rtr (encode t0 now c)
  encode_can t0 now (modbus_sample m) = []
  encode_can t0 now (serial_sample s) = []

  abbrev pub item_bytes : ℕ → Bool → Item → List ℕ
  item_bytes t0 true (sample_in now s) = encode_can t0 now s
  item_bytes t0 false (sample_in now s) = []
  item_bytes t0 binary (lagged_by n) = []

  abbrev pub item_lag : Item → ℕ
  item_lag (sample_in now s) = 0
  item_lag (lagged_by n) = n

  -- The loop of `try_recv`.
  unfoldable pub drain_loop : ℕ → Bool → Bool → List Item → List ℕ → ℕ → Drain
  drain_loop t0 binary closed [] out lagged =
      ready lagged out (record { items = []; closed = closed })
  drain_loop t0 binary closed (i ∷ rest) out lagged =
      if ltb (length out) write_coalesce
      then drain_loop t0 binary closed rest (out ++ item_bytes t0 binary i) (lagged + item_lag i)
      else ready lagged out (record { items = i ∷ rest; closed = closed })

  abbrev pub drain_first : ℕ → Bool → Bool → List Item → List ℕ → Drain
  drain_first t0 binary closed [] out = if closed then gone else waiting
  drain_first t0 binary closed (i ∷ rest) out =
      drain_loop t0 binary closed rest (out ++ item_bytes t0 binary i) (0 + item_lag i)

  unfoldable pub drain : ℕ → Bool → Receiver → List ℕ → Drain
  drain t0 binary r out = drain_first t0 binary r.closed r.items out

  -- A client; `room` is the capacity of the queue of transmits, and `dropped` what is reported.
  pub record Client : Type 0 where
    pub t0 : ℕ
    pub count : ℕ
    pub speeds : List ℕ
    pub decoder : codec.Decoder
    pub frames : Receiver
    pub transmits : List Transmit
    pub room : ℕ
    pub dropped : ℕ
    pub written : List (List ℕ)
    pub write_works : List Bool

  -- `room` is what the queue has for this client's frames as it is answered, none where it is closed.
  abbrev pub queue_transmit : Transmit → Client → Client
  queue_transmit t c =
      if ltb (length c.transmits) c.room
      then record c { transmits = c.transmits ++ (t ∷ []) }
      else c

  unfoldable pub reply : ℕ → ClientCommand → List ℕ × Client → List ℕ × Client
  reply now dev_info (out, c) = (out ++ codec.encode_dev_info, c)
  reply now canbus_params (out, c) = (out ++ codec.encode_canbus_params c.count c.speeds, c)
  reply now num_buses (out, c) = (out ++ codec.encode_num_buses c.count, c)
  reply now timebase (out, c) = (out ++ codec.encode_timebase (elapsed_us c.t0 now), c)
  reply now keepalive (out, c) = (out ++ codec.encode_keepalive, c)
  reply now (transmit t declared) (out, c) =
      (out, if ltb (length t.payload) declared then c else queue_transmit t c)

  unfoldable pub reply_all : ℕ → List ClientCommand → List ℕ × Client → List ℕ × Client
  reply_all now [] x = x
  reply_all now (command ∷ rest) x = reply_all now rest (reply now command x)

  -- What wakes a client.
  pub data Wake : Type 0 where
    bytes_in : List ℕ → Wake
    read_ended frames_ready : Wake

  abbrev pub write_out : List ℕ → List Bool → Client → Bool × Client
  write_out [] works c = (true, c)
  write_out (b ∷ bs) [] c = (true, record c { written = c.written ++ ((b ∷ bs) ∷ []) })
  write_out (b ∷ bs) (true ∷ rest) c =
      (true, record c { written = c.written ++ ((b ∷ bs) ∷ []); write_works = rest })
  write_out (b ∷ bs) (false ∷ rest) c = (false, record c { write_works = rest })

  abbrev pub after_drain : Drain → Client → Bool × Client
  after_drain waiting c = (true, c)
  after_drain gone c = (false, c)
  after_drain (ready lagged out r) c =
      write_out out c.write_works (record c { frames = r; dropped = c.dropped + lagged })

  abbrev pub after_replies : List ℕ × Client → Bool × Client
  after_replies (out, c) = write_out out c.write_works c

  abbrev pub after_feed : ℕ → List ClientCommand × codec.Decoder → Client → Bool × Client
  after_feed now (commands, d) c =
      after_replies (reply_all now commands ([], record c { decoder = d }))

  -- One round of `serve`: whether it goes on.
  unfoldable pub serve_round : ℕ → Wake → Client → Bool × Client
  serve_round now (bytes_in bytes) c = after_feed now (codec.feed bytes c.decoder) c
  serve_round now read_ended c = (false, c)
  serve_round now frames_ready c =
      after_drain (drain c.t0 (codec.is_binary c.decoder) c.frames []) c

  -- What is broadcast while a client is elsewhere arrives before it wakes.
  pub record Event : Type 0 where
    pub now : ℕ
    pub arrived : List Item
    pub wake : Wake

  abbrev pub arrives : List Item → Client → Client
  arrives items c = record c { frames = record (c.frames) { items = c.frames.items ++ items } }

  abbrev pub while_served : Bool × Client → (Client → Client) → Client
  while_served (true, c) next = next c
  while_served (false, c) next = c

  unfoldable pub serve : List Event → Client → Client
  serve [] c = c
  serve (e ∷ es) c = while_served (serve_round e.now e.wake (arrives e.arrived c)) (serve es)

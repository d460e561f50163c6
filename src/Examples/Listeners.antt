-- ===== src/Examples/Listeners.antt =====
-- crates/wiretap-server/src/gvret.rs: a codec of one byte a frame, peers, a drain and commands.
use wire_tap_server.Prelude.{ℕ, ◌≡◌, refl, arith, Bool, true, false, List, [], ◌∷◌, none}
use wire_tap_server.Prelude.Int.{pos}
use wire_tap_server.Model.{CanSample, can_sample, Direction}
use wire_tap_server.Cidr.Range.{v4, loopback, contains, network_bits}
use wire_tap_server.Gvret.Listener.{Server, peer_at, accept_failed, run, accept}
use wire_tap_server.Gvret.Refused.{Guarded, run-Guarded}
use wire_tap_server.Gvret.Client.{
  Codec, Client, Transmit, ClientCommand, dev_info, timebase, transmit, Item, sample_in, lagged_by,
  drain, drain_loop, encode_can, encode, ready, reply_all, reply,
}
use wire_tap_server.Gvret.Drained.{CodecLaws, Took, drain-Took}
use wire_tap_server.Gvret.Replies.{Replied, reply_all-Replied}

abbrev codec : Codec
codec = record {
  Decoder = Bool;
  feed = λ bytes d. ([], d);
  is_binary = λ d. d;
  encode_dev_info = 1 ∷ [];
  encode_canbus_params = λ count speeds. 2 ∷ [];
  encode_num_buses = λ n. 3 ∷ [];
  encode_timebase = λ t. t ∷ [];
  encode_keepalive = 5 ∷ [];
  encode_frame = λ ts id extended bus payload fd. id ∷ [];
}

abbrev codec_laws : CodecLaws codec
codec_laws = record {
  max_frame_bytes = 1;
  frame_fits = λ ts id bus extended fd payload. omega arith;
}

abbrev fresh : Server
fresh = record { allowed = loopback; refused = []; warned = []; started = [] }

-- 10.0.0.1 twice, and 127.0.0.1.
peers_run :
    (run
      (peer_at (v4 167_772_161)
        ∷ accept_failed
        ∷ peer_at (v4 167_772_161)
        ∷ peer_at (v4 2_130_706_433)
        ∷ [])
      fresh).warned
    ≡ v4 167_772_161 ∷ []
unfolding run accept contains network_bits
peers_run = refl

run-Guarded_example :
    Guarded (run (peer_at (v4 167_772_161) ∷ accept_failed ∷ peer_at (v4 2_130_706_433) ∷ []) fresh)
run-Guarded_example =
    run-Guarded (peer_at (v4 167_772_161) ∷ accept_failed ∷ peer_at (v4 2_130_706_433) ∷ []) fresh
      (record { bounded = omega arith; once = tt; served = tt })

abbrev frame_of : ℕ → CanSample
frame_of id = record {
  ts_us = pos 1;
  arb_id = id;
  extended = false;
  is_fd = false;
  rtr = none;
  brs = false;
  esi = false;
  payload = [];
  bus = record { id = 0 };
  dir = Direction.rx;
}

abbrev later : List Item
later = lagged_by 4 ∷ sample_in 12 (can_sample (frame_of 7)) ∷ []

drained_run :
    drain codec 0 true
      (record { items = sample_in 10 (can_sample (frame_of 6)) ∷ later; closed = false })
      []
    ≡ ready 4 (6 ∷ 7 ∷ []) (record { items = []; closed = false })
unfolding drain drain_loop encode_can encode
drained_run = refl

drain-Took_example :
    Took codec_laws 0 true false (sample_in 10 (can_sample (frame_of 6)) ∷ later) [] 0 (
      drain codec 0 true
        (record { items = sample_in 10 (can_sample (frame_of 6)) ∷ later; closed = false })
        [])
drain-Took_example =
    drain-Took codec_laws 0 true (sample_in 10 (can_sample (frame_of 6))) later false

abbrev client : Client codec
client = record {
  t0 = 0;
  count = 1;
  speeds = 500_000 ∷ [];
  decoder = true;
  frames = record { items = []; closed = false };
  transmits = [];
  room = 1;
  dropped = 0;
  written = [];
  write_works = [];
}

abbrev short_frame : Transmit
short_frame = record { bus = 0; arb_id = 5; extended = false; payload = 1 ∷ [] }

-- One that is cut, one that has room, and one that has not.
abbrev commands : List ClientCommand
commands =
    dev_info
    ∷ transmit short_frame 8
    ∷ transmit short_frame 1
    ∷ transmit short_frame 1
    ∷ timebase
    ∷ []

replied_run : (reply_all codec 9 commands ([], client)).1.transmits ≡ short_frame ∷ []
unfolding reply_all reply
replied_run = refl

reply_all-Replied_example :
    Replied codec 9 commands [] client (reply_all codec 9 commands ([], client))
reply_all-Replied_example = reply_all-Replied codec 9 commands [] client

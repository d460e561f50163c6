-- ===== src/Examples/Devices.antt =====
-- crates/wiretap-server/src/ingest.rs: a device that sends a batch.
use wire_tap_server.Prelude.{ℕ, ◌≡◌, refl, true, false, none, List, [], ◌∷◌}
use wire_tap_server.Model.{Sample}
use wire_tap_server.Archive.Interface.{Parts}
use wire_tap_server.Archive.Handle.{
  Bucket, zero_counters, enqueue_all, enqueue, after_send, warn_thresholds, depth, bucket_of,
  occupancy_pct, log_queue_full,
}
use wire_tap_server.Ingest.Session.{Machine, Session, batch_status}
use wire_tap_server.Ingest.Answers.{Answer, batch_status-Answer}
use wire_tap_server.Examples.Frames.{record_library}
use wire_tap_server.Examples.Parts.{list_parts, lawful}
use wire_tap_server.Examples.Caches.{fd_frame, read_frame}

abbrev machine : Machine
machine = record {
  Attempts = ℕ;
  hello_ok = 0;
  hello_bad_auth = 1;
  ack_ok = 0;
  ack_malformed = 1;
  ack_overloaded = 2;
  answer_hello = λ status. status ∷ [];
  ack = λ seq status pct. seq ∷ status ∷ pct ∷ [];
  unknown_catalogue = [];
  admit = λ n. (true, n);
  succeeded = λ n. n;
  token_matches = λ t. true;
}

abbrev parts : Parts Sample
parts = list_parts

abbrev session : Session machine record_library parts
session = record {
  archive = record {
    queue = record { frames = read_frame ∷ []; room = 3; ended = false };
    counters = zero_counters;
    last_bucket = Bucket.below_80;
    last_full_log = none;
    closed_reported = false;
    log = [];
  };
  attempts = 0;
  has_token = false;
  relays_raw_serial = false;
  written = [];
}

abbrev two : List Sample
two = fd_frame ∷ fd_frame ∷ []

two_queued :
    (batch_status machine record_library parts 0 two session).1.archive.queue.frames
    ≡ read_frame ∷ two
unfolding batch_status enqueue_all enqueue after_send warn_thresholds depth bucket_of occupancy_pct
two_queued = refl

abbrev almost_full : Session machine record_library parts
almost_full = record session {
  archive = record (session.archive) {
    queue = record { frames = read_frame ∷ read_frame ∷ []; room = 1; ended = false };
  };
}

-- A batch that is acknowledged, and a frame of it dropped.
one_dropped :
    let x = batch_status machine record_library parts 0 two almost_full in
    (x.0 ≡ 0)
    × (x.1.archive.queue.frames ≡ read_frame ∷ read_frame ∷ fd_frame ∷ [])
    × (x.1.archive.counters.dropped ≡ 1)
unfolding batch_status enqueue_all enqueue after_send warn_thresholds depth bucket_of occupancy_pct
    log_queue_full
one_dropped = (refl, refl, refl)

batch_status-Answer_example :
    Answer machine record_library lawful 1 two almost_full
      (batch_status machine record_library parts 0 two almost_full)
batch_status-Answer_example =
    batch_status-Answer machine record_library lawful 0 1 two almost_full refl

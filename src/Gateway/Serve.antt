-- ===== src/Gateway/Serve.antt =====
-- crates/wiretap-backend/src/ingest/mod.rs: the loop of `serve`, and `handle_client`.
use wire_tap_server.Prelude.{ℕ, zero, suc, Bool, true, false, List, [], ◌∷◌, Option, none, some}
use wire_tap_server.Model.{Text}
use wire_tap_server.Gateway.Hello.{Gear, IngestServer}
use wire_tap_server.Gateway.Connection.{
  End, ended_well, ended_badly, panicked, out_of_fuel, Wake, bytes_in, end_of_bytes, read_failed,
  told_reassigned, Connection, close_previous, Asked, Turn, answer, go_on, finish, act, write_out,
}

module _ (g : Gear) where
  -- One round of the loop over the machine's actions: `stop` leaves it, for good with an `End`.
  pub data Round : Type 0 where
    stop : Option End → Connection g → Round
    more : Connection g → Round

  abbrev pub sent : Bool × Connection g → Round
  sent (true, c) = more c
  sent (false, c) = stop (some ended_badly) c

  abbrev pub turned : Turn g → Round
  turned (answer bytes c) = sent (write_out g bytes c.write_works c)
  turned (go_on c) = more c
  turned (finish e c) = stop (some e) c

  abbrev pub polled : ℕ → Option (Asked g) × g.machine.State → Connection g → Round
  polled now (none, m) c = stop none (record c { machine = m })
  polled now (some a, m) c = turned (act g now a (record c { machine = m }))

  unfoldable pub round : ℕ → Connection g → Round
  round now c = polled now (g.machine.poll c.machine) c

  -- `next` is the rest of the loop.
  abbrev pub onward : Round → (Connection g → Option End × Connection g) → Option End × Connection g
  onward (stop e c) next = (e, c)
  onward (more c) next = next c

  unfoldable pub answer_all : ℕ → ℕ → Connection g → Option End × Connection g
  answer_all zero now c = (some out_of_fuel, c)
  answer_all (suc fuel) now c = onward (round now c) (answer_all fuel now)

  -- Other connections change the server while this one waits.
  pub record Event : Type 0 where
    pub now : ℕ
    pub meanwhile : IngestServer g → IngestServer g
    pub wake : Wake

  module _ (fuel : g.machine.State → ℕ) where
    abbrev pub answered : ℕ → g.machine.State → Connection g → Option End × Connection g
    answered now m c = answer_all (fuel m) now (record c { machine = m })

    unfoldable pub woken : ℕ → Wake → Connection g → Option End × Connection g
    woken now (bytes_in bytes) c = answered now (g.machine.receive bytes c.machine) c
    woken now end_of_bytes c = (some ended_well, c)
    woken now read_failed c = (some ended_badly, c)
    woken now told_reassigned c = answered now (g.machine.close_reassigned c.machine) c

    abbrev pub after_meanwhile : Event → Connection g → Connection g
    after_meanwhile e c = record c { server = e.meanwhile c.server }

    abbrev pub unless_ended :
        Option End × Connection g
        → (Connection g → Option End × Connection g)
        → Option End × Connection g
    unless_ended (none, c) next = next c
    unless_ended (some why, c) next = (some why, c)

    -- `none` where the connection is still open after these events.
    unfoldable pub serve : List Event → Connection g → Option End × Connection g
    serve [] c = (none, c)
    serve (e ∷ es) c = unless_ended (woken e.now e.wake (after_meanwhile e c)) (serve es)

    -- A panic unwinds past the close of the session.
    abbrev pub unless_panicked : Option End → Connection g → Connection g
    unless_panicked (some panicked) c = c
    unless_panicked (some ended_well) c = record c { server = close_previous g c.authed c.server }
    unless_panicked (some ended_badly) c = record c { server = close_previous g c.authed c.server }
    unless_panicked (some out_of_fuel) c = record c { server = close_previous g c.authed c.server }
    unless_panicked none c = record c { server = close_previous g c.authed c.server }

    abbrev pub closed : Option End × Connection g → Option End × Connection g
    closed (end, c) = (end, unless_panicked end c)

    -- The connection ends after its events, if it has not before.
    unfoldable pub handle_client :
        List Event
        → ℕ
        → Text
        → ℕ
        → g.machine.State
        → List Bool
        → IngestServer g
        → Option End × Connection g
    handle_client es ip peer tag machine write_works s = closed (
        serve es (record {
          server = s;
          ip = ip;
          peer = peer;
          tag = tag;
          authed = none;
          served = none;
          machine = machine;
          written = [];
          write_works = write_works;
        }))

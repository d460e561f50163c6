-- ===== src/Gateway/Ended.antt =====
-- crates/wiretap-backend/src/ingest/mod.rs: `serve` ends only as the connection does.
use wire_tap_server.Prelude.{
  ℕ, zero, suc, ◌<◌, ◌≡◌, refl, sym, ap, ◌∙◌, Bool, true, false, List, [], ◌∷◌, Option, none, some,
  is_some, arith,
}
use wire_tap_server.Model.{Text}
use wire_tap_server.Wire.Records.{WireRecord}
use wire_tap_server.Gateway.Rows.{batch_rows}
use wire_tap_server.Gateway.Interface.{
  reply, hello_from, hello_refused, batch_in, nack, catalogue_get, catalogue_status, close,
  MachineLaws, CatalogLaws,
}
use wire_tap_server.Gateway.Hello.{Gear, IngestServer}
use wire_tap_server.Gateway.Connection.{
  End, Wake, bytes_in, end_of_bytes, read_failed, told_reassigned, Connection, Turn, answer, go_on,
  finish, act, write_out, Asked,
}
use wire_tap_server.Gateway.Serve.{
  Round, stop, more, sent, turned, polled, onward, unless_ended, round, answer_all, Event, woken,
  after_meanwhile, serve, closed, handle_client,
}
use wire_tap_server.Gateway.Lively.{rounds, Proper, Sound, Ready, Going, Sensible, act-Going}

module _ (g : Gear) (m : MachineLaws g.machine)
    (readable : (s : g.machine.State) (seq : ℕ) (records : List (ℕ × WireRecord g.wire.Header))
      → (g.machine.poll s).0 ≡ some (batch_in seq records)
      → is_some (batch_rows g.wire g.arb_id_of g.tx_flag records) ≡ true)
    (k : CatalogLaws g.catalog) where
  abbrev Rolling : ℕ → Round g → Type 0
  Rolling n (stop none c) = Ready g m c
  Rolling n (stop (some e) c) = Proper e
  Rolling n (more c) = (m.owed c.machine < n) × Ready g m c

  -- Either served to an end of its own, or still open, and ready.
  abbrev Result : Option End × Connection g → Type 0
  Result (none, c) = Ready g m c
  Result (some e, c) = Proper e

  write_out-Rolling :
      (n : ℕ) (bytes : List ℕ) (works : List Bool) (c : Connection g)
      → m.owed c.machine < n
      → Ready g m c
      → Rolling n (sent g (write_out g bytes works c))
  write_out-Rolling n bytes [] c less ready = (less, ready)
  write_out-Rolling n bytes (true ∷ rest) c less ready = (less, ready)
  write_out-Rolling n bytes (false ∷ rest) c less ready = tt

  turned-Rolling : (n k : ℕ) (t : Turn g) → k < n → Going g m k t → Rolling n (turned g t)
  turned-Rolling n k (answer bytes c) less (e, ready) =
      write_out-Rolling n bytes c.write_works c (rw e less) ready
  turned-Rolling n k (go_on c) less (e, ready) = (rw e less, ready)
  turned-Rolling n k (finish e c) less h = h

  sensible :
      (a : Asked g) (c : Connection g)
      → (g.machine.poll c.machine).0 ≡ some a
      → Ready g m c
      → Sensible g m a c
  sensible (reply bytes) c e ready = tt
  sensible (hello_from h) c e ready = m.hello_devices c.machine h e
  sensible (hello_refused status) c e ready = m.refused_status c.machine status e
  sensible (batch_in seq records) c e ready =
      (ready (m.batch_accepted c.machine seq records e), readable c.machine seq records e)
  sensible (nack seq status) c e ready = tt
  sensible (catalogue_get sha) c e ready = tt
  sensible (catalogue_status status) c e ready = tt
  sensible (close why) c e ready = tt

  same_sense :
      (a : Asked g) (c : Connection g) (s : g.machine.State)
      → Sensible g m a c
      → Sensible g m a (record c { machine = s })
  same_sense (reply bytes) c s h = tt
  same_sense (hello_from x) c s h = h
  same_sense (hello_refused status) c s h = h
  same_sense (batch_in seq records) c s h = h
  same_sense (nack seq status) c s h = tt
  same_sense (catalogue_get sha) c s h = tt
  same_sense (catalogue_status status) c s h = tt
  same_sense (close why) c s h = tt

  polled-Rolling :
      (now : ℕ) (r : Option (Asked g) × g.machine.State) (c : Connection g)
      → g.machine.poll c.machine ≡ r
      → Ready g m c
      → Rolling (m.owed c.machine) (polled g now r c)
  polled-Rolling now (none, s) c e ready =
      λ a. ready (sym (m.poll_accepted c.machine) ∙ ap (λ z. m.accepted z.1) e ∙ a)
  polled-Rolling now (some a, s) c e ready =
      let c1 = record c { machine = s } in
      turned-Rolling (m.owed c.machine) (m.owed s) (act g now a c1)
        (rw (sym (ap (λ z. m.owed z.1) e)) (m.poll_owed c.machine a (ap (λ z. z.0) e)))
        (act-Going g m k now a c1 (same_sense a c s (sensible a c (ap (λ z. z.0) e) ready))
          (λ k. ready (sym (m.poll_accepted c.machine) ∙ ap (λ z. m.accepted z.1) e ∙ k)))

  onward-Result :
      (n : ℕ) (r : Round g) (next : Connection g → Option End × Connection g)
      → Rolling n r
      → ((c : Connection g) → m.owed c.machine < n → Ready g m c → Result (next c))
      → Result (onward g r next)
  onward-Result n (stop none c) next h f = h
  onward-Result n (stop (some e) c) next h f = h
  onward-Result n (more c) next (less, ready) f = f c less ready

  answer_all-Result :
      (fuel now : ℕ) (c : Connection g)
      → m.owed c.machine < fuel
      → Ready g m c
      → Result (answer_all g fuel now c)
  unfolding answer_all round
  answer_all-Result zero now c less ready = absurd (omega arith)
  answer_all-Result (suc fuel) now c less ready =
      onward-Result (m.owed c.machine) (polled g now (g.machine.poll c.machine) c)
        (answer_all g fuel now) (polled-Rolling now (g.machine.poll c.machine) c refl ready)
        (λ c' less' ready'. answer_all-Result fuel now c' (omega arith) ready')

  woken-Result :
      (now : ℕ) (w : Wake) (c : Connection g) → Ready g m c → Result (woken g (rounds g m) now w c)
  unfolding woken
  woken-Result now (bytes_in bytes) c ready =
      answer_all-Result _ now _ (omega arith)
        (λ a. ready (sym (m.receive_accepted bytes c.machine) ∙ a))
  woken-Result now end_of_bytes c ready = tt
  woken-Result now read_failed c ready = tt
  woken-Result now told_reassigned c ready =
      answer_all-Result _ now _ (omega arith)
        (λ a. ready (sym (m.reassigned_accepted c.machine) ∙ a))

  unless_ended-Result :
      (r : Option End × Connection g) (next : Connection g → Option End × Connection g)
      → Result r
      → ((c : Connection g) → Ready g m c → Result (next c))
      → Result (unless_ended g (rounds g m) r next)
  unless_ended-Result (none, c) next h f = f c h
  unless_ended-Result (some e, c) next h f = h

  serve-Result :
      (es : List (Event g)) (c : Connection g) → Ready g m c → Result (serve g (rounds g m) es c)
  unfolding serve
  serve-Result [] c ready = ready
  serve-Result (e ∷ es) c ready =
      unless_ended-Result (woken g (rounds g m) e.now e.wake (after_meanwhile g (rounds g m) e c))
        (serve g (rounds g m) es)
        (woken-Result e.now e.wake (after_meanwhile g (rounds g m) e c) ready) (serve-Result es)

  closed-Sound : (r : Option End × Connection g) → Result r → Sound (closed g (rounds g m) r).0
  closed-Sound (none, c) h = tt
  closed-Sound (some e, c) h = h

  -- A client whose machine has accepted no hello yet is served, whatever it sends, until the connection ends or is still open, where the records of every batch that the machine hands on can be read as frames, a hello names at most 255 devices, and the catalogues give each one assignment at most: the rounds for the machine's actions are enough, no batch comes without a session, and no `expect` fails.
  pub handle_client-Sound :
      (es : List (Event g)) (ip : ℕ) (peer : Text) (tag : ℕ) (machine : g.machine.State)
      (write_works : List Bool) (s : IngestServer g)
      → m.accepted machine ≡ false
      → Sound (handle_client g (rounds g m) es ip peer tag machine write_works s).0
  unfolding handle_client
  handle_client-Sound es ip peer tag machine write_works s fresh =
      closed-Sound (serve g (rounds g m) es _)
        (serve-Result es _ (λ a. absurd (true_false (sym a ∙ fresh))))
    where
      true_false : true ≡ false → ⊥
      true_false e = cc

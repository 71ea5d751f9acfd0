-- ===== src/Relay/Setup/Stall.antt =====
-- What becomes of endpoint 0 when a filter turns `transmit_out` of a request off: the writer
-- (src/lib/RelayWriter.cpp) sends nothing on, and the reader (src/lib/RelayReader.cpp) waits for
-- the response.
use usbproxy_legacy.Prelude.{
  ◌≤◌, ◌≡◌, ◌∙◌, refl, ap, false, Option, none, some, List, [], ◌∷◌, arith,
}
use usbproxy_legacy.Packet.{PacketPtr, null, plain, setup, SetupPacket}
use usbproxy_legacy.SafeQueue.{dequeue}
use usbproxy_legacy.Relay.Types.{Ops}
use usbproxy_legacy.Relay.Writer.{Writer, write_setup, out_loop}
use usbproxy_legacy.Relay.Setup.{
  Ep0, HostInput, Event, reader_moves, writer_moves, reader_is_stopped, writer_is_stopped, Pc, top,
  receiving, finished, set_reader, wait_complete, accept_request, reader_top, reader_received,
  reader_at, reader_turn, send_on, writer_received, writer_at, writer_turn, stop_reader,
  stop_writer, step, run,
}
use usbproxy_legacy.Relay.Setup.Flight.{in_flight, setups, step-in_flight, run-in_flight}

module _ {E : Type 0} where
  log-reader_top : (i : HostInput) (s : Ep0 E) → (reader_top i s).host_log ≡ s.host_log
  unfolding reader_top accept_request set_reader wait_complete
  log-reader_top i s = ground arith

  log-reader_at :
      (i : HostInput) (c : Pc) (q : List PacketPtr) (s : Ep0 E)
      → setups q ≡ 0
      → (reader_at i c (dequeue q) s).host_log ≡ s.host_log
  unfolding reader_at dequeue reader_received set_reader
  log-reader_at i top q s e = log-reader_top i s
  log-reader_at i receiving [] s e = refl
  log-reader_at i receiving (null ∷ rest) s e = ground arith
  log-reader_at i receiving (plain p ∷ rest) s e = ground arith
  log-reader_at i receiving (setup p ∷ rest) s e = absurd (omega arith)
  log-reader_at i finished q s e = refl

  log-send_on :
      (out : Writer E × Option SetupPacket) (s : Ep0 E) → (send_on out s).host_log ≡ s.host_log
  unfolding send_on
  log-send_on (w, none) s = refl
  log-send_on (w, some r) s = refl

module _ {F E : Type 0} (ops : Ops F E) (filters : List F) where
  log-writer_at :
      (c : Pc) (q : List PacketPtr) (s : Ep0 E)
      → (writer_at ops filters c (dequeue q) s).host_log ≡ s.host_log
  unfolding writer_at dequeue writer_received
  log-writer_at top q s = ground arith
  log-writer_at receiving [] s = refl
  log-writer_at receiving (null ∷ rest) s = ground arith
  log-writer_at receiving (plain p ∷ rest) s = ground arith
  log-writer_at receiving (setup r ∷ rest) s =
      ground
        (arith, log-send_on (write_setup ops filters s.writer r) (record s { to_writer = rest }))
  log-writer_at finished q s = refl

  log-step :
      (s : Ep0 E) (e : Event) → in_flight s ≡ 0 → (step ops filters s e).host_log ≡ s.host_log
  unfolding step reader_turn writer_turn stop_reader stop_writer in_flight
  log-step s (reader_moves i) h = log-reader_at i s.reader.pc s.to_reader s (omega arith)
  log-step s writer_moves h = log-writer_at s.writer_pc s.to_writer s
  log-step s reader_is_stopped h = refl
  log-step s writer_is_stopped h = refl

  log-run :
      (s : Ep0 E) (es : List Event) → in_flight s ≡ 0 → (run ops filters s es).host_log ≡ s.host_log
  unfolding run
  log-run s [] h = refl
  log-run s (e ∷ es) h =
      log-run (step ops filters s e) es
        (omega (arith, step-in_flight ops filters s e (omega arith)))
      ∙ log-step s e h

  no_request : (s : Ep0 E) → in_flight s ≡ 0 → s.reader.direction_out ≡ false
  unfolding in_flight
  no_request s h = ground arith

  write_setup-none :
      (w : Writer E) (r : SetupPacket)
      → (out_loop ops filters w.env r).1.transmit_out ≡ false
      → (write_setup ops filters w r).1 ≡ none
  unfolding write_setup
  write_setup-none w r h = ground arith

  drop-in_flight :
      (out : Writer E × Option SetupPacket) (s : Ep0 E)
      → out.1 ≡ none
      → in_flight (send_on out s) ≡ in_flight s
  unfolding in_flight send_on
  drop-in_flight (w, none) s e = refl
  drop-in_flight (w, some r) s e = cc

  -- A request whose `transmit_out` a filter has turned off ends the traffic of endpoint 0: once the
  -- writer has taken it from its queue, then, however the threads go on, the reader never asks the
  -- host for a request again, and the host proxy is never given a response.
  pub dropped_request_stalls :
      (s : Ep0 E) (r : SetupPacket) (rest : List PacketPtr) (es : List Event)
      → in_flight s ≤ 1
      → s.writer_pc ≡ receiving
      → s.writer_stop ≡ false
      → s.to_writer ≡ setup r ∷ rest
      → (out_loop ops filters s.writer.env r).1.transmit_out ≡ false
      → let t = run ops filters (writer_turn ops filters s) es in
        (t.reader.direction_out ≡ false) × (t.host_log ≡ s.host_log)
  dropped_request_stalls s r rest es one pc go q off =
      let s0 : Ep0 E = record s { to_writer = rest } in
      let turn : writer_turn ops filters s ≡ send_on (write_setup ops filters s.writer r) s0 =
        unfold writer_turn writer_at writer_received dequeue in ground arith in
      let fewer : in_flight s0 ≡ 0 = unfold in_flight in ground arith in
      let none_left : in_flight (writer_turn ops filters s) ≡ 0 = rw turn (
        drop-in_flight (write_setup ops filters s.writer r) s0 (write_setup-none s.writer r off)
        ∙ fewer) in
      let later : in_flight (run ops filters (writer_turn ops filters s) es) ≡ 0 = omega (
        arith,
        none_left,
        run-in_flight ops filters (writer_turn ops filters s) es (omega (arith, none_left)),
      ) in
      (
        no_request (run ops filters (writer_turn ops filters s) es) later,
        log-run (writer_turn ops filters s) es none_left
            ∙ ap (λ t. t.host_log) turn
            ∙ log-send_on (write_setup ops filters s.writer r) s0,
      )

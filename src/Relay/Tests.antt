-- ===== src/Relay/Tests.antt =====
-- The relay threads over a device that echoes, with a filter that refuses a vendor request.
use usbproxy_legacy.Prelude.{
  ℕ, ◌≤◌, ◌≡◌, refl, true, false, none, some, List, [], ◌∷◌, ◌++◌, ◌==◌, arith,
}
use usbproxy_legacy.Packet.{PacketPtr, null, plain, setup, SetupPacket, CtrlRequest}
use usbproxy_legacy.Relay.Types.{Ops}
use usbproxy_legacy.Relay.Writer.{Writer, out_loop}
use usbproxy_legacy.Relay.Setup.{
  Ep0, send_data, control_ack, reader_is_stopped, receiving, writer_turn, run,
}
use usbproxy_legacy.Relay.Setup.Flight.{in_flight, run-in_flight}
use usbproxy_legacy.Relay.Setup.Stall.{dropped_request_stalls}
use usbproxy_legacy.Relay.Setup.Transaction.{quiet, transfer, unfiltered_transfer}
use usbproxy_legacy.Relay.Data.{
  DataWriter, filter_all, relayed, write_run, write_run-relayed, write_run-delivers,
}

-- The one filter clears `transmit_out` of request 0x40 and `transmit` of packets of one byte.
data Refuse : Type 0 where
  refuse : Refuse

abbrev ops : Ops Refuse (List ℕ)
ops = record {
  test_setup_packet = λ f s out. s.ctrl_req.b_request == 0x40;
  filter_setup_packet = λ f e s out. (e, record s { transmit_out = false });
  test_packet = λ f p. p.w_length == 1;
  filter_packet = λ f e p. (e, record p { transmit = false });
  control_request = λ e r n d.
      (r.b_request ∷ e, record { accepted = true; nbytes = 2; bytes = some (7 ∷ 8 ∷ []) });
  set_config = λ e n. n ∷ e;
}

abbrev request : ℕ → ℕ → CtrlRequest
request type number = record {
  b_request_type = type;
  b_request = number;
  w_value = 1;
  w_index = 0;
  w_length = 2;
}

abbrev writer : Writer (List ℕ)
writer = record { env = []; len = 0 }

run-in_flight_example :
    in_flight
      (run ops (refuse ∷ []) (quiet writer []) (reader_is_stopped ∷ transfer (request 0x80 6) none))
    ≤ 1
unfolding in_flight
run-in_flight_example =
    run-in_flight ops (refuse ∷ []) (quiet writer [])
      (reader_is_stopped ∷ transfer (request 0x80 6) none) (omega arith)

abbrev refused : SetupPacket
refused = record {
  ctrl_req = request 0 0x40;
  data_bytes = none;
  filter_out = true;
  transmit_out = true;
  filter_in = true;
  transmit_in = true;
}

abbrev about_to_refuse : Ep0 (List ℕ)
about_to_refuse = record {
  reader = record { pc = receiving; please_stop = false; direction_out = false; held = none };
  writer_pc = receiving;
  writer_stop = false;
  writer = writer;
  to_writer = setup refused ∷ [];
  to_reader = [];
  host_log = [];
}

dropped_request_stalls_example :
    let t =
      run ops
        (refuse ∷ [])
        (writer_turn ops (refuse ∷ []) about_to_refuse)
        (transfer (request 0x80 6) none) in
    (t.reader.direction_out ≡ false) × (t.host_log ≡ [])
unfolding in_flight out_loop
dropped_request_stalls_example =
    dropped_request_stalls ops (refuse ∷ []) about_to_refuse refused []
      (transfer (request 0x80 6) none) (omega arith) refl refl refl refl

unfiltered_transfer_example :
    run ops [] (quiet writer []) (transfer (request 0x80 6) none)
    ≡ quiet (record { env = 6 ∷ []; len = 2 }) (send_data (some (7 ∷ 8 ∷ [])) 2 ∷ [])
unfiltered_transfer_example = unfiltered_transfer ops writer [] (request 0x80 6) none

set_configuration_reaches_manager :
    run ops [] (quiet writer []) (transfer (request 0 9) none)
    ≡ quiet (record { env = 1 ∷ 9 ∷ []; len = 2 }) (control_ack ∷ [])
set_configuration_reaches_manager = unfiltered_transfer ops writer [] (request 0 9) none

abbrev packet : List ℕ → ℕ → PacketPtr
packet bytes n =
    plain
      (record { b_endpoint = 1; w_length = n; filter = true; transmit = true; data_bytes = bytes })

abbrev idle : DataWriter (List ℕ)
idle = record { env = []; writing = false; sent = [] }

abbrev packets : List PacketPtr
packets = packet (1 ∷ 2 ∷ []) 2 ∷ packet (3 ∷ []) 1 ∷ null ∷ packet (4 ∷ 5 ∷ []) 2 ∷ []

write_run-relayed_example :
    let (w, q) = write_run ops (refuse ∷ []) (true ∷ false ∷ true ∷ []) idle packets in
    w.sent ++ relayed ops (refuse ∷ []) w.env q ≡ (1 ∷ 2 ∷ [], 2) ∷ (4 ∷ 5 ∷ [], 2) ∷ []
unfolding relayed filter_all
write_run-relayed_example =
    write_run-relayed ops (refuse ∷ []) (true ∷ false ∷ true ∷ []) idle packets

write_run-delivers_example :
    (write_run ops
      (refuse ∷ [])
      (true ∷ true ∷ true ∷ true ∷ true ∷ true ∷ true ∷ true ∷ [])
      idle
      packets).1
    ≡ []
write_run-delivers_example = (write_run-delivers ops (refuse ∷ []) idle packets refl).0

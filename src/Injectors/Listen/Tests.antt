-- ===== src/Injectors/Listen/Tests.antt =====
-- src/lib/Injector.cpp: runs on small inputs.
use usbproxy_legacy.Prelude.{◌+◌, ◌≡◌, refl, true, false, none, some, List, [], ◌∷◌, ◌++◌}
use usbproxy_legacy.Packet.{Packet, SetupPacket}
use usbproxy_legacy.Injectors.Listen.{
  Injector, injector, set_queue, prepare, entries, Round, a_packet, a_setup, nothing, run, round,
  poll_round, take_arrivals, take_arrival, take_packet, take_setup, flush, flush_all, flush_one,
  buffer, new_entry, store,
}
use usbproxy_legacy.Injectors.Listen.Counts.{held, outgoing}
use usbproxy_legacy.Injectors.Listen.Sound.{IsSound, InRange-zeros}
use usbproxy_legacy.Injectors.Listen.Kept.{taken_run, run-kept}
use usbproxy_legacy.Injectors.Listen.Marks.{has_setup}
use usbproxy_legacy.Injectors.Listen.Waiting.{replies, run-injected}
use usbproxy_legacy.Injectors.Listen.Stuck.{flushes, run-flushes}

-- Endpoint 1 IN has queue 9; the source has two files.
abbrev ready : Injector
ready = prepare (5 ∷ 6 ∷ []) (set_queue 0x81 9 injector)

abbrev report : Packet
report = record {
  b_endpoint = 0x81;
  w_length = 1;
  filter = true;
  transmit = true;
  data_bytes = 7 ∷ [];
}

abbrev request : SetupPacket
request = record {
  ctrl_req = record {
    b_request_type = 0x80;
    b_request = 6;
    w_value = 0;
    w_index = 0;
    w_length = 8;
  };
  data_bytes = none;
  filter_out = true;
  transmit_out = true;
  filter_in = true;
  transmit_in = true;
}

-- One packet is sent, one is stored, one is given back, and then a request comes.
abbrev traffic : List Round
traffic =
    record { reply = none; ready = true; arrivals = a_packet true report ∷ nothing ∷ [] }
    ∷ record {
      reply = none;
      ready = true;
      arrivals = a_packet false report ∷ a_packet false report ∷ a_setup true request ∷ [];
    }
    ∷ record { reply = some request; ready = true; arrivals = a_packet true report ∷ [] }
    ∷ []

ready-IsSound : IsSound ready
unfolding prepare entries set_queue injector
ready-IsSound = record {
  same_length = refl;
  in_indices = InRange-zeros 2 16;
  out_indices = InRange-zeros 2 16;
}

run-kept_example :
    held (run 0 traffic ready).0.poll_buffer + outgoing (run 0 traffic ready).1
    ≡ held ready.poll_buffer + taken_run 0 traffic ready
run-kept_example = run-kept 0 traffic ready ready-IsSound

-- What follows the request of `traffic`.
abbrev later : List Round
later =
    record { reply = some request; ready = true; arrivals = a_packet true report ∷ [] }
    ∷ record { reply = none; ready = true; arrivals = a_setup true request ∷ [] }
    ∷ []

-- Endpoint 0 has no queue: the request is given back.
traffic_injects : has_setup (run 0 traffic ready).1 ≡ true
unfolding run round poll_round take_arrivals take_arrival take_packet take_setup flush flush_all
    flush_one buffer new_entry store prepare set_queue injector entries
traffic_injects = refl

run-injected_example :
    run 0 (traffic ++ later) ready
    ≡ ((run 0 traffic ready).0, (run 0 traffic ready).1 ++ replies later)
run-injected_example = run-injected 0 traffic later ready traffic_injects

run-flushes_example : flushes (run 0 traffic ready).1 ≡ 0
run-flushes_example =
    run-flushes 0 refl traffic ready (unfold prepare entries in (refl, (refl, tt)))

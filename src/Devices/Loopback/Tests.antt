-- ===== src/Devices/Loopback/Tests.antt =====
-- The loopback device between connect and disconnect, and its answers.
use usbproxy_legacy.Prelude.{
  ℕ, zero, suc, ◌≡◌, refl, some, true, false, not, [], ◌∷◌, All, replicate, arith,
}
use usbproxy_legacy.Packet.{CtrlRequest}
use usbproxy_legacy.Devices.Loopback.{buf_len, zero_packet, Loopback, loopback, control_request}
use usbproxy_legacy.Devices.Loopback.Ring.{run, Refines, occupancy, send, receive, run-Refines}
use usbproxy_legacy.Devices.Loopback.Replies.{fits, overruns, control_request-fits}

abbrev connected_device : Loopback
connected_device = record (loopback 1 2) {
  buffer = some (replicate buf_len zero_packet);
  head = 0;
  tail = 0;
  full = false;
  connected = true;
}

replicate-All : (n : ℕ) → All (λ p. p ≡ zero_packet) (replicate n zero_packet)
replicate-All zero = tt
replicate-All (suc n) = (refl, replicate-All n)

run-Refines_example :
    Refines
      (occupancy connected_device)
      (send (1 ∷ []) ∷ receive ∷ receive ∷ [])
      (run connected_device (send (1 ∷ []) ∷ receive ∷ receive ∷ []))
run-Refines_example =
    run-Refines connected_device (replicate buf_len zero_packet)
      (send (1 ∷ []) ∷ receive ∷ receive ∷ [])
      (record {
        stored = refl;
        blank = replicate-All buf_len;
        head_inside = omega arith;
        tail_inside = omega arith;
      })

abbrev short_request : CtrlRequest
short_request = record {
  b_request_type = 0x80;
  b_request = 6;
  w_value = 0x100;
  w_index = 0;
  w_length = 8;
}

control_request-fits_example :
    fits short_request (control_request (loopback 1 2) short_request) ≡ not (overruns short_request)
control_request-fits_example = control_request-fits 1 2 short_request

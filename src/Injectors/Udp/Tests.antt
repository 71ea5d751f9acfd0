-- ===== src/Injectors/Udp/Tests.antt =====
-- A packet and a control request in datagrams: the theorems at them.
use usbproxy_legacy.Prelude.{
  ◌≡◌, refl, true, false, none, some, [], ◌∷◌, if◌then◌else◌, has_bits, arith,
}
use usbproxy_legacy.Packet.{Packet, CtrlRequest, new_setup_packet}
use usbproxy_legacy.Usb.Interface.{ok}
use usbproxy_legacy.Injectors.Udp.{
  received, get_packets, setup_datagram, get_packets-setup_datagram,
}

abbrev report : Packet
report = record {
  b_endpoint = 0x81;
  w_length = 3;
  filter = false;
  transmit = true;
  data_bytes = 7 ∷ 8 ∷ 9 ∷ [];
}

abbrev request : CtrlRequest
request = record {
  b_request_type = 0x21;
  b_request = 9;
  w_value = 0x200;
  w_index = 0;
  w_length = 1;
}

get_packets-setup_datagram_example :
    get_packets [] (some (setup_datagram 15 request (1 ∷ [])))
    ≡ ok (
      received [] (setup_datagram 15 request (1 ∷ [])),
      record {
        packet = none;
        setup = some (
            new_setup_packet request
              (if has_bits request.b_request_type 0x80 then none else some (1 ∷ []))
              true);
      },
    )
get_packets-setup_datagram_example =
    get_packets-setup_datagram [] (1 ∷ []) 15 request refl (omega arith)

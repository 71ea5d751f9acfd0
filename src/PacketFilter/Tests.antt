-- ===== src/PacketFilter/Tests.antt =====
-- The header test at the header that the UDP HID filter sets up.
use usbproxy_legacy.Prelude.{◌≡◌, refl, true, false, none, [], ◌∷◌}
use usbproxy_legacy.Packet.{Packet, SetupPacket, new_setup_packet}
use usbproxy_legacy.PacketFilter.{PacketFilter, test_packet}

abbrev report_filter : PacketFilter
report_filter = record {
  packet_header = 0 ∷ 20 ∷ 0 ∷ 0 ∷ 0 ∷ 0 ∷ 0 ∷ 0 ∷ [];
  packet_header_mask = 0xff ∷ 0xff ∷ 0 ∷ 0 ∷ 0 ∷ 0 ∷ 0 ∷ 0 ∷ [];
  packet_header_mask_length = 2;
  packet_header_setup_out = false;
  packet_header_setup_in = false;
}

abbrev report : Packet
report = record {
  b_endpoint = 0x81;
  w_length = 4;
  filter = true;
  transmit = true;
  data_bytes = 0 ∷ 20 ∷ 3 ∷ 4 ∷ [];
}

abbrev get_descriptor : SetupPacket
get_descriptor =
    new_setup_packet
      (record { b_request_type = 0x80; b_request = 6; w_value = 0x100; w_index = 0; w_length = 18 })
      none true

test_packet_rejects : test_packet report_filter (record report { data_bytes = 1 ∷ [] }) ≡ false
unfolding test_packet
test_packet_rejects = refl

-- ===== src/Filters/UdpHid/Tests.antt =====
-- A report of a game controller merged with one that came by UDP.
use usbproxy_legacy.Prelude.{◌≡◌, refl, true, ◌∷◌, ◌==◌, if◌then◌else◌, get_or, replicate}
use usbproxy_legacy.Packet.{Packet}
use usbproxy_legacy.Filters.UdpHid.{filter_packet, merged_byte, filter_packet-merged}

abbrev buttons : Packet
buttons = record {
  b_endpoint = 0x81;
  w_length = 20;
  filter = true;
  transmit = true;
  data_bytes = 0 ∷ 20 ∷ 1 ∷ replicate 17 3;
}

filter_packet-merged_example :
    get_or (filter_packet (0 ∷ 20 ∷ 4 ∷ replicate 17 9) buttons).data_bytes 2 0 ≡ (
      if buttons.w_length == 20
      then merged_byte (0 ∷ 20 ∷ 4 ∷ replicate 17 9) buttons.data_bytes 2
      else get_or buttons.data_bytes 2 0)
filter_packet-merged_example = filter_packet-merged (0 ∷ 20 ∷ 4 ∷ replicate 17 9) buttons 2 refl

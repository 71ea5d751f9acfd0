-- ===== src/Filters/Rot13/Tests.antt =====
-- A keyboard report with the letters A and Z, and a modifier that is no letter.
use usbproxy_legacy.Prelude.{◌≡◌, refl, true, [], ◌∷◌}
use usbproxy_legacy.Packet.{Packet}
use usbproxy_legacy.Filters.Rot13.{rotate, rotate_from, filter_packet}

abbrev report : Packet
report = record {
  b_endpoint = 0x81;
  w_length = 8;
  filter = true;
  transmit = true;
  data_bytes = 5 ∷ 0 ∷ 0x04 ∷ 0x1d ∷ 0x28 ∷ 0 ∷ 0 ∷ 0 ∷ [];
}

rotated : (filter_packet report).data_bytes ≡ 5 ∷ 0 ∷ 0x11 ∷ 0x10 ∷ 0x28 ∷ 0 ∷ 0 ∷ 0 ∷ []
unfolding filter_packet rotate_from rotate
rotated = refl

-- ===== src/Filters/KeyLogger/Tests.antt =====
-- The logger at boot-protocol keyboard reports.
use Prim.Native.String.{String}
use usbproxy_legacy.Prelude.{ℕ, ◌≡◌, refl, Bool, true, Option, none, [], ◌∷◌}
use usbproxy_legacy.Packet.{Packet}
use usbproxy_legacy.Filters.KeyLogger.{
  KeyLogger, raw, coloured, filter_packet, key_loop, found, key_pressed, key_name,
}

abbrev empty_slots : Bool → ℕ → Option String
empty_slots shift key = none

abbrev report : ℕ → ℕ → Packet
report mods key = record {
  b_endpoint = 0x81;
  w_length = 8;
  filter = true;
  transmit = true;
  data_bytes = mods ∷ 0 ∷ key ∷ 0 ∷ 0 ∷ 0 ∷ 0 ∷ 0 ∷ [];
}

abbrev idle_logger : KeyLogger
idle_logger = record { file = []; last_report = 0 ∷ 0 ∷ 0 ∷ 0 ∷ 0 ∷ 0 ∷ 0 ∷ 0 ∷ [] }

shift_a : (filter_packet empty_slots idle_logger (report 2 4)).file ≡ raw "A" ∷ []
unfolding filter_packet key_loop found key_pressed key_name
shift_a = refl

control_f1 :
    (filter_packet empty_slots idle_logger (report 1 0x3a)).file
    ≡ coloured 31 "{LCTRL}" ∷ coloured 34 "{F1}" ∷ []
unfolding filter_packet key_loop found key_pressed key_name
control_f1 = refl

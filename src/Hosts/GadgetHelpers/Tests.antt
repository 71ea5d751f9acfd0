-- ===== src/Hosts/GadgetHelpers/Tests.antt =====
-- src/Plugins/Hosts/GadgetFS_helpers.c: runs on small inputs.
use usbproxy_legacy.Prelude.{◌≡◌, refl, [], ◌∷◌}
use usbproxy_legacy.Hosts.GadgetHelpers.{endpoint_name, sw_usb_udc}

-- "ep1in", "ep12out" and "ep2-bulk".
first_in : endpoint_name 0x81 [] ≡ 101 ∷ 112 ∷ 49 ∷ 105 ∷ 110 ∷ []
unfolding endpoint_name
first_in = refl

last_out : endpoint_name 12 [] ≡ 101 ∷ 112 ∷ 49 ∷ 50 ∷ 111 ∷ 117 ∷ 116 ∷ []
unfolding endpoint_name
last_out = refl

bulk : endpoint_name 0x82 sw_usb_udc ≡ 101 ∷ 112 ∷ 50 ∷ 45 ∷ 98 ∷ 117 ∷ 108 ∷ 107 ∷ []
unfolding endpoint_name
bulk = refl

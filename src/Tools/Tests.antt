-- ===== src/Tools/Tests.antt =====
-- src/tools: runs on small inputs.
use usbproxy_legacy.Prelude.{◌≡◌, refl}
use usbproxy_legacy.Tools.Dot11Control.{to_int, from_int}

small : to_int (from_int 100) ≡ 100
unfolding to_int from_int
small = refl

-- A byte of 128 or more is read as a negative number: -56 in place of 200.
sign_extended : to_int (from_int 200) ≡ 0xffffffc8
unfolding to_int from_int
sign_extended = refl

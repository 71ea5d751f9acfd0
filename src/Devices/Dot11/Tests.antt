-- ===== src/Devices/Dot11/Tests.antt =====
-- src/Plugins/Devices/DeviceProxy_dot11.cpp: runs on small inputs.
use usbproxy_legacy.Prelude.{ℕ, ◌≡◌, refl, true, none, some, [], ◌∷◌, arith}
use usbproxy_legacy.Usb.Interface.{ok}
use usbproxy_legacy.Devices.Dot11.{Lorcon, Dot11}
use usbproxy_legacy.Devices.Dot11.Vendor.{int_bytes}
use usbproxy_legacy.Devices.Dot11.Control.{control_request, stalled, undefined}
use usbproxy_legacy.Devices.Dot11.Reached.{
  shadowed_unreached, cmd_set_channel-control_request, passed_on,
}
use usbproxy_legacy.Tools.Dot11Control.{ctrl_in, cmd_set_channel}
use usbproxy_legacy.Devices.LibUsb.{got, refused, success, failure, error_timeout}

-- The state is the channel; the two libraries tell another one.
abbrev radio : ℕ → Lorcon ℕ
radio told = record {
  auto_driver = λ e i. (e, some 1);
  create = λ e i n. (e, some 2);
  open_inject = λ e c. (e, 1);
  open_monitor = λ e c. (e, 1);
  open_injmon = λ e c. (e, 1);
  free_driver_list = λ e n. e;
  free = λ e c. e;
  close = λ e c. e;
  set_timeout = λ e c v. e;
  get_timeout = λ e c. 250;
  get_capiface = λ e c. 119 ∷ [];
  get_driver_name = λ e c. 120 ∷ [];
  get_datalink = λ e c. 127;
  set_datalink = λ e c v. (e, 0);
  get_channel = λ e c. told;
  set_channel = λ e c v. (v, 0);
  get_hwmac = λ e c. 1 ∷ 2 ∷ [];
  set_hwmac = λ e c n b. (e, 0);
  add_wepkey = λ e c a k. (e, 0);
  next_ex = λ e c. (e, none);
}

abbrev wireless : Dot11
wireless = record {
  interface = 119 ∷ [];
  monitor = true;
  connected = true;
  driver = some 1;
  lorcon_context = some 2;
}

shadowed_unreached_example :
    control_request
      (radio 6)
      6
      wireless
      (record { nbytes = 0; buffer = some (0 ∷ 0 ∷ 0 ∷ 0 ∷ []) })
      (ctrl_in 10 4)
    ≡ control_request
        (radio 7)
        6
        wireless
        (record { nbytes = 0; buffer = some (0 ∷ 0 ∷ 0 ∷ 0 ∷ []) })
        (ctrl_in 10 4)
shadowed_unreached_example =
    shadowed_unreached (radio 6) 6 wireless
      (record { nbytes = 0; buffer = some (0 ∷ 0 ∷ 0 ∷ 0 ∷ []) }) (radio 7) (ctrl_in 10 4) refl

cmd_set_channel-control_request_example :
    (cmd_set_channel (passed_on (radio 6) 6 wireless (got [])) (ok stalled) 300
      ≡ (ok (undefined 300 wireless (record { nbytes = 4; buffer = some (int_bytes 0) })), success))
    × (cmd_set_channel (passed_on (radio 6) 6 wireless (refused error_timeout)) (ok stalled) 300 ≡ (
      ok (undefined 300 wireless (record { nbytes = 4; buffer = some (int_bytes 0) })),
      failure error_timeout,
    ))
cmd_set_channel-control_request_example =
    cmd_set_channel-control_request (radio 6) 6 wireless 300 (ok stalled) [] error_timeout
      (omega arith)

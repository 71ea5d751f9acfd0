-- ===== src/Devices/LibUsb/Tests.antt =====
-- src/Plugins/Devices/DeviceProxy_LibUSB.cpp: runs on small inputs, with a bus of three devices.
use usbproxy_legacy.Prelude.{
  ℕ, ◌+◌, ◌≤◌, ◌≡◌, refl, ◌⊎◌, true, false, ◌&&◌, none, some, [], ◌∷◌, ◌==◌, ltb, if◌then◌else◌,
  length, take, length-take, arith,
}
use usbproxy_legacy.Descriptors.{DeviceDescriptor}
use usbproxy_legacy.Devices.LibUsb.{
  claim_interface, mark, mark_slot, Library, LibUsbProxy, libusb_proxy, set_endpoint_interface,
  endpoint_interface_claimed, is_connected, ep_interface, Rc, success, failure, error_timeout,
  error, got, refused,
}
use usbproxy_legacy.Devices.LibUsb.Connect.{candidate, connect_to, find, matches}
use usbproxy_legacy.Devices.LibUsb.Connect.Chosen.{Opened, connect_to-Opened, connect_to_again}
use usbproxy_legacy.Devices.LibUsb.Claims.{
  call, claim, release, run, held_run, run-endpoint_interface_claimed,
}
use usbproxy_legacy.Devices.LibUsb.Transfers.{
  send_data, receive_data, Attempts, again, nothing, Fits, send_data-Attempts, receive_data-Fits,
}

abbrev device : ℕ → ℕ → DeviceDescriptor
device class product = record {
  b_length = 18;
  b_descriptor_type = 1;
  bcd_usb = 0x200;
  b_device_class = class;
  b_device_sub_class = 0;
  b_device_protocol = 0;
  b_max_packet_size0 = 64;
  id_vendor = 0x1d50;
  id_product = product;
  bcd_device = 0;
  i_manufacturer = 0;
  i_product = 0;
  i_serial_number = 0;
  b_num_configurations = 1;
}

-- The state counts the transfers. Device 1 is a hub, 2 gives no descriptor, 3 is a device that does
-- not answer a request for a string. Interface 1 cannot be claimed; the first two bulk transfers
-- time out.
abbrev bus : Library ℕ
bus = record {
  init = λ e. (e, 7);
  get_device_list = λ e ctx. (e, got (1 ∷ 2 ∷ 3 ∷ []));
  get_device_descriptor = λ e k.
      if k == 1 then got (device 9 1) else if k == 2 then refused (error 4) else got (device 0 3);
  free_device_list = λ e l. e;
  open_device = λ e k. (e, got (10 + k));
  set_auto_detach_kernel_driver = λ e h. (e, success);
  get_string_descriptor = λ e h. (e, if e == 0 then got 4 else refused (error 1));
  hotplug_register_callback = λ e ctx v p. (e, got 5);
  hotplug_deregister_callback = λ e ctx cb. e;
  close = λ e h. e;
  exit = λ e ctx. e;
  reset_device = λ e h. (e, success);
  is_fast = λ e h. true;
  get_device_address = λ e h. 3;
  control_transfer = λ e h req bytes. (e, got []);
  bulk_out =
      λ e h ep bytes. (e + 1, if ltb e 2 then failure error_timeout else success, length bytes);
  interrupt_out = λ e h ep bytes. (e + 1, success, length bytes);
  bulk_in = λ e h ep n. (e + 1, success, take n (1 ∷ 2 ∷ 3 ∷ []));
  interrupt_in = λ e h ep n. (e + 1, success, take n (4 ∷ []));
  clear_halt = λ e h ep. e;
  claim_interface = λ e h n. (e, if n == 1 then failure (error 6) else success);
  release_interface = λ e h n. (e, success);
}

abbrev fresh : LibUsbProxy
fresh = libusb_proxy none none false

-- The device behind the hub is found, and opened.
connect_first : (connect_to bus 0 fresh none none false).2 ≡ success
unfolding connect_to libusb_proxy matches is_connected
connect_first = refl

connect_to-Opened_example :
    Opened bus
      (matches none none false)
      0
      (1 ∷ 2 ∷ 3 ∷ [])
      (connect_to bus 0 fresh none none false).1
connect_to-Opened_example =
    connect_to-Opened bus 0 fresh none none false (1 ∷ 2 ∷ 3 ∷ [])
      (unfold is_connected libusb_proxy in refl) refl connect_first

-- The device does not answer.
connect_fails : (connect_to bus 1 fresh none none false).2 ≡ failure (error 1)
unfolding connect_to libusb_proxy matches is_connected
connect_fails = refl

connect_to_again_example :
    ((connect_to bus 1 fresh none none false).1.dev_handle ≡ some 13)
    × (connect_to bus 1 (connect_to bus 1 fresh none none false).1 none none false
        ≡ (1, (connect_to bus 1 fresh none none false).1, success))
connect_to_again_example =
    connect_to_again bus 1 fresh none none false (1 ∷ 2 ∷ 3 ∷ []) 3 13 (device 0 3) 1 none none
      false (unfold is_connected libusb_proxy in refl) refl (unfold find candidate matches in refl)
      refl

-- Endpoint 1 belongs to interface 0, endpoint 2 to interface 1.
abbrev placed : LibUsbProxy
placed =
    set_endpoint_interface (set_endpoint_interface (record fresh { dev_handle = some 13 }) 0x81 0) 2
      1

run-endpoint_interface_claimed_example :
    endpoint_interface_claimed (run bus (claim 0 ∷ claim 1 ∷ release 1 ∷ []) 0 placed).1 0x81
    ≡ (ep_interface placed 0x81).is_defined
      && (held_run bus placed.dev_handle (claim 0 ∷ claim 1 ∷ release 1 ∷ []) 0 (λ _. false)).1
          (ep_interface placed 0x81).interface
run-endpoint_interface_claimed_example =
    run-endpoint_interface_claimed bus 0x81 (claim 0 ∷ claim 1 ∷ release 1 ∷ []) 0 placed
      (unfold set_endpoint_interface libusb_proxy in refl)

abbrev claimed_proxy : LibUsbProxy
claimed_proxy = (run bus (claim 0 ∷ []) 0 placed).1

is_claimed : endpoint_interface_claimed claimed_proxy 1 ≡ true
unfolding run set_endpoint_interface libusb_proxy endpoint_interface_claimed call claim_interface
    is_connected mark mark_slot
is_claimed = refl

send_data-Attempts_example :
    (k : ℕ) × (r : ℕ × Rc × ℕ) × (k ≤ 5)
    × Attempts bus claimed_proxy.dev_handle 1 (1 ∷ 2 ∷ []) k 0 r
    × (send_data bus 0 claimed_proxy 1 2 (1 ∷ 2 ∷ []) ≡ r.0)
    × ((again (1 ∷ 2 ∷ []) (r.1, r.2) ≡ false) ⊎ (k ≡ 5))
send_data-Attempts_example = send_data-Attempts bus 0 claimed_proxy 1 2 (1 ∷ 2 ∷ []) is_claimed refl

receive_data-Fits_example :
    Fits 2
      (receive_data bus 0 claimed_proxy 1 2 2 nothing).1.bytes
      (receive_data bus 0 claimed_proxy 1 2 2 nothing).1.size
receive_data-Fits_example =
    receive_data-Fits bus (λ e h ep n. omega (arith, length-take {A = ℕ} n (1 ∷ 2 ∷ 3 ∷ []))) 0
      claimed_proxy 1 2 2 (λ e h ep n. omega (arith, length-take {A = ℕ} n (4 ∷ [])))

-- ===== src/Usb/Device/Load.antt =====
-- src/lib/Device.cpp and src/lib/DeviceQualifier.cpp: the constructors that read a whole device
-- through its proxy. The states of the device and the host, which nothing reads, and its speed are
-- left out.
use usbproxy_legacy.Prelude.{
  ℕ, zero, suc, ◌+◌, ◌*◌, ◌-◌, ◌/◌, ◌^◌, Bool, true, false, Option, none, some, List, [], ◌∷◌, ◌==◌,
  ltb, if◌then◌else◌, get_or, take, replicate,
}
use usbproxy_legacy.Packet.{CtrlRequest}
use usbproxy_legacy.Descriptors.{DeviceDescriptor, QualifierDescriptor}
use usbproxy_legacy.Usb.Interface.{Interface, Parsed, ok, overflow, ◌>>=◌}
use usbproxy_legacy.Usb.InterfaceGroup.{InterfaceGroup}
use usbproxy_legacy.Usb.Configuration
use usbproxy_legacy.Usb.Configuration.{Configuration, Proxy, request}
use usbproxy_legacy.Usb.Device.{Device, language_string, add_string_from}

-- The proxy: its `control_request`, and `get_address`.
record Source : Type 0 where
  control : Proxy
  address : ℕ

parse_descriptor : List ℕ → DeviceDescriptor
parse_descriptor p = record {
  b_length = get_or p 0 0;
  b_descriptor_type = get_or p 1 0;
  bcd_usb = get_or p 2 0 + get_or p 3 0 * 256;
  b_device_class = get_or p 4 0;
  b_device_sub_class = get_or p 5 0;
  b_device_protocol = get_or p 6 0;
  b_max_packet_size0 = get_or p 7 0;
  id_vendor = get_or p 8 0 + get_or p 9 0 * 256;
  id_product = get_or p 10 0 + get_or p 11 0 * 256;
  bcd_device = get_or p 12 0 + get_or p 13 0 * 256;
  i_manufacturer = get_or p 14 0;
  i_product = get_or p 15 0;
  i_serial_number = get_or p 16 0;
  b_num_configurations = get_or p 17 0;
}

parse_qualifier : List ℕ → QualifierDescriptor
parse_qualifier p = record {
  b_length = get_or p 0 0;
  b_descriptor_type = get_or p 1 0;
  bcd_usb = get_or p 2 0 + get_or p 3 0 * 256;
  b_device_class = get_or p 4 0;
  b_device_sub_class = get_or p 5 0;
  b_device_protocol = get_or p 6 0;
  b_max_packet_size0 = get_or p 7 0;
  b_num_configurations = get_or p 8 0;
}

abbrev device_request : ℕ → ℕ → ℕ → CtrlRequest
device_request number value n = record {
  b_request_type = 0x80;
  b_request = number;
  w_value = value;
  w_index = 0;
  w_length = n;
}

add_in_languages : Proxy → Device → ℕ → List ℕ → Parsed Device
add_in_languages proxy d index [] = ok d
add_in_languages proxy d index (l ∷ ls) =
    add_string_from proxy d index l >>= λ e. add_in_languages proxy e index ls

-- `add_string(index)`: the string in each language of the device.
add_string_all : Proxy → Device → ℕ → Parsed Device
add_string_all proxy d index = elim (language_string d) [
  | ok z ↦ add_in_languages proxy d index (take (z.b_length / 2 - 1) z.w_data)
  | _ ↦ ok d
]

-- `if (index) {add_string(index);}`
add_if_any : Proxy → Device → ℕ → Parsed Device
add_if_any proxy d index = if index == 0 then ok d else add_string_all proxy d index

-- The loops over `k` and `j`: the strings of the alternate settings of the interfaces.
add_settings : Proxy → Device → ℕ → List (Option Interface) → Parsed Device
add_settings proxy d zero is = ok d
add_settings proxy d (suc n) [] = overflow
add_settings proxy d (suc n) (none ∷ is) = add_settings proxy d n is
add_settings proxy d (suc n) (some i ∷ is) =
    add_if_any proxy d i.descriptor.i_interface >>= λ e. add_settings proxy e n is

add_interfaces : Proxy → Device → List (Option InterfaceGroup) → Parsed Device
add_interfaces proxy d [] = ok d
add_interfaces proxy d (none ∷ gs) = add_interfaces proxy d gs
add_interfaces proxy d (some g ∷ gs) =
    add_settings proxy d g.alternate_count g.interfaces >>= λ e. add_interfaces proxy e gs

-- The loop over the configurations, of which `k` are left: those read, and the device with their
-- strings. `n` and `m` are the fuel of `Configuration.load`.
load_configurations :
    ℕ → ℕ → Proxy → Bool → ℕ → ℕ → Device → Parsed (List (Option Configuration) × Device)
load_configurations n m proxy other_speed i zero d = ok ([], d)
load_configurations n m proxy other_speed i (suc k) d =
    Configuration.load n m proxy i other_speed >>= λ c.
    add_if_any proxy d c.descriptor.i_configuration >>= λ e.
    add_interfaces proxy e c.interface_groups >>= λ f.
    load_configurations n m proxy other_speed (i + 1) k f >>= λ r. ok (some c ∷ r.0, r.1)

-- `DeviceQualifier(device, proxy)`: a request that fails, or a descriptor of length 0, leaves the
-- device without a qualifier.
load_qualifier : ℕ → ℕ → Proxy → Device → Parsed Device
load_qualifier n m proxy d = elim (proxy (device_request 6 (6 * 2 ^ 8) 10)) [
  | none ↦ ok d
  | some bs ↦
      let q = parse_qualifier bs in
      load_configurations n m proxy true 0 q.b_num_configurations d >>= λ r.
      if q.b_length == 0
      then ok (r.1)
      else ok (record (r.1) { qualifier = some (record { descriptor = q; configurations = r.0 }) })
]

abbrev larger : ℕ → ℕ → ℕ
larger a b = if ltb b a then a else b

-- The last part: which configuration is active. A reply without a byte leaves `result` unset, and
-- counts as 0.
load_active : Source → Device → Parsed Device
load_active source d =
    if source.address == 0
    then ok (record d { device_configuration_index = some 0 })
    else (request source.control (device_request 8 0 1) >>= λ bs.
        ok (record d { device_configuration_index = some (get_or bs 0 0) }))

-- `Device(proxy)`.
load : ℕ → ℕ → Source → Parsed Device
load n m source =
    let proxy = source.control in
    request proxy (device_request 6 (1 * 2 ^ 8) 18) >>= λ bs.
    let d = parse_descriptor bs in
    let highest = larger d.i_serial_number (larger d.i_product d.i_manufacturer) in
    let start : Device = record {
      descriptor = d;
      configurations = replicate d.b_num_configurations none;
      max_string_idx = highest;
      strings = replicate (highest + 1) none;
      device_configuration_index = none;
      qualifier = none;
    } in
    add_string_from proxy start 0 0 >>= λ d0. add_if_any proxy d0 d.i_manufacturer >>= λ d1.
    add_if_any proxy d1 d.i_product >>= λ d2. add_if_any proxy d2 d.i_serial_number >>= λ d3.
    load_configurations n m proxy false 0 d.b_num_configurations d3 >>= λ r.
    load_qualifier n m proxy (record (r.1) { configurations = r.0 }) >>= λ d4. load_active source d4

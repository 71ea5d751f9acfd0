-- ===== src/Hosts/GadgetFs/Generate.antt =====
-- src/Plugins/Hosts/HostProxy_GadgetFS.cpp: generate_descriptor, what is written to the file of the
-- gadget. Whether the device is a high-speed one is a parameter.
use usbproxy_legacy.Prelude.{
  ℕ, zero, suc, ◌+◌, ◌-◌, ◌%◌, ◌/◌, Bool, true, false, not, Option, none, some, List, [], ◌∷◌, ◌++◌,
  ◌==◌, ltb, if◌then◌else◌, get_or, set, length, take, bit_and,
}
use usbproxy_legacy.Usb.Interface.{
  Interface, Parsed, ok, overflow, null_pointer, ◌>>=◌, length_hid, length_generics,
}
use usbproxy_legacy.Usb.Configuration
use usbproxy_legacy.Usb.Configuration.{Configuration}
use usbproxy_legacy.Usb.DeviceQualifier
use usbproxy_legacy.Usb.DeviceQualifier.{DeviceQualifier}
use usbproxy_legacy.Usb.Device
use usbproxy_legacy.Usb.Device.{Device}
use usbproxy_legacy.Devices.Loopback.{device_bytes}

-- The number of binary digits of a byte.
abbrev bit_length : ℕ → ℕ → ℕ
bit_length zero b = 0
bit_length (suc n) b = let rest = bit_length n (b / 2) in if b == 0 then 0 else rest + 1

-- `(log10(8*b)/log10(2)) + 1`, as an `int`: in double precision this is the number of binary digits
-- of 8 * b for each byte but 0. For 0 the conversion is of minus infinity, whose low byte is 0.
unfoldable pub new_interval : ℕ → ℕ
new_interval b = if b == 0 then 0 else bit_length 8 b + 3

-- The descriptor of a configuration, with another type, without remote wakeup, and with its length.
unfoldable pub patched : Configuration → List ℕ
patched c =
    let size = Configuration.get_full_descriptor_length c in
    let buf = Configuration.get_full_descriptor c in
    let attributes = get_or buf 7 0 in
    take size (
      set (set (set (set buf 1 2) 7 (attributes - bit_and attributes 0x20)) 2 (size % 256)) 3
        (size / 256 % 256))

-- The loop over the endpoints of an interface, of which `n` are left; `pos` stands for `pointer`.
unfoldable pub adjust_endpoints : ℕ → ℕ → List ℕ → Parsed (ℕ × List ℕ)
adjust_endpoints zero pos bytes = ok (pos, bytes)
adjust_endpoints (suc n) pos bytes =
    let rest =
      adjust_endpoints n (pos + get_or bytes pos 0)
        (set bytes (pos + 6) (new_interval (get_or bytes (pos + 6) 0))) in
    if ltb (pos + 6) (length bytes) then rest else overflow

-- The length of an interface up to its endpoints.
abbrev pub header_length : Interface → ℕ
header_length i =
    i.descriptor.b_length + length_hid i.hid_descriptor + length_generics i.generic_descriptors

-- The interface of the active setting, which may be a null pointer.
unfoldable pub adjust_interface : Option Interface → ℕ → List ℕ → Parsed (ℕ × List ℕ)
adjust_interface none pos bytes = null_pointer
adjust_interface (some i) pos bytes =
    adjust_endpoints i.descriptor.b_num_endpoints (pos + header_length i) bytes

-- The loop over the interfaces, of which `n` are left and `k` is the next.
unfoldable pub adjust_interfaces : Configuration → ℕ → ℕ → ℕ → List ℕ → Parsed (List ℕ)
adjust_interfaces c zero k pos bytes = ok bytes
adjust_interfaces c (suc n) k pos bytes =
    adjust_interface (Configuration.get_interface c k) pos bytes >>= λ r.
    adjust_interfaces c n (k + 1) r.0 r.1

-- The block of a configuration in the part for high speed.
unfoldable pub high_block : Bool → Configuration → Parsed (List ℕ)
high_block true c = ok (patched c)
high_block false c =
    let buf = patched c in adjust_interfaces c (get_or buf 4 0) 0 (get_or buf 0 0) buf

unfoldable pub full_block : Configuration → Parsed (List ℕ)
full_block c = ok (patched c)

-- A loop over the configurations, of which `n` are left and that of value `i` is the next; a null
-- pointer is skipped.
unfoldable pub block_of : (Configuration → Parsed (List ℕ)) → Option Configuration → Parsed (List ℕ)
block_of f none = ok []
block_of f (some c) = f c

unfoldable pub blocks :
    (Configuration → Parsed (List ℕ)) → (ℕ → Option Configuration) → ℕ → ℕ → Parsed (List ℕ)
blocks f choose zero i = ok []
blocks f choose (suc n) i =
    block_of f (choose i) >>= λ b. blocks f choose n (i + 1) >>= λ rest. ok (b ++ rest)

-- The configuration of the device itself, or of its qualifier if it has one and `other` is set.
abbrev configuration_in : Device → Option DeviceQualifier → Bool → ℕ → Option Configuration
configuration_in d (some q) true i = DeviceQualifier.get_configuration q i
configuration_in d (some q) false i = Device.get_configuration d i
configuration_in d none other i = Device.get_configuration d i

unfoldable pub choose : Device → Bool → ℕ → Option Configuration
choose d other i = configuration_in d d.qualifier other i

-- The buffer has 7 * 1024 bytes, with which nothing compares the length: it is taken to be large
-- enough.
unfoldable pub generate_descriptor : Bool → Device → Parsed (List ℕ)
generate_descriptor high_speed d =
    let n = d.descriptor.b_num_configurations in
    blocks full_block (choose d high_speed) n 1 >>= λ full.
    blocks (high_block high_speed) (choose d (not high_speed)) n 1 >>= λ high.
    ok ((0 ∷ 0 ∷ 0 ∷ 0 ∷ []) ++ (full ++ (high ++ device_bytes d.descriptor)))

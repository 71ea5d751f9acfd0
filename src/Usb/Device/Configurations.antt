-- ===== src/Usb/Device/Configurations.antt =====
-- src/lib/Device.cpp: the configurations by value.
use usbproxy_legacy.Prelude.{
  ℕ, ◌-◌, ◌≤◌, ◌<◌, ◌≡◌, Bool-cases, inl, inr, none, some, ◌==◌, if◌then◌else◌, length,
  get_or-set_self, get_or-set_ne, arith,
}
use usbproxy_legacy.Usb.Interface.{ok, ◌>>=◌}
use usbproxy_legacy.Usb.Configuration.{Configuration}
use usbproxy_legacy.Usb.Device.{
  Device, add_configuration, get_configuration, set_active_configuration, get_active_configuration,
}

-- The active configuration is the one that was chosen; a value that the device does not have leaves
-- it without one.
get_active-set_active :
    (d : Device) (n : ℕ)
    → n < 256
    → get_active_configuration (set_active_configuration d n) ≡ get_configuration d n
unfolding get_active_configuration set_active_configuration get_configuration
get_active-set_active d n h = ground arith

-- A configuration of a value from 1 to the number of configurations is found by this value, and
-- what is found by any other stays.
pub get_configuration-add_configuration :
    (d : Device) (c : Configuration) (n : ℕ)
    → length d.configurations ≡ d.descriptor.b_num_configurations
    → 1 ≤ c.descriptor.b_configuration_value
    → c.descriptor.b_configuration_value ≤ d.descriptor.b_num_configurations
    → (add_configuration d c >>= λ e. ok (get_configuration e n))
      ≡ ok (if n == c.descriptor.b_configuration_value then some c else get_configuration d n)
unfolding add_configuration get_configuration
get_configuration-add_configuration d c n all low high =
    let value = c.descriptor.b_configuration_value in
    let here = get_or-set_self d.configurations (value - 1) (some c) none in
    let there = get_or-set_ne d.configurations (value - 1) (n - 1) (some c) none in
    elim (Bool-cases (n == value)) [ inl e ↦ ground (arith, here) | inr e ↦ ground (arith, there) ]

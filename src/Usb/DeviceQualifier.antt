-- ===== src/Usb/DeviceQualifier.antt =====
-- src/lib/DeviceQualifier.h and src/lib/DeviceQualifier.cpp: what the device would be at the other
-- speed. The pointer to the device is left out. The constructor that reads from a device is in
-- Device.Load.
use usbproxy_legacy.Prelude.{
  ℕ, ◌+◌, ◌-◌, Bool, true, not, ◌||◌, Option, none, some, List, [], ◌∷◌, ◌==◌, ◌/=◌, ltb,
  if◌then◌else◌, get_or, set, replicate,
}
use usbproxy_legacy.Descriptors.{QualifierDescriptor}
use usbproxy_legacy.Usb.Errors.{
  DefinitionError, invalid_descriptor, null_object, misplaced_object, DeObjType, qualifier_object,
  os_config_object, defined, definition_error, or_else,
}
use usbproxy_legacy.Usb.Interface.{Parsed, ok, overflow}
use usbproxy_legacy.Usb.Configuration
use usbproxy_legacy.Usb.Configuration.{Configuration}

pub record DeviceQualifier : Type 0 where
  pub descriptor : QualifierDescriptor
  pub configurations : List (Option Configuration)

-- The constructor from a descriptor.
qualifier_of : QualifierDescriptor → DeviceQualifier
qualifier_of d = record { descriptor = d; configurations = replicate d.b_num_configurations none }

-- Value 0 writes before the array.
pub add_configuration : DeviceQualifier → Configuration → Parsed DeviceQualifier
add_configuration q c =
    let value = c.descriptor.b_configuration_value in
    if ltb q.descriptor.b_num_configurations value
    then ok q
    else if value == 0
    then overflow
    else ok (record q { configurations = set q.configurations (value - 1) (some c) })

unfoldable pub get_configuration : DeviceQualifier → ℕ → Option Configuration
get_configuration q n =
    if ltb q.descriptor.b_num_configurations n || ltb n 1
    then none
    else get_or q.configurations (n - 1) none

-- The loop over the configurations, from slot `n` on; the same in the device and in its qualifier,
-- but for the kind of object and the speed.
pub configurations_defined : DeObjType → Bool → List (Option Configuration) → ℕ → DefinitionError
configurations_defined kind high_speed [] n = defined
configurations_defined kind high_speed (none ∷ cs) n =
    definition_error null_object 0 kind (n + 1) 0 0 0
configurations_defined kind high_speed (some c ∷ cs) n =
    if c.descriptor.b_configuration_value /= n + 1
    then definition_error misplaced_object c.descriptor.b_configuration_value kind (n + 1) 0 0 0
    else or_else (Configuration.is_defined c high_speed)
        (configurations_defined kind high_speed cs (n + 1))

abbrev pub is_packet_size : ℕ → Bool
is_packet_size n = n == 8 || (n == 16 || (n == 32 || n == 64))

unfoldable pub is_defined : DeviceQualifier → DefinitionError
is_defined q =
    let d = q.descriptor in
    let invalid =
      λ (detail : ℕ). definition_error invalid_descriptor detail qualifier_object 0 0 0 0 in
    if d.b_length /= 10
    then invalid 1
    else if d.b_descriptor_type /= 6
    then invalid 2
    else if not (is_packet_size d.b_max_packet_size0)
    then invalid 8
    else if d.b_num_configurations == 0
    then invalid 9
    else configurations_defined os_config_object true q.configurations 0

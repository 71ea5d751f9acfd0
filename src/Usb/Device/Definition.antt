-- ===== src/Usb/Device/Definition.antt =====
-- src/lib/Device.cpp: is_defined, which tells whether the model of a device is complete.
use usbproxy_legacy.Prelude.{
  ℕ, zero, suc, ◌+◌, ◌≡◌, ◌≢◌, refl, Bool, false, not, ◌||◌, All, Option, none, some, List, [], ◌∷◌,
  ◌==◌, ◌/=◌, ltb, if◌then◌else◌, get_or, take, arith,
}
use mathlib.Core.Path.{subst}
use usbproxy_legacy.Usb.Errors.{
  DefinitionError, no_error, invalid_descriptor, null_object, missing_language, device_object,
  config_object, string_object, defined, definition_error,
}
use usbproxy_legacy.Usb.Interface.{
  Interface, Parsed, ok, overflow, null_pointer, failed, no_fuel, ◌>>=◌,
}
use usbproxy_legacy.Usb.InterfaceGroup.{InterfaceGroup}
use usbproxy_legacy.Usb.Configuration.{Configuration}
use usbproxy_legacy.Usb.UsbString.{UsbString, get_char_count}
use usbproxy_legacy.Usb.DeviceQualifier
use usbproxy_legacy.Usb.DeviceQualifier.{DeviceQualifier, configurations_defined, is_packet_size}
use usbproxy_legacy.Usb.Device.{Device, language_string}

-- `rc=first; if (rc.error) {return rc;}` before `next`.
abbrev go_on : DefinitionError → Parsed DefinitionError → Parsed DefinitionError
go_on rc next = elim rc.error [ no_error ↦ next | _ ↦ ok rc ]

abbrev check : Parsed DefinitionError → Parsed DefinitionError → Parsed DefinitionError
check first next = first >>= λ rc. go_on rc next

abbrev has_language : ℕ → List UsbString → Bool
has_language l [] = false
has_language l (s ∷ ss) = s.language_id == l || has_language l ss

-- The loop over the languages of the device.
languages_defined : List ℕ → List UsbString → ℕ → DefinitionError
languages_defined [] ss n = defined
languages_defined (l ∷ ls) ss n =
    if has_language l ss
    then languages_defined ls ss n
    else definition_error missing_language l string_object n 0 0 0

is_string_defined : Device → ℕ → Parsed DefinitionError
is_string_defined d n =
    if n == 0
    then ok defined
    else if ltb d.max_string_idx n
    then overflow
    else elim (get_or d.strings n none) [
      | none ↦ ok (definition_error null_object 0 string_object n 0 0 0)
      | some ss ↦
          language_string d >>= λ z. ok (languages_defined (take (get_char_count z) z.w_data) ss n)
    ]

-- The loop over `k`: the first `n` alternate settings.
settings_strings : Device → ℕ → List (Option Interface) → Parsed DefinitionError
settings_strings d zero is = ok defined
settings_strings d (suc n) [] = overflow
settings_strings d (suc n) (none ∷ is) = null_pointer
settings_strings d (suc n) (some i ∷ is) =
    check (is_string_defined d i.descriptor.i_interface) (settings_strings d n is)

-- The loop over `j`: an interface without a group has no alternate settings.
interfaces_strings : Device → List (Option InterfaceGroup) → Parsed DefinitionError
interfaces_strings d [] = ok defined
interfaces_strings d (none ∷ gs) = interfaces_strings d gs
interfaces_strings d (some g ∷ gs) =
    check (settings_strings d g.alternate_count g.interfaces) (interfaces_strings d gs)

-- The loop over `i`.
configurations_strings : Device → List (Option Configuration) → Parsed DefinitionError
configurations_strings d [] = ok defined
configurations_strings d (none ∷ cs) = null_pointer
configurations_strings d (some c ∷ cs) =
    check (is_string_defined d c.descriptor.i_configuration)
      (check (interfaces_strings d c.interface_groups) (configurations_strings d cs))

-- The loop over the configurations of the qualifier, of which `n` are left, by
-- `get_configuration(i)`.
qualifier_strings : Device → DeviceQualifier → ℕ → ℕ → Parsed DefinitionError
qualifier_strings d q i zero = ok defined
qualifier_strings d q i (suc n) = elim (DeviceQualifier.get_configuration q i) [
  | none ↦ null_pointer
  | some c ↦
      check (is_string_defined d c.descriptor.i_configuration) (qualifier_strings d q (i + 1) n)
]

qualifier_defined : Device → Option DeviceQualifier → Parsed DefinitionError
qualifier_defined d none = ok defined
qualifier_defined d (some q) =
    check (ok (DeviceQualifier.is_defined q))
      (qualifier_strings d q 0 q.descriptor.b_num_configurations)

-- The checks of the device descriptor.
descriptor_defined : Device → DefinitionError
descriptor_defined d =
    let invalid =
      λ (detail : ℕ). definition_error invalid_descriptor detail device_object 0 0 0 0 in
    if d.descriptor.b_length /= 18
    then invalid 1
    else if d.descriptor.b_descriptor_type /= 1
    then invalid 2
    else if not (is_packet_size d.descriptor.b_max_packet_size0)
    then invalid 8
    else if d.descriptor.b_num_configurations == 0
    then invalid 0x12
    else defined

-- The language string is there, and lists a language.
languages_exist : Device → Parsed DefinitionError
languages_exist d = elim (language_string d) [
  | ok z ↦ ok (
      if get_char_count z == 0
      then definition_error missing_language 0 string_object 0 0 0 0
      else defined)
  | _ ↦ ok (definition_error null_object 0 string_object 0 0 0 0)
]

-- What is checked, in order.
checks : Device → List (Parsed DefinitionError)
checks d =
    ok (descriptor_defined d)
    ∷ ok (configurations_defined config_object false d.configurations 0)
    ∷ languages_exist d
    ∷ is_string_defined d d.descriptor.i_manufacturer
    ∷ is_string_defined d d.descriptor.i_product
    ∷ is_string_defined d d.descriptor.i_serial_number
    ∷ configurations_strings d d.configurations
    ∷ qualifier_defined d d.qualifier
    ∷ []

-- Up to the first error.
abbrev check_all : List (Parsed DefinitionError) → Parsed DefinitionError
check_all [] = ok defined
check_all (c ∷ cs) = check c (check_all cs)

pub is_defined : Device → Parsed DefinitionError
is_defined d = check_all (checks d)

-- The check ends without an error.
abbrev pub Accepts : Parsed DefinitionError → Type 0
Accepts r = (r >>= λ rc. ok rc.error) ≡ ok no_error

check_next : (first next : Parsed DefinitionError) → Accepts (check first next) → Accepts next
check_next (ok rc) next h = ground arith
check_next overflow next h = ground arith
check_next null_pointer next h = ground arith
check_next failed next h = ground arith
check_next no_fuel next h = ground arith

check_first : (first next : Parsed DefinitionError) → Accepts (check first next) → Accepts first
check_first (ok rc) next h = ground arith
check_first overflow next h = ground arith
check_first null_pointer next h = ground arith
check_first failed next h = ground arith
check_first no_fuel next h = ground arith

accepted_parts : (cs : List (Parsed DefinitionError)) → Accepts (check_all cs) → All Accepts cs
accepted_parts [] h = tt
accepted_parts (c ∷ cs) h =
    (check_first c (check_all cs) h, accepted_parts cs (check_next c (check_all cs) h))

-- `get_configuration(0)` is null.
qualifier_strings_null :
    (d : Device) (q : DeviceQualifier) (n : ℕ) → n ≢ 0 → qualifier_strings d q 0 n ≡ null_pointer
unfolding qualifier_strings DeviceQualifier.get_configuration
qualifier_strings_null d q zero h = absurd (h refl)
qualifier_strings_null d q (suc n) h = ground arith

has_configurations :
    (q : DeviceQualifier)
    → (DeviceQualifier.is_defined q).error ≡ no_error
    → q.descriptor.b_num_configurations ≢ 0
unfolding DeviceQualifier.is_defined
has_configurations q h = ground arith

qualifier_rejected :
    (d : Device) (q : DeviceQualifier)
    → Accepts (
        check
          (ok (DeviceQualifier.is_defined q))
          (qualifier_strings d q 0 q.descriptor.b_num_configurations))
    → ⊥
qualifier_rejected d q h =
    let strings = qualifier_strings d q 0 q.descriptor.b_num_configurations in
    let passed = check_first (ok (DeviceQualifier.is_defined q)) strings h in
    let some_left = has_configurations q (ground arith) in
    let null = qualifier_strings_null d q q.descriptor.b_num_configurations some_left in
    let last = check_next (ok (DeviceQualifier.is_defined q)) strings h in ground arith

-- A device with a qualifier is never found to be defined: the check of its strings ends with an
-- error or follows the null pointer that `get_configuration(0)` of the qualifier returns.
pub qualifier_never_defined :
    (d : Device) (q : DeviceQualifier)
    → d.qualifier ≡ some q
    → (is_defined d >>= λ rc. ok rc.error) ≢ ok no_error
unfolding checks is_defined qualifier_defined
qualifier_never_defined d q has h =
    let last = (accepted_parts (checks d) h).1.1.1.1.1.1.1.0 in
    qualifier_rejected d q (subst (λ o. Accepts (qualifier_defined d o)) has last)

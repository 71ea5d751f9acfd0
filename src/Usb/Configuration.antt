-- ===== src/Usb/Configuration.antt =====
-- src/lib/Configuration.h and src/lib/Configuration.cpp: a configuration with a group of alternate
-- settings for each of its interfaces. The pointer to the device is left out.
pub mod Bytes
pub mod Parse
use usbproxy_legacy.Prelude.{
  ℕ, zero, suc, ◌+◌, ◌*◌, ◌-◌, ◌%◌, ◌^◌, Bool, true, false, Option, none, some, List, [], ◌∷◌, ◌++◌,
  ◌==◌, ◌/=◌, ltb, if◌then◌else◌, get_or, set, length, take, drop, replicate, bit_and, bit_or,
}
use usbproxy_legacy.Packet.{CtrlRequest}
use usbproxy_legacy.Descriptors.{ConfigDescriptor, config_bytes}
use usbproxy_legacy.Usb.Errors.{
  DefinitionError, DeError, invalid_descriptor, null_object, misplaced_object, DeObjType,
  config_object, os_config_object, interface_group_object, defined, definition_error, or_else,
}
use usbproxy_legacy.Usb.Interface
use usbproxy_legacy.Usb.Interface.{
  Interface, Parsed, ok, overflow, null_pointer, failed, no_fuel, ◌>>=◌, at_end,
}
use usbproxy_legacy.Usb.InterfaceGroup
use usbproxy_legacy.Usb.InterfaceGroup.{InterfaceGroup, interface_group}

-- `interface_groups` has one slot for each of `bNumInterfaces`; a null slot is `none`.
pub record Configuration : Type 0 where
  pub descriptor : ConfigDescriptor
  pub interface_groups : List (Option InterfaceGroup)

-- The constructor from a descriptor, and the one from its fields.
pub configuration_of : ConfigDescriptor → Configuration
configuration_of d = record { descriptor = d; interface_groups = replicate d.b_num_interfaces none }

new_configuration : ℕ → ℕ → ℕ → ℕ → ℕ → ℕ → Bool → Configuration
unfolding configuration_of
new_configuration total interfaces value i attributes power high_speed = configuration_of (record {
  b_length = 9;
  b_descriptor_type = if high_speed then 7 else 2;
  w_total_length = total;
  b_num_interfaces = interfaces;
  b_configuration_value = value;
  i_configuration = i;
  bm_attributes = attributes;
  b_max_power = power;
})

abbrev group_at : List (Option InterfaceGroup) → ℕ → Option InterfaceGroup
group_at gs n = get_or gs n none

abbrev or_new : Option InterfaceGroup → ℕ → InterfaceGroup
or_new none n = interface_group n
or_new (some g) n = g

-- The slot is not tested against the size of the array.
unfoldable pub add_interface : Configuration → Interface → Parsed Configuration
add_interface c i =
    let n = i.descriptor.b_interface_number in
    let g = InterfaceGroup.add_interface (or_new (group_at c.interface_groups n) n) i in
    if ltb n (length c.interface_groups)
    then ok (record c { interface_groups = set c.interface_groups n (some g) })
    else overflow

-- `while (p<e)`: `m` bounds its rounds, and `n` those of the loops for one interface.
pub parse_interfaces : ℕ → ℕ → List ℕ → Configuration → Parsed Configuration
parse_interfaces n zero p c = no_fuel
parse_interfaces n (suc m) p c =
    let more =
      Interface.parse n p >>= λ r. add_interface c r.0 >>= λ d. parse_interfaces n m r.1 d in
    if at_end p then ok c else more

-- `memcpy(&descriptor, buf, 9)`.
pub parse_descriptor : List ℕ → ConfigDescriptor
parse_descriptor p = record {
  b_length = get_or p 0 0;
  b_descriptor_type = get_or p 1 0;
  w_total_length = get_or p 2 0 + get_or p 3 0 * 256;
  b_num_interfaces = get_or p 4 0;
  b_configuration_value = get_or p 5 0;
  i_configuration = get_or p 6 0;
  bm_attributes = get_or p 7 0;
  b_max_power = get_or p 8 0;
}

-- `control_request` of the proxy of the device: the bytes it reads, or a failure.
abbrev pub Proxy : Type 0
Proxy = CtrlRequest → Option (List ℕ)

abbrev pub request : Proxy → CtrlRequest → Parsed (List ℕ)
request proxy r = elim (proxy r) [ none ↦ failed | some bs ↦ ok bs ]

abbrev get_descriptor_request : ℕ → Bool → ℕ → CtrlRequest
get_descriptor_request idx other_speed n = record {
  b_request_type = 0x80;
  b_request = 6;
  w_value = bit_or ((if other_speed then 7 else 2) * 2 ^ 8) idx;
  w_index = 0;
  w_length = n;
}

abbrev get_interface_request : ℕ → CtrlRequest
get_interface_request i = record {
  b_request_type = 0x81;
  b_request = 10;
  w_value = 0;
  w_index = i;
  w_length = 1;
}

-- The last loop, from group `i` on: the device is asked for the active setting where there is more
-- than one. A reply without a byte, which leaves `result` unset, counts as 0.
activate : Proxy → ℕ → List (Option InterfaceGroup) → Parsed (List (Option InterfaceGroup))
activate proxy i [] = ok []
activate proxy i (none ∷ gs) = null_pointer
activate proxy i (some g ∷ gs) =
    let setting =
      if g.alternate_count == 1
      then ok 0
      else (request proxy (get_interface_request i) >>= λ bs. ok (get_or bs 0 0)) in
    setting >>= λ a. activate proxy (i + 1) gs >>= λ rest.
    ok (some (record g { active_alternate_index = some a }) ∷ rest)

-- `Configuration(device, proxy, idx, otherSpeed)`. `wTotalLength` is read from the first nine
-- bytes; the loop ends at the length that the second request reports.
pub load : ℕ → ℕ → Proxy → ℕ → Bool → Parsed Configuration
load n m proxy idx other_speed =
    request proxy (get_descriptor_request idx other_speed 9) >>= λ head.
    let len = get_or head 3 0 * 2 ^ 8 + get_or head 2 0 in
    request proxy (get_descriptor_request idx other_speed len) >>= λ buf.
    parse_interfaces n m (drop 9 buf) (configuration_of (parse_descriptor buf)) >>= λ c.
    activate proxy 0 c.interface_groups >>= λ gs. ok (record c { interface_groups = gs })

-- The loops over the groups.
unfoldable pub length_groups : List (Option InterfaceGroup) → ℕ
unfolding InterfaceGroup.get_full_descriptor_length
length_groups [] = 0
length_groups (none ∷ gs) = length_groups gs
length_groups (some g ∷ gs) = InterfaceGroup.get_full_descriptor_length g + length_groups gs

unfoldable pub write_groups : List (Option InterfaceGroup) → List ℕ
unfolding InterfaceGroup.get_full_descriptor
write_groups [] = []
write_groups (none ∷ gs) = write_groups gs
write_groups (some g ∷ gs) = InterfaceGroup.get_full_descriptor g ++ write_groups gs

unfoldable pub get_full_descriptor_length : Configuration → ℕ
unfolding length_groups
get_full_descriptor_length c = c.descriptor.b_length + length_groups c.interface_groups

unfoldable pub get_full_descriptor : Configuration → List ℕ
unfolding write_groups config_bytes
get_full_descriptor c =
    take c.descriptor.b_length (config_bytes c.descriptor) ++ write_groups c.interface_groups

unfoldable pub get_interface_alternate : Configuration → ℕ → ℕ → Option Interface
get_interface_alternate c n alternate =
    if ltb n c.descriptor.b_num_interfaces
    then elim (group_at c.interface_groups n) [
      | none ↦ none
      | some g ↦ InterfaceGroup.get_interface g alternate
    ]
    else none

-- A slot beyond the array is read as null.
unfoldable pub get_interface_alternate_count : Configuration → ℕ → ℕ
get_interface_alternate_count c n = elim (group_at c.interface_groups n) [
  | none ↦ 0
  | some g ↦ g.alternate_count
]

unfoldable pub get_interface : Configuration → ℕ → Option Interface
get_interface c n =
    if ltb n c.descriptor.b_num_interfaces
    then elim (group_at c.interface_groups n) [
      | none ↦ none
      | some g ↦ InterfaceGroup.get_active_interface g
    ]
    else none

groups_defined : List (Option InterfaceGroup) → ℕ → ℕ → DefinitionError
unfolding InterfaceGroup.is_defined
groups_defined [] n config = defined
groups_defined (none ∷ gs) n config =
    definition_error null_object 0 interface_group_object config n 0 0
groups_defined (some g ∷ gs) n config =
    if g.number /= n
    then definition_error misplaced_object g.number interface_group_object config n 0 0
    else or_else (InterfaceGroup.is_defined g config) (groups_defined gs (n + 1) config)

unfoldable pub is_defined : Configuration → Bool → DefinitionError
unfolding get_full_descriptor_length groups_defined
is_defined c high_speed =
    let d = c.descriptor in
    let config = bit_or (if high_speed then 0x80 else 0) d.b_configuration_value in
    let invalid = λ (detail : ℕ).
      definition_error invalid_descriptor detail
        (if high_speed then os_config_object else config_object) config 0 0 0 in
    if d.b_length /= 9
    then invalid 1
    else if d.b_descriptor_type /= (if high_speed then 7 else 2)
    then invalid 2
    else if d.w_total_length /= get_full_descriptor_length c
    then invalid 3
    else if d.b_num_interfaces == 0
    then invalid 5
    else if bit_and d.bm_attributes 0x9f /= 0x80
    then invalid 8
    else groups_defined c.interface_groups 0 config

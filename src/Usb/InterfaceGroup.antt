-- ===== src/Usb/InterfaceGroup.antt =====
-- src/lib/InterfaceGroup.h and src/lib/InterfaceGroup.cpp: the alternate settings of one interface.
pub mod Bytes
pub mod Lookup
use usbproxy_legacy.Prelude.{
  ℕ, zero, suc, ◌+◌, ◌*◌, ◌-◌, ◌%◌, ◌^◌, Bool, true, false, Option, none, some, List, [], ◌∷◌, ◌++◌,
  ◌==◌, ◌/=◌, ltb, if◌then◌else◌, get_or, set, length, replicate,
}
use usbproxy_legacy.Usb.Errors.{
  DefinitionError, DeError, null_object, misplaced_object, misplaced_if_num, interface_object,
  defined, definition_error, or_else,
}
use usbproxy_legacy.Usb.Interface
use usbproxy_legacy.Usb.Interface.{Interface}

-- `alternate_count` is a byte beside the array; `interfaces` is the array as it was allocated. An
-- active index of -1 is `none`.
pub record InterfaceGroup : Type 0 where
  pub number : ℕ
  pub alternate_count : ℕ
  pub interfaces : List (Option Interface)
  pub active_alternate_index : Option ℕ

pub interface_group : ℕ → InterfaceGroup
interface_group n = record {
  number = n;
  alternate_count = 0;
  interfaces = [];
  active_alternate_index = none;
}

-- A slot of the array; beyond the array there is nothing to read.
abbrev at_slot : List (Option Interface) → ℕ → Option Interface
at_slot is n = get_or is n none

-- The first `n` slots of an array are copied to a new one.
abbrev pub grow : List (Option Interface) → ℕ → ℕ → List (Option Interface)
grow is n zero = []
grow is zero (suc size) = none ∷ grow [] zero size
grow [] (suc n) (suc size) = none ∷ grow [] n size
grow (i ∷ is) (suc n) (suc size) = i ∷ grow is n size

pub add_interface : InterfaceGroup → Interface → InterfaceGroup
add_interface g i =
    let alternate = i.descriptor.b_alternate_setting in
    if ltb alternate g.alternate_count
    then record g { interfaces = set g.interfaces alternate (some i) }
    else record g {
      interfaces = set (grow g.interfaces g.alternate_count (alternate + 1)) alternate (some i);
      alternate_count = (alternate + 1) % 2 ^ 8;
    }

unfoldable pub get_interface : InterfaceGroup → ℕ → Option Interface
get_interface g alternate =
    if ltb alternate g.alternate_count then at_slot g.interfaces alternate else none

-- The index is an `int`, and the argument of `get_interface` a byte.
unfoldable pub get_active_interface : InterfaceGroup → Option Interface
unfolding get_interface
get_active_interface g = elim g.active_alternate_index [
  | none ↦ none
  | some n ↦ get_interface g (n % 2 ^ 8)
]

-- The loops over the first `n` slots.
unfoldable pub length_interfaces : ℕ → List (Option Interface) → ℕ
unfolding Interface.get_full_descriptor_length
length_interfaces zero is = 0
length_interfaces (suc n) [] = 0
length_interfaces (suc n) (none ∷ is) = length_interfaces n is
length_interfaces (suc n) (some i ∷ is) =
    Interface.get_full_descriptor_length i + length_interfaces n is

unfoldable pub write_interfaces : ℕ → List (Option Interface) → List ℕ
unfolding Interface.get_full_descriptor
write_interfaces zero is = []
write_interfaces (suc n) [] = []
write_interfaces (suc n) (none ∷ is) = write_interfaces n is
write_interfaces (suc n) (some i ∷ is) = Interface.get_full_descriptor i ++ write_interfaces n is

unfoldable pub get_full_descriptor_length : InterfaceGroup → ℕ
unfolding length_interfaces
get_full_descriptor_length g = length_interfaces g.alternate_count g.interfaces

unfoldable pub get_full_descriptor : InterfaceGroup → List ℕ
unfolding write_interfaces
get_full_descriptor g = write_interfaces g.alternate_count g.interfaces

-- `n` slots are left, of which the first is that of setting `a`.
interfaces_defined : ℕ → List (Option Interface) → ℕ → ℕ → ℕ → DefinitionError
unfolding Interface.is_defined
interfaces_defined zero is a config number = defined
interfaces_defined (suc n) [] a config number =
    definition_error null_object 0 interface_object config number a 0
interfaces_defined (suc n) (none ∷ is) a config number =
    definition_error null_object 0 interface_object config number a 0
interfaces_defined (suc n) (some i ∷ is) a config number =
    let misplaced = λ (e : DeError).
      definition_error e i.descriptor.b_alternate_setting interface_object config number a 0 in
    if i.descriptor.b_interface_number /= number
    then misplaced misplaced_if_num
    else if i.descriptor.b_alternate_setting /= a
    then misplaced misplaced_object
    else or_else (Interface.is_defined i config number)
        (interfaces_defined n is (a + 1) config number)

unfoldable pub is_defined : InterfaceGroup → ℕ → DefinitionError
unfolding interfaces_defined
is_defined g config =
    if g.alternate_count == 0
    then definition_error null_object 0 interface_object config g.number 0 0
    else interfaces_defined g.alternate_count g.interfaces 0 config g.number

-- ===== src/Usb/Device.antt =====
-- src/lib/Device.h and src/lib/Device.cpp: a device with its configurations, its strings by index
-- and language, and its active configuration. What belongs to the host side, which nothing reads,
-- is left out. The constructor that reads everything from a device is in Load.
pub mod Strings
pub mod Configurations
pub mod Definition
pub mod Load
mod Tests
use usbproxy_legacy.Prelude.{
  ℕ, zero, suc, ◌+◌, ◌-◌, ◌*◌, ◌%◌, Bool, true, false, not, ◌&&◌, ◌||◌, Option, none, some, List,
  [], ◌∷◌, ◌++◌, ◌==◌, ◌/=◌, ltb, leb, if◌then◌else◌, get_or, set, length, take, replicate,
}
use usbproxy_legacy.Descriptors.{DeviceDescriptor}
use usbproxy_legacy.Usb.Interface.{Parsed, ok, overflow, null_pointer, ◌>>=◌}
use usbproxy_legacy.Usb.Configuration.{Configuration, Proxy}
use usbproxy_legacy.Usb.DeviceQualifier.{DeviceQualifier}
use usbproxy_legacy.Usb.UsbString
use usbproxy_legacy.Usb.UsbString.{UsbString, string_of_words, get_char_count, append_char}

-- `strings` has `maxStringIdx + 1` slots, each null or the strings of its index in all languages.
-- An active configuration of -1 is `none`.
pub record Device : Type 0 where
  pub descriptor : DeviceDescriptor
  pub configurations : List (Option Configuration)
  pub max_string_idx : ℕ
  pub strings : List (Option (List UsbString))
  pub device_configuration_index : Option ℕ
  pub qualifier : Option DeviceQualifier

-- The constructor from a descriptor, whose string 0 lists US English.
device_of : DeviceDescriptor → Device
unfolding string_of_words
device_of d = record {
  descriptor = d;
  configurations = replicate d.b_num_configurations none;
  max_string_idx = 0;
  strings = some (string_of_words (0x0409 ∷ []) 0 0 ∷ []) ∷ [];
  device_configuration_index = none;
  qualifier = none;
}

-- `strings[0][0]`, followed.
pub language_string : Device → Parsed UsbString
language_string d = elim (get_or d.strings 0 none) [
  | none ↦ null_pointer
  | some l ↦ elim l [ [] ↦ null_pointer | s ∷ ss ↦ ok s ]
]

abbrev pub elem : ℕ → List ℕ → Bool
elem x [] = false
elem x (y ∷ ys) = x == y || elem x ys

-- `strings[0][0]` is changed in place.
abbrev pub set_language_string :
    List (Option (List UsbString)) → UsbString → List (Option (List UsbString))
set_language_string (some (s ∷ ss) ∷ slots) t = some (t ∷ ss) ∷ slots
set_language_string slots t = slots

pub add_language : Device → ℕ → Parsed Device
unfolding get_char_count append_char
add_language d language = language_string d >>= λ z.
    if elem language (take (get_char_count z) z.w_data)
    then ok d
    else (append_char z language >>= λ z'.
        ok (record d { strings = set_language_string d.strings z' }))

-- The loop over the strings of an index does not stop at the one that it replaces: it goes on to
-- the end and appends the string as well.
pub place : List UsbString → UsbString → List UsbString
place [] s = s ∷ []
place (t ∷ ts) s = (if t.language_id == s.language_id then s else t) ∷ place ts s

abbrev pub place_in : Option (List UsbString) → UsbString → List UsbString
place_in none s = s ∷ []
place_in (some ts) s = place ts s

-- The part of add_string behind `add_language`.
pub insert_string : Device → UsbString → Device
insert_string d s =
    let grown =
      if ltb d.max_string_idx s.index
      then d.strings ++ replicate (s.index - d.max_string_idx) none
      else d.strings in
    record d {
      max_string_idx = if ltb d.max_string_idx s.index then s.index else d.max_string_idx;
      strings = set grown s.index (some (place_in (get_or grown s.index none) s));
    }

pub add_string : Device → UsbString → Parsed Device
add_string d s =
    let with_language =
      if s.index /= 0 || s.language_id /= 0 then add_language d s.language_id else ok d in
    with_language >>= λ e. ok (insert_string e s)

-- `add_string(index, languageId)`, which reads the string from the device.
add_string_from : Proxy → Device → ℕ → ℕ → Parsed Device
add_string_from proxy d index language = UsbString.load proxy index language >>= λ s. add_string d s

-- The search of `get_string` in the strings of an index.
pub find_language : List UsbString → ℕ → Option UsbString
find_language [] language = none
find_language (s ∷ ss) language =
    if s.language_id == language then some s else find_language ss language

abbrev pub find_in : Option (List UsbString) → ℕ → Option UsbString
find_in none language = none
find_in (some ss) language = find_language ss language

-- Language 0 stands for the first language of the device, but for index 0.
pub get_string : Device → ℕ → ℕ → Parsed (Option UsbString)
get_string d index language =
    let slot = get_or d.strings index none in
    let default =
      if language == 0 && index /= 0
      then (language_string d >>= λ z. ok (get_or z.w_data 0 0))
      else ok language in
    if ltb d.max_string_idx index
    then ok none
    else elim slot [ none ↦ ok none | some ss ↦ default >>= λ l. ok (find_language ss l) ]

get_language_count : Device → Parsed ℕ
unfolding get_char_count
get_language_count d = language_string d >>= λ z. ok (get_char_count z)

get_language_by_index : Device → ℕ → Parsed ℕ
get_language_by_index d n =
    language_string d >>= λ z. ok (if ltb n (get_char_count z) then get_or z.w_data n 0 else 0)

-- Value 0 writes before the array.
pub add_configuration : Device → Configuration → Parsed Device
add_configuration d c =
    let value = c.descriptor.b_configuration_value in
    if ltb d.descriptor.b_num_configurations value
    then ok d
    else if value == 0
    then overflow
    else ok (record d { configurations = set d.configurations (value - 1) (some c) })

unfoldable pub get_configuration : Device → ℕ → Option Configuration
get_configuration d n =
    if ltb d.descriptor.b_num_configurations n || ltb n 1
    then none
    else get_or d.configurations (n - 1) none

pub set_active_configuration : Device → ℕ → Device
set_active_configuration d n =
    if ltb d.descriptor.b_num_configurations n || ltb n 1
    then record d { device_configuration_index = none }
    else record d { device_configuration_index = some n }

-- The index is an `int`, and the argument of `get_configuration` a byte.
unfoldable pub get_active_configuration : Device → Option Configuration
get_active_configuration d = elim d.device_configuration_index [
  | none ↦ none
  | some n ↦ get_configuration d (n % 256)
]

pub set_device_qualifier : Device → DeviceQualifier → Device
set_device_qualifier d q = record d { qualifier = some q }

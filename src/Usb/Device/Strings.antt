-- ===== src/Usb/Device/Strings.antt =====
-- src/lib/Device.cpp: the strings by index and language.
use usbproxy_legacy.Prelude.{
  ℕ, zero, suc, ◌+◌, ◌-◌, ◌/◌, ◌%◌, ◌≤◌, ◌≡◌, ◌≢◌, refl, ap, ◌∙◌, Bool, true, false, Bool-cases,
  inl, inr, Option, none, some, List, [], ◌∷◌, ◌++◌, ◌==◌, ◌&&◌, ltb, if◌then◌else◌, get_or, length,
  take, replicate, length-set, length-append, length-replicate, get_or-beyond,
  get_or-append_replicate, get_or-set, arith,
}
use usbproxy_legacy.Usb.Interface.{Parsed, ok, ◌>>=◌}
use usbproxy_legacy.Usb.UsbString.{UsbString, get_char_count}
use usbproxy_legacy.Usb.Device.{
  Device, language_string, elem, set_language_string, add_language, place, place_in, insert_string,
  add_string, find_language, find_in, get_string,
}

-- The array of strings has as many slots as its highest index says.
abbrev pub IsSized : Device → Type 0
IsSized d = length d.strings ≡ d.max_string_idx + 1

-- The device has a language string, of index and language 0 and with a whole header.
pub record HasLanguages (d : Device) : Type 0 where
  pub first : UsbString
  pub found : language_string d ≡ ok first
  pub index_zero : first.index ≡ 0
  pub language_zero : first.language_id ≡ 0
  pub header : 2 ≤ first.b_length

find-place :
    (ts : List UsbString) (s : UsbString) (l : ℕ)
    → find_language (place ts s) l ≡ (if s.language_id == l then some s else find_language ts l)
unfolding find_language place
find-place [] s l = refl
find-place (t ∷ ts) s l = ground (arith, find-place ts s l)

find-place_in :
    (o : Option (List UsbString)) (s : UsbString) (l : ℕ)
    → find_in (some (place_in o s)) l ≡ (if s.language_id == l then some s else find_in o l)
unfolding find_language
find-place_in none s l = refl
find-place_in (some ts) s l = find-place ts s l

-- How many strings an index has.
abbrev count_in : Option (List UsbString) → ℕ
count_in none = 0
count_in (some ss) = length ss

abbrev count_at : Device → ℕ → ℕ
count_at d n = count_in (get_or d.strings n none)

length-place : (ts : List UsbString) (s : UsbString) → length (place ts s) ≡ length ts + 1
unfolding place
length-place [] s = refl
length-place (t ∷ ts) s = omega (arith, length-place ts s)

get_string_slot :
    (d : Device) (j l : ℕ) (o : Option (List UsbString))
    → get_or d.strings j none ≡ o
    → ltb d.max_string_idx j ≡ false
    → (l == 0) ≡ false
    → get_string d j l ≡ ok (find_in o l)
unfolding get_string
get_string_slot d j l none e here named = rw (here, e) refl
get_string_slot d j l (some ss) e here named = rw (here, e, named) refl

get_string_at :
    (d : Device) (j l : ℕ)
    → IsSized d
    → l ≢ 0
    → get_string d j l ≡ ok (find_in (get_or d.strings j none) l)
unfolding get_string
get_string_at d j l sized named = elim (Bool-cases (ltb d.max_string_idx j)) [
  | inl e ↦ rw (e, get_or-beyond d.strings j none (ground arith)) refl
  | inr e ↦ get_string_slot d j l (get_or d.strings j none) refl e (ground arith)
]

-- What adding a language leaves alone.
record Extends (d : Device) (r : Parsed Device) : Type 0 where
  device : Device
  done : r ≡ ok device
  slots : (j : ℕ) → j ≢ 0 → get_or device.strings j none ≡ get_or d.strings j none
  sized : IsSized device
  highest : device.max_string_idx ≡ d.max_string_idx

get_or-set_language :
    (slots : List (Option (List UsbString))) (t : UsbString) (j : ℕ)
    → j ≢ 0
    → get_or (set_language_string slots t) j none ≡ get_or slots j none
get_or-set_language [] t j h = refl
get_or-set_language (none ∷ slots) t j h = refl
get_or-set_language (some [] ∷ slots) t j h = refl
get_or-set_language (some (s ∷ ss) ∷ slots) t zero h = absurd (h refl)
get_or-set_language (some (s ∷ ss) ∷ slots) t (suc j) h = refl

length-set_language :
    (slots : List (Option (List UsbString))) (t : UsbString)
    → length (set_language_string slots t) ≡ length slots
length-set_language [] t = refl
length-set_language (none ∷ slots) t = refl
length-set_language (some [] ∷ slots) t = refl
length-set_language (some (s ∷ ss) ∷ slots) t = refl

add_language-Extends :
    (d : Device) (l : ℕ) → IsSized d → HasLanguages d → Extends d (add_language d l)
unfolding add_language
add_language-Extends d l sized h =
    let z = h.first in
    elim (Bool-cases (elem l (take (get_char_count z) z.w_data))) [
      | inl e ↦ record {
        device = d;
        done = rw (h.found) (rw e refl);
        slots = λ j n. refl;
        sized = sized;
        highest = refl;
      }
      | inr e ↦
          let longer : UsbString = record z {
            b_length = (z.b_length + 2) % 256;
            w_data = take ((z.b_length + 2) / 2 - 2) z.w_data ++ (l ∷ []);
          } in
          let whole : ltb z.b_length 2 ≡ false = ground arith in
          record {
            device = record d { strings = set_language_string d.strings longer };
            done = rw (h.found) (rw (e, h.index_zero, h.language_zero, whole) refl);
            slots = get_or-set_language d.strings longer;
            sized = length-set_language d.strings longer ∙ sized;
            highest = refl;
          }
    ]

insert-slots :
    (d : Device) (s : UsbString) (j : ℕ)
    → IsSized d
    → get_or (insert_string d s).strings j none ≡ (
        if j == s.index
        then some (place_in (get_or d.strings s.index none) s)
        else get_or d.strings j none)
unfolding insert_string
insert-slots d s j sized =
    let more = s.index - d.max_string_idx in
    let empty : Option (List UsbString) = none in
    let slot = some (place_in (get_or d.strings s.index none) s) in
    let size = length-append d.strings (replicate more none) in
    elim (Bool-cases (ltb d.max_string_idx s.index)) [
      | inl e ↦
          rw
            (
              e,
              get_or-append_replicate d.strings more s.index none,
              get_or-set (d.strings ++ replicate more none) s.index j slot none
                  (ground (arith, size, length-replicate more empty)),
              get_or-append_replicate d.strings more j none,
            )
            refl
      | inr e ↦ rw (e, get_or-set d.strings s.index j slot none (ground arith)) refl
    ]

insert-IsSized : (d : Device) (s : UsbString) → IsSized d → IsSized (insert_string d s)
unfolding insert_string
insert-IsSized d s sized =
    let more = s.index - d.max_string_idx in
    let empty : Option (List UsbString) = none in
    let grown = d.strings ++ replicate more none in
    let size = length-append d.strings (replicate more none) in
    let added = length-replicate more empty in
    elim (Bool-cases (ltb d.max_string_idx s.index)) [
      | inl e ↦ rw e (
          length-set grown s.index (some (place_in (get_or grown s.index none) s))
          ∙ ground (arith, size, added))
      | inr e ↦
          rw e (
            length-set d.strings s.index (some (place_in (get_or d.strings s.index none) s))
            ∙ sized)
    ]

if_ok :
    (b : Bool) (s : UsbString) (o : Option UsbString)
    → ok (if b then some s else o) ≡ (if b then ok (some s) else ok o)
if_ok true s o = refl
if_ok false s o = refl

found_at :
    (d : Device) (s : UsbString) (j l : ℕ)
    → ok (
        find_in
          (if j == s.index
            then some (place_in (get_or d.strings s.index none) s)
            else get_or d.strings j none)
          l)
      ≡ (if j == s.index && s.language_id == l
          then ok (some s)
          else ok (find_in (get_or d.strings j none) l))
found_at d s j l = elim (Bool-cases (j == s.index)) [
  | inl e ↦
      let here : j ≡ s.index = ground arith in
      rw e (
        rw (here, find-place_in (get_or d.strings s.index none) s l)
          (if_ok (s.language_id == l) s (find_in (get_or d.strings s.index none) l)))
  | inr e ↦ rw e refl
]

-- On a device with a language string, a string whose index and language are not 0 is found by them
-- once it is added, and every other string of an index and a language other than 0 is found as
-- before.
pub get_string-add_string :
    (d : Device) (s : UsbString) (j l : ℕ)
    → IsSized d
    → HasLanguages d
    → s.index ≢ 0
    → j ≢ 0
    → l ≢ 0
    → (add_string d s >>= λ e. get_string e j l)
      ≡ (if j == s.index && s.language_id == l then ok (some s) else get_string d j l)
unfolding add_string
get_string-add_string d s j l sized languages index_pos j_pos l_pos =
    let ext = add_language-Extends d s.language_id sized languages in
    let positive : (s.index == 0) ≡ false = ground arith in
    let e = ext.device in
    rw (positive, ext.done)
      (get_string_at (insert_string e s) j l (insert-IsSized e s ext.sized) l_pos
        ∙ rw
            (
              insert-slots e s j ext.sized,
              ext.slots j j_pos,
              ext.slots s.index index_pos,
              get_string_at d j l sized l_pos,
            )
            (found_at d s j l))

-- On a device with a language string, adding a string of an index other than 0 makes the list of
-- this index one longer, even if it has a string of the same language: that one is replaced, and
-- the new string appended as well.
length-add_string :
    (d : Device) (s : UsbString) (ss : List UsbString)
    → IsSized d
    → HasLanguages d
    → s.index ≢ 0
    → get_or d.strings s.index none ≡ some ss
    → (add_string d s >>= λ e. ok (count_at e s.index)) ≡ ok (length ss + 1)
unfolding add_string
length-add_string d s ss sized languages index_pos here =
    let ext = add_language-Extends d s.language_id sized languages in
    let positive : (s.index == 0) ≡ false = ground arith in
    let e = ext.device in
    let itself : (s.index == s.index) ≡ true = ground arith in
    let after : get_or (insert_string e s).strings s.index none ≡ some (place ss s) =
      insert-slots e s s.index ext.sized ∙ rw (itself, ext.slots s.index index_pos, here) refl in
    rw (positive, ext.done) (ap (λ o. ok (count_in o)) after ∙ ap ok (length-place ss s))

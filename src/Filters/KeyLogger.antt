-- ===== src/Filters/KeyLogger.antt =====
-- src/Plugins/Filters/PacketFilter_KeyLogger.h and .cpp: prints the keys that a keyboard report
-- adds. What a table holds in a slot that the constructor never assigns is a parameter, `unset` (at
-- `true` for `shiftKeyMap`): the arrays are not initialised. The output file is the list of the
-- calls of `fprintf`.
mod Keys
mod Tests
use Prim.Native.Char.{code}
use Prim.Native.String.{String}
use usbproxy_legacy.Prelude.{
  ℕ, zero, suc, ◌+◌, ◌-◌, ◌≤◌, ◌<◌, ◌≡◌, ◌≢◌, refl, All, Bool, true, false, not, ◌&&◌, Option, none,
  some, List, [], ◌∷◌, ◌++◌, ◌==◌, ltb, if◌then◌else◌, get_or, get_or-lt, length, take, all_below,
  all_below_sound, ==_iff, bit_and, has_bits, arith,
}
use mathlib.Core.List.{append_assoc, append-nil}
use usbproxy_legacy.Packet.{Packet}
use Keys.{key_map_entries, shift_key_map_entries}

-- One `fprintf`: in a colour, or as it is.
pub data Output : Type 0 where
  coloured : ℕ → String → Output
  raw : String → Output

abbrev col_red : ℕ
col_red = 31

abbrev col_blue : ℕ
col_blue = 34

pub record KeyLogger : Type 0 where
  pub file : List Output
  pub last_report : List ℕ

find_key : List (ℕ × String) → ℕ → (ℕ → Option String) → Option String
find_key [] k unset = unset k
find_key ((j, t) ∷ rest) k unset = if j == k then some t else find_key rest k unset

abbrev is_nonempty : String → Bool
is_nonempty String.[] = false
is_nonempty (String.◌∷◌ c t) = true

-- `text[0] == '{' && text[1] != 0`.
is_special : String → Bool
is_special String.[] = false
is_special (String.◌∷◌ c t) = code c == b'{' && is_nonempty t

print_key : String → Output
unfolding is_special
print_key t = if is_special t then coloured col_blue t else raw t

on_bit : ℕ → ℕ → ℕ → String → List Output
on_bit mods mask col t = if has_bits mods mask then coloured col t ∷ [] else []

-- The last part of `keyPressed` for a key: the shifted or the plain name.
key_name : (Bool → ℕ → Option String) → ℕ → ℕ → Output
unfolding print_key find_key key_map_entries shift_key_map_entries
key_name unset key mods =
    elim (if has_bits mods 0x22 then find_key shift_key_map_entries key (unset true) else none) [
      | some t ↦ print_key t
      | none ↦ elim (find_key key_map_entries key (unset false)) [
        | some t ↦ print_key t
        | none ↦ raw "{INVALID}"
      ]
    ]

pub key_pressed : (Bool → ℕ → Option String) → ℕ → ℕ → List Output
unfolding on_bit
key_pressed unset key mods =
    if key == 0
    then on_bit mods 0x01 col_blue "{LCTRL}"
      ++ (on_bit mods 0x02 col_blue "{LSHIFT}"
          ++ (on_bit mods 0x04 col_blue "{LALT}"
              ++ (on_bit mods 0x08 col_blue "{LWIN}"
                  ++ (on_bit mods 0x10 col_blue "{RCTRL}"
                      ++ (on_bit mods 0x20 col_blue "{RSHIFT}"
                          ++ (on_bit mods 0x40 col_blue "{RALT}"
                              ++ on_bit mods 0x80 col_blue "{RWIN}"))))))
    else on_bit mods 0x01 col_red "{LCTRL}"
      ++ (on_bit mods 0x04 col_red "{LALT}"
          ++ (on_bit mods 0x08 col_red "{LWIN}"
              ++ (on_bit mods 0x10 col_red "{RCTRL}"
                  ++ (on_bit mods 0x40 col_red "{RALT}"
                      ++ (on_bit mods 0x80 col_red "{RWIN}" ++ (key_name unset key mods ∷ []))))))

-- `lastReport` is an array of `char`, which is signed: a byte from 128 on equals no `__u8`.
same_key : ℕ → ℕ → Bool
same_key key last = ltb last 128 && key == last

-- The inner loop of `filter_packet`, over the whole last report.
found : ℕ → List ℕ → Bool
unfolding same_key
found key [] = false
found key (l ∷ ls) = if same_key key l then true else found key ls

-- The outer loop from index `i`, with `k` rounds to go: what is printed, and `noKeys`.
key_loop :
    (Bool → ℕ → Option String) → List ℕ → List ℕ → ℕ → ℕ → List Output → Bool → List Output × Bool
key_loop unset bytes last i zero out no_keys = (out, no_keys)
key_loop unset bytes last i (suc k) out no_keys =
    let known = found (get_or bytes i 0) last in
    key_loop unset bytes last (i + 1) k
      (if known then out else out ++ key_pressed unset (get_or bytes i 0) (get_or bytes 0 0))
      (if known then no_keys else false)

-- `packet->data[0] & (~lastReport[0])`.
abbrev new_mods : List ℕ → List ℕ → ℕ
new_mods bytes last = bit_and (get_or bytes 0 0) (255 - get_or last 0 0)

pub filter_packet : (Bool → ℕ → Option String) → KeyLogger → Packet → KeyLogger
filter_packet unset s p =
    let (out, no_keys) = key_loop unset p.data_bytes s.last_report 2 6 [] true in
    record {
      file =
          s.file
          ++ (if no_keys
              then out ++ key_pressed unset 0 (new_mods p.data_bytes s.last_report)
              else out);
      last_report = take 8 p.data_bytes;
    }

-- The key codes from index `i` on that the last report does not hold, in order.
pub new_keys : List ℕ → List ℕ → ℕ → ℕ → List ℕ
new_keys bytes last i zero = []
new_keys bytes last i (suc k) =
    let rest = new_keys bytes last (i + 1) k in
    if found (get_or bytes i 0) last then rest else get_or bytes i 0 ∷ rest

-- What `keyPressed` prints for each of some keys.
pub press_all : (Bool → ℕ → Option String) → ℕ → List ℕ → List Output
press_all unset mods [] = []
press_all unset mods (key ∷ keys) = key_pressed unset key mods ++ press_all unset mods keys

abbrev is_empty : List ℕ → Bool
is_empty [] = true
is_empty (x ∷ xs) = false

key_loop_lem :
    (unset : Bool → ℕ → Option String) (bytes last : List ℕ) (i k : ℕ) (out : List Output)
    (no_keys : Bool)
    → key_loop unset bytes last i k out no_keys ≡ (
      out ++ press_all unset (get_or bytes 0 0) (new_keys bytes last i k),
      no_keys && is_empty (new_keys bytes last i k),
    )
unfolding key_loop new_keys press_all
key_loop_lem unset bytes last i zero out true = ground (arith, append-nil out)
key_loop_lem unset bytes last i zero out false = ground (arith, append-nil out)
key_loop_lem unset bytes last i (suc k) out no_keys = ground (
  arith,
  key_loop_lem unset bytes last (i + 1) k out no_keys,
  key_loop_lem unset bytes last (i + 1) k
      (out ++ key_pressed unset (get_or bytes i 0) (get_or bytes 0 0)) false,
  append_assoc out (key_pressed unset (get_or bytes i 0) (get_or bytes 0 0))
      (press_all unset (get_or bytes 0 0) (new_keys bytes last (i + 1) k)),
)

-- What the logger prints for a report: the keys that the last report does not hold, in order and
-- with the modifiers of this report; if there is none, the modifiers that were not down before.
-- It remembers the first eight bytes.
pub filter_packet_lem :
    (unset : Bool → ℕ → Option String) (s : KeyLogger) (p : Packet)
    → let keys = new_keys p.data_bytes s.last_report 2 6 in
      ((filter_packet unset s p).file
        ≡ s.file
          ++ (if is_empty keys
              then key_pressed unset 0 (new_mods p.data_bytes s.last_report)
              else press_all unset (get_or p.data_bytes 0 0) keys))
      × ((filter_packet unset s p).last_report ≡ take 8 p.data_bytes)
unfolding filter_packet press_all
filter_packet_lem unset s p =
    (ground (arith, key_loop_lem unset p.data_bytes s.last_report 2 6 [] true), refl)

found-take :
    (bytes : List ℕ) (i n : ℕ)
    → get_or bytes i 0 < 128
    → i < n
    → i < length bytes
    → found (get_or bytes i 0) (take n bytes) ≡ true
unfolding found same_key
found-take [] i n small a b = absurd (omega arith)
found-take (x ∷ xs) i zero small a b = absurd (omega arith)
found-take (x ∷ xs) zero (suc n) small a b = ground arith
found-take (x ∷ xs) (suc i) (suc n) small a b =
    ground (arith, found-take xs i n small (omega arith) (omega arith))

new_keys-take :
    (bytes : List ℕ) (i k : ℕ)
    → ((j : ℕ) → get_or bytes j 0 < 128)
    → i + k ≤ 8
    → 8 ≤ length bytes
    → new_keys bytes (take 8 bytes) i k ≡ []
unfolding new_keys
new_keys-take bytes i zero small a b = refl
new_keys-take bytes i (suc k) small a b = ground (
  arith,
  found-take bytes i 8 (small i) (omega arith) (omega arith),
  new_keys-take bytes (i + 1) k small (omega arith) b,
)

mods_table : all_below 256 (λ m. bit_and m (255 - m) == 0) ≡ true
mods_table = refl

no_new_mods : (m : ℕ) → m < 256 → bit_and m (255 - m) ≡ 0
no_new_mods m h =
    (==_iff _ 0).0 (all_below_sound 256 (λ x. bit_and x (255 - x) == 0) m mods_table h)

get_or_zero-take : (bytes : List ℕ) → get_or (take 8 bytes) 0 0 ≡ get_or bytes 0 0
get_or_zero-take [] = refl
get_or_zero-take (x ∷ xs) = refl

nothing_pressed : (unset : Bool → ℕ → Option String) → key_pressed unset 0 0 ≡ []
unfolding key_pressed
nothing_pressed unset = refl

-- While the same keys and modifiers stay down, nothing more is printed: a report that is repeated
-- adds nothing, if it has eight bytes and they are all below 128.
filter_packet_repeated :
    (unset : Bool → ℕ → Option String) (s : KeyLogger) (p : Packet)
    → 8 ≤ length p.data_bytes
    → All (λ b. b < 128) p.data_bytes
    → filter_packet unset (filter_packet unset s p) p ≡ filter_packet unset s p
filter_packet_repeated unset s p len bytes =
    let small : (j : ℕ) → get_or p.data_bytes j 0 < 128 =
      λ j. get_or-lt p.data_bytes 128 j (omega arith) bytes in
    let once = filter_packet_lem unset s p in
    let twice = filter_packet_lem unset (filter_packet unset s p) p in
    let known : new_keys p.data_bytes (filter_packet unset s p).last_report 2 6 ≡ [] =
      rw once.1 (new_keys-take p.data_bytes 2 6 small (omega arith) len) in
    let mods : new_mods p.data_bytes (filter_packet unset s p).last_report ≡ 0 =
      rw (once.1, get_or_zero-take p.data_bytes)
        (no_new_mods (get_or p.data_bytes 0 0) (omega (arith, small 0))) in
    ground (
      arith,
      once.1,
      twice.0,
      twice.1,
      known,
      mods,
      nothing_pressed unset,
      append-nil (filter_packet unset s p).file,
    )

-- A key is lost when its code is the modifier byte of the report before: whichever bytes of the new
-- report are looked at, it is not among the keys that are printed.
new_keys_misses :
    (bytes : List ℕ) (mods : ℕ) (rest : List ℕ) (i k : ℕ)
    → mods < 128
    → All (λ key. key ≢ mods) (new_keys bytes (mods ∷ rest) i k)
unfolding new_keys found same_key
new_keys_misses bytes mods rest i zero h = tt
new_keys_misses bytes mods rest i (suc k) h =
    ground (arith, new_keys_misses bytes mods rest (i + 1) k h)

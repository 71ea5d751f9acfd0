-- ===== src/HexString.antt =====
-- src/lib/HexString.cpp: bytes as text. The table of the code holds the two digits of each byte, in
-- the order of the memory. A result is the buffer as it was allocated, with what was written to it;
-- a byte that nothing wrote is `none`.
pub mod Layout
mod Tests
use usbproxy_legacy.Prelude.{
  ℕ, zero, suc, ◌+◌, ◌*◌, ◌-◌, ◌%◌, ◌/◌, Option, none, some, List, [], ◌∷◌, ◌==◌, ltb,
  if◌then◌else◌, set, length, replicate,
}

abbrev pub Buffer : Type 0
Buffer = List (Option ℕ)

abbrev pub hex_digit : ℕ → ℕ
hex_digit n = if ltb n 10 then 48 + n else 87 + n

-- `*(__u16*)p = hexAscii[b]`.
unfoldable pub put_byte : Buffer → ℕ → ℕ → Buffer
put_byte buf at b =
    set (set buf at (some (hex_digit (b / 16)))) (at + 1) (some (hex_digit (b % 16)))

-- The loop of hex_string from byte `i` on.
unfoldable pub hex_from : ℕ → List ℕ → Buffer → Buffer
hex_from i [] buf = buf
hex_from i (b ∷ bs) buf = hex_from (i + 1) bs (put_byte (set buf (i * 3 - 1) (some 32)) (i * 3) b)

-- The loop of hex_string_wide: `line` is `curLine`.
unfoldable pub wide_from : ℕ → ℕ → ℕ → List ℕ → Buffer → Buffer
wide_from width i line [] buf = buf
wide_from width i line (b ∷ bs) buf =
    let same =
      wide_from width (i + 1) line bs
        (put_byte (set buf (i * 3 + line) (some 32)) (i * 3 + line + 1) b) in
    let next = wide_from width (i + 1) (line + 1) bs (
      put_byte (set (set buf (i * 3 + line) (some 10)) (i * 3 + line + 1) (some 9))
        (i * 3 + (line + 1) + 1) b) in
    if i % width == 0 then next else same

unfoldable pub hex_string_wide : List ℕ → ℕ → Buffer
hex_string_wide [] width = some 0 ∷ []
hex_string_wide (b ∷ bs) width =
    let n = length (b ∷ bs) in
    let lines = n / width + 1 in
    let buf = set (replicate (n * 3 + lines + 1) none) (n * 3 + lines) (some 0) in
    wide_from width 1 1 bs (put_byte (set (set buf 0 (some 10)) 1 (some 9)) 2 b)

unfoldable pub hex_string : List ℕ → Buffer
hex_string [] = some 0 ∷ []
hex_string (b ∷ bs) =
    let n = length (b ∷ bs) in
    let buf = set (replicate (n * 3) none) (n * 3 - 1) (some 0) in
    if ltb 32 n then hex_string_wide (b ∷ bs) 32 else hex_from 1 bs (put_byte buf 0 b)

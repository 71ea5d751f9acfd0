-- ===== src/HexString/Tests.antt =====
-- src/lib/HexString.cpp: runs on small inputs.
use usbproxy_legacy.Prelude.{◌≡◌, refl, arith, some, none, [], ◌∷◌}
use usbproxy_legacy.HexString.Layout.{text_of, hex_string-text_of}
use usbproxy_legacy.HexString.{hex_string, hex_string_wide, hex_from, wide_from, put_byte}

-- "0a ff".
two_bytes :
    hex_string (10 ∷ 255 ∷ []) ≡ some 48 ∷ some 97 ∷ some 32 ∷ some 102 ∷ some 102 ∷ some 0 ∷ []
unfolding hex_string hex_from put_byte
two_bytes = refl

-- Where the width divides the length, a byte is left over that nothing writes.
unwritten :
    hex_string_wide (1 ∷ 2 ∷ []) 2
    ≡ some 10 ∷ some 9 ∷ some 48 ∷ some 49 ∷ some 32 ∷ some 48 ∷ some 50 ∷ none ∷ some 0 ∷ []
unfolding hex_string_wide wide_from put_byte
unwritten = refl

hex_string-text_of_example : hex_string (10 ∷ 255 ∷ []) ≡ text_of (10 ∷ 255 ∷ [])
hex_string-text_of_example = hex_string-text_of (10 ∷ 255 ∷ []) (omega arith)

-- ===== src/Usb/UsbString.antt =====
-- src/lib/USBString.h and src/lib/USBString.cpp: string descriptors, one for each index and
-- language. The string of index 0 and language 0 lists the languages.
use usbproxy_legacy.Prelude.{
  ℕ, zero, suc, ◌+◌, ◌*◌, ◌-◌, ◌/◌, ◌%◌, ◌^◌, ◌≤◌, ◌<◌, ◌≡◌, refl, ap, true, ◌||◌, List, [], ◌∷◌,
  ◌++◌, map, ◌==◌, ◌/=◌, ltb, if◌then◌else◌, get_or, length, take, drop, bit_and, bit_or, has_bits,
  all_below, all_below_sound, All, arith,
}
use usbproxy_legacy.Packet.{CtrlRequest}
use usbproxy_legacy.Usb.Interface.{Parsed, ok, overflow, ◌>>=◌}
use usbproxy_legacy.Usb.Configuration.{Proxy, request}

-- `w_data` is what is stored behind the two header bytes.
pub record UsbString : Type 0 where
  pub index : ℕ
  pub language_id : ℕ
  pub b_length : ℕ
  pub b_descriptor_type : ℕ
  pub w_data : List ℕ

-- The characters of a `char` string are signed: a byte of 128 or more becomes a word 0xffxx.
word_of_char : ℕ → ℕ
word_of_char c = if ltb c 128 then c else 0xff00 + c

-- The constructors from the characters and from the words in front of the terminating zero.
pub string_of_ascii : List ℕ → ℕ → ℕ → UsbString
unfolding word_of_char
string_of_ascii value index language = record {
  index = index;
  language_id = language;
  b_length = (length value + 1) * 2 % 256;
  b_descriptor_type = 3;
  w_data = map word_of_char value;
}

unfoldable pub string_of_words : List ℕ → ℕ → ℕ → UsbString
string_of_words value index language = record {
  index = index;
  language_id = language;
  b_length = (length value + 1) * 2 % 256;
  b_descriptor_type = 3;
  w_data = value;
}

-- Little-endian words.
abbrev words : List ℕ → List ℕ
words [] = []
words (low ∷ []) = low ∷ []
words (low ∷ high ∷ bs) = (low + high * 256) ∷ words bs

abbrev of_bytes : List ℕ → ℕ → ℕ → UsbString
of_bytes bs index language = record {
  index = index;
  language_id = language;
  b_length = get_or bs 0 0;
  b_descriptor_type = get_or bs 1 0;
  w_data = words (take (get_or bs 0 0 - 2) (drop 2 bs));
}

abbrev get_string_request : ℕ → ℕ → ℕ → CtrlRequest
get_string_request index language n = record {
  b_request_type = 0x80;
  b_request = 6;
  w_value = bit_or (3 * 2 ^ 8) index;
  w_index = language;
  w_length = n;
}

-- `USBString(proxy, index, languageId)`: eight bytes first, and all of them if there are more.
pub load : Proxy → ℕ → ℕ → Parsed UsbString
load proxy index language = request proxy (get_string_request index language 8) >>= λ head.
    let len = get_or head 0 0 in
    if ltb 8 len
    then (request proxy (get_string_request index language len) >>= λ bs.
        ok (of_bytes bs index language))
    else ok (of_bytes head index language)

-- A `__u8`: a descriptor of length 0 or 1 has 255 characters.
unfoldable pub get_char_count : UsbString → ℕ
get_char_count s = (s.b_length / 2 + 255) % 256

abbrev char_of_word : ℕ → ℕ
char_of_word w = if has_bits w 0xff00 then 0x3f else bit_and w 0xff

-- The characters in front of the terminating zero.
pub get_ascii : UsbString → List ℕ
get_ascii s = map char_of_word (take (s.b_length / 2 - 1) s.w_data)

-- Appends behind the last character. Below length 2 it writes over the header of the descriptor.
unfoldable pub append_char : UsbString → ℕ → Parsed UsbString
append_char s u =
    let len = s.b_length + 2 in
    if s.index /= 0 || s.language_id /= 0
    then ok s
    else if ltb s.b_length 2
    then overflow
    else ok (record s { b_length = len % 256; w_data = take (len / 2 - 2) s.w_data ++ (u ∷ []) })

ascii_table : all_below 128 (λ c. char_of_word c == c) ≡ true
ascii_table = refl

char_of_ascii : (c : ℕ) → c < 128 → char_of_word (word_of_char c) ≡ c
unfolding word_of_char
char_of_ascii c h = ground (arith, all_below_sound 128 (λ c. char_of_word c == c) c ascii_table h)

nil_of_length : (value : List ℕ) → 0 ≡ length value → [] ≡ value
nil_of_length [] e = refl
nil_of_length (c ∷ value) e = absurd (omega arith)

ascii_of_words :
    (value : List ℕ) (n : ℕ)
    → All (λ c. c < 128) value
    → n ≡ length value
    → map char_of_word (take n (map word_of_char value)) ≡ value
ascii_of_words value zero h e = nil_of_length value e
ascii_of_words [] (suc n) h e = refl
ascii_of_words (c ∷ value) (suc n) h e =
    rw (char_of_ascii c h.0) (ap (◌∷◌ c) (ascii_of_words value n h.1 (omega arith)))

-- Up to 126 characters of ASCII come back from get_ascii as they were given to the constructor.
pub get_ascii-string_of_ascii :
    (value : List ℕ) (index language : ℕ)
    → All (λ c. c < 128) value
    → length value ≤ 126
    → get_ascii (string_of_ascii value index language) ≡ value
unfolding get_ascii string_of_ascii
get_ascii-string_of_ascii value index language h short =
    ascii_of_words value ((length value + 1) * 2 % 256 / 2 - 1) h (omega arith)

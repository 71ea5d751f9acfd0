-- ===== src/HexString/Layout.antt =====
-- src/lib/HexString.cpp: the text of a short list of bytes.
use usbproxy_legacy.Prelude.{
  ℕ, zero, suc, ◌+◌, ◌*◌, ◌-◌, ◌%◌, ◌/◌, ◌≤◌, ◌≡◌, refl, ap, sym, ◌∙◌, false, Option, none, some,
  List, [], ◌∷◌, ◌++◌, ltb, set, length, replicate, set-append, length-append, append_assoc, arith,
}
use usbproxy_legacy.HexString.{Buffer, hex_digit, put_byte, hex_from, hex_string}

-- The digits of the bytes behind the first, each behind a blank, and the zero at the end.
abbrev pub spaced : List ℕ → Buffer
spaced [] = some 0 ∷ []
spaced (b ∷ bs) = some 32 ∷ some (hex_digit (b / 16)) ∷ some (hex_digit (b % 16)) ∷ spaced bs

-- The bytes in hexadecimal, separated by blanks.
abbrev pub text_of : List ℕ → Buffer
text_of [] = some 0 ∷ []
text_of (b ∷ bs) = some (hex_digit (b / 16)) ∷ some (hex_digit (b % 16)) ∷ spaced bs

-- What is not written yet when `n` bytes are left: the blank or the end, and three for each byte.
abbrev rest_of : ℕ → Buffer
rest_of zero = some 0 ∷ []
rest_of (suc n) = none ∷ none ∷ none ∷ rest_of n

put_byte-append :
    (done tail : Buffer) (x y : Option ℕ) (b at : ℕ)
    → length done ≡ at
    → put_byte (done ++ (x ∷ (y ∷ tail))) at b
      ≡ done ++ (some (hex_digit (b / 16)) ∷ (some (hex_digit (b % 16)) ∷ tail))
unfolding put_byte
put_byte-append [] tail x y b at e = rw (sym e) refl
put_byte-append (d ∷ done) tail x y b zero e = absurd (omega arith)
put_byte-append (d ∷ done) tail x y b (suc at) e =
    rw (let e' : suc at + 1 ≡ suc (at + 1) = omega arith in e')
      (ap (◌∷◌ d) (put_byte-append done tail x y b at (omega (arith, e))))

-- A blank behind what is done, and a byte behind the blank.
blank-append :
    (done tail : Buffer) (b i : ℕ)
    → length done + 1 ≡ i * 3
    → put_byte (set (done ++ (none ∷ (none ∷ (none ∷ tail)))) (i * 3 - 1) (some 32)) (i * 3) b
      ≡ (done ++ (some 32 ∷ (some (hex_digit (b / 16)) ∷ (some (hex_digit (b % 16)) ∷ [])))) ++ tail
blank-append done tail b i e =
    let at : i * 3 - 1 ≡ length done = omega (arith, e) in
    let blank : set (done ++ (none ∷ (none ∷ (none ∷ tail)))) (i * 3 - 1) (some 32)
        ≡ (done ++ (some 32 ∷ [])) ++ (none ∷ (none ∷ tail)) =
      rw at (set-append done (none ∷ (none ∷ tail)) none (some 32))
      ∙ sym (append_assoc done (some 32 ∷ []) (none ∷ (none ∷ tail))) in
    ap (λ t. put_byte t (i * 3) b) blank
    ∙ (put_byte-append (done ++ (some 32 ∷ [])) tail none none b (i * 3)
          (length-append done (some 32 ∷ []) ∙ e)
        ∙ (append_assoc done (some 32 ∷ []) _ ∙ sym (append_assoc done _ tail)))

hex_from-spaced :
    (i : ℕ) (bs : List ℕ) (done : Buffer)
    → length done + 1 ≡ i * 3
    → hex_from i bs (done ++ rest_of (length bs)) ≡ done ++ spaced bs
unfolding hex_from
hex_from-spaced i [] done e = refl
hex_from-spaced i (b ∷ bs) done e =
    let next = done ++ (some 32 ∷ (some (hex_digit (b / 16)) ∷ (some (hex_digit (b % 16)) ∷ []))) in
    ap (hex_from (i + 1) bs) (blank-append done (rest_of (length bs)) b i e)
    ∙ (hex_from-spaced (i + 1) bs next (
          omega (
            arith,
            e,
            length-append done
                (some 32 ∷ (some (hex_digit (b / 16)) ∷ (some (hex_digit (b % 16)) ∷ []))),
          ))
        ∙ append_assoc done _ (spaced bs))

ended : (m : ℕ) → set {A = Option ℕ} (replicate (suc (m * 3)) none) (m * 3) (some 0) ≡ rest_of m
ended zero = refl
ended (suc m) =
    rw (let e : suc m * 3 ≡ suc (suc (suc (m * 3))) = omega arith in e)
      (ap (λ t. none ∷ (none ∷ (none ∷ t))) (ended m))

started :
    (m b : ℕ)
    → put_byte (set (replicate (suc m * 3) none) (suc m * 3 - 1) (some 0)) 0 b
      ≡ some (hex_digit (b / 16)) ∷ (some (hex_digit (b % 16)) ∷ rest_of m)
unfolding put_byte
started m b =
    let all : suc m * 3 ≡ suc (suc (suc (m * 3))) = omega arith in
    let last : suc (suc (suc (m * 3))) - 1 ≡ suc (suc (m * 3)) = omega arith in
    rw (all, last) (ap (λ t. some (hex_digit (b / 16)) ∷ (some (hex_digit (b % 16)) ∷ t)) (ended m))

-- The text of up to 32 bytes is their digits, separated by blanks, and a zero; every byte of the
-- buffer is written.
pub hex_string-text_of : (bs : List ℕ) → length bs ≤ 32 → hex_string bs ≡ text_of bs
unfolding hex_string
hex_string-text_of [] h = refl
hex_string-text_of (b ∷ bs) h =
    let short : ltb 32 (length (b ∷ bs)) ≡ false = ground arith in
    let digits = some (hex_digit (b / 16)) ∷ (some (hex_digit (b % 16)) ∷ []) in
    rw short
      (ap (hex_from 1 bs) (started (length bs) b) ∙ hex_from-spaced 1 bs digits (omega arith))

-- ===== src/ConfigParser/Line.antt =====
-- src/lib/ConfigParser.cpp: what parse_file makes of a line.
use usbproxy_legacy.Prelude.{
  ℕ, zero, suc, ◌+◌, ◌≤◌, ◌≡◌, refl, ap, sym, ◌∙◌, true, false, some, [], ◌∷◌, ◌++◌, ◌==◌, get_or,
  length, take, drop, All, length-append, take-append, arith,
}
use usbproxy_legacy.ConfigParser.{
  ConfigParser, Text, is_blank, is_space, str_strip, find_equals, parse_entry, parse_line, set,
}
use usbproxy_legacy.ConfigParser.Strip.{str_strip-padded}

find_equals-append :
    (left right : Text)
    → All (λ c. (c == 61) ≡ false) left
    → find_equals (left ++ (61 ∷ right)) ≡ some (length left)
unfolding find_equals
find_equals-append [] right h = refl
find_equals-append (c ∷ left) right h = rw (h.0, find_equals-append left right h.1) refl

take-all : (t : Text) (n : ℕ) → length t ≤ n → take n t ≡ t
take-all [] zero h = refl
take-all [] (suc n) h = refl
take-all (c ∷ t) zero h = absurd (omega arith)
take-all (c ∷ t) (suc n) h = ap (◌∷◌ c) (take-all t n (omega arith))

drop-behind : (left right : Text) → drop (length left + 1) (left ++ (61 ∷ right)) ≡ right
drop-behind left right =
    let next : length left + 1 ≡ suc (length left) = omega arith in
    ap (λ n. drop n (left ++ (61 ∷ right))) next ∙ go left
  where
    go : (l : Text) → drop (suc (length l)) (l ++ (61 ∷ right)) ≡ right
    go [] = refl
    go (c ∷ l) = go l

parse_entry-append :
    (conf : ConfigParser) (left right : Text)
    → (get_or (left ++ (61 ∷ right)) 0 0 == 35) ≡ false
    → All (λ c. (c == 61) ≡ false) left
    → parse_entry conf (left ++ (61 ∷ right)) ≡ set conf (str_strip left) (str_strip right)
unfolding parse_entry
parse_entry-append conf left right no_comment h =
    let t = left ++ (61 ∷ right) in
    let full : (length t == 0) ≡ false = ground (arith, length-append left (61 ∷ right)) in
    rw (full, no_comment, find_equals-append left right h)
      (ap (λ k. set conf (str_strip k) (str_strip (take (length t) (drop (length left + 1) t))))
          (take-append left (61 ∷ right))
        ∙ ap (λ v. set conf (str_strip left) (str_strip v))
            (ap (take (length t)) (drop-behind left right)
              ∙ take-all right (length t) (omega (arith, length-append left (61 ∷ right)))))

-- A line that has, between blanks, an entry of at least two characters that does not start with `#`
-- sets what str_strip makes of the text before the first `=` of the entry to what it makes of the
-- text behind it.
pub parse_line-entry :
    (conf : ConfigParser) (pre : Text) (c : ℕ) (middle : Text) (d : ℕ) (post left right : Text)
    → All (λ b. is_blank b ≡ true) pre
    → is_space c ≡ false
    → (c == 35) ≡ false
    → is_space d ≡ false
    → All (λ b. is_space b ≡ true) post
    → c ∷ (middle ++ (d ∷ [])) ≡ left ++ (61 ∷ right)
    → All (λ b. (b == 61) ≡ false) left
    → parse_line conf (pre ++ ((c ∷ (middle ++ (d ∷ []))) ++ post))
      ≡ set conf (str_strip left) (str_strip right)
unfolding parse_line
parse_line-entry conf pre c middle d post left right before first no_comment last behind split h =
    ap (parse_entry conf) (str_strip-padded pre c middle d post before first last behind ∙ split)
    ∙ parse_entry-append conf left right (sym (ap (λ u. get_or u 0 0 == 35) split) ∙ no_comment) h

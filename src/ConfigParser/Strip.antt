-- ===== src/ConfigParser/Strip.antt =====
-- src/lib/ConfigParser.cpp: what StrStrip leaves.
use usbproxy_legacy.Prelude.{
  ℕ, zero, suc, ◌+◌, ◌-◌, ◌≤◌, ◌<◌, ◌≡◌, ◌≢◌, refl, ap, sym, ◌∙◌, true, false, [], ◌∷◌, ◌++◌, ◌==◌,
  get_or, length, take, All, length-append, take-append, drop-append, append_assoc, Bool-cases, inl,
  inr, arith,
}
use usbproxy_legacy.ConfigParser.{Text, is_blank, is_space, start_from, end_from, substr, str_strip}

start_from-blanks :
    (pre : Text) (c : ℕ) (cs : Text) (x : ℕ)
    → All (λ b. is_blank b ≡ true) pre
    → is_blank c ≡ false
    → start_from (pre ++ (c ∷ cs)) x ≡ x + length pre
unfolding start_from
start_from-blanks [] c cs x h e = rw e (omega arith)
start_from-blanks (b ∷ pre) c cs x h e =
    rw h.0 (start_from-blanks pre c cs (suc x) h.1 e ∙ omega arith)

get_or-spaces :
    (post : Text) (i : ℕ)
    → All (λ b. is_space b ≡ true) post
    → i < length post
    → is_space (get_or post i 0) ≡ true
get_or-spaces [] i h less = absurd (omega arith)
get_or-spaces (b ∷ post) zero h less = h.0
get_or-spaces (b ∷ post) (suc i) h less = get_or-spaces post i h.1 (omega arith)

get_or-behind :
    (front : Text) (d : ℕ) (post : Text) (i : ℕ)
    → All (λ b. is_space b ≡ true) post
    → length front < i
    → i < length (front ++ (d ∷ post))
    → is_space (get_or (front ++ (d ∷ post)) i 0) ≡ true
get_or-behind [] d post zero h more less = absurd (omega arith)
get_or-behind [] d post (suc i) h more less = get_or-spaces post i h (omega arith)
get_or-behind (a ∷ front) d post zero h more less = absurd (omega arith)
get_or-behind (a ∷ front) d post (suc i) h more less =
    get_or-behind front d post i h (omega arith) (omega arith)

get_or-here :
    (front : Text) (d : ℕ) (post : Text) → get_or (front ++ (d ∷ post)) (length front) 0 ≡ d
get_or-here [] d post = refl
get_or-here (a ∷ front) d post = get_or-here front d post

end_from-spaces :
    (front : Text) (d : ℕ) (post : Text) (n : ℕ)
    → 1 ≤ length front
    → is_space d ≡ false
    → All (λ b. is_space b ≡ true) post
    → length front < n
    → n ≤ length (front ++ (d ∷ post))
    → end_from (front ++ (d ∷ post)) n ≡ length front
unfolding end_from
end_from-spaces front d post zero some_front last h more less = absurd (omega arith)
end_from-spaces front d post (suc zero) some_front last h more less = absurd (omega arith)
end_from-spaces front d post (suc (suc y)) some_front last h more less =
    elim (Bool-cases (suc y == length front)) [
      | inl e ↦
          let same : suc y ≡ length front = ground arith in
          let here : is_space (get_or (front ++ (d ∷ post)) (suc y) 0) ≡ false =
            ap (λ i. is_space (get_or (front ++ (d ∷ post)) i 0)) same
            ∙ ap is_space (get_or-here front d post)
            ∙ last in
          rw here same
      | inr e ↦
          let other : suc y ≢ length front = ground arith in
          rw (get_or-behind front d post (suc y) h (omega (arith, other)) (omega arith)) (
            end_from-spaces front d post (suc y) some_front last h (omega (arith, other))
              (omega arith))
    ]

str_strip-parts :
    (s : Text) (a b : ℕ)
    → start_from s 0 ≡ a
    → end_from s (length s) ≡ b
    → (get_or s 0 0 == 10) ≡ false
    → str_strip s ≡ substr s a (b + 1 - a)
unfolding str_strip
str_strip-parts s a b start finish first = rw (start, finish, first) refl

space-blank : (c : ℕ) → is_space c ≡ false → is_blank c ≡ false
space-blank c h = ground arith

first_char :
    (pre : Text) (c : ℕ) (cs : Text)
    → All (λ b. is_blank b ≡ true) pre
    → is_space c ≡ false
    → (get_or (pre ++ (c ∷ cs)) 0 0 == 10) ≡ false
first_char [] c cs h e = ground arith
first_char (b ∷ pre) c cs h e = no_newline b h.0
  where
    no_newline : (x : ℕ) → is_blank x ≡ true → (x == 10) ≡ false
    no_newline x y = ground arith

-- A text of at least two characters that starts and ends with none of space, tab and end of line is
-- what is left when spaces and tabs stand before it, and these or ends of lines behind it.
pub str_strip-padded :
    (pre : Text) (c : ℕ) (middle : Text) (d : ℕ) (post : Text)
    → All (λ b. is_blank b ≡ true) pre
    → is_space c ≡ false
    → is_space d ≡ false
    → All (λ b. is_space b ≡ true) post
    → str_strip (pre ++ ((c ∷ (middle ++ (d ∷ []))) ++ post)) ≡ c ∷ (middle ++ (d ∷ []))
str_strip-padded pre c middle d post before first last behind =
    let body = c ∷ (middle ++ (d ∷ [])) in
    let s = pre ++ (body ++ post) in
    let front = pre ++ (c ∷ middle) in
    let regroup : s ≡ front ++ (d ∷ post) =
      ap (λ l. pre ++ (c ∷ l)) (append_assoc middle (d ∷ []) post)
      ∙ sym (append_assoc pre (c ∷ middle) (d ∷ post)) in
    let size : length front ≡ length pre + suc (length middle) = length-append pre (c ∷ middle) in
    let start : start_from s 0 ≡ length pre =
      start_from-blanks pre c ((middle ++ (d ∷ [])) ++ post) 0 before (space-blank c first)
      ∙ omega arith in
    let finish : end_from s (length s) ≡ length front =
      ap (λ t. end_from t (length t)) regroup
      ∙ end_from-spaces front d post (length (front ++ (d ∷ post))) (omega (arith, size)) last
          behind (omega (arith, length-append front (d ∷ post))) (omega arith) in
    let count : length front + 1 - length pre ≡ length body =
      omega (arith, size, length-append middle (d ∷ [])) in
    str_strip-parts s (length pre) (length front) start finish
      (first_char pre c ((middle ++ (d ∷ [])) ++ post) before first)
    ∙ ap (λ t. take (length front + 1 - length pre) t) (drop-append pre (body ++ post))
    ∙ ap (λ n. take n (body ++ post)) count
    ∙ take-append body post

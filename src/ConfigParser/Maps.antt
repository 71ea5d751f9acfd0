-- ===== src/ConfigParser/Maps.antt =====
-- src/lib/ConfigParser.cpp: what the maps hold after a call.
use usbproxy_legacy.Prelude.{
  ℕ, ◌+◌, ◌||◌, ◌==◌, get_or, length, ◌≡◌, refl, ap, sym, ◌∙◌, true, false, Option, none, some,
  List, [], ◌∷◌, ◌++◌, if◌then◌else◌, Bool-cases, inl, inr, arith,
}
use usbproxy_legacy.ConfigParser.{
  ConfigParser, config_parser, Text, same_text, find, put, set, get, get_vector, add_to_vector,
  text_or_empty, texts_or_empty, add_pointer, parse_entry, parse_line, parse_lines, parse_file,
  str_strip, substr, find_equals,
}

same_text_sound : (k l : Text) → same_text k l ≡ true → k ≡ l
same_text_sound [] [] h = refl
same_text_sound [] (y ∷ l) h = absurd (ground arith)
same_text_sound (x ∷ k) [] h = absurd (ground arith)
same_text_sound (x ∷ k) (y ∷ l) h =
    let first : x ≡ y = ground arith in
    let rest : same_text k l ≡ true = ground arith in
    ap (λ z. z ∷ k) first ∙ ap (◌∷◌ y) (same_text_sound k l rest)

find-put :
    {A : Type 0} (m : List (Text × A)) (k l : Text) (v : A)
    → find (put m k v) l ≡ (if same_text k l then some v else find m l)
unfolding find put
find-put [] k l v = refl
find-put (e ∷ m) k l v = elim (Bool-cases (same_text (e.0) k)) [
  | inl h ↦
      let same : same_text (e.0) l ≡ same_text k l =
        ap (λ t. same_text t l) (same_text_sound (e.0) k h) in
      rw (h, same) (elim (Bool-cases (same_text k l)) [ inl g ↦ rw g refl | inr g ↦ rw g refl ])
  | inr h ↦ elim (Bool-cases (same_text k l)) [
    | inl g ↦
        let other : same_text (e.0) l ≡ false =
          sym (ap (same_text (e.0)) (same_text_sound k l g)) ∙ h in
        rw (h, other) (find-put m k l v ∙ rw g refl)
    | inr g ↦
        rw (h, g)
          (ap (λ o. if same_text (e.0) l then some (e.1) else o) (find-put m k l v ∙ rw g refl))
  ]
]

-- After `set` each key has the value that it had, but for the key that was set, which has its new
-- value; vectors and pointers stay.
get-set :
    (c : ConfigParser) (key value other : Text)
    → get (set c key value) other ≡ (if same_text key other then value else get c other)
unfolding get set
get-set c key value other =
    ap text_or_empty (find-put c.strings key other value)
    ∙ elim (Bool-cases (same_text key other)) [ inl e ↦ rw e refl | inr e ↦ rw e refl ]

pushed :
    (o : Option (List Text)) (value : Text)
    → (elim o [ none ↦ value ∷ [] | some l ↦ l ++ (value ∷ []) ]) ≡ texts_or_empty o ++ (value ∷ [])
pushed none value = refl
pushed (some l) value = refl

-- After `add_to_vector` the vector of its key has the value behind what it had, and each other key
-- the vector that it had.
pub get_vector-add_to_vector :
    (c : ConfigParser) (key value other : Text)
    → get_vector (add_to_vector c key value) other
      ≡ (if same_text key other then get_vector c key ++ (value ∷ []) else get_vector c other)
unfolding get_vector add_to_vector
get_vector-add_to_vector c key value other =
    ap texts_or_empty (find-put c.vectors key other _) ∙ elim (Bool-cases (same_text key other)) [
      | inl e ↦ rw e (pushed (find c.vectors key) value)
      | inr e ↦ rw e refl
    ]

-- The other calls leave the vectors as they are.
pub get_vector-set :
    (c : ConfigParser) (key value other : Text)
    → get_vector (set c key value) other ≡ get_vector c other
unfolding get_vector set
get_vector-set c key value other = refl

pub get_vector-add_pointer :
    (c : ConfigParser) (key : Text) (value : Option ℕ) (other : Text)
    → get_vector (add_pointer c key value) other ≡ get_vector c other
unfolding get_vector add_pointer
get_vector-add_pointer c key value other = refl

get_vector-parse_entry :
    (c : ConfigParser) (s other : Text) → get_vector (parse_entry c s) other ≡ get_vector c other
unfolding parse_entry
get_vector-parse_entry c s other = elim (Bool-cases (length s == 0 || get_or s 0 0 == 35)) [
  | inl e ↦ rw e refl
  | inr e ↦ rw e (entry_cases (find_equals s))
]
  where
    entry_cases :
        (o : Option ℕ)
        → get_vector
            (elim o [
              | none ↦ c
              | some eq ↦
                  set c (str_strip (substr s 0 eq)) (str_strip (substr s (eq + 1) (length s)))
            ])
            other
          ≡ get_vector c other
    entry_cases none = refl
    entry_cases (some eq) = get_vector-set c _ _ other

get_vector-parse_lines :
    (c : ConfigParser) (ls : List Text) (other : Text)
    → get_vector (parse_lines c ls) other ≡ get_vector c other
unfolding parse_lines parse_line
get_vector-parse_lines c [] other = refl
get_vector-parse_lines c (l ∷ ls) other =
    get_vector-parse_lines (parse_line c l) ls other ∙ get_vector-parse_entry c (str_strip l) other

pub get_vector-config_parser : (key : Text) → get_vector config_parser key ≡ []
unfolding get_vector
get_vector-config_parser key = refl

pub get_vector-parse_file :
    (c : ConfigParser) (file : Option (List Text)) (other : Text)
    → get_vector (parse_file c file) other ≡ get_vector c other
unfolding parse_file
get_vector-parse_file c none other = refl
get_vector-parse_file c (some ls) other = get_vector-parse_lines c ls other

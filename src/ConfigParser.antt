-- ===== src/ConfigParser.antt =====
-- src/lib/ConfigParser.h and src/lib/ConfigParser.cpp: the configuration file and the three maps
-- of settings. A string is the list of its characters. The file is the list of the lines that
-- getline gives.
pub mod Strip
pub mod Maps
pub mod Line
mod Tests
use usbproxy_legacy.Prelude.{
  ℕ, zero, suc, ◌+◌, ◌-◌, Bool, true, false, ◌&&◌, ◌||◌, not, Option, none, some, List, [], ◌∷◌,
  ◌++◌, ◌==◌, if◌then◌else◌, get_or, length, take, drop,
}

abbrev pub Text : Type 0
Text = List ℕ

abbrev pub same_text : Text → Text → Bool
same_text [] [] = true
same_text [] (y ∷ ys) = false
same_text (x ∷ xs) [] = false
same_text (x ∷ xs) (y ∷ ys) = x == y && same_text xs ys

-- A space or a tab; one of these or the end of a line.
abbrev pub is_blank : ℕ → Bool
is_blank c = c == 32 || c == 9

abbrev pub is_space : ℕ → Bool
is_space c = c == 32 || c == 9 || c == 10

-- The first loop, from index `x` on.
pub start_from : Text → ℕ → ℕ
start_from [] x = 0
start_from (c ∷ cs) x = if is_blank c then start_from cs (suc x) else x

-- The second loop, `x` before the decrement. It does not look at index 0.
pub end_from : Text → ℕ → ℕ
end_from s zero = length s
end_from s (suc zero) = length s
end_from s (suc (suc y)) =
    let further = end_from s (suc y) in if is_space (get_or s (suc y) 0) then further else suc y

-- `substr`.
abbrev pub substr : Text → ℕ → ℕ → Text
substr s start n = take n (drop start s)

-- `StrStrip`.
pub str_strip : Text → Text
unfolding start_from end_from
str_strip s =
    let start = start_from s 0 in
    let end = end_from s (length s) in
    if get_or s 0 0 == 10 then [] else substr s start (end + 1 - start)

-- `std::map`, with the latest value of each key.
abbrev pub Map : Type 0 → Type 0
Map A = List (Text × A)

pub find {ℓ} : {A : Type ℓ} → List (Text × A) → Text → Option A
find [] k = none
find (e ∷ es) k = if same_text (e.0) k then some (e.1) else find es k

pub put {ℓ} : {A : Type ℓ} → List (Text × A) → Text → A → List (Text × A)
put [] k v = (k, v) ∷ []
put (e ∷ es) k v = if same_text (e.0) k then (k, v) ∷ es else e ∷ put es k v

-- A pointer is a number, and null is `none`.
pub record ConfigParser : Type 0 where
  pub strings : List (Text × Text)
  pub vectors : List (Text × List Text)
  pub pointers : List (Text × Option ℕ)

abbrev pub config_parser : ConfigParser
config_parser = record { strings = []; vectors = []; pointers = [] }

pub set : ConfigParser → Text → Text → ConfigParser
unfolding put
set c key value = record c { strings = put c.strings key value }

abbrev pub text_or_empty : Option Text → Text
text_or_empty none = []
text_or_empty (some t) = t

pub get : ConfigParser → Text → Text
unfolding find
get c key = text_or_empty (find c.strings key)

abbrev pub texts_or_empty : Option (List Text) → List Text
texts_or_empty none = []
texts_or_empty (some l) = l

pub get_vector : ConfigParser → Text → List Text
unfolding find
get_vector c key = texts_or_empty (find c.vectors key)

pub add_to_vector : ConfigParser → Text → Text → ConfigParser
unfolding find put
add_to_vector c key value = record c {
  vectors =
      put c.vectors key
        (elim (find c.vectors key) [ none ↦ value ∷ [] | some l ↦ l ++ (value ∷ []) ]);
}

pub add_pointer : ConfigParser → Text → Option ℕ → ConfigParser
unfolding put
add_pointer c key value = record c { pointers = put c.pointers key value }

get_pointer : ConfigParser → Text → Option ℕ
unfolding find
get_pointer c key = elim (find c.pointers key) [ none ↦ none | some p ↦ p ]

-- `find("=")`: the index, if there is one.
pub find_equals : Text → Option ℕ
find_equals [] = none
find_equals (c ∷ cs) =
    if c == 61 then some 0 else elim (find_equals cs) [ none ↦ none | some n ↦ some (suc n) ]

-- One line of the file, stripped.
pub parse_entry : ConfigParser → Text → ConfigParser
parse_entry c s = if length s == 0 || get_or s 0 0 == 35 then c else elim (find_equals s) [
  | none ↦ c
  | some eq ↦ set c (str_strip (substr s 0 eq)) (str_strip (substr s (eq + 1) (length s)))
]

pub parse_line : ConfigParser → Text → ConfigParser
parse_line c line = parse_entry c (str_strip line)

pub parse_lines : ConfigParser → List Text → ConfigParser
unfolding parse_line
parse_lines c [] = c
parse_lines c (l ∷ ls) = parse_lines (parse_line c l) ls

-- A file that cannot be opened is `none`.
pub parse_file : ConfigParser → Option (List Text) → ConfigParser
unfolding parse_lines
parse_file c none = c
parse_file c (some ls) = parse_lines c ls

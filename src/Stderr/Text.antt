-- ===== src/Stderr/Text.antt =====
-- The functions of `str` that src/stderr_observation.rs calls, on the bytes of UTF-8 strings.
use nono_py.Common.{
  ℕ, zero, suc, ◌+◌, ◌-◌, Bytes, starts_with, Bool, false, ◌&&◌, ◌||◌, List, [], ◌∷◌, Option, none,
  some, if◌then◌else◌, ltb, leb, ◌==◌, is_some, contains, length,
}

unfoldable pub reverse_onto : Bytes → Bytes → Bytes
reverse_onto [] t = t
reverse_onto (c ∷ s) t = reverse_onto s (c ∷ t)

abbrev pub reverse : Bytes → Bytes
reverse s = reverse_onto s []

abbrev pub lower_byte : ℕ → ℕ
lower_byte c = if leb 65 c && leb c 90 then c + 32 else c

unfoldable pub to_ascii_lowercase : Bytes → Bytes
to_ascii_lowercase [] = []
to_ascii_lowercase (c ∷ s) = lower_byte c ∷ to_ascii_lowercase s

abbrev pub next : Option ℕ → Option ℕ
next none = none
next (some n) = some (suc n)

-- `find`: where the needle starts first.
unfoldable pub find : Bytes → Bytes → Option ℕ
find needle [] = if starts_with [] needle then some 0 else none
find needle (c ∷ s) =
    let later = find needle s in if starts_with (c ∷ s) needle then some 0 else next later

abbrev pub mentions : Bytes → Bytes → Bool
mentions s needle = is_some (find needle s)

-- `char::is_whitespace`: the encodings of the characters with the Unicode property White_Space.
abbrev pub whitespace : List Bytes
whitespace =
    (9 ∷ [])
    ∷ (10 ∷ [])
    ∷ (11 ∷ [])
    ∷ (12 ∷ [])
    ∷ (13 ∷ [])
    ∷ (32 ∷ [])
    ∷ (194 ∷ 133 ∷ [])
    ∷ (194 ∷ 160 ∷ [])
    ∷ (225 ∷ 154 ∷ 128 ∷ [])
    ∷ (226 ∷ 128 ∷ 128 ∷ [])
    ∷ (226 ∷ 128 ∷ 129 ∷ [])
    ∷ (226 ∷ 128 ∷ 130 ∷ [])
    ∷ (226 ∷ 128 ∷ 131 ∷ [])
    ∷ (226 ∷ 128 ∷ 132 ∷ [])
    ∷ (226 ∷ 128 ∷ 133 ∷ [])
    ∷ (226 ∷ 128 ∷ 134 ∷ [])
    ∷ (226 ∷ 128 ∷ 135 ∷ [])
    ∷ (226 ∷ 128 ∷ 136 ∷ [])
    ∷ (226 ∷ 128 ∷ 137 ∷ [])
    ∷ (226 ∷ 128 ∷ 138 ∷ [])
    ∷ (226 ∷ 128 ∷ 168 ∷ [])
    ∷ (226 ∷ 128 ∷ 169 ∷ [])
    ∷ (226 ∷ 128 ∷ 175 ∷ [])
    ∷ (226 ∷ 129 ∷ 159 ∷ [])
    ∷ (227 ∷ 128 ∷ 128 ∷ [])
    ∷ []

abbrev pub reverse_all : List Bytes → List Bytes
reverse_all [] = []
reverse_all (x ∷ xs) = reverse x ∷ reverse_all xs

-- The length of the whitespace character at the start, 0 if there is none.
abbrev pub white_len : List Bytes → Bytes → ℕ
white_len [] s = 0
white_len (w ∷ ws) s = if starts_with s w then length w else white_len ws s

-- Skips the next `n` bytes, and then all whitespace.
unfoldable pub skip_white : List Bytes → ℕ → Bytes → Bytes
skip_white ws n [] = []
skip_white ws (suc n) (c ∷ s) = skip_white ws n s
skip_white ws zero (c ∷ s) =
    let w = white_len ws (c ∷ s) in
    let rest = skip_white ws (w - 1) s in if w == 0 then c ∷ s else rest

abbrev pub trim_start : Bytes → Bytes
trim_start s = skip_white whitespace 0 s

abbrev pub trim_end : Bytes → Bytes
trim_end s = reverse (skip_white (reverse_all whitespace) 0 (reverse s))

abbrev pub trim : Bytes → Bytes
trim s = trim_end (trim_start s)

unfoldable pub until_white : Bytes → Bytes
until_white [] = []
until_white (c ∷ s) =
    let rest = until_white s in if white_len whitespace (c ∷ s) == 0 then c ∷ rest else []

-- `split_whitespace().next()`
unfoldable pub first_word : Bytes → Option Bytes
first_word s = elim (until_white (trim_start s)) [ [] ↦ none | c ∷ w ↦ some (c ∷ w) ]

unfoldable pub drop_while : (ℕ → Bool) → Bytes → Bytes
drop_while p [] = []
drop_while p (c ∷ s) = let rest = drop_while p s in if p c then rest else c ∷ s

-- `trim_end_matches` and `trim_matches`, for ASCII characters
abbrev pub trim_end_matches : (ℕ → Bool) → Bytes → Bytes
trim_end_matches p s = reverse (drop_while p (reverse s))

abbrev pub trim_matches : (ℕ → Bool) → Bytes → Bytes
trim_matches p s = trim_end_matches p (drop_while p s)

abbrev pub control_byte : ℕ → Bool
control_byte c = ltb c 32 || c == 127

-- `chars().any(char::is_control)`: U+0000 to U+001F, U+007F, and U+0080 to U+009F, of two bytes.
unfoldable pub has_control : Bytes → Bool
has_control [] = false
has_control (c ∷ []) = control_byte c
has_control (c ∷ d ∷ s) =
    control_byte c || (c == 194 && (leb 128 d && ltb d 160)) || has_control (d ∷ s)

-- Where the first character of the set stands.
unfoldable pub find_any : Bytes → Bytes → Option ℕ
find_any set [] = none
find_any set (c ∷ s) = let later = find_any set s in if contains c set then some 0 else next later

-- `split` at a character
unfoldable pub split : ℕ → Bytes → List Bytes
split b [] = [] ∷ []
split b (c ∷ s) =
    let rest = split b s in
    if c == b then [] ∷ rest else elim rest [ [] ↦ (c ∷ []) ∷ [] | w ∷ ws ↦ (c ∷ w) ∷ ws ]

-- A line loses a carriage return at its end.
abbrev pub chomp : Bytes → Bytes
chomp [] = []
chomp (c ∷ []) = if c == 13 then [] else c ∷ []
chomp (c ∷ d ∷ s) = c ∷ chomp (d ∷ s)

-- The pieces between line feeds; nothing after the last one is no line, and only a piece that a line
-- feed ends loses its carriage return.
abbrev pub lines_of : List Bytes → List Bytes
lines_of [] = []
lines_of (s ∷ []) = elim s [ [] ↦ [] | c ∷ r ↦ (c ∷ r) ∷ [] ]
lines_of (s ∷ t ∷ ss) = chomp s ∷ lines_of (t ∷ ss)

-- `lines`
unfoldable pub lines : Bytes → List Bytes
lines s = lines_of (split 10 s)

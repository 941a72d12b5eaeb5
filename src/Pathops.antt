-- ===== src/Pathops.antt =====
-- src/template_pathops.cc, for a system whose path separator is `/`.
pub mod Search
pub mod FullWord
pub mod Split
use ctemplate.Common.{
  ℕ, zero, suc, ◌+◌, ◌-◌, [], ◌∷◌, ◌++◌, Bool, true, false, not, ◌&&◌, ◌||◌, Option, none, some,
  Bytes, codes, ltb, leb, ◌==◌, if◌then◌else◌, length, drop,
}

abbrev pub is_path_sep : ℕ → Bool
is_path_sep c = c == b'/'

unfoldable pub is_abspath : Bytes → Bool
is_abspath [] = false
is_abspath (c ∷ path) = is_path_sep c

unfoldable pub is_directory : Bytes → Bool
is_directory [] = false
is_directory (c ∷ []) = is_path_sep c
is_directory (c ∷ d ∷ path) = is_directory (d ∷ path)

unfoldable pub path_join : Bytes → Bytes → Bytes
unfolding is_abspath is_directory
path_join a [] = a
path_join [] (c ∷ b) = c ∷ b
path_join (d ∷ a) (c ∷ b) =
    if is_abspath (c ∷ b)
    then c ∷ b
    else if is_directory (d ∷ a)
    then (d ∷ a) ++ c ∷ b
    else (d ∷ a) ++ b'/' ∷ c ∷ b

unfoldable pub normalize_directory : Bytes → Bytes
unfolding is_directory
normalize_directory [] = []
normalize_directory (c ∷ dir) = if is_directory (c ∷ dir) then c ∷ dir else (c ∷ dir) ++ b'/' ∷ []

-- The text behind the last separator, or none.
unfoldable pub behind_separator : Bytes → Option Bytes
behind_separator [] = none
behind_separator (c ∷ path) = elim (behind_separator path) [
  | some name ↦ some name
  | none ↦ if is_path_sep c then some path else none
]

unfoldable pub basename : Bytes → Bytes
unfolding behind_separator
basename path = elim (behind_separator path) [ none ↦ path | some name ↦ name ]

-- `strchr(delim, c) != NULL`, which holds of the NUL that ends `delim` as well.
abbrev pub is_delimiter : ℕ → Bool
is_delimiter c =
    c == b'.'
    || c == b','
    || c == b'_'
    || c == b'-'
    || c == b'#'
    || c == b'*'
    || c == b'?'
    || c == b':'
    || c == 0

-- The word stands at the start of the text.
unfoldable pub occurs : Bytes → Bytes → Bool
occurs s [] = true
occurs [] (d ∷ word) = false
occurs (c ∷ s) (d ∷ word) = c == d && occurs s word

-- `text.find(word)`: how far into the text the word first occurs.
unfoldable pub find : Bytes → Bytes → Option ℕ
unfolding occurs
find [] word = if occurs [] word then some 0 else none
find (c ∷ s) word =
    if occurs (c ∷ s) word
    then some 0
    else elim (find s word) [ none ↦ none | some n ↦ some (suc n) ]

-- `text.at(i)`, for an index in range.
unfoldable pub byte_at : Bytes → ℕ → ℕ
byte_at [] i = 0
byte_at (c ∷ s) zero = c
byte_at (c ∷ s) (suc i) = byte_at s i

unfoldable pub pre_delimited : Bytes → ℕ → Bool
pre_delimited text pos = pos == 0 || is_delimiter (byte_at text (pos - 1))

unfoldable pub post_delimited : Bytes → Bytes → ℕ → Bool
post_delimited text word pos =
    leb (length text - length word) pos || is_delimiter (byte_at text (pos + length word))

-- The loop, on fuel.
unfoldable pub word_loop : ℕ → Bytes → Bytes → ℕ → Bool
word_loop zero text word next = false
word_loop (suc fuel) text word next =
    if ltb next (length text)
    then elim (find (drop next text) word) [
      | none ↦ false
      | some n ↦
          let pos = next + n in
          let rest = word_loop fuel text word (pos + length word + 1) in
          if pre_delimited text pos && post_delimited text word pos then true else rest
    ]
    else false

-- A round moves on by two at least, so the length of the text is fuel enough.
unfoldable pub contains_full_word : Bytes → Bytes → Bool
unfolding word_loop find byte_at pre_delimited post_delimited
contains_full_word text word =
    if length text == 0 || length word == 0 || ltb (length text) (length word)
    then false
    else word_loop (length text) text word 0

-- ===== src/Template/Layout.antt =====
-- src/template.cc: ParseDelimiters and GetIndentation.
use ctemplate.Common.{
  ℕ, suc, ◌-◌, [], ◌∷◌, Bool, true, false, not, ◌&&◌, ◌||◌, Option, none, some, Bytes, ltb, ◌==◌,
  if◌then◌else◌, length, take, drop,
}
use ctemplate.Modifiers.PrefixLine.{index_of}
use ctemplate.Template.Tokens.{MarkerDelimiters}

-- `=XXX YYY=`: one space, no `=` inside.
unfoldable pub last_is_equals : Bytes → Bool
last_is_equals [] = false
last_is_equals (c ∷ []) = c == b'='
last_is_equals (c ∷ d ∷ s) = last_is_equals (d ∷ s)

abbrev pub occurs_once : Option ℕ → Bool
occurs_once none = false
occurs_once (some i) = true

unfoldable pub parse_delimiters : Bytes → Option MarkerDelimiters
unfolding last_is_equals index_of
parse_delimiters [] = none
parse_delimiters (c ∷ s) = elim (index_of b' ' (c ∷ s)) [
  | none ↦ none
  | some space ↦
      if ltb (length (c ∷ s)) 3
        || not (c == b'=')
        || not (last_is_equals (c ∷ s))
        || occurs_once (index_of b'=' (take (length s - 1) s))
        || occurs_once (index_of b' ' (drop (suc space) (c ∷ s)))
      then none
      else some (record {
        start_marker = take (space - 1) s;
        end_marker = take (length s - suc space) (drop (suc space) (c ∷ s));
      })
]

-- The bytes behind the last newline, none where there is no newline.
unfoldable pub last_line : Bytes → Option Bytes
last_line [] = none
last_line (c ∷ s) = elim (last_line s) [
  | some line ↦ some line
  | none ↦ if c == 10 then some s else none
]

unfoldable pub is_indentation : Bytes → Bool
is_indentation [] = true
is_indentation (c ∷ s) = (c == b' ' || c == b'\t') && is_indentation s

unfoldable pub get_indentation : Bytes → Bool → Bytes
unfolding last_line is_indentation
get_indentation text implicit_newline = elim (last_line text) [
  | some line ↦ if is_indentation line then line else []
  | none ↦ if implicit_newline && is_indentation text then text else []
]

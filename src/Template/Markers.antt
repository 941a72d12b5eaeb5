-- ===== src/Template/Markers.antt =====
-- src/template.cc: what GetNextToken reads of a marker: where it ends, its kind, its name and its
-- modifiers, and the newline behind it.
use ctemplate.Common.{
  ℕ, suc, List, [], ◌∷◌, ◌++◌, Bool, true, not, ◌&&◌, ◌||◌, Option, none, some, Bytes, ◌==◌,
  if◌then◌else◌, drop,
}
use ctemplate.Modifiers.Cleanse.{is_alphanumeric}
use ctemplate.Modifiers.PrefixLine.{index_of}
use ctemplate.Modifiers.Registry.{Registry, ModifierInfo, before_equals, from_equals}
use ctemplate.Modifiers.Registry.Builtin.{find_modifier}
use ctemplate.Pathops.{occurs, find}
use ctemplate.Template.{ModifierAndValue}
use ctemplate.Template.Nodes.{Strip, do_not_strip, strip_blank_lines, strip_whitespace}

unfoldable pub is_valid_name : Bytes → Bool
is_valid_name [] = true
is_valid_name (c ∷ s) = (is_alphanumeric c || c == b'_') && is_valid_name s

unfoldable pub maybe_eat_newline : Strip → Bytes → Bytes
maybe_eat_newline strip [] = []
maybe_eat_newline strip_whitespace (c ∷ []) = if c == 10 then [] else c ∷ []
maybe_eat_newline do_not_strip (c ∷ []) = c ∷ []
maybe_eat_newline strip_blank_lines (c ∷ []) = c ∷ []
maybe_eat_newline strip_whitespace (c ∷ d ∷ s) =
    if c == b'\\' && d == 10 then d ∷ s else if c == 10 then d ∷ s else c ∷ d ∷ s
maybe_eat_newline do_not_strip (c ∷ d ∷ s) = if c == b'\\' && d == 10 then d ∷ s else c ∷ d ∷ s
maybe_eat_newline strip_blank_lines (c ∷ d ∷ s) = if c == b'\\' && d == 10 then d ∷ s else c ∷ d ∷ s

-- How far the loop moves a start marker on while there is one a byte behind it.
unfoldable pub later_marker : Bytes → Bytes → ℕ
unfolding occurs
later_marker marker [] = 0
later_marker marker (c ∷ s) =
    let later = later_marker marker s in if occurs s marker then suc later else 0

-- The text of a name between its colons.
unfoldable pub segments : Bytes → Bytes → Bytes × List Bytes
segments acc [] = (acc, [])
segments acc (c ∷ s) =
    let rest = segments [] s in
    let longer = segments (acc ++ c ∷ []) s in if c == b':' then (acc, rest.0 ∷ rest.1) else longer

-- A modifier with its value, that the modifier found wants or does not want.
abbrev pub is_legal : ModifierInfo → Bytes → Bool
is_legal m [] = not m.modval_required
is_legal m (c ∷ value) = m.modval_required

-- The loop over the modifiers; none where it fails.
unfoldable pub read_modifiers : List Bytes → Registry → Option (List ModifierAndValue) × Registry
unfolding find_modifier before_equals from_equals
read_modifiers [] r = (some [], r)
read_modifiers (m ∷ mods) r =
    let value = from_equals m in
    let found = find_modifier (before_equals m) value r in
    let rest = read_modifiers mods found.1 in
    elim found.0 [
      | none ↦ (none, found.1)
      | some info ↦
          if is_legal info value
          then elim rest.0 [
            | none ↦ (none, rest.1)
            | some modifiers ↦ (some (record { info = info; value = value } ∷ modifiers), rest.1)
          ]
          else (none, found.1)
    ]

-- What kind of marker a first byte stands for, and whether it is part of the token.
pub data Kind : Type 0 where
  section_start section_end comment set_delimiters template pragma variable : Kind

abbrev pub kind_of : ℕ → Kind
kind_of c =
    if c == b'#'
    then section_start
    else if c == b'/'
    then section_end
    else if c == b'!'
    then comment
    else if c == b'='
    then set_delimiters
    else if c == b'>'
    then template
    else if c == b'%'
    then pragma
    else variable

-- The bytes from token_start on.
abbrev pub body_of : Kind → ℕ → Bytes → Bytes
body_of section_start c s = s
body_of section_end c s = s
body_of comment c s = s
body_of set_delimiters c s = c ∷ s
body_of template c s = s
body_of pragma c s = s
body_of variable c s = c ∷ s

-- The end of `=XXX YYY=`, before the end marker. A marker that is cut off by the end of the buffer
-- is no marker; the source compares one byte too many there.
unfoldable pub delimiters_end : Bytes → Bytes → Option ℕ
unfolding index_of occurs
delimiters_end end_marker s = elim (index_of b'=' s) [
  | none ↦ none
  | some i ↦ if occurs (drop (suc i) s) end_marker then some (suc (suc i)) else none
]

-- Where the token ends, from token_start on.
unfoldable pub token_end_of : Kind → Bytes → Bytes → Option ℕ
unfolding delimiters_end find
token_end_of set_delimiters end_marker [] = find [] end_marker
token_end_of set_delimiters end_marker (c ∷ s) = elim (delimiters_end end_marker s) [
  | some n ↦ some n
  | none ↦ find (c ∷ s) end_marker
]
token_end_of section_start end_marker s = find s end_marker
token_end_of section_end end_marker s = find s end_marker
token_end_of comment end_marker s = find s end_marker
token_end_of template end_marker s = find s end_marker
token_end_of pragma end_marker s = find s end_marker
token_end_of variable end_marker s = find s end_marker

-- A newline behind a variable is kept.
abbrev pub behind_token : Kind → Strip → Bytes → Bytes
behind_token variable strip s = s
behind_token section_start strip s = maybe_eat_newline strip s
behind_token section_end strip s = maybe_eat_newline strip s
behind_token comment strip s = maybe_eat_newline strip s
behind_token set_delimiters strip s = maybe_eat_newline strip s
behind_token template strip s = maybe_eat_newline strip s
behind_token pragma strip s = maybe_eat_newline strip s

-- ===== src/Template/StripBuffer.antt =====
-- src/template.cc: StripBuffer and its subroutines, which take whitespace out of a template's text
-- before it is parsed. The buffer that is written is the list of its bytes.
pub mod Bounds
pub mod Ends
use ctemplate.Common.{
  ℕ, zero, suc, ◌+◌, [], ◌∷◌, ◌++◌, Bool, true, false, not, ◌&&◌, ◌||◌, Option, none, some, Bytes,
  codes, ltb, leb, ◌==◌, if◌then◌else◌, length, take, drop,
}
use ctemplate.Pathops.{find, occurs}
use ctemplate.Template.Nodes.{Strip, do_not_strip, strip_blank_lines, strip_whitespace}
use ctemplate.Template.Tokens.{MarkerDelimiters}
use ctemplate.Template.Layout.{parse_delimiters}

-- ascii_isspace
abbrev pub ascii_isspace : ℕ → Bool
ascii_isspace c = c == 32 || (leb 9 c && leb c 13)

unfoldable pub strip_leading : Bytes → Bytes
strip_leading [] = []
strip_leading (c ∷ s) = let rest = strip_leading s in if ascii_isspace c then rest else c ∷ s

abbrev keep_or_strip : ℕ → Bytes → Bytes
keep_or_strip c [] = if ascii_isspace c then [] else c ∷ []
keep_or_strip c (d ∷ s) = c ∷ d ∷ s

unfoldable pub strip_trailing : Bytes → Bytes
strip_trailing [] = []
strip_trailing (c ∷ s) = keep_or_strip c (strip_trailing s)

unfoldable pub strip_template_white_space : Bytes → Bytes
unfolding strip_leading strip_trailing
strip_template_white_space s = strip_leading (strip_trailing s)

-- `strchr("#/>!%=", c)`, which also finds the zero byte at the end.
abbrev pub is_removable : Bytes → Bool
is_removable [] = false
is_removable (c ∷ s) =
    c == b'#' || c == b'/' || c == b'>' || c == b'!' || c == b'%' || c == b'=' || c == 0

abbrev pub ends_line : Option ℕ → MarkerDelimiters → Bytes → Bool
ends_line none delim body = false
ends_line (some n) delim body = n + length delim.end_marker == length body

-- The tests on a line that is not blank.
unfoldable pub has_one_removable_marker : Bytes → MarkerDelimiters → Bool
unfolding occurs find
has_one_removable_marker line delim =
    let body = drop (length delim.start_marker) line in
    not (ltb (length line) (length delim.start_marker + length delim.end_marker + 1))
    && occurs line delim.start_marker
    && is_removable body
    && ends_line (find body delim.end_marker) delim body

-- The line that replaces the given one where the result is true.
unfoldable pub is_blank_or_only_has_one_removable_marker : Bytes → MarkerDelimiters → Option Bytes
unfolding strip_template_white_space has_one_removable_marker
is_blank_or_only_has_one_removable_marker line delim = elim (strip_template_white_space line) [
  | [] ↦ some []
  | c ∷ s ↦ if has_one_removable_marker (c ∷ s) delim then some (c ∷ s) else none
]

-- The line without its newline, and whether it had one.
unfoldable pub without_newline : Bytes → Bytes × Bool
without_newline [] = ([], false)
without_newline (c ∷ []) = if c == 10 then ([], true) else (c ∷ [], false)
without_newline (c ∷ d ∷ s) = let rest = without_newline (d ∷ s) in (c ∷ rest.0, rest.1)

abbrev pub with_newline : Bytes × Bool → Bytes
with_newline (line, add_newline) = if add_newline then line ++ 10 ∷ [] else line

unfoldable pub insert_line : Strip → MarkerDelimiters → Bytes → Bytes
unfolding without_newline is_blank_or_only_has_one_removable_marker strip_template_white_space
insert_line strip_whitespace delim line = strip_template_white_space (without_newline line).0
insert_line strip_blank_lines delim line =
    let ended = without_newline line in
    elim (is_blank_or_only_has_one_removable_marker ended.0 delim) [
      | some stripped ↦ stripped
      | none ↦ with_newline ended
    ]
insert_line do_not_strip delim line = with_newline (without_newline line)

-- A line with its newline, and what follows.
unfoldable pub next_line : Bytes → Bytes × Bytes
next_line [] = ([], [])
next_line (c ∷ s) = let rest = next_line s in if c == 10 then (c ∷ [], s) else (c ∷ rest.0, rest.1)

abbrev pub updated : MarkerDelimiters → Option MarkerDelimiters → MarkerDelimiters
updated delim none = delim
updated delim (some changed) = changed

-- The loop over the markers of a line, on fuel.
unfoldable pub marker_loop : ℕ → MarkerDelimiters → Bytes → Option MarkerDelimiters
unfolding find parse_delimiters
marker_loop zero delim s = none
marker_loop (suc fuel) delim s = elim (find s delim.start_marker) [
  | none ↦ some delim
  | some n ↦
      let body = drop (n + length delim.start_marker) s in
      elim (find body delim.end_marker) [
        | none ↦ some delim
        | some m ↦
            marker_loop fuel (updated delim (parse_delimiters (take m body)))
              (drop (m + length delim.end_marker) body)
      ]
]

-- The loop over the lines, on fuel.
unfoldable pub strip_lines : ℕ → Strip → MarkerDelimiters → Bytes → Option Bytes
unfolding next_line marker_loop insert_line
strip_lines zero strip delim s = none
strip_lines (suc fuel) strip delim [] = some []
strip_lines (suc fuel) strip delim (c ∷ s) =
    let line = next_line (c ∷ s) in
    elim (marker_loop fuel delim line.0) [
      | none ↦ none
      | some changed ↦ elim (strip_lines fuel strip changed line.1) [
        | none ↦ none
        | some rest ↦ some (insert_line strip delim line.0 ++ rest)
      ]
    ]

abbrev pub default_delimiters : MarkerDelimiters
default_delimiters = record { start_marker = codes "{{"; end_marker = codes "}}" }

unfoldable pub strip_buffer : ℕ → Strip → Bytes → Option Bytes
unfolding strip_lines
strip_buffer fuel do_not_strip text = some text
strip_buffer fuel strip_blank_lines text =
    strip_lines fuel strip_blank_lines default_delimiters text
strip_buffer fuel strip_whitespace text = strip_lines fuel strip_whitespace default_delimiters text

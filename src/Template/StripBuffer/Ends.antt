-- ===== src/Template/StripBuffer/Ends.antt =====
-- src/template.cc: where StripBuffer ends, and that it writes no more bytes than it reads.
use ctemplate.Common.{
  ℕ, zero, suc, ◌+◌, ◌≤◌, ◌<◌, [], ◌∷◌, ◌++◌, false, none, some, Bytes, length, take, drop, All,
  All-drop, All-take, codes, length-append, length-drop, ◌≡◌, refl, ap, inl, inr, Bool-cases,
  Option-cases, arith, ◌==◌,
}
use ctemplate.Modifiers.PrefixLine.{index_of}
use ctemplate.Pathops.{find}
use ctemplate.Template.Nodes.{Strip, do_not_strip, strip_blank_lines, strip_whitespace}
use ctemplate.Template.Layout.{parse_delimiters}
use ctemplate.Template.StripBuffer.Bounds.{insert_line_bound}
use ctemplate.Template.StripBuffer.{
  insert_line, next_line, marker_loop, strip_lines, default_delimiters, strip_buffer,
}

next_line-append : (s : Bytes) → (next_line s).0 ++ (next_line s).1 ≡ s
unfolding next_line
next_line-append [] = refl
next_line-append (c ∷ s) = elim (Bool-cases (c == 10)) [
  | inl e ↦ rw (e, next_line) refl
  | inr e ↦ rw (e, next_line) (ap (λ rest. c ∷ rest) (next_line-append s))
]

-- A text without the byte that set-delimiters markers start with.
abbrev IsPlain : Bytes → Type 0
IsPlain s = All (λ c. (c == b'=') ≡ false) s

parse_delimiters-IsPlain : (s : Bytes) → IsPlain s → parse_delimiters s ≡ none
unfolding parse_delimiters
parse_delimiters-IsPlain [] h = refl
parse_delimiters-IsPlain (c ∷ s) h = elim (Option-cases (index_of b' ' (c ∷ s))) [
  | inl e ↦ rw (e, parse_delimiters) refl
  | inr (space, e) ↦ rw (e, h.0, parse_delimiters) ground arith
]

IsPlain-next_line : (s : Bytes) → IsPlain s → IsPlain (next_line s).0 × IsPlain (next_line s).1
unfolding next_line
IsPlain-next_line [] h = (h, h)
IsPlain-next_line (c ∷ s) (plain, h) =
    let (first, last) = IsPlain-next_line s h in
    elim (Bool-cases (c == 10)) [
      | inl e ↦ rw (e, next_line) ((plain, tt), h)
      | inr e ↦ rw (e, next_line) ((plain, first), last)
    ]

-- A line without set-delimiters markers leaves the delimiters as they are.
marker_loop-IsPlain :
    (fuel : ℕ) (s : Bytes)
    → length s < fuel
    → IsPlain s
    → marker_loop fuel default_delimiters s ≡ some default_delimiters
unfolding marker_loop
marker_loop-IsPlain zero s enough h = absurd (omega arith)
marker_loop-IsPlain (suc fuel) [] enough h = refl
marker_loop-IsPlain (suc fuel) (c ∷ s) enough h = elim (Option-cases (find (c ∷ s) (codes "{{"))) [
  | inl e ↦ rw (e, marker_loop) refl
  | inr (n, e) ↦
      let body = drop (n + 2) (c ∷ s) in
      let plain = All-drop (λ c. (c == b'=') ≡ false) (n + 2) (c ∷ s) h in
      elim (Option-cases (find body (codes "}}"))) [
        | inl f ↦ rw (e, f, marker_loop) refl
        | inr (m, f) ↦
            rw (e, f, parse_delimiters-IsPlain (take m body) (All-take _ m body plain), marker_loop)
              (marker_loop-IsPlain fuel (drop (m + 2) body)
                (omega (arith, enough, length-drop (n + 2) (c ∷ s), length-drop (m + 2) body))
                (All-drop _ (m + 2) body plain))
      ]
]

next_line-length :
    (c : ℕ) (s : Bytes)
    → (length (next_line (c ∷ s)).0 + length (next_line (c ∷ s)).1 ≡ suc (length s))
      × (length (next_line (c ∷ s)).1 ≤ length s)
unfolding next_line
next_line-length c s =
    let whole = ap length (next_line-append s) in
    let parts = length-append (next_line s).0 (next_line s).1 in
    elim (Bool-cases (c == 10)) [
      | inl e ↦ rw (e, next_line) (omega arith, omega arith)
      | inr e ↦ rw (e, next_line) (omega (arith, whole, parts), omega (arith, whole, parts))
    ]

-- The loop over the lines of a plain text ends, with no more bytes than it reads.
strip_lines-IsPlain :
    (fuel : ℕ) (strip : Strip) (s : Bytes)
    → suc (length s) < fuel
    → IsPlain s
    → (out : Bytes) × (strip_lines fuel strip default_delimiters s ≡ some out)
      × (length out ≤ length s)
unfolding strip_lines
strip_lines-IsPlain zero strip s enough h = absurd (omega arith)
strip_lines-IsPlain (suc fuel) strip [] enough h = ([], refl, omega arith)
strip_lines-IsPlain (suc fuel) strip (c ∷ s) enough h =
    let line = (next_line (c ∷ s)).0 in
    let (lengths, shorter) = next_line-length c s in
    let (plain, rest_plain) = IsPlain-next_line (c ∷ s) h in
    let (out, e, bound) =
      strip_lines-IsPlain fuel strip (next_line (c ∷ s)).1 (omega (arith, enough, shorter))
        rest_plain in
    (
      insert_line strip default_delimiters line ++ out,
      rw (marker_loop-IsPlain fuel line (omega (arith, enough, lengths)) plain, e, strip_lines)
          refl,
      omega (
        arith,
        length-append (insert_line strip default_delimiters line) out,
        insert_line_bound strip default_delimiters line,
        lengths,
        bound,
      ),
    )

-- On a text without `=`, StripBuffer ends on any fuel above the number of the text's bytes and one
-- more, in every strip mode, and what it writes fits into the buffer of the text's length.
pub strip_buffer-ends :
    (fuel : ℕ) (strip : Strip) (text : Bytes)
    → suc (length text) < fuel
    → All (λ c. (c == b'=') ≡ false) text
    → (out : Bytes) × (strip_buffer fuel strip text ≡ some out) × (length out ≤ length text)
unfolding strip_buffer
strip_buffer-ends fuel do_not_strip text enough h = (text, refl, omega arith)
strip_buffer-ends fuel strip_blank_lines text enough h =
    strip_lines-IsPlain fuel strip_blank_lines text enough h
strip_buffer-ends fuel strip_whitespace text enough h =
    strip_lines-IsPlain fuel strip_whitespace text enough h

-- With empty delimiters, which `{{= =}}` sets, the loop over the markers does not end.
pub marker_loop-empty :
    (fuel : ℕ) (s : Bytes)
    → marker_loop fuel (record { start_marker = []; end_marker = [] }) s ≡ none
unfolding marker_loop
marker_loop-empty zero s = refl
marker_loop-empty (suc fuel) [] = marker_loop-empty fuel []
marker_loop-empty (suc fuel) (c ∷ s) = marker_loop-empty fuel (c ∷ s)

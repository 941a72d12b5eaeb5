-- ===== src/Template/StripBuffer/Bounds.antt =====
-- src/template.cc: a line that InsertLine writes is no longer than the line it reads.
use ctemplate.Common.{
  ℕ, suc, ◌≤◌, [], ◌∷◌, Bool, true, false, Option, none, some, Bytes, length, ◌≡◌, refl, sym, ap,
  ◌∙◌, subst, inl, inr, Option-cases, arith, if◌then◌else◌,
}
use ctemplate.Template.Nodes.{Strip, do_not_strip, strip_blank_lines, strip_whitespace}
use ctemplate.Template.Tokens.{MarkerDelimiters}
use ctemplate.Template.StripBuffer.{
  strip_leading, keep_or_strip, strip_trailing, strip_template_white_space,
  has_one_removable_marker, is_blank_or_only_has_one_removable_marker, without_newline,
  with_newline, insert_line,
}

strip_leading_bound : (s : Bytes) → length (strip_leading s) ≤ length s
unfolding strip_leading
strip_leading_bound [] = omega arith
strip_leading_bound (c ∷ s) = let ih = strip_leading_bound s in ground (arith, ih)

keep_or_strip_bound : (c : ℕ) (s : Bytes) → length (keep_or_strip c s) ≤ suc (length s)
keep_or_strip_bound c [] = ground arith
keep_or_strip_bound c (d ∷ s) = omega arith

strip_trailing_bound : (s : Bytes) → length (strip_trailing s) ≤ length s
unfolding strip_trailing
strip_trailing_bound [] = omega arith
strip_trailing_bound (c ∷ s) =
    omega (arith, keep_or_strip_bound c (strip_trailing s), strip_trailing_bound s)

strip_bound : (s : Bytes) → length (strip_template_white_space s) ≤ length s
unfolding strip_template_white_space
strip_bound s = omega (arith, strip_leading_bound (strip_trailing s), strip_trailing_bound s)

with_newline-cons :
    (c : ℕ) (line : Bytes) (b : Bool) → with_newline (c ∷ line, b) ≡ c ∷ with_newline (line, b)
with_newline-cons c line true = refl
with_newline-cons c line false = refl

with_newline-without_newline : (s : Bytes) → with_newline (without_newline s) ≡ s
unfolding without_newline
with_newline-without_newline [] = refl
with_newline-without_newline (c ∷ []) = ground arith
with_newline-without_newline (c ∷ d ∷ s) =
    with_newline-cons c _ _ ∙ ap (λ rest. c ∷ rest) (with_newline-without_newline (d ∷ s))

without_newline_bound : (s : Bytes) → length (without_newline s).0 ≤ length s
unfolding without_newline
without_newline_bound [] = omega arith
without_newline_bound (c ∷ []) = ground arith
without_newline_bound (c ∷ d ∷ s) = omega (arith, without_newline_bound (d ∷ s))

with_newline_bound : (s : Bytes) → length (with_newline (without_newline s)) ≤ length s
with_newline_bound s =
    subst (λ t. length t ≤ length s) (sym (with_newline-without_newline s)) (omega arith)

abbrev given : Option Bytes → Bytes
given none = []
given (some s) = s

given_bound : (b : Bool) (s : Bytes) → length (given (if b then some s else none)) ≤ length s
given_bound true s = omega arith
given_bound false s = omega arith

-- The text that a line of white space or of one marker is replaced with.
stripped_bound :
    (delim : MarkerDelimiters) (line stripped : Bytes)
    → (elim line [
      | [] ↦ some []
      | c ∷ s ↦ if has_one_removable_marker (c ∷ s) delim then some (c ∷ s) else none
    ])
      ≡ some stripped
    → length stripped ≤ length line
stripped_bound delim [] stripped e = subst (λ o. length (given o) ≤ 0) e (omega arith)
stripped_bound delim (c ∷ s) stripped e =
    subst (λ o. length (given o) ≤ suc (length s)) e
      (given_bound (has_one_removable_marker (c ∷ s) delim) (c ∷ s))

marker_line_bound :
    (line : Bytes) (delim : MarkerDelimiters) (stripped : Bytes)
    → is_blank_or_only_has_one_removable_marker line delim ≡ some stripped
    → length stripped ≤ length line
unfolding is_blank_or_only_has_one_removable_marker
marker_line_bound line delim stripped e =
    omega
      (arith, stripped_bound delim (strip_template_white_space line) stripped e, strip_bound line)

pub insert_line_bound :
    (strip : Strip) (delim : MarkerDelimiters) (line : Bytes)
    → length (insert_line strip delim line) ≤ length line
unfolding insert_line
insert_line_bound strip_whitespace delim line =
    omega (arith, strip_bound (without_newline line).0, without_newline_bound line)
insert_line_bound do_not_strip delim line = with_newline_bound line
insert_line_bound strip_blank_lines delim line =
    let kept = with_newline_bound line in
    elim (Option-cases (is_blank_or_only_has_one_removable_marker (without_newline line).0 delim)) [
      | inl e ↦ rw (e, insert_line) kept
      | inr (stripped, e) ↦
          rw (e, insert_line)
            (omega (
              arith,
              marker_line_bound (without_newline line).0 delim stripped e,
              without_newline_bound line,
            ))
    ]

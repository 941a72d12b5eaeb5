-- ===== src/Template/Tree/Progress.antt =====
-- The loop of AddSubnode ends: every token takes a byte, or ends a marker's name.
use ctemplate.Common.{
  ℕ, suc, ◌+◌, ◌*◌, ◌<◌, ◌≤◌, [], ◌∷◌, Bool, Bytes, length, drop, take, length-drop, ◌≡◌, refl, sym,
  ap, subst, ◌⊎◌, inl, inr, Bool-cases, Option-cases, arith, equal, ◌==◌, ◌&&◌,
}
use ctemplate.Pathops.{find, occurs}
use ctemplate.Template.Nodes.{Strip, do_not_strip, strip_blank_lines, strip_whitespace}
use ctemplate.Template.Tokens.{
  Token, text_token, pragma_token, set_delimiters_token, variable_token, section_start_token,
  section_end_token, template_token, comment_token, null_token, Phase, getting_text, getting_name,
  ParseState, next_text, named_token, next_named, next_kind, next_name, by_phase, get_next_token,
}
use ctemplate.Template.Markers.{
  maybe_eat_newline, later_marker, segments, read_modifiers, is_valid_name, Kind, section_start,
  section_end, comment, set_delimiters, template, pragma, variable, kind_of, body_of, token_end_of,
  behind_token,
}
use ctemplate.Template.Tree.{Section, on_token, add_pragma_node}
use ctemplate.Template.Layout.{parse_delimiters}

abbrev pub bit : Phase → ℕ
bit getting_text = 0
bit getting_name = 1

List-cases : (s : Bytes) → (s ≡ []) ⊎ ((c : ℕ) × ((rest : Bytes) × (s ≡ c ∷ rest)))
List-cases [] = inl refl
List-cases (c ∷ rest) = inr (c, (rest, refl))

-- What is left to read.
abbrev pub left : ParseState → ℕ
left ps = 2 * length ps.rest + bit ps.phase

bit_bound : (p : Phase) → bit p ≤ 1
bit_bound getting_text = omega arith
bit_bound getting_name = omega arith

later_marker-nil : (s : Bytes) → later_marker [] s ≡ length s
unfolding later_marker occurs
later_marker-nil [] = refl
later_marker-nil (c ∷ s) = ap suc (later_marker-nil s)

-- A start marker is passed, or the text ends.
passed_marker :
    (marker s : Bytes) (c n : ℕ)
    → length (drop (n + later_marker marker (drop n (c ∷ s)) + length marker) (c ∷ s)) ≤ length s
passed_marker [] s c n = omega (
  arith,
  length-drop (n + later_marker [] (drop n (c ∷ s)) + 0) (c ∷ s),
  later_marker-nil (drop n (c ∷ s)),
  length-drop n (c ∷ s),
)
passed_marker (d ∷ marker) s c n = omega (
  arith,
  length-drop (n + later_marker (d ∷ marker) (drop n (c ∷ s)) + suc (length marker)) (c ∷ s),
)

next_text-left :
    (ps : ParseState) (c : ℕ) (s : Bytes)
    → ps.rest ≡ c ∷ s
    → ps.phase ≡ getting_text
    → left (next_text ps).1 < left ps
unfolding next_text
next_text-left ps c s e p = elim (Option-cases (find ps.rest ps.current_delimiters.start_marker)) [
  | inl f ↦ rw (f, next_text) (rw (e, p) (omega arith))
  | inr (n, f) ↦
      rw (f, next_text)
        (rw (e, p) (omega (arith, passed_marker ps.current_delimiters.start_marker s c n)))
]

maybe_eat_newline_bound :
    (strip : Strip) (s : Bytes) → length (maybe_eat_newline strip s) ≤ length s
unfolding maybe_eat_newline
maybe_eat_newline_bound strip [] = omega arith
maybe_eat_newline_bound do_not_strip (c ∷ []) = omega arith
maybe_eat_newline_bound strip_blank_lines (c ∷ []) = omega arith
maybe_eat_newline_bound strip_whitespace (c ∷ []) = elim (Bool-cases (c == 10)) [
  | inl e ↦ rw (e, maybe_eat_newline) (omega arith)
  | inr e ↦ rw (e, maybe_eat_newline) (omega arith)
]
maybe_eat_newline_bound do_not_strip (c ∷ d ∷ s) = elim (Bool-cases (c == b'\\' && d == 10)) [
  | inl e ↦ rw (e, maybe_eat_newline) (omega arith)
  | inr e ↦ rw (e, maybe_eat_newline) (omega arith)
]
maybe_eat_newline_bound strip_blank_lines (c ∷ d ∷ s) = elim (Bool-cases (c == b'\\' && d == 10)) [
  | inl e ↦ rw (e, maybe_eat_newline) (omega arith)
  | inr e ↦ rw (e, maybe_eat_newline) (omega arith)
]
maybe_eat_newline_bound strip_whitespace (c ∷ d ∷ s) = elim (Bool-cases (c == b'\\' && d == 10)) [
  | inl e ↦ rw (e, maybe_eat_newline) (omega arith)
  | inr e ↦ elim (Bool-cases (c == 10)) [
    | inl f ↦ rw (e, f, maybe_eat_newline) (omega arith)
    | inr f ↦ rw (e, f, maybe_eat_newline) (omega arith)
  ]
]

behind_token_bound :
    (kind : Kind) (strip : Strip) (s : Bytes) → length (behind_token kind strip s) ≤ length s
behind_token_bound variable strip s = omega arith
behind_token_bound section_start strip s = maybe_eat_newline_bound strip s
behind_token_bound section_end strip s = maybe_eat_newline_bound strip s
behind_token_bound comment strip s = maybe_eat_newline_bound strip s
behind_token_bound set_delimiters strip s = maybe_eat_newline_bound strip s
behind_token_bound template strip s = maybe_eat_newline_bound strip s
behind_token_bound pragma strip s = maybe_eat_newline_bound strip s

body_of_bound : (kind : Kind) (c : ℕ) (s : Bytes) → length (body_of kind c s) ≤ suc (length s)
body_of_bound variable c s = omega arith
body_of_bound section_start c s = omega arith
body_of_bound section_end c s = omega arith
body_of_bound comment c s = omega arith
body_of_bound set_delimiters c s = omega arith
body_of_bound template c s = omega arith
body_of_bound pragma c s = omega arith

module _ (n : ℕ) (behind : Bytes) (bound : length behind ≤ suc n) where
  next_named-left :
      (kind : Kind) (text : Bytes) (ps : ParseState)
      → left (next_named kind text behind ps).1 ≤ 2 * suc n
  unfolding next_named
  next_named-left kind text ps = elim (Bool-cases (is_valid_name (segments [] text).0)) [
    | inr e ↦ rw (e, next_named) (omega (arith, bit_bound ps.phase))
    | inl e ↦ elim (Option-cases (read_modifiers (segments [] text).1 ps.registry).0) [
      | inl f ↦ rw (e, f, next_named) (omega (arith, bit_bound ps.phase))
      | inr (modifiers, f) ↦ elim (Option-cases (named_token kind (segments [] text).0 modifiers)) [
        | inl g ↦ rw (e, f, next_named) (rw g (omega (arith, bit_bound ps.phase)))
        | inr (token, g) ↦ rw (e, f, next_named) (rw g (omega (arith, bound)))
      ]
    ]
  ]

  next_kind-left :
      (pragma_ok : Bytes → Bool) (kind : Kind) (text : Bytes) (ps : ParseState)
      → left (next_kind pragma_ok kind text behind ps).1 ≤ 2 * suc n
  unfolding next_kind
  next_kind-left pragma_ok comment text ps = omega (arith, bound)
  next_kind-left pragma_ok set_delimiters text ps = omega (arith, bound)
  next_kind-left pragma_ok pragma text ps = elim (Bool-cases (pragma_ok text)) [
    | inl e ↦ rw (e, next_kind) (omega (arith, bound))
    | inr e ↦ rw (e, next_kind) (omega (arith, bit_bound ps.phase))
  ]
  next_kind-left pragma_ok section_start text ps = next_named-left section_start text ps
  next_kind-left pragma_ok section_end text ps = next_named-left section_end text ps
  next_kind-left pragma_ok template text ps = next_named-left template text ps
  next_kind-left pragma_ok variable text ps = next_named-left variable text ps

module _ (pragma_ok : Bytes → Bool) (strip : Strip) where
  next_name-left :
      (c : ℕ) (s : Bytes) (ps : ParseState)
      → left (next_name pragma_ok strip c s ps).1 ≤ 2 * suc (length s)
  unfolding next_name
  next_name-left c s ps =
      let end_marker = ps.current_delimiters.end_marker in
      let body = body_of (kind_of c) c s in
      elim (Option-cases (token_end_of (kind_of c) end_marker body)) [
        | inl e ↦ rw (e, next_name) (omega (arith, bit_bound ps.phase))
        | inr (n, e) ↦
            rw (e, next_name)
              (next_kind-left (length s)
                (behind_token (kind_of c) strip (drop (n + length end_marker) body))
                (omega (
                  arith,
                  behind_token_bound (kind_of c) strip (drop (n + length end_marker) body),
                  length-drop (n + length end_marker) body,
                  body_of_bound (kind_of c) c s,
                ))
                pragma_ok (kind_of c) (take n body) ps)
      ]

  by_phase-left :
      (p : Phase) (c : ℕ) (s : Bytes) (ps : ParseState)
      → ps.rest ≡ c ∷ s
      → ps.phase ≡ p
      → left (by_phase pragma_ok strip p c s ps).1 < left ps
  unfolding by_phase
  by_phase-left getting_text c s ps e f = next_text-left ps c s e f
  by_phase-left getting_name c s ps e f =
      let before : left ps ≡ 2 * suc (length s) + 1 = rw (e, f) refl in
      omega (arith, before, next_name-left c s ps)

  abbrev next_of : ParseState → Bytes → Token × ParseState
  next_of ps r = elim r [ [] ↦ (null_token, ps) | c ∷ s ↦ by_phase pragma_ok strip ps.phase c s ps ]

  pub get_next_token-by_phase :
      (ps : ParseState) (c : ℕ) (s : Bytes)
      → ps.rest ≡ c ∷ s
      → get_next_token pragma_ok strip ps ≡ by_phase pragma_ok strip ps.phase c s ps
  unfolding get_next_token
  get_next_token-by_phase ps c s e = ap (next_of ps) e

  pub get_next_token-left :
      (ps : ParseState) (c : ℕ) (s : Bytes)
      → ps.rest ≡ c ∷ s
      → left (get_next_token pragma_ok strip ps).1 < left ps
  get_next_token-left ps c s e =
      subst (λ r. left r.1 < left ps) (sym (get_next_token-by_phase ps c s e))
        (by_phase-left ps.phase c s ps e refl)

  module _ (hash : Bytes → ℕ) where
    pub on_token-left :
        (name : Bytes) (b : Section) (t : Token) (ps : ParseState)
        → left (on_token hash strip name b t ps).1.0 ≡ left ps
    unfolding on_token
    on_token-left name b (text_token text) ps = refl
    on_token-left name b (variable_token token) ps = refl
    on_token-left name b (section_start_token token) ps = refl
    on_token-left name b (section_end_token token) ps = elim (Bool-cases (equal token.text name)) [
      | inl e ↦ rw (e, on_token) refl
      | inr e ↦ rw (e, on_token) refl
    ]
    on_token-left name b (template_token token) ps = refl
    on_token-left name b comment_token ps = refl
    on_token-left name b (set_delimiters_token text) ps =
        elim (Option-cases (parse_delimiters text)) [
          | inl e ↦ rw (e, on_token) refl
          | inr (delimiters, e) ↦ rw (e, on_token) refl
        ]
    on_token-left name b (pragma_token text) ps =
        elim (Option-cases (add_pragma_node hash strip name b text)) [
          | inl e ↦ rw (e, on_token) refl
          | inr (added, e) ↦ rw (e, on_token) refl
        ]
    on_token-left name b null_token ps = refl

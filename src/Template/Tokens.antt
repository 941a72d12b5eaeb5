-- ===== src/Template/Tokens.antt =====
-- src/template.cc: GetNextToken and its subroutines. The bytes from bufstart to bufend are a list.
use ctemplate.Common.{
  ℕ, ◌+◌, List, [], ◌∷◌, Bool, true, Option, none, some, Bytes, if◌then◌else◌, length, take, drop,
}
use ctemplate.Modifiers.Registry.{Registry}
use ctemplate.Pathops.{find}
use ctemplate.Template.{ModifierAndValue, TemplateToken}
use ctemplate.Template.Nodes.{Strip}
use ctemplate.Template.Markers.{
  is_valid_name, maybe_eat_newline, later_marker, segments, read_modifiers, Kind, section_start,
  section_end, comment, set_delimiters, template, pragma, variable, kind_of, body_of, token_end_of,
  behind_token,
}

-- The types of token that GetNextToken gives, with what it gives.
pub data Token : Type 0 where
  text_token pragma_token set_delimiters_token : Bytes → Token
  variable_token section_start_token section_end_token template_token : TemplateToken → Token
  comment_token null_token : Token

pub record MarkerDelimiters : Type 0 where
  pub start_marker : Bytes
  pub end_marker : Bytes

pub data Phase : Type 0 where
  getting_text getting_name : Phase

-- ParseState, the global registry of modifiers, and whether the template's state is TS_ERROR.
pub record ParseState : Type 0 where
  pub rest : Bytes
  pub phase : Phase
  pub current_delimiters : MarkerDelimiters
  pub registry : Registry
  pub failed : Bool

-- FAIL
abbrev pub fail : ParseState → Token × ParseState
fail ps = (null_token, record ps { rest = []; failed = true })

-- The case GETTING_TEXT.
unfoldable pub next_text : ParseState → Token × ParseState
unfolding find later_marker
next_text ps = elim (find ps.rest ps.current_delimiters.start_marker) [
  | none ↦ (text_token ps.rest, record ps { rest = [] })
  | some n ↦
      let marker = ps.current_delimiters.start_marker in
      let token_end = n + later_marker marker (drop n ps.rest) in
      (
        text_token (take token_end ps.rest),
        record ps { phase = getting_name; rest = drop (token_end + length marker) ps.rest },
      )
]

-- A token of a kind with a name; only variables and includes have modifiers.
abbrev pub named_token : Kind → Bytes → List ModifierAndValue → Option Token
named_token section_start text [] =
    some (section_start_token (record { text = text; modvals = [] }))
named_token section_start text (m ∷ modvals) = none
named_token section_end text [] = some (section_end_token (record { text = text; modvals = [] }))
named_token section_end text (m ∷ modvals) = none
named_token template text modvals =
    some (template_token (record { text = text; modvals = modvals }))
named_token variable text modvals =
    some (variable_token (record { text = text; modvals = modvals }))
named_token comment text modvals = none
named_token set_delimiters text modvals = none
named_token pragma text modvals = none

-- A name with its modifiers, when the token has ended and `behind` follows.
unfoldable pub next_named : Kind → Bytes → Bytes → ParseState → Token × ParseState
unfolding segments read_modifiers is_valid_name
next_named kind text behind ps =
    let parts = segments [] text in
    let read = read_modifiers parts.1 ps.registry in
    if is_valid_name parts.0
    then elim read.0 [
      | none ↦ fail (record ps { registry = read.1 })
      | some modifiers ↦ elim (named_token kind parts.0 modifiers) [
        | none ↦ fail (record ps { registry = read.1 })
        | some token ↦ (token, record ps { phase = getting_text; rest = behind; registry = read.1 })
      ]
    ]
    else fail ps

-- By the kind; `pragma_ok` is what is checked of a pragma's text.
unfoldable pub next_kind : (Bytes → Bool) → Kind → Bytes → Bytes → ParseState → Token × ParseState
unfolding next_named
next_kind pragma_ok comment text behind ps =
    (comment_token, record ps { phase = getting_text; rest = behind })
next_kind pragma_ok set_delimiters text behind ps =
    (set_delimiters_token text, record ps { phase = getting_text; rest = behind })
next_kind pragma_ok pragma text behind ps =
    if pragma_ok text
    then (pragma_token text, record ps { phase = getting_text; rest = behind })
    else fail ps
next_kind pragma_ok section_start text behind ps = next_named section_start text behind ps
next_kind pragma_ok section_end text behind ps = next_named section_end text behind ps
next_kind pragma_ok template text behind ps = next_named template text behind ps
next_kind pragma_ok variable text behind ps = next_named variable text behind ps

-- The case GETTING_NAME, behind a start marker that `c ∷ s` follows.
unfoldable pub next_name : (Bytes → Bool) → Strip → ℕ → Bytes → ParseState → Token × ParseState
unfolding token_end_of next_kind maybe_eat_newline
next_name pragma_ok strip c s ps =
    let kind = kind_of c in
    let body = body_of kind c s in
    let end_marker = ps.current_delimiters.end_marker in
    elim (token_end_of kind end_marker body) [
      | none ↦ fail ps
      | some n ↦
          next_kind pragma_ok kind (take n body)
            (behind_token kind strip (drop (n + length end_marker) body)) ps
    ]

unfoldable pub by_phase :
    (Bytes → Bool) → Strip → Phase → ℕ → Bytes → ParseState → Token × ParseState
unfolding next_text next_name
by_phase pragma_ok strip getting_text c s ps = next_text ps
by_phase pragma_ok strip getting_name c s ps = next_name pragma_ok strip c s ps

-- SectionTemplateNode::GetNextToken
unfoldable pub get_next_token : (Bytes → Bool) → Strip → ParseState → Token × ParseState
unfolding by_phase
get_next_token pragma_ok strip ps = elim ps.rest [
  | [] ↦ (null_token, ps)
  | c ∷ s ↦ by_phase pragma_ok strip ps.phase c s ps
]

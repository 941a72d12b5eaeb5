-- ===== src/Htmlparser/JsParser.antt =====
-- src/htmlparser/jsparser.cc over the state machine: the states and transitions of
-- src/htmlparser/jsparser_fsm.config, and the events that tell a division from a regular expression.
pub mod Quiet
pub mod Literal
pub mod Keywords
pub mod Division
pub mod Place
pub mod Comments
pub mod Total
pub mod Escaped
use ctemplate.Common.{
  ℕ, zero, suc, ◌+◌, List, [], ◌∷◌, Bool, true, false, not, ◌&&◌, ◌||◌, Option, none, some, Bytes,
  codes, ltb, ◌==◌, if◌then◌else◌, equal,
}
use ctemplate.Htmlparser.StateMachine.{
  statemachine_error, Context, Definition, definition_new, statemachine_in_state,
  statemachine_enter_state, statemachine_copy, statemachine_parse, parse_bytes,
}
use ctemplate.Htmlparser.JsBuffer.{
  Ring, js_is_whitespace, jsparser_buffer_get, jsparser_buffer_set, jsparser_buffer_append_chr,
  jsparser_buffer_pop, jsparser_buffer_last_identifier,
}

-- The internal states, in the order of the configuration.
abbrev pub js_text : ℕ
js_text = 0

abbrev pub js_q : ℕ
js_q = 1

abbrev pub js_q_e : ℕ
js_q_e = 2

abbrev pub js_dq : ℕ
js_dq = 3

abbrev pub js_dq_e : ℕ
js_dq_e = 4

abbrev pub js_slash : ℕ
js_slash = 5

abbrev pub js_regexp_slash : ℕ
js_regexp_slash = 6

abbrev pub js_regexp : ℕ
js_regexp = 7

abbrev pub js_regexp_bracket : ℕ
js_regexp_bracket = 8

abbrev pub js_regexp_bracket_e : ℕ
js_regexp_bracket_e = 9

abbrev pub js_regexp_e : ℕ
js_regexp_e = 10

abbrev pub js_comment_ln : ℕ
js_comment_ln = 11

abbrev pub js_comment_ml : ℕ
js_comment_ml = 12

abbrev pub js_comment_ml_close : ℕ
js_comment_ml_close = 13

abbrev pub js_comment_after : ℕ
js_comment_after = 14

-- The transitions: the first condition that the character meets. The table has the 255 columns 0
-- to 254; where it has no entry the model has an error.
abbrev from_text : ℕ → ℕ
from_text c =
    if c == b'\''
    then js_q
    else if c == b'"'
    then js_dq
    else if c == b'/'
    then js_slash
    else js_text

abbrev from_q : ℕ → ℕ
from_q c = if c == b'\\' then js_q_e else if c == b'\'' then js_text else js_q

abbrev from_dq : ℕ → ℕ
from_dq c = if c == b'\\' then js_dq_e else if c == b'"' then js_text else js_dq

abbrev from_slash : ℕ → ℕ
from_slash c = if c == b'/' then js_comment_ln else if c == b'*' then js_comment_ml else js_text

abbrev from_regexp_slash : ℕ → ℕ
from_regexp_slash c =
    if c == b'/'
    then js_comment_ln
    else if c == b'*'
    then js_comment_ml
    else if c == b'\\'
    then js_regexp_e
    else if c == b'['
    then js_regexp_bracket
    else js_regexp

abbrev from_regexp : ℕ → ℕ
from_regexp c =
    if c == b'\\'
    then js_regexp_e
    else if c == b'['
    then js_regexp_bracket
    else if c == b'/'
    then js_text
    else js_regexp

abbrev from_regexp_bracket : ℕ → ℕ
from_regexp_bracket c =
    if c == b'\\' then js_regexp_bracket_e else if c == b']' then js_regexp else js_regexp_bracket

abbrev from_comment_ln : ℕ → ℕ
from_comment_ln c = if c == 10 then js_comment_after else js_comment_ln

abbrev from_comment_ml : ℕ → ℕ
from_comment_ml c = if c == b'*' then js_comment_ml_close else js_comment_ml

abbrev from_comment_ml_close : ℕ → ℕ
from_comment_ml_close c = if c == b'/' then js_comment_after else js_comment_ml

unfoldable pub transitions : ℕ → ℕ → ℕ
transitions n c =
    if n == js_text
    then from_text c
    else if n == js_q
    then from_q c
    else if n == js_q_e
    then js_q
    else if n == js_dq
    then from_dq c
    else if n == js_dq_e
    then js_dq
    else if n == js_slash
    then from_slash c
    else if n == js_regexp_slash
    then from_regexp_slash c
    else if n == js_regexp
    then from_regexp c
    else if n == js_regexp_bracket
    then from_regexp_bracket c
    else if n == js_regexp_bracket_e
    then js_regexp_bracket
    else if n == js_regexp_e
    then js_regexp
    else if n == js_comment_ln
    then from_comment_ln c
    else if n == js_comment_ml
    then from_comment_ml c
    else if n == js_comment_ml_close
    then from_comment_ml_close c
    else if n == js_comment_after
    then from_text c
    else statemachine_error

unfoldable pub jsparser_state_transitions : ℕ → ℕ → ℕ
jsparser_state_transitions n c = if ltb c 255 then transitions n c else statemachine_error

-- The external states.
pub data JsState : Type 0 where
  state_text state_q state_dq state_regexp state_comment : JsState

-- jsparser_states_external; none for the error.
unfoldable pub state_external : ℕ → Option JsState
state_external n =
    if n == js_text || n == js_slash || n == js_regexp_slash || n == js_comment_after
    then some state_text
    else if n == js_q || n == js_q_e
    then some state_q
    else if n == js_dq || n == js_dq_e
    then some state_dq
    else if n == js_regexp || n == js_regexp_bracket || n == js_regexp_bracket_e || n == js_regexp_e
    then some state_regexp
    else if n == js_comment_ln || n == js_comment_ml || n == js_comment_ml_close
    then some state_comment
    else none

abbrev pub regexp_token_prefix : List Bytes
regexp_token_prefix =
    codes "abstract"
    ∷ codes "break"
    ∷ codes "case"
    ∷ codes "catch"
    ∷ codes "class"
    ∷ codes "const"
    ∷ codes "continue"
    ∷ codes "debugger"
    ∷ codes "default"
    ∷ codes "delete"
    ∷ codes "do"
    ∷ codes "else"
    ∷ codes "enum"
    ∷ codes "eval"
    ∷ codes "export"
    ∷ codes "extends"
    ∷ codes "field"
    ∷ codes "final"
    ∷ codes "finally"
    ∷ codes "for"
    ∷ codes "function"
    ∷ codes "goto"
    ∷ codes "if"
    ∷ codes "implements"
    ∷ codes "import"
    ∷ codes "in"
    ∷ codes "instanceof"
    ∷ codes "native"
    ∷ codes "new"
    ∷ codes "package"
    ∷ codes "private"
    ∷ codes "protected"
    ∷ codes "public"
    ∷ codes "return"
    ∷ codes "static"
    ∷ codes "switch"
    ∷ codes "synchronized"
    ∷ codes "throw"
    ∷ codes "throws"
    ∷ codes "transient"
    ∷ codes "try"
    ∷ codes "typeof"
    ∷ codes "var"
    ∷ codes "void"
    ∷ codes "volatile"
    ∷ codes "while"
    ∷ codes "with"
    ∷ []

-- A search of the sorted list, by its members.
unfoldable pub is_listed : Bytes → List Bytes → Bool
is_listed token [] = false
is_listed token (prefix ∷ prefixes) = equal token prefix || is_listed token prefixes

unfoldable pub is_regexp_token_prefix : Bytes → Bool
unfolding is_listed
is_regexp_token_prefix token = is_listed token regexp_token_prefix

-- The events of jsparser.cc; the ring buffer is the layer above the state machine.
unfoldable pub in_state_js_text : Context Ring → ℕ → ℕ → ℕ → Context Ring
in_state_js_text ctx start chr end = record ctx { user = jsparser_buffer_append_chr ctx.user chr }

-- The punctuators that can stand in front of a regular expression, and NUL.
abbrev pub is_regexp_punctuator : ℕ → Bool
is_regexp_punctuator c =
    c == b'='
    || c == b'<'
    || c == b'>'
    || c == b'&'
    || c == b'|'
    || c == b'!'
    || c == b'%'
    || c == b'*'
    || c == b'/'
    || c == b','
    || c == b';'
    || c == b'?'
    || c == b':'
    || c == b'^'
    || c == b'~'
    || c == b'{'
    || c == b'('
    || c == b'['
    || c == b'}'
    || c == 0

-- Whether the slash behind what the buffer holds opens a regular expression.
unfoldable pub opens_regexp : Ring → Bool
unfolding is_regexp_token_prefix
opens_regexp js =
    let pos = if js_is_whitespace (jsparser_buffer_get js 1) then 2 else 1 in
    let last = jsparser_buffer_get js pos in
    if last == b'+'
    then not (jsparser_buffer_get js (pos + 1) == b'+')
    else if last == b'-'
    then not (jsparser_buffer_get js (pos + 1) == b'-')
    else if is_regexp_punctuator last
    then true
    else elim (jsparser_buffer_last_identifier js) [
      | none ↦ false
      | some token ↦ is_regexp_token_prefix token
    ]

unfoldable pub enter_state_js_slash : Context Ring → ℕ → ℕ → ℕ → Context Ring
enter_state_js_slash ctx start chr end = record ctx {
  next_state = if opens_regexp ctx.user then js_regexp_slash else ctx.next_state;
  user = jsparser_buffer_append_chr ctx.user chr;
}

unfoldable pub enter_state_js_comment_after : Context Ring → ℕ → ℕ → ℕ → Context Ring
enter_state_js_comment_after ctx start chr end = record ctx {
  user =
      if js_is_whitespace (jsparser_buffer_get ctx.user 2)
      then (jsparser_buffer_pop ctx.user).0
      else (jsparser_buffer_set ctx.user 1 b' ').0;
}

-- create_statemachine_definition. The names are those of the states, for a message.
unfoldable pub jsparser_definition : (ℕ → Bytes) → Definition Ring
unfolding jsparser_state_transitions transitions definition_new statemachine_in_state
    statemachine_enter_state
jsparser_definition names =
    statemachine_enter_state
      (statemachine_enter_state
        (statemachine_in_state (definition_new jsparser_state_transitions (some names)) js_text
          in_state_js_text)
        js_slash enter_state_js_slash)
      js_comment_after enter_state_js_comment_after

-- The machine's context is statemachine, and the fields beside it are the ring.
unfoldable pub jsparser_reset : Context Ring → Context Ring
jsparser_reset ctx = record ctx {
  current_state = 0;
  user = record ctx.user { buffer_start = 0; buffer_end = 0 };
}

-- jsparser_copy: with statemachine_copy, whose `user` is the ring copied.
unfoldable pub jsparser_copy : Context Ring → Context Ring
jsparser_copy src = statemachine_copy src src.user

unfoldable pub jsparser_state : Context Ring → Option JsState
jsparser_state ctx = state_external ctx.current_state

-- The context behind it, and the external state; none for the error, where the source asserts.
unfoldable pub jsparser_parse : (ℕ → Bytes) → Context Ring → Bytes → Context Ring × Option JsState
unfolding jsparser_definition
jsparser_parse names ctx str =
    let parsed = statemachine_parse (jsparser_definition names) ctx (some str) in
    (parsed.0, state_external parsed.1)

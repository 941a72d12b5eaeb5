-- ===== src/Tests/Parsing.antt =====
-- src/htmlparser: runs of the state machine and of the JavaScript parser, and instances of their
-- theorems.
use ctemplate.Common.{
  List, Bool, ◌==◌, false, equal, ℕ, ◌+◌, ◌<◌, [], ◌∷◌, ◌≡◌, ◌≢◌, refl, arith, true, none, some,
  Option, Bytes, codes, take, drop, ltb, if◌then◌else◌,
}
use ctemplate.Htmlparser.StateMachine.{
  Context, statemachine_encode_char, statemachine_parse, parse_bytes, step, advance, move_on,
  record_char, fire_in, fire_enter, fire_exit, call_event, definition_new, statemachine_enter_state,
  statemachine_in_state,
}
use ctemplate.Htmlparser.StateMachine.Trace.{
  Call, exit_call, enter_call, in_call, HasEvents, writing_machine, trace, parse-trace,
}
use ctemplate.Htmlparser.StateMachine.Position.{parse_place, newlines, column_after}
use ctemplate.Htmlparser.StateMachine.Encoding.{decoded, decoded-statemachine_encode_char}
use ctemplate.Htmlparser.JsBuffer.{
  Ring, at, put, jsparser_buffer_get, jsparser_buffer_set, jsparser_buffer_append_chr,
  jsparser_buffer_append_str, jsparser_buffer_pop, jsparser_buffer_absolute_pos, write_chr,
  identifier_start, jsparser_buffer_last_identifier, jsparser_buffer_slice, slice_from,
}
use ctemplate.Htmlparser.JsBuffer.Refinement.{IsValid, recent}
use ctemplate.Htmlparser.JsBuffer.Operations.{
  push, push_all, jsparser_buffer_append_str-recent, jsparser_buffer_pop-recent,
}
use ctemplate.Htmlparser.JsParser.{
  regexp_token_prefix, jsparser_definition, jsparser_parse, jsparser_state, state_text, state_q,
  state_dq, state_regexp, state_comment, JsState, state_external, in_state_js_text,
  enter_state_js_slash, opens_regexp, enter_state_js_comment_after, is_regexp_token_prefix,
  jsparser_state_transitions, transitions,
}
use ctemplate.Htmlparser.JsBuffer.Words.{
  word_length, behind_space, last_word, jsparser_buffer_last_identifier-recent,
}
use ctemplate.Htmlparser.JsParser.Keywords.{regexp_may_follow}
use ctemplate.Htmlparser.JsParser.Division.{jsparser_parse_slash}
use ctemplate.Htmlparser.JsParser.Place.{keeps_place}
use ctemplate.Htmlparser.JsParser.Total.{jsparser_parse-IsValid, jsparser_parse_defined}
use ctemplate.Htmlparser.JsParser.Escaped.{
  jsparser_parse-javascript_escape_q, jsparser_parse-javascript_escape_dq,
}
use ctemplate.Htmlparser.JsParser.Comments.{paired_stars, jsparser_parse-paired_stars}
use ctemplate.Modifiers.Javascript.{javascript_escape}

abbrev zeros : Bytes
zeros = 0 ∷ 0 ∷ 0 ∷ 0 ∷ 0 ∷ 0 ∷ 0 ∷ 0 ∷ 0 ∷ 0 ∷ 0 ∷ 0 ∷ 0 ∷ 0 ∷ 0 ∷ 0 ∷ 0 ∷ 0 ∷ []

-- The buffer of a new parser.
abbrev new_ring : Ring
new_ring = record { buffer_start = 0; buffer_end = 0; buffer = zeros }

new_ring-IsValid : IsValid new_ring
new_ring-IsValid = record { start_in = omega arith; end_in = omega arith; size = refl }

abbrev state_name : ℕ → Bytes
state_name n = codes "js"

abbrev in_state : ℕ → Context Ring
in_state n = record {
  current_state = n;
  next_state = n;
  current_char = 0;
  line_number = 1;
  column_number = 1;
  record_buffer = [];
  recording = true;
  error_msg = [];
  user = new_ring;
}

abbrev state_behind : Bytes → Option JsState
state_behind s = (jsparser_parse state_name (in_state 0) s).1

-- A division, a regular expression behind a punctuator and behind a keyword, a comment that its
-- one star closes, and one that its two stars do not close.
javascript_runs :
    (state_behind (codes "x /a") ≡ some state_text)
    × (state_behind (codes "x = /a") ≡ some state_regexp)
    × (state_behind (codes "return /a") ≡ some state_regexp)
    × (state_behind (codes "/* x */ 'a") ≡ some state_q)
    × (state_behind (codes "/* x **/ 'a") ≡ some state_comment)
unfolding jsparser_parse statemachine_parse state_external parse_bytes step advance move_on
    record_char fire_in fire_enter fire_exit in_state_js_text enter_state_js_slash opens_regexp
    jsparser_buffer_get jsparser_buffer_absolute_pos jsparser_buffer_append_chr write_chr at equal
    identifier_start jsparser_buffer_last_identifier jsparser_buffer_pop jsparser_buffer_set
    jsparser_buffer_slice put slice_from enter_state_js_comment_after is_regexp_token_prefix
    jsparser_definition jsparser_state_transitions transitions call_event definition_new
    statemachine_enter_state statemachine_in_state
javascript_runs = (refl, refl, refl, refl, refl)

decoded-statemachine_encode_char_example : decoded (statemachine_encode_char 7 10) ≡ 7
decoded-statemachine_encode_char_example = decoded-statemachine_encode_char 7 (omega arith)

-- Two states that follow the case of a letter, and an error for a digit.
abbrev case_table : ℕ → ℕ → ℕ
case_table st c = if ltb c 65 then 127 else if ltb c 97 then 1 else 0

abbrev case_events : HasEvents
case_events = record { has_exit = λ st. true; has_enter = λ st. st == 1; has_in = λ st. true }

abbrev case_start : Context (List Call)
case_start = record {
  current_state = 0;
  next_state = 0;
  current_char = 0;
  line_number = 1;
  column_number = 1;
  record_buffer = [];
  recording = false;
  error_msg = [];
  user = [];
}

trace_run :
    trace case_table case_events 0 (codes "Ab1c")
    ≡ exit_call 0 0 b'A' 1
      ∷ enter_call 1 0 b'A' 1
      ∷ in_call 1 0 b'A' 1
      ∷ exit_call 1 1 b'b' 0
      ∷ in_call 0 1 b'b' 0
      ∷ []
trace_run = refl

parse-trace_example :
    (let parsed =
        statemachine_parse
          (writing_machine case_table case_events)
          case_start
          (some (codes "Ab1c")) in
      (parsed.0.user ≡ trace case_table case_events 0 (codes "Ab1c")) × (parsed.1 ≡ 127))
parse-trace_example = parse-trace case_table case_events case_start (codes "Ab1c")

parse_place_example :
    (let parsed =
        (statemachine_parse
          (jsparser_definition state_name)
          (in_state 1)
          (some (codes "a\nb"))).0 in
      (parsed.line_number ≡ 1 + newlines (codes "a\nb"))
      × (parsed.column_number ≡ column_after 1 (codes "a\nb"))
      × (parsed.record_buffer ≡ take 255 (codes "a\nb")))
unfolding jsparser_parse statemachine_parse state_external parse_bytes step advance move_on
    record_char fire_in fire_enter fire_exit in_state_js_text enter_state_js_slash opens_regexp
    jsparser_buffer_get jsparser_buffer_absolute_pos jsparser_buffer_append_chr write_chr at equal
    identifier_start jsparser_buffer_last_identifier jsparser_buffer_pop jsparser_buffer_set
    jsparser_buffer_slice put slice_from enter_state_js_comment_after is_regexp_token_prefix
    jsparser_definition jsparser_state_transitions transitions call_event definition_new
    statemachine_enter_state statemachine_in_state
parse_place_example =
    parse_place (jsparser_definition state_name) (keeps_place state_name) (in_state 1)
      (codes "a\nb") (omega arith) (omega arith)

jsparser_buffer_append_str-recent_example :
    IsValid (jsparser_buffer_append_str new_ring (codes "a  b"))
    × (recent (jsparser_buffer_append_str new_ring (codes "a  b")) ≡ push_all [] (codes "a  b"))
jsparser_buffer_append_str-recent_example =
    jsparser_buffer_append_str-recent new_ring (codes "a  b") new_ring-IsValid

abbrev some_ring : Ring
some_ring = record { buffer_start = 17; buffer_end = 2; buffer = zeros }

some_ring-IsValid : IsValid some_ring
some_ring-IsValid = record { start_in = omega arith; end_in = omega arith; size = refl }

jsparser_buffer_pop-recent_example :
    (let popped = jsparser_buffer_pop some_ring in
      IsValid popped.0
      × (recent popped.0 ≡ drop 1 (recent some_ring))
      × (popped.1 ≡ at (recent some_ring) 0))
jsparser_buffer_pop-recent_example = jsparser_buffer_pop-recent some_ring some_ring-IsValid

jsparser_parse-IsValid_example :
    IsValid (jsparser_parse state_name (in_state 0) (codes "x = /a")).0.user
jsparser_parse-IsValid_example =
    jsparser_parse-IsValid state_name (in_state 0) (codes "x = /a") new_ring-IsValid

jsparser_parse_defined_example :
    (let parsed = jsparser_parse state_name (in_state 0) (codes "x = /a") in
      (parsed.1 ≢ none) × (parsed.1 ≡ jsparser_state parsed.0) × (parsed.0.current_state < 15))
jsparser_parse_defined_example =
    jsparser_parse_defined state_name (in_state 0) (codes "x = /a") (omega arith) (omega arith)

jsparser_parse-javascript_escape_q_example :
    (let parsed = jsparser_parse state_name (in_state 1) (javascript_escape (codes "'; x \\")) in
      (parsed.1 ≡ some state_q) × (parsed.0.current_state ≡ 1) × (parsed.0.user ≡ new_ring))
jsparser_parse-javascript_escape_q_example =
    jsparser_parse-javascript_escape_q state_name (in_state 1) (codes "'; x \\") (omega arith) refl

jsparser_parse-javascript_escape_dq_example :
    (let parsed = jsparser_parse state_name (in_state 3) (javascript_escape (codes "\"; x \\")) in
      (parsed.1 ≡ some state_dq) × (parsed.0.current_state ≡ 3) × (parsed.0.user ≡ new_ring))
jsparser_parse-javascript_escape_dq_example =
    jsparser_parse-javascript_escape_dq state_name (in_state 3) (codes "\"; x \\") (omega arith)
      refl

jsparser_parse-paired_stars_example :
    (let parsed = jsparser_parse state_name (in_state 12) (paired_stars 1) in
      (parsed.1 ≡ some state_comment) × (parsed.0.current_state ≡ 12) × (parsed.0.user ≡ new_ring))
jsparser_parse-paired_stars_example = jsparser_parse-paired_stars state_name 1 (in_state 12) refl

abbrev slash_ring : Ring
slash_ring = record { buffer_start = 0; buffer_end = 1; buffer = b'/' ∷ drop 1 zeros }

jsparser_buffer_last_identifier-recent_example : jsparser_buffer_last_identifier some_ring ≡ (
    if word_length (behind_space (recent some_ring)) == 1
    then none
    else last_word (recent some_ring))
jsparser_buffer_last_identifier-recent_example =
    jsparser_buffer_last_identifier-recent some_ring some_ring-IsValid

jsparser_parse_slash_example :
    (let parsed = jsparser_parse state_name (in_state 0) (codes "/") in
      (parsed.0.current_state ≡ (if regexp_may_follow [] then 6 else 5))
      × (recent parsed.0.user ≡ push [] b'/'))
jsparser_parse_slash_example = jsparser_parse_slash state_name (in_state 0) new_ring-IsValid refl

-- strcmp of two texts that hold no NUL, below zero.
abbrev comes_before : Bytes → Bytes → Bool
comes_before s [] = false
comes_before [] (d ∷ t) = true
comes_before (c ∷ s) (d ∷ t) = if c == d then comes_before s t else ltb c d

abbrev is_sorted : List Bytes → Bool
is_sorted [] = true
is_sorted (s ∷ []) = true
is_sorted (s ∷ t ∷ rest) = if comes_before s t then is_sorted (t ∷ rest) else false

-- The order that bsearch asks of the list.
prefixes_in_order : is_sorted regexp_token_prefix ≡ true
prefixes_in_order = refl

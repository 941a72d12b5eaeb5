-- ===== src/Htmlparser/StateMachine.antt =====
-- src/htmlparser/statemachine.cc and src/htmlparser/statemachine.h. A context holds a value of the
-- layer above in place of the `user` pointer, and an event function maps the context, the two
-- states and the character to the context behind it.
pub mod Invariant
pub mod Rounds
pub mod Trace
pub mod Position
pub mod Encoding
use ctemplate.Common.{
  ℕ, zero, suc, ◌+◌, ◌-◌, ◌/◌, ◌%◌, ◌<◌, List, [], ◌∷◌, ◌++◌, Bool, true, false, not, ◌&&◌, ◌||◌,
  Option, none, some, Bytes, codes, ltb, leb, ◌==◌, if◌then◌else◌, length, take,
}

-- STATEMACHINE_ERROR, STATEMACHINE_RECORD_BUFFER_SIZE and STATEMACHINE_MAX_STR_ERROR
abbrev pub statemachine_error : ℕ
statemachine_error = 127

abbrev pub record_buffer_size : ℕ
record_buffer_size = 256

abbrev pub max_str_error : ℕ
max_str_error = 80

-- The line and the column are C ints in the source, and do not overflow here. The record buffer is
-- what it holds up to `record_pos`, where its NUL stands.
pub record Context (U : Type 0) : Type 0 where
  pub current_state : ℕ
  pub next_state : ℕ
  pub current_char : ℕ
  pub line_number : ℕ
  pub column_number : ℕ
  pub record_buffer : Bytes
  pub recording : Bool
  pub error_msg : Bytes
  pub user : U

abbrev pub Event : Type 0 → Type 0
Event U = Context U → ℕ → ℕ → ℕ → Context U

-- A table of states and characters; a function of the state is none where no event is set.
pub record Definition (U : Type 0) : Type 0 where
  pub transition_table : ℕ → ℕ → ℕ
  pub state_names : Option (ℕ → Bytes)
  pub in_state_events : ℕ → Option (Event U)
  pub enter_state_events : ℕ → Option (Event U)
  pub exit_state_events : ℕ → Option (Event U)

-- A table with the entry of one state set.
abbrev pub set_event : {U : Type 0} → (ℕ → Option (Event U)) → ℕ → Event U → ℕ → Option (Event U)
set_event events st f n = if n == st then some f else events n

module _ {U : Type 0} where
  -- statemachine_definition_new and statemachine_definition_populate
  unfoldable pub definition_new : (ℕ → ℕ → ℕ) → Option (ℕ → Bytes) → Definition U
  definition_new table names = record {
    transition_table = table;
    state_names = names;
    in_state_events = λ n. none;
    enter_state_events = λ n. none;
    exit_state_events = λ n. none;
  }

  unfoldable pub statemachine_in_state : Definition U → ℕ → Event U → Definition U
  statemachine_in_state def st f = record def {
    in_state_events = set_event def.in_state_events st f;
  }

  unfoldable pub statemachine_enter_state : Definition U → ℕ → Event U → Definition U
  statemachine_enter_state def st f = record def {
    enter_state_events = set_event def.enter_state_events st f;
  }

  unfoldable pub statemachine_exit_state : Definition U → ℕ → Event U → Definition U
  statemachine_exit_state def st f = record def {
    exit_state_events = set_event def.exit_state_events st f;
  }

  -- `if (events[st]) events[st](ctx, ctx->current_state, chr, ctx->next_state)`
  unfoldable pub call_event : Option (Event U) → Context U → ℕ → Context U
  call_event none ctx chr = ctx
  call_event (some f) ctx chr = f ctx ctx.current_state chr ctx.next_state

  unfoldable pub statemachine_set_state : Definition U → Context U → ℕ → Context U
  unfolding call_event
  statemachine_set_state def ctx state =
      let aimed = record ctx { next_state = state } in
      let left =
        if aimed.current_state == aimed.next_state
        then aimed
        else call_event (def.exit_state_events aimed.current_state) aimed 0 in
      let entered =
        if aimed.current_state == aimed.next_state
        then left
        else call_event (def.enter_state_events left.next_state) left 0 in
      record entered { current_state = state }

  unfoldable pub statemachine_reset : Context U → Context U
  statemachine_reset ctx = record ctx {
    current_state = 0;
    next_state = 0;
    record_buffer = [];
    recording = false;
    line_number = 1;
    column_number = 1;
  }

  unfoldable pub statemachine_start_record : Context U → Context U
  statemachine_start_record ctx = record ctx { record_buffer = []; recording = true }

  -- The context behind it, and the recorded string.
  unfoldable pub statemachine_stop_record : Context U → Context U × Bytes
  statemachine_stop_record ctx = (record ctx { recording = false }, ctx.record_buffer)

  unfoldable pub statemachine_record_length : Context U → ℕ
  statemachine_record_length ctx = length ctx.record_buffer + 1

  unfoldable pub statemachine_set_line_number : Context U → ℕ → Context U
  statemachine_set_line_number ctx line = record ctx { line_number = line }

  unfoldable pub statemachine_set_column_number : Context U → ℕ → Context U
  statemachine_set_column_number ctx column = record ctx { column_number = column }

  -- statemachine_copy: all but the layer above is taken over.
  unfoldable pub statemachine_copy : Context U → U → Context U
  statemachine_copy src user = record src { user = user }

  unfoldable pub statemachine_get_error_msg : Context U → Option Bytes
  statemachine_get_error_msg ctx =
      if ctx.next_state == statemachine_error then some ctx.error_msg else none

-- The digits of `%.2x`
unfoldable pub lower_hex_digit : ℕ → ℕ
lower_hex_digit d = if ltb d 10 then d + b'0' else d - 10 + b'a'

-- statemachine_encode_char: `output` holds `len` bytes, the last of them NUL.
unfoldable pub encoded : ℕ → Bytes
unfolding lower_hex_digit
encoded chr =
    if chr == b'\''
    then codes "\\'"
    else if chr == b'\\'
    then codes "\\\\"
    else if leb 32 chr && leb chr 126
    then chr ∷ []
    else if chr == 10
    then codes "\\n"
    else if chr == 13
    then codes "\\r"
    else if chr == 9
    then codes "\\t"
    else b'\\' ∷ b'x' ∷ lower_hex_digit (chr / 16) ∷ lower_hex_digit (chr % 16) ∷ []

unfoldable pub statemachine_encode_char : ℕ → ℕ → Bytes
statemachine_encode_char chr len = take (len - 1) (encoded chr)

module _ {U : Type 0} where
  -- statemachine_set_transition_error_message, cut to the size of `error_msg`
  unfoldable pub transition_error_message : Definition U → Context U → Bytes
  unfolding statemachine_encode_char
  transition_error_message def ctx =
      let start =
        codes "Unexpected character '"
        ++ (statemachine_encode_char ctx.current_char 10 ++ codes "'") in
      take (max_str_error - 1) (elim def.state_names [
        | some names ↦ start ++ (codes " in state '" ++ (names ctx.current_state ++ codes "'"))
        | none ↦ start
      ])

  -- The recording of the character that is being read.
  unfoldable pub record_char : Context U → ℕ → Context U
  record_char ctx chr =
      if ctx.recording && ltb (length ctx.record_buffer) (record_buffer_size - 1)
      then record ctx { record_buffer = ctx.record_buffer ++ chr ∷ [] }
      else ctx

  -- The end of a round of the loop.
  unfoldable pub move_on : Context U → ℕ → Context U
  move_on ctx chr = record ctx {
    current_state = ctx.next_state;
    column_number = if chr == 10 then 1 else ctx.column_number + 1;
    line_number = if chr == 10 then ctx.line_number + 1 else ctx.line_number;
  }

  -- The three events of a round; each test is made on what the event before it leaves.
  unfoldable pub fire_exit : Definition U → Context U → ℕ → Context U
  unfolding call_event
  fire_exit def ctx chr =
      if ctx.current_state == ctx.next_state
      then ctx
      else call_event (def.exit_state_events ctx.current_state) ctx chr

  unfoldable pub fire_enter : Definition U → Context U → ℕ → Context U
  unfolding call_event
  fire_enter def ctx chr =
      if ctx.current_state == ctx.next_state
      then ctx
      else call_event (def.enter_state_events ctx.next_state) ctx chr

  unfoldable pub fire_in : Definition U → Context U → ℕ → Context U
  unfolding call_event
  fire_in def ctx chr = call_event (def.in_state_events ctx.next_state) ctx chr

  -- A round that meets no transition error.
  unfoldable pub advance : Definition U → Context U → ℕ → Context U
  advance def ctx chr =
      let left = fire_exit def ctx chr in
      let entered = fire_enter def left chr in
      let inside = fire_in def entered chr in move_on (record_char inside chr) chr

  abbrev pub look_up : Definition U → Context U → ℕ → Context U
  look_up def ctx chr = record ctx {
    current_char = chr;
    next_state = def.transition_table ctx.current_state chr;
  }

  -- A round of the loop: the context behind it, and whether it goes on.
  unfoldable pub step : Definition U → Context U → ℕ → Context U × Bool
  step def ctx chr =
      let looked = look_up def ctx chr in
      if looked.next_state == statemachine_error
      then (record looked { error_msg = transition_error_message def looked }, false)
      else (advance def looked chr, true)

  unfoldable pub parse_bytes : Definition U → Context U → Bytes → Context U × ℕ
  parse_bytes def ctx [] = (ctx, ctx.current_state)
  parse_bytes def ctx (chr ∷ str) =
      let (after, goes_on) = step def ctx chr in
      let rest = parse_bytes def after str in if goes_on then rest else (after, statemachine_error)

  -- statemachine_parse: the context and the result. None stands for a negative size.
  unfoldable pub statemachine_parse : Definition U → Context U → Option Bytes → Context U × ℕ
  statemachine_parse def ctx none = (
    record ctx { error_msg = codes "Negative size in statemachine_parse()." },
    statemachine_error,
  )
  statemachine_parse def ctx (some str) = parse_bytes def ctx str

-- ===== src/Htmlparser/JsParser/Quiet.antt =====
-- Rounds of the JavaScript parser that fire no event.
use ctemplate.Common.{
  ℕ, ◌≤◌, ◌∷◌, ◌≡◌, ◌≢◌, refl, ◌∙◌, true, false, none, arith, Bytes, ltb, ◌==◌, ◌&&◌, ◌-◌, length,
  Bool-cases, inl, inr,
}
use ctemplate.Htmlparser.StateMachine.{
  Context, Definition, statemachine_error, record_buffer_size, call_event, record_char, move_on,
  fire_exit, fire_enter, fire_in, advance, look_up, step, parse_bytes, definition_new,
  statemachine_in_state, statemachine_enter_state,
}
use ctemplate.Htmlparser.StateMachine.Rounds.{on_step}
use ctemplate.Htmlparser.JsBuffer.{Ring}
use ctemplate.Htmlparser.JsParser.{
  js_text, js_slash, js_comment_after, jsparser_state_transitions, jsparser_definition,
}

module _ (names : ℕ → Bytes) where
  abbrev pub machine : Definition Ring
  machine = jsparser_definition names

  pub exit_quiet : (ctx : Context Ring) (c : ℕ) → fire_exit machine ctx c ≡ ctx
  unfolding fire_exit call_event jsparser_definition definition_new statemachine_in_state
      statemachine_enter_state
  exit_quiet ctx c = elim (Bool-cases (ctx.current_state == ctx.next_state)) [
    | inl e ↦ rw e refl
    | inr e ↦ rw e refl
  ]

  enter_none : (n : ℕ) → n ≢ js_slash → n ≢ js_comment_after → machine.enter_state_events n ≡ none
  unfolding jsparser_definition definition_new statemachine_in_state statemachine_enter_state
  enter_none n h k = ground arith

  in_none : (n : ℕ) → n ≢ js_text → machine.in_state_events n ≡ none
  unfolding jsparser_definition definition_new statemachine_in_state statemachine_enter_state
  in_none n h = ground arith

  enter_quiet :
      (ctx : Context Ring) (c : ℕ)
      → ctx.next_state ≢ js_slash
      → ctx.next_state ≢ js_comment_after
      → fire_enter machine ctx c ≡ ctx
  unfolding fire_enter call_event
  enter_quiet ctx c h k = elim (Bool-cases (ctx.current_state == ctx.next_state)) [
    | inl e ↦ rw e refl
    | inr e ↦ rw (e, enter_none ctx.next_state h k) refl
  ]

  pub in_quiet :
      (ctx : Context Ring) (c : ℕ) → ctx.next_state ≢ js_text → fire_in machine ctx c ≡ ctx
  unfolding fire_in call_event
  in_quiet ctx c h = rw (in_none ctx.next_state h) refl

  -- The state and the ring behind a round.
  abbrev pub Lands : Context Ring → Context Ring → ℕ → Type 0
  Lands ctx after next = (after.current_state ≡ next) × (after.user ≡ ctx.user)

  pub record-Lands :
      (ctx : Context Ring) (c : ℕ) → Lands ctx (move_on (record_char ctx c) c) ctx.next_state
  unfolding move_on record_char
  record-Lands ctx c =
      elim (Bool-cases (ctx.recording && ltb (length ctx.record_buffer) (record_buffer_size - 1))) [
        | inl e ↦ rw e (refl, refl)
        | inr e ↦ rw e (refl, refl)
      ]

  advance-Lands :
      (ctx : Context Ring) (c : ℕ)
      → ctx.next_state ≢ js_text
      → ctx.next_state ≢ js_slash
      → ctx.next_state ≢ js_comment_after
      → Lands ctx (advance machine ctx c) ctx.next_state
  unfolding advance
  advance-Lands ctx c h k l =
      rw (exit_quiet ctx c, enter_quiet ctx c k l, in_quiet ctx c h) (record-Lands ctx c)

  pub table_lem : machine.transition_table ≡ jsparser_state_transitions
  unfolding jsparser_definition definition_new statemachine_in_state statemachine_enter_state
  table_lem = refl

  -- A round that fires no event.
  pub quiet :
      (ctx : Context Ring) (c next : ℕ)
      → jsparser_state_transitions ctx.current_state c ≡ next
      → 1 ≤ next
      → next ≤ 13
      → next ≢ js_slash
      → ((step machine ctx c).1 ≡ true) × Lands ctx (step machine ctx c).0 next
  unfolding step
  quiet ctx c next e l h k =
      let looked = look_up machine ctx c in
      let aimed : machine.transition_table ctx.current_state c ≡ next = rw table_lem e in
      let good : (machine.transition_table ctx.current_state c == statemachine_error) ≡ false =
        rw aimed (ground arith) in
      let landing =
        advance-Lands looked c (rw aimed (ground arith)) (rw aimed k) (rw aimed (ground arith)) in
      rw good (refl, (landing.0 ∙ aimed, landing.1))

  -- A parse whose first round fires no event.
  pub onward :
      (ctx : Context Ring) (c next : ℕ) (s : Bytes) (P : Context Ring × ℕ → Type 0)
      → jsparser_state_transitions ctx.current_state c ≡ next
      → 1 ≤ next
      → next ≤ 13
      → next ≢ js_slash
      → ((after : Context Ring) → Lands ctx after next → P (parse_bytes machine after s))
      → P (parse_bytes machine ctx (c ∷ s))
  onward ctx c next s P e l h k rest =
      let round = quiet ctx c next e l h k in
      rw (on_step machine ctx c s round.0) (rest (step machine ctx c).0 round.1)

  -- The state reached, with the ring as it was.
  abbrev pub Stays : Context Ring → ℕ → Context Ring × ℕ → Type 0
  Stays ctx state result =
      (result.1 ≡ state) × (result.0.current_state ≡ state) × (result.0.user ≡ ctx.user)

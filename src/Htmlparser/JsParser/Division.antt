-- ===== src/Htmlparser/JsParser/Division.antt =====
-- The decision between a division and a regular expression.
use ctemplate.Common.{
  ℕ, ◌≡◌, ◌≢◌, refl, sym, ap, ◌∙◌, false, arith, Bytes, [], ◌∷◌, ◌==◌, if◌then◌else◌, drop,
  Bool-cases, inl, inr,
}
use ctemplate.Htmlparser.StateMachine.{
  Context, statemachine_error, call_event, fire_enter, advance, look_up, step, parse_bytes,
  statemachine_parse, definition_new, statemachine_in_state, statemachine_enter_state,
}
use ctemplate.Htmlparser.JsBuffer.{Ring, at, js_is_whitespace, jsparser_buffer_get}
use ctemplate.Htmlparser.JsBuffer.Refinement.{IsValid, recent}
use ctemplate.Htmlparser.JsBuffer.Operations.{
  push, jsparser_buffer_get-recent, jsparser_buffer_append_chr-recent,
}
use ctemplate.Htmlparser.JsBuffer.Words.{at-drop, jsparser_buffer_last_identifier-recent}
use ctemplate.Htmlparser.JsParser.{
  js_text, js_slash, js_regexp_slash, transitions, jsparser_state_transitions, jsparser_definition,
  jsparser_parse, enter_state_js_slash, opens_regexp,
}
use ctemplate.Htmlparser.JsParser.Keywords.{
  regexp_may_follow, is_regexp_punctuator_lem, keyword_behind,
}
use ctemplate.Htmlparser.JsParser.Quiet.{
  machine, Lands, exit_quiet, in_quiet, record-Lands, table_lem,
}

pub opens_regexp-recent : (js : Ring) → IsValid js → opens_regexp js ≡ regexp_may_follow (recent js)
unfolding opens_regexp
opens_regexp-recent js v =
    rw
      (
        jsparser_buffer_last_identifier-recent js v,
        keyword_behind (recent js),
        jsparser_buffer_get-recent js 0 v,
      )
      (elim (Bool-cases (js_is_whitespace (at (recent js) 0))) [
        | inl e ↦
            let second : jsparser_buffer_get js 2 ≡ at (drop 1 (recent js)) 0 =
              jsparser_buffer_get-recent js 1 v ∙ sym (at-drop 1 (recent js) 0) in
            let third : jsparser_buffer_get js 3 ≡ at (drop 1 (recent js)) 1 =
              jsparser_buffer_get-recent js 2 v ∙ sym (at-drop 1 (recent js) 1) in
            rw e (rw (second, third, is_regexp_punctuator_lem (at (drop 1 (recent js)) 0)) refl)
        | inr e ↦ rw e (
            rw
              (
                jsparser_buffer_get-recent js 0 v,
                jsparser_buffer_get-recent js 1 v,
                is_regexp_punctuator_lem (at (recent js) 0),
              )
              refl)
      ])

module _ (names : ℕ → Bytes) where
  enter_slash :
      (ctx : Context Ring) (c : ℕ)
      → (ctx.current_state == ctx.next_state) ≡ false
      → ctx.next_state ≡ js_slash
      → fire_enter (machine names) ctx c
        ≡ enter_state_js_slash ctx ctx.current_state c ctx.next_state
  unfolding fire_enter call_event jsparser_definition definition_new statemachine_in_state
      statemachine_enter_state
  enter_slash ctx c h e = rw h (rw e refl)

  abbrev at_slash : Context Ring → ℕ → Context Ring
  at_slash ctx c = enter_state_js_slash ctx ctx.current_state c ctx.next_state

  at_slash-text :
      (ctx : Context Ring) (c : ℕ)
      → ctx.next_state ≡ js_slash
      → (at_slash ctx c).next_state ≢ js_text
  unfolding enter_state_js_slash
  at_slash-text ctx c e = ground arith

  at_slash-recent :
      (ctx : Context Ring)
      → IsValid ctx.user
      → ctx.next_state ≡ js_slash
      → ((at_slash ctx b'/').next_state
          ≡ (if regexp_may_follow (recent ctx.user) then js_regexp_slash else js_slash))
        × (recent (at_slash ctx b'/').user ≡ push (recent ctx.user) b'/')
  unfolding enter_state_js_slash
  at_slash-recent ctx v e = (
    rw (opens_regexp-recent ctx.user v, e) refl,
    (jsparser_buffer_append_chr-recent ctx.user b'/' v).1,
  )

  slash_round :
      (ctx : Context Ring) (c : ℕ)
      → (ctx.current_state == ctx.next_state) ≡ false
      → ctx.next_state ≡ js_slash
      → Lands names (at_slash ctx c) (advance (machine names) ctx c) (at_slash ctx c).next_state
  unfolding advance
  slash_round ctx c h e =
      rw
        (
          exit_quiet names ctx c,
          enter_slash ctx c h e,
          in_quiet names (at_slash ctx c) c (at_slash-text ctx c e),
        )
        (record-Lands names (at_slash ctx c) c)

  aimed_at_slash :
      (ctx : Context Ring)
      → ctx.current_state ≡ js_text
      → (machine names).transition_table ctx.current_state b'/' ≡ js_slash
  unfolding jsparser_state_transitions transitions
  aimed_at_slash ctx e = rw (table_lem names, e) refl

  -- A slash in the text of a script, with a valid ring buffer, opens a regular expression (or a
  -- comment) just where the characters in front of it allow one, and is itself pushed.
  pub jsparser_parse_slash :
      (ctx : Context Ring)
      → IsValid ctx.user
      → ctx.current_state ≡ js_text
      → (let parsed = jsparser_parse names ctx (b'/' ∷ []) in
          (parsed.0.current_state
            ≡ (if regexp_may_follow (recent ctx.user) then js_regexp_slash else js_slash))
          × (recent parsed.0.user ≡ push (recent ctx.user) b'/'))
  unfolding jsparser_parse statemachine_parse parse_bytes step advance
  jsparser_parse_slash ctx v e =
      let looked = look_up (machine names) ctx b'/' in
      let aimed = aimed_at_slash ctx e in
      let moves : (looked.current_state == looked.next_state) ≡ false = rw (aimed, e) refl in
      let good : (looked.next_state == statemachine_error) ≡ false = rw aimed refl in
      let entered = at_slash-recent looked v aimed in
      let round = slash_round looked b'/' moves aimed in
      rw good (round.0 ∙ entered.0, ap recent round.1 ∙ entered.1)

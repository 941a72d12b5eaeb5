-- ===== src/Htmlparser/JsParser/Total.antt =====
-- The JavaScript parser over any input: the states it reaches, and its ring buffer.
use ctemplate.Common.{
  ℕ, ◌<◌, [], ◌∷◌, ◌≡◌, ◌≢◌, refl, sym, ap, true, false, none, arith, Bytes, ltb, ◌==◌, ◌&&◌, ◌-◌,
  length, Bool-cases, inl, inr, All,
}
use ctemplate.Htmlparser.StateMachine.{
  Context, statemachine_error, record_buffer_size, call_event, record_char, move_on, fire_exit,
  fire_enter, fire_in, advance, look_up, step, parse_bytes, statemachine_parse, definition_new,
  statemachine_in_state, statemachine_enter_state,
}
use ctemplate.Htmlparser.StateMachine.Rounds.{on_step}
use ctemplate.Htmlparser.StateMachine.Invariant.{KeepsUser, parse_keeps}
use ctemplate.Htmlparser.JsBuffer.{Ring, js_is_whitespace, jsparser_buffer_get}
use ctemplate.Htmlparser.JsBuffer.Refinement.{IsValid}
use ctemplate.Htmlparser.JsBuffer.Operations.{
  jsparser_buffer_append_chr-recent, jsparser_buffer_pop-recent, jsparser_buffer_set-recent,
}
use ctemplate.Htmlparser.JsParser.{
  js_text, js_slash, js_comment_after, transitions, jsparser_state_transitions, jsparser_definition,
  jsparser_parse, jsparser_state, state_external, in_state_js_text, enter_state_js_slash,
  enter_state_js_comment_after,
}
use ctemplate.Htmlparser.JsParser.Quiet.{machine, table_lem}

slash-IsValid :
    (ctx : Context Ring) (st chr end : ℕ)
    → IsValid ctx.user
    → IsValid (enter_state_js_slash ctx st chr end).user
unfolding enter_state_js_slash
slash-IsValid ctx st chr end v = (jsparser_buffer_append_chr-recent ctx.user chr v).0

text-IsValid :
    (ctx : Context Ring) (st chr end : ℕ)
    → IsValid ctx.user
    → IsValid (in_state_js_text ctx st chr end).user
unfolding in_state_js_text
text-IsValid ctx st chr end v = (jsparser_buffer_append_chr-recent ctx.user chr v).0

comment-IsValid :
    (ctx : Context Ring) (st chr end : ℕ)
    → IsValid ctx.user
    → IsValid (enter_state_js_comment_after ctx st chr end).user
unfolding enter_state_js_comment_after
comment-IsValid ctx st chr end v =
    elim (Bool-cases (js_is_whitespace (jsparser_buffer_get ctx.user 2))) [
      | inl e ↦ rw e (jsparser_buffer_pop-recent ctx.user v).0
      | inr e ↦ rw e (jsparser_buffer_set-recent ctx.user 0 b' ' v).0
    ]

module _ (names : ℕ → Bytes) where
  keeps_ring : KeepsUser (machine names) IsValid
  unfolding jsparser_definition definition_new statemachine_in_state statemachine_enter_state
      call_event
  keeps_ring = record {
    on_exit = λ st chr c v. v;
    on_enter = λ st chr c v. elim (Bool-cases (st == js_comment_after)) [
      | inl e ↦ rw e (comment-IsValid c c.current_state chr c.next_state v)
      | inr e ↦ elim (Bool-cases (st == js_slash)) [
        | inl f ↦ rw (e, f) (slash-IsValid c c.current_state chr c.next_state v)
        | inr f ↦ rw (e, f) v
      ]
    ];
    on_in = λ st chr c v. elim (Bool-cases (st == js_text)) [
      | inl e ↦ rw e (text-IsValid c c.current_state chr c.next_state v)
      | inr e ↦ rw e v
    ];
  }

  -- A parse keeps the ring buffer valid.
  pub jsparser_parse-IsValid :
      (ctx : Context Ring) (s : Bytes)
      → IsValid ctx.user
      → IsValid (jsparser_parse names ctx s).0.user
  unfolding jsparser_parse
  jsparser_parse-IsValid ctx s v = parse_keeps (machine names) IsValid keeps_ring ctx s v

  transitions_below : (n c : ℕ) → n < 15 → c < 255 → jsparser_state_transitions n c < 15
  unfolding jsparser_state_transitions transitions
  transitions_below n c h l = ground arith

  exit_below :
      (ctx : Context Ring) (c : ℕ) → (fire_exit (machine names) ctx c).next_state ≡ ctx.next_state
  unfolding fire_exit call_event jsparser_definition definition_new statemachine_in_state
      statemachine_enter_state
  exit_below ctx c = elim (Bool-cases (ctx.current_state == ctx.next_state)) [
    | inl e ↦ rw e refl
    | inr e ↦ rw e refl
  ]

  enter_below :
      (ctx : Context Ring) (c : ℕ)
      → ctx.next_state < 15
      → (fire_enter (machine names) ctx c).next_state < 15
  unfolding fire_enter call_event jsparser_definition definition_new statemachine_in_state
      statemachine_enter_state enter_state_js_slash enter_state_js_comment_after
  enter_below ctx c h = elim (Bool-cases (ctx.current_state == ctx.next_state)) [
    | inl same ↦ rw same h
    | inr other ↦ elim (Bool-cases (ctx.next_state == js_comment_after)) [
      | inl e ↦ rw (other, e) h
      | inr e ↦ elim (Bool-cases (ctx.next_state == js_slash)) [
        | inl f ↦ rw (other, e, f) (ground arith)
        | inr f ↦ rw (other, e, f) h
      ]
    ]
  ]

  in_below :
      (ctx : Context Ring) (c : ℕ) → (fire_in (machine names) ctx c).next_state ≡ ctx.next_state
  unfolding fire_in call_event jsparser_definition definition_new statemachine_in_state
      statemachine_enter_state in_state_js_text
  in_below ctx c = elim (Bool-cases (ctx.next_state == js_text)) [
    | inl e ↦ rw e refl
    | inr e ↦ rw e refl
  ]

  record_below :
      (ctx : Context Ring) (c : ℕ) → (move_on (record_char ctx c) c).current_state ≡ ctx.next_state
  unfolding move_on record_char
  record_below ctx c =
      elim (Bool-cases (ctx.recording && ltb (length ctx.record_buffer) (record_buffer_size - 1))) [
        | inl e ↦ rw e refl
        | inr e ↦ rw e refl
      ]

  step_below :
      (ctx : Context Ring) (c : ℕ)
      → ctx.current_state < 15
      → c < 255
      → ((step (machine names) ctx c).1 ≡ true)
        × ((step (machine names) ctx c).0.current_state < 15)
  unfolding step advance
  step_below ctx c h l =
      let looked = look_up (machine names) ctx c in
      let left = fire_exit (machine names) looked c in
      let entered = fire_enter (machine names) left c in
      let aimed : (machine names).transition_table ctx.current_state c < 15 =
        rw (table_lem names) (transitions_below ctx.current_state c h l) in
      let good : ((machine names).transition_table ctx.current_state c == statemachine_error)
          ≡ false =
        ground (arith, aimed) in
      let inside : entered.next_state < 15 = enter_below left c (rw (exit_below looked c) aimed) in
      rw good
        (refl, rw (record_below (fire_in (machine names) entered c) c, in_below entered c) inside)

  bytes_below :
      (s : Bytes) (ctx : Context Ring)
      → All (λ c. c < 255) s
      → ctx.current_state < 15
      → ((parse_bytes (machine names) ctx s).1 < 15)
        × ((parse_bytes (machine names) ctx s).0.current_state
            ≡ (parse_bytes (machine names) ctx s).1)
  bytes_below [] ctx l h = unfold parse_bytes in (h, refl)
  bytes_below (c ∷ s) ctx l h =
      let round = step_below ctx c h l.0 in
      rw (on_step (machine names) ctx c s round.0) (bytes_below s _ l.1 round.1)

  external_defined : (n : ℕ) → n < 15 → state_external n ≢ none
  unfolding state_external
  external_defined n h = ground arith

  -- From a state of the table, bytes below 255 parse with no error: the result is the external state
  -- of the state reached, which is one of the table again.
  pub jsparser_parse_defined :
      (ctx : Context Ring) (s : Bytes)
      → All (λ c. c < 255) s
      → ctx.current_state < 15
      → (let parsed = jsparser_parse names ctx s in
          (parsed.1 ≢ none) × (parsed.1 ≡ jsparser_state parsed.0) × (parsed.0.current_state < 15))
  unfolding jsparser_parse statemachine_parse jsparser_state
  jsparser_parse_defined ctx s l h =
      let all = bytes_below s ctx l h in
      (external_defined _ all.0, ap state_external (sym all.1), rw all.1 all.0)

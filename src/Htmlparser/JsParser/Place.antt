-- ===== src/Htmlparser/JsParser/Place.antt =====
-- What the events of jsparser.cc do to the position and the recording of the state machine.
use ctemplate.Common.{ℕ, refl, Bytes, ◌==◌, Bool-cases, inl, inr}
use ctemplate.Htmlparser.StateMachine.{
  Context, call_event, definition_new, statemachine_in_state, statemachine_enter_state,
}
use ctemplate.Htmlparser.StateMachine.Position.{SamePlace, KeepsPlace}
use ctemplate.Htmlparser.JsBuffer.{Ring}
use ctemplate.Htmlparser.JsParser.{
  js_text, js_slash, js_comment_after, jsparser_definition, in_state_js_text, enter_state_js_slash,
  enter_state_js_comment_after,
}
use ctemplate.Htmlparser.JsParser.Quiet.{machine}

unmoved : (c : Context Ring) → SamePlace c c
unmoved c = record {
  same_line = refl;
  same_column = refl;
  same_record = refl;
  same_recording = refl;
}

pub keeps_place : (names : ℕ → Bytes) → KeepsPlace (machine names)
unfolding jsparser_definition definition_new statemachine_in_state statemachine_enter_state
    call_event in_state_js_text enter_state_js_slash enter_state_js_comment_after
keeps_place names = record {
  on_exit = λ st chr c. unmoved c;
  on_enter = λ st chr c. elim (Bool-cases (st == js_comment_after)) [
    | inl e ↦
        rw e (record {
          same_line = refl;
          same_column = refl;
          same_record = refl;
          same_recording = refl;
        })
    | inr e ↦ elim (Bool-cases (st == js_slash)) [
      | inl f ↦
          rw (e, f)
            (record {
              same_line = refl;
              same_column = refl;
              same_record = refl;
              same_recording = refl;
            })
      | inr f ↦ rw (e, f) (unmoved c)
    ]
  ];
  on_in = λ st chr c. elim (Bool-cases (st == js_text)) [
    | inl e ↦
        rw e (record {
          same_line = refl;
          same_column = refl;
          same_record = refl;
          same_recording = refl;
        })
    | inr e ↦ rw e (unmoved c)
  ];
}

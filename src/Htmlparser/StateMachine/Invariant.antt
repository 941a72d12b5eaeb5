-- ===== src/Htmlparser/StateMachine/Invariant.antt =====
-- Invariants of the layer above the state machine.
use ctemplate.Common.{ℕ, [], ◌∷◌, some, Bytes, ◌==◌, ◌&&◌, ◌-◌, ltb, length, Bool-cases, inl, inr}
use ctemplate.Htmlparser.StateMachine.Rounds.{on_error, on_step}
use ctemplate.Htmlparser.StateMachine.{
  Context, Definition, statemachine_error, record_buffer_size, call_event, record_char, move_on,
  fire_exit, fire_enter, fire_in, advance, look_up, step, parse_bytes, statemachine_parse,
}

pub record KeepsUser {U : Type 0} (def : Definition U) (P : U → Type 0) : Type 0 where
  pub on_exit :
      (st chr : ℕ) (c : Context U) → P c.user → P (call_event (def.exit_state_events st) c chr).user
  pub on_enter :
      (st chr : ℕ) (c : Context U)
      → P c.user
      → P (call_event (def.enter_state_events st) c chr).user
  pub on_in :
      (st chr : ℕ) (c : Context U) → P c.user → P (call_event (def.in_state_events st) c chr).user

module _ {U : Type 0} (def : Definition U) (P : U → Type 0) (keeps : KeepsUser def P) where
  exit_keeps : (c : Context U) (chr : ℕ) → P c.user → P (fire_exit def c chr).user
  unfolding fire_exit
  exit_keeps c chr p = elim (Bool-cases (c.current_state == c.next_state)) [
    | inl e ↦ rw e p
    | inr e ↦ rw e (keeps.on_exit c.current_state chr c p)
  ]

  enter_keeps : (c : Context U) (chr : ℕ) → P c.user → P (fire_enter def c chr).user
  unfolding fire_enter
  enter_keeps c chr p = elim (Bool-cases (c.current_state == c.next_state)) [
    | inl e ↦ rw e p
    | inr e ↦ rw e (keeps.on_enter c.next_state chr c p)
  ]

  in_keeps : (c : Context U) (chr : ℕ) → P c.user → P (fire_in def c chr).user
  unfolding fire_in
  in_keeps c chr p = keeps.on_in c.next_state chr c p

  record_keeps : (c : Context U) (chr : ℕ) → P c.user → P (move_on (record_char c chr) chr).user
  unfolding move_on record_char
  record_keeps c chr p =
      elim (Bool-cases (c.recording && ltb (length c.record_buffer) (record_buffer_size - 1))) [
        | inl e ↦ rw e p
        | inr e ↦ rw e p
      ]

  step_keeps : (c : Context U) (chr : ℕ) → P c.user → P (step def c chr).0.user
  unfolding step advance
  step_keeps c chr p =
      let looked = look_up def c chr in
      elim (Bool-cases (def.transition_table c.current_state chr == statemachine_error)) [
        | inl bad ↦ rw bad p
        | inr good ↦
            rw good
              (record_keeps _ chr (in_keeps _ chr (enter_keeps _ chr (exit_keeps looked chr p))))
      ]

  bytes_keep : (s : Bytes) (c : Context U) → P c.user → P (parse_bytes def c s).0.user
  bytes_keep [] c p = unfold parse_bytes in p
  bytes_keep (chr ∷ s) c p = elim (Bool-cases (step def c chr).1) [
    | inr e ↦ rw (on_error def c chr s e) (step_keeps c chr p)
    | inl e ↦ rw (on_step def c chr s e) (bytes_keep s (step def c chr).0 (step_keeps c chr p))
  ]

  pub parse_keeps :
      (c : Context U) (s : Bytes) → P c.user → P (statemachine_parse def c (some s)).0.user
  unfolding statemachine_parse
  parse_keeps c s p = bytes_keep s c p

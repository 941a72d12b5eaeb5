-- ===== src/Htmlparser/StateMachine/Trace.antt =====
-- Which event functions statemachine_parse calls, in which order and with which arguments.
use ctemplate.Common.{
  ℕ, List, [], ◌∷◌, ◌++◌, ◌≡◌, refl, sym, ap, ◌∙◌, Bool, true, false, some, none, Option, Bytes,
  ◌==◌, if◌then◌else◌, Bool-cases, inl, inr, append-nil, append_assoc, ltb, ◌&&◌, length, ◌-◌,
}
use ctemplate.Htmlparser.StateMachine.{
  Context, Definition, Event, statemachine_error, call_event, fire_exit, fire_enter, fire_in,
  advance, look_up, step, parse_bytes, statemachine_parse, record_char, move_on, record_buffer_size,
}
use ctemplate.Htmlparser.StateMachine.Rounds.{on_step}

-- A call of the function that is set for a state: the state, and the three arguments.
pub data Call : Type 0 where
  exit_call enter_call in_call : ℕ → ℕ → ℕ → ℕ → Call

-- The states for which a machine has a function of each kind.
pub record HasEvents : Type 0 where
  pub has_exit : ℕ → Bool
  pub has_enter : ℕ → Bool
  pub has_in : ℕ → Bool

-- A function that writes down how it was called, and changes nothing else.
abbrev pub writing : (ℕ → ℕ → ℕ → ℕ → Call) → ℕ → Event (List Call)
writing call st ctx start chr end = record ctx { user = ctx.user ++ call st start chr end ∷ [] }

abbrev pub events : (ℕ → Bool) → (ℕ → ℕ → ℕ → ℕ → Call) → ℕ → Option (Event (List Call))
events has call st = if has st then some (writing call st) else none

module _ (table : ℕ → ℕ → ℕ) (has : HasEvents) where
  -- The machine with that table whose functions write down their calls.
  abbrev pub writing_machine : Definition (List Call)
  writing_machine = record {
    transition_table = table;
    state_names = none;
    in_state_events = events has.has_in in_call;
    enter_state_events = events has.has_enter enter_call;
    exit_state_events = events has.has_exit exit_call;
  }

  abbrev called : (ℕ → Bool) → (ℕ → ℕ → ℕ → ℕ → Call) → ℕ → ℕ → ℕ → ℕ → List Call
  called has_event call st start chr end = if has_event st then call st start chr end ∷ [] else []

  -- The specification, on a state and the input: a character leads to the next state; where that
  -- is another one, the old state is left and the new one entered, and then the function inside
  -- the new state is called. An error calls nothing and ends the input.
  abbrev pub calls_of : ℕ → ℕ → ℕ → List Call
  calls_of st chr next =
      (if st == next then [] else called has.has_exit exit_call st st chr next)
      ++ ((if st == next then [] else called has.has_enter enter_call next st chr next)
          ++ called has.has_in in_call next st chr next)

  abbrev pub trace : ℕ → Bytes → List Call
  trace st [] = []
  trace st (chr ∷ str) =
      let next = table st chr in
      let rest = trace next str in
      if next == statemachine_error then [] else calls_of st chr next ++ rest

  abbrev pub result : ℕ → Bytes → ℕ
  result st [] = st
  result st (chr ∷ str) =
      let next = table st chr in
      let rest = result next str in if next == statemachine_error then statemachine_error else rest

  write : Context (List Call) → List Call → Context (List Call)
  write ctx more = record ctx { user = ctx.user ++ more }

  call_event-write :
      (has_event : ℕ → Bool) (call : ℕ → ℕ → ℕ → ℕ → Call) (st : ℕ) (ctx : Context (List Call))
      (chr : ℕ)
      → call_event (events has_event call st) ctx chr
        ≡ write ctx (called has_event call st ctx.current_state chr ctx.next_state)
  unfolding call_event write
  call_event-write has_event call st ctx chr = elim (Bool-cases (has_event st)) [
    | inl e ↦ rw e refl
    | inr e ↦ rw (e, append-nil ctx.user) refl
  ]

  write-nil : (ctx : Context (List Call)) → ctx ≡ write ctx []
  unfolding write
  write-nil ctx = rw (append-nil ctx.user) refl

  fire_exit-write :
      (ctx : Context (List Call)) (chr : ℕ)
      → fire_exit writing_machine ctx chr
        ≡ write ctx (
            if ctx.current_state == ctx.next_state
            then []
            else called has.has_exit exit_call ctx.current_state ctx.current_state chr
                ctx.next_state)
  unfolding fire_exit
  fire_exit-write ctx chr = elim (Bool-cases (ctx.current_state == ctx.next_state)) [
    | inl e ↦ rw e (write-nil ctx)
    | inr e ↦ rw e (call_event-write has.has_exit exit_call ctx.current_state ctx chr)
  ]

  fire_enter-write :
      (ctx : Context (List Call)) (chr : ℕ)
      → fire_enter writing_machine ctx chr
        ≡ write ctx (
            if ctx.current_state == ctx.next_state
            then []
            else called has.has_enter enter_call ctx.next_state ctx.current_state chr
                ctx.next_state)
  unfolding fire_enter
  fire_enter-write ctx chr = elim (Bool-cases (ctx.current_state == ctx.next_state)) [
    | inl e ↦ rw e (write-nil ctx)
    | inr e ↦ rw e (call_event-write has.has_enter enter_call ctx.next_state ctx chr)
  ]

  record_char-user :
      (ctx : Context (List Call)) (chr : ℕ) → (move_on (record_char ctx chr) chr).user ≡ ctx.user
  unfolding move_on record_char
  record_char-user ctx chr =
      elim (Bool-cases (ctx.recording && ltb (length ctx.record_buffer) (record_buffer_size - 1))) [
        | inl e ↦ rw e refl
        | inr e ↦ rw e refl
      ]

  record_char-state :
      (ctx : Context (List Call)) (chr : ℕ)
      → (move_on (record_char ctx chr) chr).current_state ≡ ctx.next_state
  unfolding move_on record_char
  record_char-state ctx chr =
      elim (Bool-cases (ctx.recording && ltb (length ctx.record_buffer) (record_buffer_size - 1))) [
        | inl e ↦ rw e refl
        | inr e ↦ rw e refl
      ]

  write-write :
      (ctx : Context (List Call)) (a b : List Call) → write (write ctx a) b ≡ write ctx (a ++ b)
  unfolding write
  write-write ctx a b = rw (append_assoc ctx.user a b) refl

  fired : Context (List Call) → ℕ → Context (List Call)
  fired ctx chr =
      fire_in writing_machine (fire_enter writing_machine (fire_exit writing_machine ctx chr) chr)
        chr

  fired-write :
      (ctx : Context (List Call)) (chr : ℕ)
      → fired ctx chr ≡ write ctx (calls_of ctx.current_state chr ctx.next_state)
  unfolding fired write fire_in
  fired-write ctx chr =
      let start = ctx.current_state in
      let end = ctx.next_state in
      let left =
        write ctx
          (if start == end then [] else called has.has_exit exit_call start start chr end) in
      let entered =
        write left
          (if start == end then [] else called has.has_enter enter_call end start chr end) in
      ap (λ c. fire_in writing_machine (fire_enter writing_machine c chr) chr)
        (fire_exit-write ctx chr)
      ∙ ap (λ c. fire_in writing_machine c chr) (fire_enter-write left chr)
      ∙ call_event-write has.has_in in_call end entered chr
      ∙ write-write left _ _
      ∙ write-write ctx _ _

  advance-calls :
      (ctx : Context (List Call)) (chr : ℕ)
      → ((advance writing_machine ctx chr).user
          ≡ ctx.user ++ calls_of ctx.current_state chr ctx.next_state)
        × ((advance writing_machine ctx chr).current_state ≡ ctx.next_state)
  unfolding advance write fired
  advance-calls ctx chr =
      let written = fired-write ctx chr in
      (
        record_char-user (fired ctx chr) chr ∙ ap (λ c. c.user) written,
        record_char-state (fired ctx chr) chr ∙ ap (λ c. c.next_state) written,
      )

  step-calls :
      (ctx : Context (List Call)) (chr : ℕ)
      → (table ctx.current_state chr == statemachine_error) ≡ false
      → ((step writing_machine ctx chr).1 ≡ true)
        × ((step writing_machine ctx chr).0.user
            ≡ ctx.user ++ calls_of ctx.current_state chr (table ctx.current_state chr))
        × ((step writing_machine ctx chr).0.current_state ≡ table ctx.current_state chr)
  unfolding step
  step-calls ctx chr good =
      let moved = advance-calls (look_up writing_machine ctx chr) chr in
      (rw good refl, rw good moved.0, rw good moved.1)

  error-calls :
      (chr : ℕ) (s : Bytes) (ctx : Context (List Call))
      → (table ctx.current_state chr == statemachine_error) ≡ true
      → ((parse_bytes writing_machine ctx (chr ∷ s)).0.user
          ≡ ctx.user ++ trace ctx.current_state (chr ∷ s))
        × ((parse_bytes writing_machine ctx (chr ∷ s)).1 ≡ result ctx.current_state (chr ∷ s))
  unfolding parse_bytes step
  error-calls chr s ctx bad = rw bad (sym (append-nil ctx.user), refl)

  bytes-calls :
      (s : Bytes) (ctx : Context (List Call))
      → ((parse_bytes writing_machine ctx s).0.user ≡ ctx.user ++ trace ctx.current_state s)
        × ((parse_bytes writing_machine ctx s).1 ≡ result ctx.current_state s)
  bytes-calls [] ctx = unfold parse_bytes in (sym (append-nil ctx.user), refl)
  bytes-calls (chr ∷ s) ctx =
      let next = table ctx.current_state chr in
      elim (Bool-cases (next == statemachine_error)) [
        | inl bad ↦ error-calls chr s ctx bad
        | inr good ↦
            let (goes_on, calls, state) = step-calls ctx chr good in
            let after = (step writing_machine ctx chr).0 in
            let (later, answer) = bytes-calls s after in
            let round = on_step writing_machine ctx chr s goes_on in
            let traced : trace ctx.current_state (chr ∷ s)
                ≡ calls_of ctx.current_state chr next ++ trace next s =
              rw good refl in
            let ended : result ctx.current_state (chr ∷ s) ≡ result next s = rw good refl in
            (
              ap (λ r. r.0.user) round
                  ∙ later
                  ∙ ap (λ st. after.user ++ trace st s) state
                  ∙ ap (λ user. user ++ trace next s) calls
                  ∙ append_assoc ctx.user (calls_of ctx.current_state chr next) (trace next s)
                  ∙ ap (λ t. ctx.user ++ t) (sym traced),
              ap (λ r. r.1) round ∙ answer ∙ ap (λ st. result st s) state ∙ sym ended,
            )
      ]

  -- A machine whose functions write down how they are called, set for any of its states: for each
  -- character that leads to another state, statemachine_parse calls the function for leaving the
  -- old state and then the one for entering the new one, and for each character, last, the one for
  -- being in the new state, where they are set, each with the old state, the character and the new
  -- state; at an error it calls none and stops. It returns the last state, or the error.
  pub parse-trace :
      (ctx : Context (List Call)) (s : Bytes)
      → (let parsed = statemachine_parse writing_machine ctx (some s) in
          (parsed.0.user ≡ ctx.user ++ trace ctx.current_state s)
          × (parsed.1 ≡ result ctx.current_state s))
  unfolding statemachine_parse
  parse-trace ctx s = bytes-calls s ctx

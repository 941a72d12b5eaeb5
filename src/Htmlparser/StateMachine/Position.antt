-- ===== src/Htmlparser/StateMachine/Position.antt =====
-- The line, the column and the record buffer of statemachine_parse.
use ctemplate.Common.{
  ℕ, zero, suc, ◌+◌, ◌-◌, ◌≤◌, [], ◌∷◌, ◌++◌, ◌≡◌, ◌≢◌, refl, sym, ap, ◌∙◌, Bool, true, false, some,
  arith, Bytes, ltb, ◌==◌, if◌then◌else◌, ◌&&◌, length, take, Bool-cases, inl, inr, length-append,
  append_assoc, append-nil,
}
use ctemplate.Htmlparser.StateMachine.Rounds.{on_error, on_step}
use ctemplate.Htmlparser.StateMachine.{
  Context, Definition, statemachine_error, record_buffer_size, call_event, record_char, move_on,
  fire_exit, fire_enter, fire_in, advance, look_up, step, parse_bytes, statemachine_parse,
}

-- One context has the position and the recording of another.
pub record SamePlace {U : Type 0} (c d : Context U) : Type 0 where
  pub same_line : d.line_number ≡ c.line_number
  pub same_column : d.column_number ≡ c.column_number
  pub same_record : d.record_buffer ≡ c.record_buffer
  pub same_recording : d.recording ≡ c.recording

-- No event of the machine moves the position or touches the recording.
pub record KeepsPlace {U : Type 0} (def : Definition U) : Type 0 where
  pub on_exit :
      (st chr : ℕ) (c : Context U) → SamePlace c (call_event (def.exit_state_events st) c chr)
  pub on_enter :
      (st chr : ℕ) (c : Context U) → SamePlace c (call_event (def.enter_state_events st) c chr)
  pub on_in : (st chr : ℕ) (c : Context U) → SamePlace c (call_event (def.in_state_events st) c chr)

-- The line and the column behind a text.
unfoldable pub line_after : ℕ → Bytes → ℕ
line_after line [] = line
line_after line (c ∷ s) = line_after (if c == 10 then line + 1 else line) s

unfoldable pub column_after : ℕ → Bytes → ℕ
column_after column [] = column
column_after column (c ∷ s) = column_after (if c == 10 then 1 else column + 1) s

-- The recording behind a text: a byte is taken while there are 255 at most with it.
unfoldable pub recorded_after : Bool → Bytes → Bytes → Bytes
recorded_after recording buffer [] = buffer
recorded_after recording buffer (c ∷ s) =
    recorded_after recording
      (if recording && ltb (length buffer) (record_buffer_size - 1)
        then buffer ++ c ∷ []
        else buffer)
      s

abbrev pub newlines : Bytes → ℕ
newlines [] = 0
newlines (c ∷ s) = (if c == 10 then 1 else 0) + newlines s

line_after-newlines : (line : ℕ) (s : Bytes) → line_after line s ≡ line + newlines s
unfolding line_after
line_after-newlines line [] = omega arith
line_after-newlines line (c ∷ s) =
    ground (arith, line_after-newlines (line + 1) s, line_after-newlines line s)

take_all : (s : Bytes) (n : ℕ) → length s ≤ n → take n s ≡ s
take_all [] zero h = refl
take_all [] (suc n) h = refl
take_all (c ∷ s) zero h = absurd (omega arith)
take_all (c ∷ s) (suc n) h = ap (◌∷◌ c) (take_all s n (omega arith))

take-append : (s t : Bytes) (n : ℕ) → length s ≡ n → take n (s ++ t) ≡ s
take-append [] t zero h = refl
take-append [] t (suc n) h = absurd (omega arith)
take-append (c ∷ s) t zero h = absurd (omega arith)
take-append (c ∷ s) t (suc n) h = ap (◌∷◌ c) (take-append s t n (omega arith))

recorded_after_full :
    (s buffer : Bytes) → length buffer ≡ 255 → recorded_after true buffer s ≡ buffer
unfolding recorded_after
recorded_after_full [] buffer h = refl
recorded_after_full (c ∷ s) buffer h = rw h (recorded_after_full s buffer h)

recorded_after-take :
    (s buffer : Bytes) → length buffer ≤ 255 → recorded_after true buffer s ≡ take 255 (buffer ++ s)
unfolding recorded_after
recorded_after-take [] buffer h = rw append-nil (sym (take_all buffer 255 h))
recorded_after-take (c ∷ s) buffer h = elim (Bool-cases (ltb (length buffer) 255)) [
  | inl more ↦
      let grown =
        recorded_after-take s (buffer ++ c ∷ []) (ground (arith, length-append buffer (c ∷ []))) in
      rw more (grown ∙ rw append_assoc)
  | inr full ↦
      let whole : length buffer ≡ 255 = ground arith in
      recorded_after_full (c ∷ s) buffer whole ∙ sym (take-append buffer (c ∷ s) 255 whole)
]

recorded_after_off : (s buffer : Bytes) → recorded_after false buffer s ≡ buffer
unfolding recorded_after
recorded_after_off [] buffer = refl
recorded_after_off (c ∷ s) buffer = recorded_after_off s buffer

recorded_after-cases :
    (recording : Bool) (s buffer : Bytes)
    → length buffer ≤ 255
    → recorded_after recording buffer s ≡ (if recording then take 255 (buffer ++ s) else buffer)
recorded_after-cases true s buffer h = recorded_after-take s buffer h
recorded_after-cases false s buffer h = recorded_after_off s buffer

module _ {U : Type 0} (def : Definition U) (keeps : KeepsPlace def) where
  SamePlace-refl : (c : Context U) → SamePlace c c
  SamePlace-refl c = record {
    same_line = refl;
    same_column = refl;
    same_record = refl;
    same_recording = refl;
  }

  SamePlace-trans : (c d e : Context U) → SamePlace c d → SamePlace d e → SamePlace c e
  SamePlace-trans c d e p q = record {
    same_line = q.same_line ∙ p.same_line;
    same_column = q.same_column ∙ p.same_column;
    same_record = q.same_record ∙ p.same_record;
    same_recording = q.same_recording ∙ p.same_recording;
  }

  exit-SamePlace : (c : Context U) (chr : ℕ) → SamePlace c (fire_exit def c chr)
  unfolding fire_exit
  exit-SamePlace c chr = elim (Bool-cases (c.current_state == c.next_state)) [
    | inl e ↦ rw e (SamePlace-refl c)
    | inr e ↦ rw e (keeps.on_exit c.current_state chr c)
  ]

  enter-SamePlace : (c : Context U) (chr : ℕ) → SamePlace c (fire_enter def c chr)
  unfolding fire_enter
  enter-SamePlace c chr = elim (Bool-cases (c.current_state == c.next_state)) [
    | inl e ↦ rw e (SamePlace-refl c)
    | inr e ↦ rw e (keeps.on_enter c.next_state chr c)
  ]

  in-SamePlace : (c : Context U) (chr : ℕ) → SamePlace c (fire_in def c chr)
  unfolding fire_in
  in-SamePlace c chr = keeps.on_in c.next_state chr c

  abbrev fired : Context U → ℕ → Context U
  fired c chr = fire_in def (fire_enter def (fire_exit def (look_up def c chr) chr) chr) chr

  fired-SamePlace : (c : Context U) (chr : ℕ) → SamePlace c (fired c chr)
  fired-SamePlace c chr =
      let looked = look_up def c chr in
      let left = fire_exit def looked chr in
      let entered = fire_enter def left chr in
      let first : SamePlace c left = record {
        same_line = (exit-SamePlace looked chr).same_line;
        same_column = (exit-SamePlace looked chr).same_column;
        same_record = (exit-SamePlace looked chr).same_record;
        same_recording = (exit-SamePlace looked chr).same_recording;
      } in
      SamePlace-trans c entered (fired c chr)
        (SamePlace-trans c left entered first (enter-SamePlace left chr)) (in-SamePlace entered chr)

  -- What one character adds.
  pub record Moves (c d : Context U) (chr : ℕ) : Type 0 where
    pub line : d.line_number ≡ (if chr == 10 then c.line_number + 1 else c.line_number)
    pub column : d.column_number ≡ (if chr == 10 then 1 else c.column_number + 1)
    pub recorded : d.record_buffer ≡ (
        if c.recording && ltb (length c.record_buffer) (record_buffer_size - 1)
        then c.record_buffer ++ chr ∷ []
        else c.record_buffer)
    pub recording : d.recording ≡ c.recording

  move_on-Moves :
      (c i : Context U) (chr : ℕ) → SamePlace c i → Moves c (move_on (record_char i chr) chr) chr
  unfolding move_on record_char
  move_on-Moves c i chr p = ground arith

  step-Moves :
      (c : Context U) (chr : ℕ) → (step def c chr).1 ≡ true → Moves c (step def c chr).0 chr
  unfolding step advance
  step-Moves c chr e =
      elim (Bool-cases (def.transition_table c.current_state chr == statemachine_error)) [
        | inl bad ↦ absurd (let f : false ≡ true = rw bad at e in cc)
        | inr good ↦ rw good (move_on-Moves c (fired c chr) chr (fired-SamePlace c chr))
      ]

  bytes-Moves :
      (s : Bytes) (c : Context U)
      → (parse_bytes def c s).1 ≢ statemachine_error
      → ((parse_bytes def c s).0.line_number ≡ line_after c.line_number s)
        × ((parse_bytes def c s).0.column_number ≡ column_after c.column_number s)
        × ((parse_bytes def c s).0.record_buffer ≡ recorded_after c.recording c.record_buffer s)
  unfolding line_after column_after recorded_after
  bytes-Moves [] c h = unfold parse_bytes in (refl, refl, refl)
  bytes-Moves (chr ∷ s) c h = elim (Bool-cases (step def c chr).1) [
    | inr e ↦ absurd (h (rw (on_error def c chr s e)))
    | inl e ↦
        let m = step-Moves c chr e in
        let later = bytes-Moves s (step def c chr).0 (rw (on_step def c chr s e) at h) in
        rw (on_step def c chr s e) (
          later.0 ∙ ap (λ l. line_after l s) m.line,
          later.1 ∙ ap (λ k. column_after k s) m.column,
          later.2 ∙ rw (m.recording, m.recorded),
        )
  ]

  -- For a machine whose events leave the position and the recording alone, and a record buffer of
  -- 255 bytes at most: an input that parses with no error adds its newlines to the line number,
  -- counts the column from the last of them, and, while recording, appends its bytes to the record
  -- buffer up to 255 in all.
  pub parse_place :
      (c : Context U) (s : Bytes)
      → (statemachine_parse def c (some s)).1 ≢ statemachine_error
      → length c.record_buffer ≤ 255
      → ((statemachine_parse def c (some s)).0.line_number ≡ c.line_number + newlines s)
        × ((statemachine_parse def c (some s)).0.column_number ≡ column_after c.column_number s)
        × ((statemachine_parse def c (some s)).0.record_buffer
            ≡ (if c.recording then take 255 (c.record_buffer ++ s) else c.record_buffer))
  unfolding statemachine_parse
  parse_place c s h b =
      let all = bytes-Moves s c h in
      (
        all.0 ∙ line_after-newlines c.line_number s,
        all.1,
        all.2 ∙ recorded_after-cases c.recording s c.record_buffer b,
      )

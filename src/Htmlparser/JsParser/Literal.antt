-- ===== src/Htmlparser/JsParser/Literal.antt =====
-- String literals: what a parse does inside one.
use ctemplate.Common.{
  ℕ, ◌<◌, ◌≤◌, [], ◌∷◌, ◌≡◌, ◌≢◌, refl, ap, ◌∙◌, Bool, true, false, some, arith, Bytes, ◌==◌,
  if◌then◌else◌, Bool-cases, inl, inr,
}
use ctemplate.Htmlparser.StateMachine.{Context, parse_bytes, statemachine_parse}
use ctemplate.Htmlparser.JsBuffer.{Ring}
use ctemplate.Htmlparser.JsParser.{
  js_q, js_q_e, js_dq, js_dq_e, transitions, jsparser_state_transitions, jsparser_parse,
  state_external, state_q, state_dq,
}
use ctemplate.Htmlparser.JsParser.Quiet.{machine, onward, Stays}

-- Inside a string literal, behind a backslash or not: each backslash has a byte behind it, no quote
-- stands but there, and the table has a column for each byte.
abbrev pub IsBody : Bool → Bytes → Type 0
IsBody false [] = Unit {0}
IsBody true [] = ⊥
IsBody true (c ∷ s) = (c < 255) × IsBody false s
IsBody false (c ∷ s) = (c < 255) × (c ≢ b'\'') × (c ≢ b'"') × IsBody (c == b'\\') s

module _ (names : ℕ → Bytes) where
  -- The states inside a literal and behind a backslash in it.
  record IsLiteral (inside behind : ℕ) : Type 0 where
    kept :
        (c : ℕ)
        → c < 255
        → c ≢ b'\''
        → c ≢ b'"'
        → c ≢ b'\\'
        → jsparser_state_transitions inside c ≡ inside
    opened : jsparser_state_transitions inside b'\\' ≡ behind
    closed : (c : ℕ) → c < 255 → jsparser_state_transitions behind c ≡ inside
    inside_quiet : (1 ≤ inside) × (inside ≤ 4)
    behind_quiet : (1 ≤ behind) × (behind ≤ 4)

  q-IsLiteral : IsLiteral js_q js_q_e
  unfolding jsparser_state_transitions transitions
  q-IsLiteral = record {
    kept = λ c l q d b. ground arith;
    opened = refl;
    closed = λ c l. ground arith;
    inside_quiet = (omega arith, omega arith);
    behind_quiet = (omega arith, omega arith);
  }

  dq-IsLiteral : IsLiteral js_dq js_dq_e
  unfolding jsparser_state_transitions transitions
  dq-IsLiteral = record {
    kept = λ c l q d b. ground arith;
    opened = refl;
    closed = λ c l. ground arith;
    inside_quiet = (omega arith, omega arith);
    behind_quiet = (omega arith, omega arith);
  }

  in_literal :
      (inside behind : ℕ) (literal : IsLiteral inside behind) (escaped : Bool) (s : Bytes)
      (ctx : Context Ring)
      → IsBody escaped s
      → ctx.current_state ≡ (if escaped then behind else inside)
      → Stays names ctx inside (parse_bytes (machine names) ctx s)
  in_literal inside behind literal false [] ctx body e = unfold parse_bytes in (e, e, refl)
  in_literal inside behind literal true [] ctx body e = absurd body
  in_literal inside behind literal false (c ∷ s) ctx (small, q, d, body) e =
      elim (Bool-cases (c == b'\\')) [
        | inl b ↦
            onward names ctx c behind s (Stays names ctx inside)
              (rw e (
                ap (jsparser_state_transitions inside) {y = b'\\'} (ground arith) ∙ literal.opened))
              literal.behind_quiet.0 (omega (arith, literal.behind_quiet.1))
              (omega (arith, literal.behind_quiet.1))
              (λ after lands.
                let rest = in_literal inside behind literal true s after (rw b at body) lands.0 in
                (rest.0, rest.1, rest.2 ∙ lands.1))
        | inr b ↦
            onward names ctx c inside s (Stays names ctx inside)
              (rw e (literal.kept c small q d (ground arith))) literal.inside_quiet.0
              (omega (arith, literal.inside_quiet.1)) (omega (arith, literal.inside_quiet.1))
              (λ after lands.
                let rest = in_literal inside behind literal false s after (rw b at body) lands.0 in
                (rest.0, rest.1, rest.2 ∙ lands.1))
      ]
  in_literal inside behind literal true (c ∷ s) ctx (small, body) e =
      onward names ctx c inside s (Stays names ctx inside) (rw e (literal.closed c small))
        literal.inside_quiet.0 (omega (arith, literal.inside_quiet.1))
        (omega (arith, literal.inside_quiet.1))
        (λ after lands.
          let rest = in_literal inside behind literal false s after body lands.0 in
          (rest.0, rest.1, rest.2 ∙ lands.1))

  -- A single-quoted literal goes on through the body of a literal, and the ring buffer stays as it is.
  pub jsparser_parse-q :
      (ctx : Context Ring) (s : Bytes)
      → IsBody false s
      → ctx.current_state ≡ js_q
      → (let parsed = jsparser_parse names ctx s in
          (parsed.1 ≡ some state_q) × (parsed.0.current_state ≡ js_q) × (parsed.0.user ≡ ctx.user))
  unfolding jsparser_parse statemachine_parse state_external
  jsparser_parse-q ctx s body e =
      let stays = in_literal js_q js_q_e q-IsLiteral false s ctx body e in
      (ap state_external stays.0, stays.1, stays.2)

  -- The same of a double-quoted literal.
  pub jsparser_parse-dq :
      (ctx : Context Ring) (s : Bytes)
      → IsBody false s
      → ctx.current_state ≡ js_dq
      → (let parsed = jsparser_parse names ctx s in
          (parsed.1 ≡ some state_dq)
          × (parsed.0.current_state ≡ js_dq)
          × (parsed.0.user ≡ ctx.user))
  unfolding jsparser_parse statemachine_parse state_external
  jsparser_parse-dq ctx s body e =
      let stays = in_literal js_dq js_dq_e dq-IsLiteral false s ctx body e in
      (ap state_external stays.0, stays.1, stays.2)

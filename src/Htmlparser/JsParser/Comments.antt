-- ===== src/Htmlparser/JsParser/Comments.antt =====
-- The end of a comment of several lines.
use ctemplate.Common.{
  if◌then◌else◌, ℕ, zero, suc, [], ◌∷◌, ◌≡◌, refl, ap, ◌∙◌, some, arith, Bytes, drop, Bool-cases,
  inl, inr,
}
use ctemplate.Htmlparser.StateMachine.{Context, parse_bytes, statemachine_parse}
use ctemplate.Htmlparser.JsBuffer.{Ring, at, put, js_is_whitespace, jsparser_buffer_get}
use ctemplate.Htmlparser.JsBuffer.Refinement.{IsValid, recent}
use ctemplate.Htmlparser.JsBuffer.Operations.{
  jsparser_buffer_get-recent, jsparser_buffer_pop-recent, jsparser_buffer_set-recent,
}
use ctemplate.Htmlparser.JsParser.{
  enter_state_js_comment_after, js_comment_ml, js_comment_ml_close, transitions,
  jsparser_state_transitions, jsparser_parse, state_external, state_comment,
}
use ctemplate.Htmlparser.JsParser.Quiet.{machine, onward, Stays}

-- An even number of stars, and a slash.
abbrev pub paired_stars : ℕ → Bytes
paired_stars zero = b'/' ∷ []
paired_stars (suc k) = b'*' ∷ b'*' ∷ paired_stars k

module _ (names : ℕ → Bytes) where
  comment_goes_on :
      (k : ℕ) (ctx : Context Ring)
      → ctx.current_state ≡ js_comment_ml
      → Stays names ctx js_comment_ml (parse_bytes (machine names) ctx (paired_stars k))
  unfolding jsparser_state_transitions transitions
  comment_goes_on zero ctx e =
      onward names ctx b'/' js_comment_ml [] (Stays names ctx js_comment_ml) (rw e refl)
        (omega arith) (omega arith) (omega arith)
        (λ after lands. unfold parse_bytes in (lands.0, lands.0, lands.1))
  comment_goes_on (suc k) ctx e =
      onward names ctx b'*' js_comment_ml_close _ (Stays names ctx js_comment_ml) (rw e refl)
        (omega arith) (omega arith) (omega arith)
        (λ closing l.
          onward names closing b'*' js_comment_ml _ (Stays names ctx js_comment_ml)
            (ap (λ n. jsparser_state_transitions n b'*') l.0) (omega arith) (omega arith)
            (omega arith)
            (λ after m.
              let rest = comment_goes_on k after m.0 in (rest.0, rest.1, rest.2 ∙ m.1 ∙ l.1)))

  -- In a comment of several lines, an even number of stars and a slash do not end the comment, with
  -- no star in front.
  pub jsparser_parse-paired_stars :
      (k : ℕ) (ctx : Context Ring)
      → ctx.current_state ≡ js_comment_ml
      → (let parsed = jsparser_parse names ctx (paired_stars k) in
          (parsed.1 ≡ some state_comment)
          × (parsed.0.current_state ≡ js_comment_ml)
          × (parsed.0.user ≡ ctx.user))
  unfolding jsparser_parse statemachine_parse state_external
  jsparser_parse-paired_stars k ctx e =
      let stays = comment_goes_on k ctx e in (ap state_external stays.0, stays.1, stays.2)

-- At the end of a comment whose opening slash the valid ring buffer ends in, the slash gives way to
-- one white space, which is left out behind another.
pub enter_state_js_comment_after-recent :
    (ctx : Context Ring) (start chr end : ℕ) (s : Bytes)
    → IsValid ctx.user
    → recent ctx.user ≡ b'/' ∷ s
    → recent (enter_state_js_comment_after ctx start chr end).user
      ≡ (if js_is_whitespace (at s 0) then s else b' ' ∷ s)
unfolding enter_state_js_comment_after at put
enter_state_js_comment_after-recent ctx start chr end s v e =
    let before : jsparser_buffer_get ctx.user 2 ≡ at s 0 =
      jsparser_buffer_get-recent ctx.user 1 v ∙ ap (λ r. at r 1) e in
    rw before (elim (Bool-cases (js_is_whitespace (at s 0))) [
      | inl space ↦ rw space ((jsparser_buffer_pop-recent ctx.user v).1 ∙ ap (drop 1) e)
      | inr other ↦
          rw other ((jsparser_buffer_set-recent ctx.user 0 b' ' v).1 ∙ ap (λ r. put r 0 b' ') e)
    ])

-- ===== src/Htmlparser/JsParser/Escaped.antt =====
-- The output of JavascriptEscape (src/template_modifiers.cc) inside a string literal.
use ctemplate.Common.{
  ℕ, zero, suc, ◌<◌, ◌≤◌, [], ◌∷◌, ◌++◌, ◌≡◌, refl, Bool, true, false, some, arith, Bytes, ◌==◌,
  length, length-drop, drop, Option-cases, inl, inr, All, All-drop, All-take,
}
use ctemplate.Modifiers.Javascript.{utf8_code_unit, javascript_entity, javascript_escape}
use ctemplate.Modifiers.Javascript.Safety.{IsPlainText, unit_at_plain, utf8_code_unit-pos}
use ctemplate.Modifiers.Javascript.Units.{unit_image, width_at, javascript_escape-cons}
use ctemplate.Htmlparser.StateMachine.{Context}
use ctemplate.Htmlparser.JsBuffer.{Ring}
use ctemplate.Htmlparser.JsParser.{js_q, js_dq, jsparser_parse, state_q, state_dq}
use ctemplate.Htmlparser.JsParser.Literal.{IsBody, jsparser_parse-q, jsparser_parse-dq}

IsBody-append : (b : Bool) (s t : Bytes) → IsBody b s → IsBody false t → IsBody b (s ++ t)
IsBody-append false [] t h k = k
IsBody-append true [] t h k = absurd h
IsBody-append true (c ∷ s) t (l, h) k = (l, IsBody-append false s t h k)
IsBody-append false (c ∷ s) t (l, q, d, h) k = (l, q, d, IsBody-append (c == b'\\') s t h k)

plain-IsBody : (s : Bytes) → All (λ c. c < 255) s → All IsPlainText s → IsBody false s
plain-IsBody [] l h = tt
plain-IsBody (c ∷ s) l h =
    let no_backslash : (c == b'\\') ≡ false = ground (arith, h.0.1) in
    (l.0, ground (arith, h.0.0), ground (arith, h.0.0), rw no_backslash (plain-IsBody s l.1 h.1))

entity-IsBody : (u : ℕ) (r : Bytes) → javascript_entity u ≡ some r → IsBody false r
unfolding javascript_entity
entity-IsBody u r e = ground arith

unit_image-IsBody : (c : ℕ) (s : Bytes) → All (λ c. c < 255) (c ∷ s) → IsBody false (unit_image c s)
unfolding unit_image
unit_image-IsBody c s h = elim (Option-cases (javascript_entity (utf8_code_unit c s).0)) [
  | inl e ↦
      rw (e, unit_image)
        (plain-IsBody _ (All-take (λ c. c < 255) (utf8_code_unit c s).1 (c ∷ s) h)
          (unit_at_plain c s (omega (arith, h.0)) e))
  | inr (r, e) ↦ rw (e, unit_image) (entity-IsBody (utf8_code_unit c s).0 r e)
]

escape_empty : javascript_escape [] ≡ []
unfolding javascript_escape
escape_empty = refl

escaped-IsBody :
    (n : ℕ) (s : Bytes) → length s ≤ n → All (λ c. c < 255) s → IsBody false (javascript_escape s)
escaped-IsBody n [] l h = rw escape_empty tt
escaped-IsBody zero (c ∷ s) l h = absurd (omega arith)
escaped-IsBody (suc n) (c ∷ s) l h =
    let rest = drop (width_at c s) (c ∷ s) in
    rw (javascript_escape-cons c s) (
      IsBody-append false (unit_image c s) (javascript_escape rest) (unit_image-IsBody c s h) (
        escaped-IsBody n rest
          (omega (arith, utf8_code_unit-pos c s, length-drop (width_at c s) (c ∷ s)))
          (All-drop (λ c. c < 255) (width_at c s) (c ∷ s) h)))

-- What JavascriptEscape makes of a text of bytes below 255 leaves the JavaScript parser inside the
-- single-quoted literal that it was in, with the ring buffer as it was.
pub jsparser_parse-javascript_escape_q :
    (names : ℕ → Bytes) (ctx : Context Ring) (s : Bytes)
    → All (λ c. c < 255) s
    → ctx.current_state ≡ js_q
    → (let parsed = jsparser_parse names ctx (javascript_escape s) in
        (parsed.1 ≡ some state_q) × (parsed.0.current_state ≡ js_q) × (parsed.0.user ≡ ctx.user))
jsparser_parse-javascript_escape_q names ctx s h e =
    jsparser_parse-q names ctx (javascript_escape s) (escaped-IsBody (length s) s (omega arith) h) e

-- And so for a double-quoted literal.
pub jsparser_parse-javascript_escape_dq :
    (names : ℕ → Bytes) (ctx : Context Ring) (s : Bytes)
    → All (λ c. c < 255) s
    → ctx.current_state ≡ js_dq
    → (let parsed = jsparser_parse names ctx (javascript_escape s) in
        (parsed.1 ≡ some state_dq) × (parsed.0.current_state ≡ js_dq) × (parsed.0.user ≡ ctx.user))
jsparser_parse-javascript_escape_dq names ctx s h e =
    jsparser_parse-dq names ctx (javascript_escape s) (escaped-IsBody (length s) s (omega arith) h)
      e

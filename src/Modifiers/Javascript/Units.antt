-- ===== src/Modifiers/Javascript/Units.antt =====
-- JavascriptEscape by code units.
use ctemplate.Common.{
  ℕ, zero, suc, ◌≤◌, [], ◌∷◌, ◌++◌, ◌≡◌, inl, inr, refl, ap, ◌∙◌, none, some, arith, Bytes, length,
  take, drop, append-nil, append_assoc, Option-cases, length-drop,
}
use ctemplate.Modifiers.Javascript.{
  utf8_code_unit, javascript_entity, javascript_loop, javascript_escape,
}
use ctemplate.Modifiers.Javascript.Safety.{utf8_code_unit-pos}
use ctemplate.Modifiers.Run.{emit_run_lem}

abbrev unit_at : ℕ → Bytes → ℕ
unit_at c s = (utf8_code_unit c s).0

abbrev pub width_at : ℕ → Bytes → ℕ
width_at c s = (utf8_code_unit c s).1

shorter :
    (c : ℕ) (s : Bytes) (fuel : ℕ)
    → length (c ∷ s) ≤ suc fuel
    → length (drop (width_at c s) (c ∷ s)) ≤ fuel
shorter c s fuel h = omega (arith, utf8_code_unit-pos c s, length-drop (width_at c s) (c ∷ s))

loop_none :
    (fuel : ℕ) (run : Bytes) (c : ℕ) (s out : Bytes)
    → javascript_entity (unit_at c s) ≡ none
    → javascript_loop (suc fuel) run (c ∷ s) out
      ≡ javascript_loop fuel (run ++ take (width_at c s) (c ∷ s)) (drop (width_at c s) (c ∷ s)) out
unfolding javascript_loop
loop_none fuel run c s out e = rw (e, javascript_loop)

loop_some :
    (fuel : ℕ) (run : Bytes) (c : ℕ) (s out r : Bytes)
    → javascript_entity (unit_at c s) ≡ some r
    → javascript_loop (suc fuel) run (c ∷ s) out
      ≡ javascript_loop fuel [] (drop (width_at c s) (c ∷ s)) ((out ++ run) ++ r)
unfolding javascript_loop
loop_some fuel run c s out r e = rw (e, javascript_loop) (rw emit_run_lem)

loop_end : (fuel : ℕ) (run out : Bytes) → javascript_loop fuel run [] out ≡ out ++ run
unfolding javascript_loop
loop_end zero run out = emit_run_lem run out
loop_end (suc fuel) run out = emit_run_lem run out

loop-emits :
    (fuel : ℕ) (run s out : Bytes)
    → length s ≤ fuel
    → javascript_loop fuel run s out ≡ (out ++ run) ++ javascript_loop fuel [] s []
loop-emits fuel run [] out h = rw (loop_end fuel run out, loop_end fuel [] []) (rw append-nil)
loop-emits zero run (c ∷ s) out h = absurd (omega arith)
loop-emits (suc fuel) run (c ∷ s) out h =
    let n = width_at c s in
    let rest = drop n (c ∷ s) in
    let fits = shorter c s fuel h in
    elim (Option-cases (javascript_entity (unit_at c s))) [
      | inl e ↦
          rw (loop_none fuel run c s out e, loop_none fuel [] c s [] e)
            (loop-emits fuel (run ++ take n (c ∷ s)) rest out fits
              ∙ rw (loop-emits fuel (take n (c ∷ s)) rest [] fits) (simp append_assoc))
      | inr (r, e) ↦
          rw (loop_some fuel run c s out r e, loop_some fuel [] c s [] r e)
            (loop-emits fuel [] rest ((out ++ run) ++ r) fits
              ∙ rw (loop-emits fuel [] rest r fits) (simp (append_assoc, append-nil)))
    ]

loop-fuel :
    (f g : ℕ) (run s out : Bytes)
    → length s ≤ f
    → length s ≤ g
    → javascript_loop f run s out ≡ javascript_loop g run s out
loop-fuel f g run [] out h k = rw (loop_end f run out, loop_end g run out)
loop-fuel zero g run (c ∷ s) out h k = absurd (omega arith)
loop-fuel (suc f) zero run (c ∷ s) out h k = absurd (omega arith)
loop-fuel (suc f) (suc g) run (c ∷ s) out h k =
    let n = width_at c s in
    let rest = drop n (c ∷ s) in
    elim (Option-cases (javascript_entity (unit_at c s))) [
      | inl e ↦
          rw (loop_none f run c s out e, loop_none g run c s out e)
            (loop-fuel f g (run ++ take n (c ∷ s)) rest out (shorter c s f h) (shorter c s g k))
      | inr (r, e) ↦
          rw (loop_some f run c s out r e, loop_some g run c s out r e)
            (loop-fuel f g [] rest ((out ++ run) ++ r) (shorter c s f h) (shorter c s g k))
    ]

escape_loop_lem : (s : Bytes) → javascript_escape s ≡ javascript_loop (length s) [] s []
unfolding javascript_escape
escape_loop_lem s = refl

-- What is emitted for the code unit at the start of a text.
unfoldable pub unit_image : ℕ → Bytes → Bytes
unit_image c s = elim (javascript_entity (utf8_code_unit c s).0) [
  | none ↦ take (utf8_code_unit c s).1 (c ∷ s)
  | some replacement ↦ replacement
]

image_none :
    (c : ℕ) (s : Bytes)
    → javascript_entity (unit_at c s) ≡ none
    → unit_image c s ≡ take (width_at c s) (c ∷ s)
unfolding unit_image
image_none c s e = rw (e, unit_image)

image_some : (c : ℕ) (s r : Bytes) → javascript_entity (unit_at c s) ≡ some r → unit_image c s ≡ r
unfolding unit_image
image_some c s r e = rw (e, unit_image)

rest_escaped :
    (c : ℕ) (s out : Bytes)
    → javascript_loop (length s) [] (drop (width_at c s) (c ∷ s)) out
      ≡ out ++ javascript_escape (drop (width_at c s) (c ∷ s))
rest_escaped c s out =
    let rest = drop (width_at c s) (c ∷ s) in
    let fits = shorter c s (length s) (omega arith) in
    loop-emits (length s) [] rest out fits
    ∙ rw (escape_loop_lem rest, loop-fuel (length s) (length rest) [] rest [] fits (omega arith))
        (simp append-nil)

-- JavascriptEscape emits the replacement of the first code unit, or its bytes if it has none, and
-- then what it emits for the text behind that unit.
pub javascript_escape-cons :
    (c : ℕ) (s : Bytes)
    → javascript_escape (c ∷ s) ≡ unit_image c s ++ javascript_escape (drop (width_at c s) (c ∷ s))
javascript_escape-cons c s =
    rw (escape_loop_lem (c ∷ s)) (elim (Option-cases (javascript_entity (unit_at c s))) [
      | inl e ↦
          rw (loop_none (length s) [] c s [] e, image_none c s e)
            (loop-emits (length s) (take (width_at c s) (c ∷ s)) (drop (width_at c s) (c ∷ s)) []
                (shorter c s (length s) (omega arith))
              ∙ ap (◌++◌ (take (width_at c s) (c ∷ s))) (rest_escaped c s []))
      | inr (r, e) ↦
          rw (loop_some (length s) [] c s [] r e, image_some c s r e) (rest_escaped c s r)
    ])

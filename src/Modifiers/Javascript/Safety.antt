-- ===== src/Modifiers/Javascript/Safety.antt =====
-- What the output of JavascriptEscape can hold.
use ctemplate.Common.{
  ℕ, zero, suc, ◌+◌, ◌-◌, ◌*◌, ◌/◌, ◌%◌, ◌^◌, ◌<◌, ◌≤◌, [], ◌∷◌, ◌++◌, ◌≡◌, ◌≢◌, ◌⊎◌, inl, inr,
  refl, none, some, arith, Bytes, ltb, ◌==◌, All, All-append, All-drop, length, take, drop,
  Bool-cases, Option-cases,
}
use ctemplate.Modifiers.Javascript.{
  code_length, tail_bytes, utf8_code_unit, javascript_entity, javascript_loop, javascript_escape,
}
use ctemplate.Modifiers.Run.{emit_run, emit_run_lem}

-- The byte is no quote, `&`, `<`, `>`, `=`, NUL, backspace or line space.
abbrev pub IsScriptText : ℕ → Type 0
IsScriptText c =
    (c ≢ b'"')
    × (c ≢ b'\'')
    × (c ≢ b'&')
    × (c ≢ b'<')
    × (c ≢ b'>')
    × (c ≢ b'=')
    × (c ≢ 0)
    × (c ≢ 8)
    × (c ≢ 9)
    × (c ≢ 10)
    × (c ≢ 11)
    × (c ≢ 12)
    × (c ≢ 13)

-- And no backslash.
abbrev pub IsPlainText : ℕ → Type 0
IsPlainText c = IsScriptText c × (c ≢ b'\\')

All-script : (s : Bytes) → All IsPlainText s → All IsScriptText s
All-script [] h = tt
All-script (c ∷ s) h = (h.0.0, All-script s h.1)

tail-text : (t : ℕ) → t / 64 ≡ 2 → IsPlainText t
tail-text t h = omega arith

lead-text : (c : ℕ) → 2 ≤ code_length c → IsPlainText c
unfolding code_length
lead-text c h = ground arith

-- A code unit that takes one byte and has no escape is that byte, in plain text.
unit-text : (c : ℕ) → code_length c ≡ 1 → c < 256 → javascript_entity c ≡ none → IsPlainText c
unfolding javascript_entity
unit-text c h l e = ground arith

entity-text : (u : ℕ) (r : Bytes) → javascript_entity u ≡ some r → All IsScriptText r
unfolding javascript_entity
entity-text u r e = ground arith

tail_bytes-text :
    (n u : ℕ) (s : Bytes) {v : ℕ} → tail_bytes n u s ≡ some v → All IsPlainText (take n s)
unfolding tail_bytes
tail_bytes-text zero u s e = tt
tail_bytes-text (suc n) u [] e = tt
tail_bytes-text (suc n) u (t ∷ s) {v} e = elim (Bool-cases (t / 64 == 2)) [
  | inl h ↦ (tail-text t (ground arith), tail_bytes-text n (u * 64 + t % 64) s (rw h at e))
  | inr h ↦ absurd (let f : none ≡ some v = rw h at e in cc)
]

-- The three ways in which UTF8CodeUnit returns: one byte of its own, a lead byte alone, and a lead
-- byte with its tail.
abbrev Returns : ℕ → Bytes → ℕ × ℕ → Type 0
Returns c s (u, n) =
    ((code_length c ≡ 1) × (u ≡ c) × (n ≡ 1))
    ⊎ ((2 ≤ code_length c) × (n ≡ 1))
    ⊎ ((m : ℕ) × (n ≡ suc m) × (2 ≤ code_length c) × All IsPlainText (take m s))

code_length-pos : (c : ℕ) → 1 ≤ code_length c
unfolding code_length
code_length-pos c = ground arith

utf8_code_unit-Returns : (c : ℕ) (s : Bytes) → Returns c s (utf8_code_unit c s)
unfolding utf8_code_unit
utf8_code_unit-Returns c s = elim (Bool-cases (code_length c == 1)) [
  | inl e ↦ rw e (inl (ground arith, refl, refl))
  | inr e ↦ elim (Bool-cases (ltb (length (c ∷ s)) (code_length c))) [
    | inl short ↦ rw (e, short) (inr (inl (ground (arith, code_length-pos c), refl)))
    | inr enough ↦
        let many : 2 ≤ code_length c = ground (arith, code_length-pos c) in
        elim (Option-cases (tail_bytes (code_length c - 1) (c % 2 ^ (8 - code_length c)) s)) [
          | inl bad ↦ rw (e, enough, bad) (inr (inl (many, refl)))
          | inr (u, good) ↦
              rw (e, enough, good)
                (inr (
                  inr (
                    code_length c - 1,
                    omega (arith, many),
                    many,
                    tail_bytes-text (code_length c - 1) _ s good,
                  )))
        ]
  ]
]

-- Bytes that JavascriptEscape leaves as they are hold nothing that it escapes.
chunk-text :
    (c : ℕ) (s : Bytes) (u n : ℕ)
    → Returns c s (u, n)
    → c < 256
    → javascript_entity u ≡ none
    → All IsPlainText (take n (c ∷ s))
chunk-text c s u n (inl (one, e, f)) l h = rw f (unit-text c one l (rw e at h), tt)
chunk-text c s u n (inr (inl (many, f))) l h = rw f (lead-text c many, tt)
chunk-text c s u n (inr (inr (m, f, many, tail))) l h = rw f (lead-text c many, tail)

-- The bytes of a code unit that has no replacement.
pub unit_at_plain :
    (c : ℕ) (s : Bytes)
    → c < 256
    → javascript_entity (utf8_code_unit c s).0 ≡ none
    → All IsPlainText (take (utf8_code_unit c s).1 (c ∷ s))
unit_at_plain c s l e = chunk-text c s _ _ (utf8_code_unit-Returns c s) l e

Returns-pos : (c : ℕ) (s : Bytes) (u n : ℕ) → Returns c s (u, n) → 1 ≤ n
Returns-pos c s u n r = ground arith

-- UTF8CodeUnit moves `*start` by a byte at least.
pub utf8_code_unit-pos : (c : ℕ) (s : Bytes) → 1 ≤ (utf8_code_unit c s).1
utf8_code_unit-pos c s = Returns-pos c s _ _ (utf8_code_unit-Returns c s)

emit-text :
    (run out : Bytes)
    → All IsScriptText run
    → All IsScriptText out
    → All IsScriptText (emit_run run out)
emit-text run out hr ho = rw emit_run_lem (All-append IsScriptText out run ho hr)

loop-text :
    (fuel : ℕ) (run s out : Bytes)
    → All (λ c. c < 256) s
    → All IsScriptText run
    → All IsScriptText out
    → All IsScriptText (javascript_loop fuel run s out)
unfolding javascript_loop
loop-text zero run [] out hs hr ho = emit-text run out hr ho
loop-text zero run (c ∷ s) out hs hr ho = ho
loop-text (suc fuel) run [] out hs hr ho = emit-text run out hr ho
loop-text (suc fuel) run (c ∷ s) out hs hr ho =
    let u = (utf8_code_unit c s).0 in
    let n = (utf8_code_unit c s).1 in
    let rest = All-drop (λ c. c < 256) n (c ∷ s) hs in
    elim (Option-cases (javascript_entity u)) [
      | inl e ↦
          rw (e, javascript_loop)
            (loop-text fuel (run ++ take n (c ∷ s)) (drop n (c ∷ s)) out rest
              (All-append IsScriptText run _ hr (All-script _ (unit_at_plain c s hs.0 e))) ho)
      | inr (r, e) ↦
          rw (e, javascript_loop)
            (loop-text fuel [] (drop n (c ∷ s)) (emit_run run out ++ r) rest tt (
              All-append IsScriptText (emit_run run out) r (emit-text run out hr ho)
                (entity-text u r e)))
    ]

-- JavascriptEscape of a string of bytes emits no quote, `&`, `<`, `>`, `=`, NUL, backspace, tab,
-- newline, vertical tab, form feed or return.
pub javascript_escape-text :
    (s : Bytes) → All (λ c. c < 256) s → All IsScriptText (javascript_escape s)
unfolding javascript_escape
javascript_escape-text s h = loop-text (length s) [] s [] h tt tt

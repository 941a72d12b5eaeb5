-- ===== src/Modifiers/PrefixLine.antt =====
-- src/template_modifiers.cc: PrefixLine. A pointer into the text is an index into what is left.
use ctemplate.Common.{
  ℕ, zero, suc, ◌+◌, ◌<◌, ◌≤◌, [], ◌∷◌, ◌++◌, ◌≡◌, ◌≢◌, inl, inr, refl, sym, ◌∙◌, Bool, true, false,
  not, ◌&&◌, ◌||◌, Option, none, some, arith, Bytes, ltb, ◌==◌, if◌then◌else◌, length, take, drop,
  append-nil, append_assoc, Bool-cases, Option-cases, length-drop,
}
use native.Mathlib.Decide.{ℕ_discrete}

-- memchr
unfoldable pub index_of : ℕ → Bytes → Option ℕ
index_of b [] = none
index_of b (c ∷ s) = elim (c == b) [
  | true ↦ some 0
  | false ↦ elim (index_of b s) [ none ↦ none | some i ↦ some (suc i) ]
]

-- The bytes that the second memchr looks at: those in front of the newline, or all.
before : Option ℕ → Bytes → Bytes
before none s = s
before (some n) s = take n s

-- `linelen` from `nl` and `cr`; none where both are null.
line_end : Option ℕ → Option ℕ → Option ℕ
line_end none none = none
line_end (some nl) none = some (suc nl)
line_end none (some cr) = some (suc cr)
line_end (some nl) (some cr) = some (if nl == cr + 1 || ltb nl cr then suc nl else suc cr)

unfoldable pub line_length : Bytes → Option ℕ
unfolding index_of before line_end
line_length s = let nl = index_of 10 s in line_end nl (index_of 13 (before nl s))

-- The loop over the lines, on fuel; `out` is what has been emitted.
unfoldable pub prefix_loop : ℕ → Bytes → Bytes → Bytes → Bytes
prefix_loop fuel arg [] out = out
prefix_loop zero arg (c ∷ s) out = out
prefix_loop (suc fuel) arg (c ∷ s) out = elim (line_length (c ∷ s)) [
  | none ↦ out ++ (c ∷ s)
  | some n ↦ prefix_loop fuel arg (drop n (c ∷ s)) ((out ++ take n (c ∷ s)) ++ arg)
]

-- A round takes a byte at least, so the length of the text is fuel enough.
unfoldable pub prefix_line : Bytes → Bytes → Bytes
unfolding prefix_loop line_length
prefix_line arg s = prefix_loop (length s) arg s []

abbrev starts_with_newline : Bytes → Bool
starts_with_newline [] = false
starts_with_newline (c ∷ s) = c == 10

-- The specification, byte by byte: the prefix stands behind each line break, and a return with a
-- newline behind it is one break.
unfoldable pub prefixed : Bytes → Bytes → Bytes
prefixed arg [] = []
prefixed arg (c ∷ s) =
    if c == 10 || (c == 13 && not (starts_with_newline s))
    then c ∷ (arg ++ prefixed arg s)
    else c ∷ prefixed arg s

line_length_newline : (s : Bytes) → line_length (10 ∷ s) ≡ some 1
unfolding line_length
line_length_newline s = refl

line_length_return :
    (s : Bytes) → line_length (13 ∷ s) ≡ some (if starts_with_newline s then 2 else 1)
unfolding line_length
line_length_return [] = refl
line_length_return (c ∷ s) = ground (arith, Option-cases (index_of 10 s))

-- What the specification does up to the first line break.
abbrev Splits : Bytes → Bytes → Option ℕ → Type 0
Splits arg s none = prefixed arg s ≡ s
Splits arg s (some n) = (0 < n) × (prefixed arg s ≡ take n s ++ (arg ++ prefixed arg (drop n s)))

shift : Option ℕ → Option ℕ
shift none = none
shift (some n) = some (suc n)

Splits-shift :
    (arg : Bytes) (c : ℕ) (s : Bytes) (o : Option ℕ)
    → c ≢ 10
    → c ≢ 13
    → Splits arg s o
    → Splits arg (c ∷ s) (shift o)
unfolding prefixed shift
Splits-shift arg c s none h k e = ground arith
Splits-shift arg c s (some n) h k (l, e) = (omega arith, ground arith)

Splits-newline : (arg s : Bytes) → Splits arg (10 ∷ s) (some 1)
unfolding prefixed
Splits-newline arg s = (omega arith, refl)

Splits-return :
    (arg s : Bytes) → Splits arg (13 ∷ s) (some (if starts_with_newline s then 2 else 1))
unfolding prefixed
Splits-return arg [] = (omega arith, refl)
Splits-return arg (c ∷ s) = elim (Bool-cases (c == 10)) [
  | inl e ↦ rw e (omega arith, ground arith)
  | inr e ↦ rw e (omega arith, ground arith)
]

line_length-shift :
    (c : ℕ) (s : Bytes) → c ≢ 10 → c ≢ 13 → line_length (c ∷ s) ≡ shift (line_length s)
unfolding line_length shift
line_length-shift c s h k = ground arith

line_length-Splits : (arg s : Bytes) → Splits arg s (line_length s)
line_length-Splits arg [] = unfold line_length prefixed in refl
line_length-Splits arg (c ∷ s) = elim (ℕ_discrete c 10) [
  | yes e ↦ rw (e, line_length_newline s) (Splits-newline arg s)
  | no h ↦ elim (ℕ_discrete c 13) [
    | yes e ↦ rw (e, line_length_return s) (Splits-return arg s)
    | no k ↦
        rw (line_length-shift c s h k)
          (Splits-shift arg c s (line_length s) h k (line_length-Splits arg s))
  ]
]

loop-prefixed :
    (fuel : ℕ) (arg s out : Bytes)
    → length s ≤ fuel
    → prefix_loop fuel arg s out ≡ out ++ prefixed arg s
unfolding prefix_loop
loop-prefixed zero arg [] out h = unfold prefixed in sym (append-nil out)
loop-prefixed zero arg (c ∷ s) out h = absurd (omega arith)
loop-prefixed (suc fuel) arg [] out h = unfold prefixed in sym (append-nil out)
loop-prefixed (suc fuel) arg (c ∷ s) out h = elim (Option-cases (line_length (c ∷ s))) [
  | inl e ↦
      let whole : prefixed arg (c ∷ s) ≡ c ∷ s = rw e at (line_length-Splits arg (c ∷ s)) in
      rw (e, prefix_loop) (rw whole)
  | inr (n, e) ↦
      let first : Splits arg (c ∷ s) (some n) = rw e at (line_length-Splits arg (c ∷ s)) in
      let later =
        loop-prefixed fuel arg (drop n (c ∷ s)) ((out ++ take n (c ∷ s)) ++ arg)
          (omega (arith, first.0, length-drop n (c ∷ s))) in
      rw (e, prefix_loop) (later ∙ rw first.1 (simp append_assoc))
]

-- PrefixLine puts the prefix behind every newline, every return and newline pair, and every return
-- with no newline behind it, and changes nothing else.
pub prefix_line-prefixed : (arg s : Bytes) → prefix_line arg s ≡ prefixed arg s
unfolding prefix_line
prefix_line-prefixed arg s = loop-prefixed (length s) arg s [] (omega arith)

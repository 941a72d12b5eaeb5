-- ===== src/Htmlparser/JsBuffer/Words.antt =====
-- The last identifier in the ring buffer.
use ctemplate.Common.{
  ℕ, zero, suc, ◌+◌, ◌-◌, ◌<◌, ◌≤◌, [], ◌∷◌, ◌≡◌, refl, sym, ap, ◌∙◌, true, false, Option, none,
  some, arith, Bytes, leb, ◌==◌, if◌then◌else◌, length, length-drop, drop, Bool-cases, inl, inr,
}
use ctemplate.Htmlparser.JsBuffer.{
  ring_buffer_size, Ring, js_is_whitespace, js_is_identifier, at, buffer_length,
  jsparser_buffer_get, slice_from, jsparser_buffer_slice, identifier_start,
  jsparser_buffer_last_identifier,
}
use ctemplate.Htmlparser.JsBuffer.Refinement.{IsValid, before_index, recent}
use ctemplate.Htmlparser.JsBuffer.Operations.{jsparser_buffer_get-recent}

-- How many characters of an identifier a text starts with.
abbrev pub word_length : Bytes → ℕ
word_length [] = 0
word_length (c ∷ s) = if js_is_identifier c then suc (word_length s) else 0

-- The first `n` characters, the last of them first.
abbrev pub backwards : Bytes → ℕ → Bytes
backwards s zero = []
backwards s (suc n) = at s n ∷ backwards s n

-- The characters, the last one first, behind one white space.
abbrev pub behind_space : Bytes → Bytes
behind_space s = if js_is_whitespace (at s 0) then drop 1 s else s

-- The identifier that a comment of the source describes: the alphanumeric characters at the end, one
-- white space passed over, if there are any.
abbrev pub last_word : Bytes → Option Bytes
last_word s =
    let from = behind_space s in
    if word_length from == 0 then none else some (backwards from (word_length from))

length-before_index : (buffer : Bytes) (e n : ℕ) → length (before_index buffer e n) ≡ n
length-before_index buffer e zero = refl
length-before_index buffer e (suc n) =
    ap suc (length-before_index buffer (if e == 0 then 17 else e - 1) n)

pub at-drop : (k : ℕ) (s : Bytes) (n : ℕ) → at (drop k s) n ≡ at s (k + n)
unfolding at
at-drop zero s n = ap (at s) {y = 0 + n} (omega arith)
at-drop (suc k) [] n = refl
at-drop (suc k) (c ∷ s) n = at-drop k s n ∙ ap (at (c ∷ s)) {x = suc (k + n)} (omega arith)

drop_tail : (k : ℕ) (s : Bytes) (c : ℕ) (t : Bytes) → drop k s ≡ c ∷ t → drop (suc k) s ≡ t
drop_tail zero [] c t e = absurd cc
drop_tail zero (d ∷ s) c t e = ap (drop 1) e
drop_tail (suc k) [] c t e = absurd cc
drop_tail (suc k) (d ∷ s) c t e = drop_tail k s c t e

get_at :
    (js : Ring) (v : IsValid js) (k : ℕ)
    → jsparser_buffer_get js (suc k) ≡ at (drop k (recent js)) 0
get_at js v k =
    jsparser_buffer_get-recent js k v
    ∙ sym (at-drop k (recent js) 0 ∙ ap (at (recent js)) (omega arith))

identifier_start-recent :
    (js : Ring) (v : IsValid js) (fuel k : ℕ) (s : Bytes)
    → drop k (recent js) ≡ s
    → length s < fuel
    → identifier_start fuel js (suc k) ≡ suc k + word_length s
unfolding identifier_start at
identifier_start-recent js v zero k s e h = absurd (omega arith)
identifier_start-recent js v (suc fuel) k [] e h = rw (get_at js v k, e) (omega arith)
identifier_start-recent js v (suc fuel) k (c ∷ s) e h =
    rw (get_at js v k, e)
      (elim (Bool-cases (js_is_identifier c)) [
        | inl word ↦ rw word (
            ap (identifier_start fuel js) {y = suc (suc k)} (omega arith)
            ∙ identifier_start-recent js v fuel (suc k) s (drop_tail k (recent js) c s e)
                (omega arith)
            ∙ omega arith)
        | inr other ↦ rw other (omega arith)
      ])

at-word : (s : Bytes) (n : ℕ) → n < word_length s → js_is_identifier (at s n) ≡ true
unfolding at
at-word [] n h = absurd (omega arith)
at-word (c ∷ s) zero h = elim (Bool-cases (js_is_identifier c)) [
  | inl word ↦ word
  | inr other ↦ absurd (let none_left : 0 < 0 = rw other at h in omega arith)
]
at-word (c ∷ s) (suc n) h = elim (Bool-cases (js_is_identifier c)) [
  | inl word ↦ at-word s n (let more : suc n < suc (word_length s) = rw word at h in omega arith)
  | inr other ↦ absurd (let none_left : suc n < 0 = rw other at h in omega arith)
]

-- A slice over characters of a word leaves none out.
slice_from-recent :
    (js : Ring) (v : IsValid js) (k n : ℕ)
    → n ≤ word_length (drop k (recent js))
    → slice_from js (k + n) n ≡ backwards (drop k (recent js)) n
unfolding slice_from
slice_from-recent js v k zero h = refl
slice_from-recent js v k (suc n) h =
    let s = drop k (recent js) in
    let word = at-word s n (omega arith) in
    let there : jsparser_buffer_get js (k + suc n) ≡ at s n =
      ap (jsparser_buffer_get js) {y = suc (k + n)} (omega arith)
      ∙ jsparser_buffer_get-recent js (k + n) v
      ∙ sym (at-drop k (recent js) n) in
    let rest : slice_from js (k + suc n - 1) n ≡ backwards s n =
      ap (λ i. slice_from js i n) {y = k + n} (omega arith)
      ∙ slice_from-recent js v k n (omega arith) in
    let held : (at s n == 0) ≡ false = ground (arith, word) in rw there (rw (held, rest) refl)

length-recent : (js : Ring) → IsValid js → length (recent js) ≤ 17
length-recent js v = ground (arith, length-before_index js.buffer js.buffer_end (buffer_length js))

no_word :
    (w : ℕ) (word : Bytes)
    → leb w 1 ≡ true
    → none ≡ (if w == 1 then none else if w == 0 then none else some word)
no_word w word e = ground arith

-- The identifier that ends at the index -(k + 1).
word_before :
    (js : Ring) (v : IsValid js) (k : ℕ)
    → (let pos = identifier_start ring_buffer_size js (suc k) in
        let s = drop k (recent js) in
        (if leb pos (suc k + 1) then none else some (jsparser_buffer_slice js (pos - 1) (suc k)))
        ≡ (if word_length s == 1
            then none
            else if word_length s == 0
            then none
            else some (backwards s (word_length s))))
unfolding jsparser_buffer_slice
word_before js v k =
    let s = drop k (recent js) in
    let w = word_length s in
    let start : identifier_start ring_buffer_size js (suc k) ≡ suc k + w =
      identifier_start-recent js v ring_buffer_size k s refl
        (omega (arith, length-recent js v, length-drop k (recent js))) in
    rw start (elim (Bool-cases (leb w 1)) [
      | inl short ↦
          let early : leb (suc k + w) (suc k + 1) ≡ true = ground arith in
          rw early (no_word w (backwards s w) short)
      | inr long ↦
          let late : leb (suc k + w) (suc k + 1) ≡ false = ground arith in
          let many : (w == 1) ≡ false = ground arith in
          let some_left : (w == 0) ≡ false = ground arith in
          rw (many, some_left, late)
            (ap some (
              ap (λ i. slice_from js i (suc k + w - 1 + 1 - suc k)) {y = k + w} (omega arith)
              ∙ ap (slice_from js (k + w)) {y = w} (omega arith)
              ∙ slice_from-recent js v k w (omega arith)))
    ])

-- In a valid ring buffer, the last identifier is the sequence of alphanumeric characters that its
-- text ends in, one white space passed over, and there is none where the text ends in no such
-- character; but a sequence of one character is not found.
pub jsparser_buffer_last_identifier-recent :
    (js : Ring)
    → IsValid js
    → jsparser_buffer_last_identifier js
      ≡ (if word_length (behind_space (recent js)) == 1 then none else last_word (recent js))
unfolding jsparser_buffer_last_identifier
jsparser_buffer_last_identifier-recent js v =
    rw (jsparser_buffer_get-recent js 0 v)
      (elim (Bool-cases (js_is_whitespace (at (recent js) 0))) [
        | inl e ↦ rw e (word_before js v 1)
        | inr e ↦ rw e (word_before js v 0)
      ])

-- ===== src/Htmlparser/JsBuffer/Refinement.antt =====
-- The ring buffer of jsparser.cc as the list of the characters that it holds.
use ctemplate.Common.{
  ℕ, zero, suc, ◌+◌, ◌-◌, ◌%◌, ◌<◌, ◌≤◌, [], ◌∷◌, ◌≡◌, ◌≢◌, refl, sym, ap, ◌∙◌, arith, Bytes, ltb,
  ◌==◌, if◌then◌else◌, length, take, Bool-cases, inl, inr,
}
use ctemplate.Htmlparser.JsBuffer.{Ring, at, put, buffer_length, write_chr}

pub record IsValid (js : Ring) : Type 0 where
  pub start_in : js.buffer_start < 18
  pub end_in : js.buffer_end < 18
  pub size : length js.buffer ≡ 18

-- The `n` characters in front of the index `e`, the last one first.
abbrev pub before_index : Bytes → ℕ → ℕ → Bytes
before_index buffer e zero = []
before_index buffer e (suc n) =
    let d = if e == 0 then 17 else e - 1 in at buffer d ∷ before_index buffer d n

-- What the buffer holds, the last character first.
abbrev pub recent : Ring → Bytes
recent js = before_index js.buffer js.buffer_end (buffer_length js)

pub length-put : (s : Bytes) (i v : ℕ) → length (put s i v) ≡ length s
unfolding put
length-put [] i v = refl
length-put (c ∷ s) zero v = refl
length-put (c ∷ s) (suc i) v = ap suc (length-put s i v)

pub at-put_same : (s : Bytes) (i v : ℕ) → i < length s → at (put s i v) i ≡ v
unfolding at put
at-put_same [] i v h = absurd (omega arith)
at-put_same (c ∷ s) zero v h = refl
at-put_same (c ∷ s) (suc i) v h = at-put_same s i v (omega arith)

pub at-put_other : (s : Bytes) (i j v : ℕ) → i ≢ j → at (put s i v) j ≡ at s j
unfolding at put
at-put_other [] i j v h = refl
at-put_other (c ∷ s) zero zero v h = absurd (h refl)
at-put_other (c ∷ s) zero (suc j) v h = refl
at-put_other (c ∷ s) (suc i) zero v h = refl
at-put_other (c ∷ s) (suc i) (suc j) v h = at-put_other s i j v (λ e. h (ap suc e))

-- How far the index `i` lies in front of the index `e`, from 1 to 18.
abbrev pub distance : ℕ → ℕ → ℕ
distance i e = if ltb i e then e - i else e + 18 - i

-- A write farther back than the characters read does not show.
pub before_index-put :
    (buffer : Bytes) (i v e n : ℕ)
    → i < 18
    → e < 18
    → n < distance i e
    → before_index (put buffer i v) e n ≡ before_index buffer e n
before_index-put buffer i v e zero hi he hn = refl
before_index-put buffer i v e (suc n) hi he hn =
    let d = if e == 0 then 17 else e - 1 in
    ap (λ c. c ∷ before_index (put buffer i v) d n) (at-put_other buffer i d v (ground arith))
    ∙ ap (◌∷◌ (at buffer d)) (before_index-put buffer i v d n hi (ground arith) (ground arith))

take-before_index :
    (buffer : Bytes) (e n m : ℕ)
    → m ≤ n
    → take m (before_index buffer e n) ≡ before_index buffer e m
take-before_index buffer e n zero h = refl
take-before_index buffer e zero (suc m) h = absurd (omega arith)
take-before_index buffer e (suc n) (suc m) h =
    ap (◌∷◌ (at buffer (if e == 0 then 17 else e - 1)))
      (take-before_index buffer (if e == 0 then 17 else e - 1) n m (omega arith))

-- The index that a write leaves free.
abbrev next_index : ℕ → ℕ
next_index e = (e + 1) % 18

next_index-before : (e : ℕ) → e < 18 → (if next_index e == 0 then 17 else next_index e - 1) ≡ e
next_index-before e h = ground arith

before_index-append :
    (buffer : Bytes) (e n c : ℕ)
    → length buffer ≡ 18
    → e < 18
    → n < 18
    → before_index (put buffer e c) (next_index e) (suc n) ≡ c ∷ before_index buffer e n
before_index-append buffer e n c size he hn = rw (
  next_index-before e he,
  at-put_same buffer e c (omega arith),
  before_index-put buffer e c e n he he (ground arith),
)

pub write_chr-IsValid : (js : Ring) (c : ℕ) → IsValid js → IsValid (write_chr js c)
unfolding write_chr
write_chr-IsValid js c v = record {
  start_in = ground arith;
  end_in = ground arith;
  size = length-put js.buffer js.buffer_end c ∙ v.size;
}

take-before_index_all :
    (buffer : Bytes) (e n m : ℕ)
    → n ≤ m
    → take m (before_index buffer e n) ≡ before_index buffer e n
take-before_index_all buffer e zero zero h = refl
take-before_index_all buffer e zero (suc m) h = refl
take-before_index_all buffer e (suc n) zero h = absurd (omega arith)
take-before_index_all buffer e (suc n) (suc m) h =
    ap (◌∷◌ (at buffer (if e == 0 then 17 else e - 1)))
      (take-before_index_all buffer (if e == 0 then 17 else e - 1) n m (omega arith))

-- A buffer of 17 characters loses its first one.
buffer_length-write_chr :
    (js : Ring) (c : ℕ)
    → IsValid js
    → buffer_length (write_chr js c)
      ≡ suc (if ltb (buffer_length js) 17 then buffer_length js else 16)
unfolding write_chr
buffer_length-write_chr js c v = ground arith

take-recent :
    (js : Ring)
    → IsValid js
    → take 16 (recent js)
      ≡ before_index js.buffer js.buffer_end
          (if ltb (buffer_length js) 17 then buffer_length js else 16)
take-recent js v = elim (Bool-cases (ltb (buffer_length js) 17)) [
  | inl e ↦
      rw e (take-before_index_all js.buffer js.buffer_end (buffer_length js) 16 (ground arith))
  | inr e ↦ rw e (take-before_index js.buffer js.buffer_end (buffer_length js) 16 (ground arith))
]

pub write_chr-recent :
    (js : Ring) (c : ℕ) → IsValid js → recent (write_chr js c) ≡ take 17 (c ∷ recent js)
unfolding write_chr
write_chr-recent js c v =
    let n = if ltb (buffer_length js) 17 then buffer_length js else 16 in
    ap (before_index (put js.buffer js.buffer_end c) (next_index js.buffer_end))
      (buffer_length-write_chr js c v)
    ∙ before_index-append js.buffer js.buffer_end n c v.size v.end_in (ground arith)
    ∙ ap (◌∷◌ c) (sym (take-recent js v))

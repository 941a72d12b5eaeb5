-- ===== src/Htmlparser/JsBuffer/Operations.antt =====
-- The operations of the ring buffer, against those of a list of at most 17 characters.
use ctemplate.Common.{
  ℕ, zero, suc, ◌+◌, ◌-◌, ◌<◌, ◌≤◌, [], ◌∷◌, ◌≡◌, refl, sym, ap, ◌∙◌, true, false, none, some,
  arith, Bytes, ltb, ◌==◌, if◌then◌else◌, ◌&&◌, length, take, drop, Bool-cases, inl, inr,
}
use ctemplate.Htmlparser.JsBuffer.{
  Ring, js_is_whitespace, at, put, buffer_length, jsparser_buffer_absolute_pos, jsparser_buffer_get,
  jsparser_buffer_set, jsparser_buffer_append_chr, jsparser_buffer_append_str, jsparser_buffer_pop,
}
use ctemplate.Htmlparser.JsBuffer.Refinement.{
  IsValid, before_index, recent, length-put, at-put_same, at-put_other, before_index-put,
  write_chr-IsValid, write_chr-recent,
}

at-before_index :
    (buffer : Bytes) (e n k : ℕ)
    → e < 18
    → n < 18
    → k < n
    → at (before_index buffer e n) k
      ≡ at buffer (if ltb e (suc k) then e + 18 - suc k else e - suc k)
unfolding at
at-before_index buffer e zero k he hn hk = absurd (omega arith)
at-before_index buffer e (suc n) zero he hn hk = ap (at buffer) (ground arith)
at-before_index buffer e (suc n) (suc k) he hn hk =
    at-before_index buffer (if e == 0 then 17 else e - 1) n k (ground arith) (omega arith)
      (omega arith)
    ∙ ap (at buffer) (ground arith)

at-before_index_behind : (buffer : Bytes) (e n k : ℕ) → n ≤ k → at (before_index buffer e n) k ≡ 0
unfolding at
at-before_index_behind buffer e zero k h = refl
at-before_index_behind buffer e (suc n) zero h = absurd (omega arith)
at-before_index_behind buffer e (suc n) (suc k) h =
    at-before_index_behind buffer (if e == 0 then 17 else e - 1) n k (omega arith)

-- The position -(k + 1) is that of the k-th character, and there is none behind the last.
jsparser_buffer_absolute_pos-recent :
    (js : Ring) (k : ℕ)
    → IsValid js
    → jsparser_buffer_absolute_pos js (suc k) ≡ (
        if ltb k (buffer_length js)
        then some (
            if ltb js.buffer_end (suc k) then js.buffer_end + 18 - suc k else js.buffer_end - suc k)
        else none)
unfolding jsparser_buffer_absolute_pos
jsparser_buffer_absolute_pos-recent js k v = ground arith

-- The read at the index -(k + 1).
pub jsparser_buffer_get-recent :
    (js : Ring) (k : ℕ) → IsValid js → jsparser_buffer_get js (suc k) ≡ at (recent js) k
unfolding jsparser_buffer_get
jsparser_buffer_get-recent js k v = elim (Bool-cases (ltb k (buffer_length js))) [
  | inl e ↦
      rw (jsparser_buffer_absolute_pos-recent js k v, jsparser_buffer_get, e)
        (sym (
          at-before_index js.buffer js.buffer_end (buffer_length js) k v.end_in (ground arith)
            (ground arith)))
  | inr e ↦
      rw (jsparser_buffer_absolute_pos-recent js k v, jsparser_buffer_get, e)
        (sym (at-before_index_behind js.buffer js.buffer_end (buffer_length js) k (ground arith)))
]

-- The specification of the write of a character, on the characters written, the last one first.
abbrev pub push : Bytes → ℕ → Bytes
push s c = if js_is_whitespace c && js_is_whitespace (at s 0) then s else take 17 (c ∷ s)

abbrev pub push_all : Bytes → Bytes → Bytes
push_all s [] = s
push_all s (c ∷ str) = push_all (push s c) str

pub jsparser_buffer_append_chr-recent :
    (js : Ring) (c : ℕ)
    → IsValid js
    → IsValid (jsparser_buffer_append_chr js c)
      × (recent (jsparser_buffer_append_chr js c) ≡ push (recent js) c)
unfolding jsparser_buffer_append_chr
jsparser_buffer_append_chr-recent js c v =
    rw (jsparser_buffer_get-recent js 0 v)
      (elim (Bool-cases (js_is_whitespace c && js_is_whitespace (at (recent js) 0))) [
        | inl e ↦ rw e (v, refl)
        | inr e ↦ rw e (write_chr-IsValid js c v, write_chr-recent js c v)
      ])

pub jsparser_buffer_append_str-recent :
    (js : Ring) (str : Bytes)
    → IsValid js
    → IsValid (jsparser_buffer_append_str js str)
      × (recent (jsparser_buffer_append_str js str) ≡ push_all (recent js) str)
unfolding jsparser_buffer_append_str
jsparser_buffer_append_str-recent js [] v = (v, refl)
jsparser_buffer_append_str-recent js (c ∷ str) v =
    let step = jsparser_buffer_append_chr-recent js c v in
    let rest = jsparser_buffer_append_str-recent (jsparser_buffer_append_chr js c) str step.0 in
    (rest.0, rest.1 ∙ ap (λ s. push_all s str) step.1)

recent_empty : (js : Ring) → IsValid js → js.buffer_start == js.buffer_end ≡ true → recent js ≡ []
recent_empty js v e = ap (before_index js.buffer js.buffer_end) {y = 0} (ground arith)

recent-cons :
    (js : Ring)
    → IsValid js
    → js.buffer_start == js.buffer_end ≡ false
    → recent js ≡ before_index js.buffer js.buffer_end (suc (buffer_length js - 1))
recent-cons js v e =
    ap (before_index js.buffer js.buffer_end) {y = suc (buffer_length js - 1)} (ground arith)

pub jsparser_buffer_pop-recent :
    (js : Ring)
    → IsValid js
    → (let popped = jsparser_buffer_pop js in
        IsValid popped.0 × (recent popped.0 ≡ drop 1 (recent js)) × (popped.1 ≡ at (recent js) 0))
unfolding jsparser_buffer_pop at
jsparser_buffer_pop-recent js v = elim (Bool-cases (js.buffer_start == js.buffer_end)) [
  | inl e ↦
      let empty = recent_empty js v e in
      rw e (v, empty ∙ sym (ap (drop 1) empty), sym (ap (λ s. at s 0) empty))
  | inr e ↦
      let d = if js.buffer_end == 0 then 17 else js.buffer_end - 1 in
      let full = recent-cons js v e in
      rw e (
        record { start_in = v.start_in; end_in = ground arith; size = v.size },
        ap (before_index js.buffer d) (ground arith) ∙ sym (ap (drop 1) full),
        sym (ap (λ s. at s 0) full),
      )
]

-- The index of the k-th character in front of the index `e`.
abbrev index_back : ℕ → ℕ → ℕ
index_back e k = if ltb e (suc k) then e + 18 - suc k else e - suc k

before_index-set :
    (buffer : Bytes) (e n k v : ℕ)
    → length buffer ≡ 18
    → e < 18
    → n < 18
    → k < n
    → before_index (put buffer (index_back e k) v) e n ≡ put (before_index buffer e n) k v
unfolding put
before_index-set buffer e zero k v size he hn hk = absurd (omega arith)
before_index-set buffer e (suc n) zero v size he hn hk =
    let d = if e == 0 then 17 else e - 1 in
    let here : index_back e zero ≡ d = ground arith in
    ap (λ i. before_index (put buffer i v) e (suc n)) here
    ∙ ap (λ c. c ∷ before_index (put buffer d v) d n) (at-put_same buffer d v (ground arith))
    ∙ ap (◌∷◌ v) (before_index-put buffer d v d n (ground arith) (ground arith) (ground arith))
before_index-set buffer e (suc n) (suc k) v size he hn hk =
    let d = if e == 0 then 17 else e - 1 in
    let back : index_back e (suc k) ≡ index_back d k = ground arith in
    ap (λ c. c ∷ before_index (put buffer (index_back e (suc k)) v) d n)
      (at-put_other buffer (index_back e (suc k)) d v (ground arith))
    ∙ ap (◌∷◌ (at buffer d)) (
        ap (λ i. before_index (put buffer i v) d n) back
        ∙ before_index-set buffer d n k v size (ground arith) (omega arith) (omega arith))

put-before_index_behind :
    (buffer : Bytes) (e n k v : ℕ)
    → n ≤ k
    → put (before_index buffer e n) k v ≡ before_index buffer e n
unfolding put
put-before_index_behind buffer e zero k v h = refl
put-before_index_behind buffer e (suc n) zero v h = absurd (omega arith)
put-before_index_behind buffer e (suc n) (suc k) v h =
    ap (◌∷◌ (at buffer (if e == 0 then 17 else e - 1)))
      (put-before_index_behind buffer (if e == 0 then 17 else e - 1) n k v (omega arith))

pub jsparser_buffer_set-recent :
    (js : Ring) (k v : ℕ)
    → IsValid js
    → (let set = jsparser_buffer_set js (suc k) v in
        IsValid set.0 × (recent set.0 ≡ put (recent js) k v) × (set.1 ≡ ltb k (buffer_length js)))
unfolding jsparser_buffer_set
jsparser_buffer_set-recent js k v ok = elim (Bool-cases (ltb k (buffer_length js))) [
  | inl e ↦
      rw (jsparser_buffer_absolute_pos-recent js k ok, e, jsparser_buffer_set)
        (
          record {
            start_in = ok.start_in;
            end_in = ok.end_in;
            size = length-put js.buffer _ v ∙ ok.size;
          },
          before_index-set js.buffer js.buffer_end (buffer_length js) k v ok.size ok.end_in
              (ground arith) (ground arith),
          refl,
        )
  | inr e ↦
      rw (jsparser_buffer_absolute_pos-recent js k ok, e, jsparser_buffer_set)
        (
          ok,
          sym (
              put-before_index_behind js.buffer js.buffer_end (buffer_length js) k v
                (ground arith)),
          refl,
        )
]

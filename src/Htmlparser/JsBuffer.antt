-- ===== src/Htmlparser/JsBuffer.antt =====
-- src/htmlparser/jsparser.cc: the ring buffer. A position is a number k for the index -k.
pub mod Operations
pub mod Words
pub mod Refinement
use ctemplate.Common.{
  ℕ, zero, suc, ◌+◌, ◌-◌, ◌*◌, ◌%◌, ◌<◌, List, [], ◌∷◌, ◌++◌, Bool, true, false, not, ◌&&◌, ◌||◌,
  Option, none, some, Bytes, codes, ltb, leb, within, ◌==◌, if◌then◌else◌, length, equal,
}

-- JSPARSER_RING_BUFFER_SIZE
abbrev pub ring_buffer_size : ℕ
ring_buffer_size = 18

pub record Ring : Type 0 where
  pub buffer_start : ℕ
  pub buffer_end : ℕ
  pub buffer : Bytes

abbrev pub js_is_whitespace : ℕ → Bool
js_is_whitespace c = c == 9 || c == 11 || c == 12 || c == b' ' || c == 0xa0 || c == 10 || c == 13

abbrev pub js_is_identifier : ℕ → Bool
js_is_identifier c =
    within b'a' b'z' c || within b'A' b'Z' c || within b'0' b'9' c || c == b'_' || c == b'$'

-- `buffer[i]` and `buffer[i] = v`, for an index in range.
unfoldable pub at : Bytes → ℕ → ℕ
at [] i = 0
at (c ∷ s) zero = c
at (c ∷ s) (suc i) = at s i

unfoldable pub put : Bytes → ℕ → ℕ → Bytes
put [] i v = []
put (c ∷ s) zero v = v ∷ s
put (c ∷ s) (suc i) v = c ∷ put s i v

-- `buffer_end - buffer_start`, with the size added where that is negative.
abbrev pub buffer_length : Ring → ℕ
buffer_length js =
    if ltb js.buffer_end js.buffer_start
    then js.buffer_end + ring_buffer_size - js.buffer_start
    else js.buffer_end - js.buffer_start

-- jsparser_buffer_absolute_pos at the index -k; none for -1.
unfoldable pub jsparser_buffer_absolute_pos : Ring → ℕ → Option ℕ
jsparser_buffer_absolute_pos js k =
    if leb ring_buffer_size k
    then none
    else if ltb (buffer_length js) k
    then none
    else some
        (if ltb js.buffer_end k then js.buffer_end + ring_buffer_size - k else js.buffer_end - k)

unfoldable pub jsparser_buffer_get : Ring → ℕ → ℕ
jsparser_buffer_get js k = elim (jsparser_buffer_absolute_pos js k) [
  | none ↦ 0
  | some i ↦ at js.buffer i
]

unfoldable pub jsparser_buffer_set : Ring → ℕ → ℕ → Ring × Bool
jsparser_buffer_set js k value = elim (jsparser_buffer_absolute_pos js k) [
  | none ↦ (js, false)
  | some i ↦ (record js { buffer = put js.buffer i value }, true)
]

-- The write of a character and the move of the two ends.
unfoldable pub write_chr : Ring → ℕ → Ring
write_chr js chr =
    let end_index = (js.buffer_end + 1) % ring_buffer_size in
    record js {
      buffer = put js.buffer js.buffer_end chr;
      buffer_end = end_index;
      buffer_start =
          if end_index == js.buffer_start
          then (end_index + 1) % ring_buffer_size
          else js.buffer_start;
    }

unfoldable pub jsparser_buffer_append_chr : Ring → ℕ → Ring
jsparser_buffer_append_chr js chr =
    if js_is_whitespace chr && js_is_whitespace (jsparser_buffer_get js 1)
    then js
    else write_chr js chr

unfoldable pub jsparser_buffer_append_str : Ring → Bytes → Ring
jsparser_buffer_append_str js [] = js
jsparser_buffer_append_str js (c ∷ str) =
    jsparser_buffer_append_str (jsparser_buffer_append_chr js c) str

unfoldable pub jsparser_buffer_pop : Ring → Ring × ℕ
jsparser_buffer_pop js =
    if js.buffer_start == js.buffer_end
    then (js, 0)
    else let end_index = if js.buffer_end == 0 then ring_buffer_size - 1 else js.buffer_end - 1 in
      (record js { buffer_end = end_index }, at js.buffer end_index)

-- jsparser_buffer_slice from the index -k on, over `n` indices; a NUL is left out.
unfoldable pub slice_from : Ring → ℕ → ℕ → Bytes
slice_from js k zero = []
slice_from js k (suc n) =
    let rest = slice_from js (k - 1) n in
    if jsparser_buffer_get js k == 0 then rest else jsparser_buffer_get js k ∷ rest

-- From -k to -j, both included.
unfoldable pub jsparser_buffer_slice : Ring → ℕ → ℕ → Bytes
jsparser_buffer_slice js k j = slice_from js k (k + 1 - j)

-- The loop to the first index that holds no byte of an identifier, on fuel.
unfoldable pub identifier_start : ℕ → Ring → ℕ → ℕ
identifier_start zero js k = k
identifier_start (suc fuel) js k =
    let rest = identifier_start fuel js (k + 1) in
    if js_is_identifier (jsparser_buffer_get js k) then rest else k

-- jsparser_buffer_last_identifier: the identifier, or none where it returns 0. No index behind the
-- buffer's size holds a byte, so the size is fuel enough.
unfoldable pub jsparser_buffer_last_identifier : Ring → Option Bytes
jsparser_buffer_last_identifier js =
    let last = if js_is_whitespace (jsparser_buffer_get js 1) then 2 else 1 in
    let pos = identifier_start ring_buffer_size js last in
    if leb pos (last + 1) then none else some (jsparser_buffer_slice js (pos - 1) last)

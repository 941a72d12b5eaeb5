-- ===== src/Htmlparser/StateMachine/Encoding.antt =====
-- The encoding of a character in an error message.
use ctemplate.Common.{
  ℕ, ◌+◌, ◌-◌, ◌*◌, ◌/◌, ◌%◌, ◌<◌, [], ◌∷◌, ◌≡◌, arith, Bytes, within, ◌==◌, if◌then◌else◌, take,
}
use ctemplate.Htmlparser.StateMachine.{lower_hex_digit, encoded, statemachine_encode_char}

value : ℕ → ℕ
value c = if within b'0' b'9' c then c - b'0' else c - 87

value-lower_hex_digit : (d : ℕ) → d < 16 → value (lower_hex_digit d) ≡ d
unfolding value lower_hex_digit
value-lower_hex_digit d h = ground arith

-- The character that an encoding stands for.
unfoldable pub decoded : Bytes → ℕ
unfolding value
decoded (a ∷ b ∷ c ∷ d ∷ []) = value c * 16 + value d
decoded (a ∷ b ∷ []) =
    if b == b'n' then 10 else if b == b'r' then 13 else if b == b't' then 9 else b
decoded (a ∷ []) = a
decoded s = 0

decoded-encoded : (c : ℕ) → c < 256 → decoded (encoded c) ≡ c
unfolding encoded decoded
decoded-encoded c h = ground (
  arith,
  value-lower_hex_digit (c / 16) (omega arith),
  value-lower_hex_digit (c % 16) (omega arith),
)

whole : (c : ℕ) → take 9 (encoded c) ≡ encoded c
unfolding encoded
whole c = ground arith

-- The ten bytes that the error message has for a character hold its encoding whole, and the
-- encodings of the 256 characters differ: each reads back as its character.
pub decoded-statemachine_encode_char :
    (c : ℕ) → c < 256 → decoded (statemachine_encode_char c 10) ≡ c
unfolding statemachine_encode_char
decoded-statemachine_encode_char c h = rw (whole c) (decoded-encoded c h)

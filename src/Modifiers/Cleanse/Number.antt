-- ===== src/Modifiers/Cleanse/Number.antt =====
-- src/template_modifiers.cc: JavascriptNumber.
use ctemplate.Common.{
  ℕ, [], ◌∷◌, ◌≡◌, Bool, true, ◌&&◌, ◌||◌, arith, Bytes, codes, within, ◌==◌, if◌then◌else◌, All,
  equal, equal_iff,
}

abbrev pub is_hex : ℕ → Bool
is_hex c = within b'a' b'f' c || within b'A' b'F' c || within b'0' b'9' c

abbrev pub is_decimal : ℕ → Bool
is_decimal c = within b'0' b'9' c || c == b'+' || c == b'-' || c == b'.' || c == b'e' || c == b'E'

-- A loop that leaves `valid` false at the first byte that fails the test.
unfoldable pub all_valid : (ℕ → Bool) → Bytes → Bool
all_valid test [] = true
all_valid test (c ∷ s) = test c && all_valid test s

-- The value of `valid` behind the two loops: the first is taken for `0x` or `0X` and at least one
-- byte more.
unfoldable pub is_number : Bytes → Bool
unfolding all_valid
is_number (z ∷ x ∷ d ∷ s) =
    if z == b'0' && (x == b'x' || x == b'X')
    then all_valid is_hex (d ∷ s)
    else all_valid is_decimal (z ∷ x ∷ d ∷ s)
is_number s = all_valid is_decimal s

unfoldable pub javascript_number : Bytes → Bytes
unfolding is_number equal
javascript_number [] = []
javascript_number (c ∷ s) =
    if equal (c ∷ s) (codes "true") || equal (c ∷ s) (codes "false")
    then c ∷ s
    else if is_number (c ∷ s)
    then c ∷ s
    else codes "null"

-- A byte of a literal: a letter, a digit or one of `+-.`.
abbrev pub is_literal_byte : ℕ → Bool
is_literal_byte c =
    within b'a' b'z' c
    || within b'A' b'Z' c
    || within b'0' b'9' c
    || c == b'+'
    || c == b'-'
    || c == b'.'

abbrev IsLiteralByte : ℕ → Type 0
IsLiteralByte c = is_literal_byte c ≡ true

hex-literal : (s : Bytes) → all_valid is_hex s ≡ true → All IsLiteralByte s
unfolding all_valid
hex-literal [] h = tt
hex-literal (c ∷ s) h = ground (arith, hex-literal s)

decimal-literal : (s : Bytes) → all_valid is_decimal s ≡ true → All IsLiteralByte s
unfolding all_valid
decimal-literal [] h = tt
decimal-literal (c ∷ s) h = ground (arith, decimal-literal s)

number-literal : (s : Bytes) → is_number s ≡ true → All IsLiteralByte s
unfolding is_number
number-literal (z ∷ x ∷ d ∷ s) h =
    ground (arith, hex-literal (d ∷ s), decimal-literal (z ∷ x ∷ d ∷ s))
number-literal s h = decimal-literal s h

-- JavascriptNumber emits letters, digits and `+-.` only, so no operator, call, quote or space.
pub javascript_number-literal :
    (s : Bytes) → All (λ c. is_literal_byte c ≡ true) (javascript_number s)
unfolding javascript_number
javascript_number-literal [] = tt
javascript_number-literal (c ∷ s) = ground (
  arith,
  number-literal (c ∷ s),
  equal_iff (c ∷ s) (codes "true"),
  equal_iff (c ∷ s) (codes "false"),
)

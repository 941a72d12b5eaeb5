-- ===== src/Modifiers/Cleanse/Attribute.antt =====
-- The output of CleanseAttribute.
use ctemplate.Common.{
  ℕ, suc, ◌+◌, [], ◌∷◌, ◌≡◌, ◌≢◌, refl, ap, Bool, true, ◌||◌, arith, Bytes, ◌==◌, length,
}
use ctemplate.Modifiers.Cleanse.{
  is_alphanumeric, cleanse_attribute_byte, cleanse_attribute_from, cleanse_attribute,
}

-- A byte that needs no quotes in an attribute's name or value.
abbrev pub is_attribute_byte : ℕ → Bool
is_attribute_byte c =
    is_alphanumeric c || c == b'=' || c == b'-' || c == b'.' || c == b'_' || c == b':'

-- The byte at the place is an attribute byte, and no `=` at the first or the last place.
abbrev pub IsAt : ℕ → ℕ → ℕ → Type 0
IsAt i inlen c = (is_attribute_byte c ≡ true) × (i ≡ 0 → c ≢ b'=') × (i + 1 ≡ inlen → c ≢ b'=')

byte-IsAt : (i inlen c : ℕ) → IsAt i inlen (cleanse_attribute_byte i inlen c)
unfolding cleanse_attribute_byte
byte-IsAt i inlen c = ground arith

-- Every place of the text, of which `inlen` bytes are in all and the first stands at `i`.
abbrev pub AreAt : ℕ → ℕ → Bytes → Type 0
AreAt i inlen [] = Unit
AreAt i inlen (c ∷ s) = IsAt i inlen c × AreAt (i + 1) inlen s

from-AreAt : (i inlen : ℕ) (s : Bytes) → AreAt i inlen (cleanse_attribute_from i inlen s)
unfolding cleanse_attribute_from
from-AreAt i inlen [] = tt
from-AreAt i inlen (c ∷ s) = (byte-IsAt i inlen c, from-AreAt (i + 1) inlen s)

length-from : (i inlen : ℕ) (s : Bytes) → length (cleanse_attribute_from i inlen s) ≡ length s
unfolding cleanse_attribute_from
length-from i inlen [] = refl
length-from i inlen (c ∷ s) = ap suc (length-from (i + 1) inlen s)

-- CleanseAttribute emits one byte for each byte of the input, each a letter, a digit or one of
-- `=-._:`, and no `=` at the first or the last place.
pub cleanse_attribute-AreAt :
    (s : Bytes)
    → (length (cleanse_attribute s) ≡ length s) × AreAt 0 (length s) (cleanse_attribute s)
unfolding cleanse_attribute
cleanse_attribute-AreAt s = (length-from 0 (length s) s, from-AreAt 0 (length s) s)

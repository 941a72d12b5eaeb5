-- ===== src/Modifiers/Cleanse.antt =====
-- src/template_modifiers.cc: CleanseAttribute, CleanseCss and JavascriptNumber.
pub mod Attribute
pub mod Number
use ctemplate.Common.{
  ℕ, suc, ◌+◌, ◌-◌, [], ◌∷◌, ◌++◌, ◌≡◌, refl, sym, ap, ◌∙◌, Bool, true, false, ◌&&◌, ◌||◌, arith,
  Bytes, codes, leb, ltb, within, ◌==◌, if◌then◌else◌, All, length, Bool-cases, equal, inl, inr,
}

abbrev pub is_alphanumeric : ℕ → Bool
is_alphanumeric c = within b'a' b'z' c || within b'A' b'Z' c || within b'0' b'9' c

-- What is emitted for the byte at index `i` of `inlen`.
unfoldable pub cleanse_attribute_byte : ℕ → ℕ → ℕ → ℕ
cleanse_attribute_byte i inlen c =
    if c == b'='
    then if i == 0 || i == inlen - 1 then b'_' else c
    else if c == b'-' || c == b'.' || c == b'_' || c == b':'
    then c
    else if is_alphanumeric c
    then c
    else b'_'

unfoldable pub cleanse_attribute_from : ℕ → ℕ → Bytes → Bytes
unfolding cleanse_attribute_byte
cleanse_attribute_from i inlen [] = []
cleanse_attribute_from i inlen (c ∷ s) =
    cleanse_attribute_byte i inlen c ∷ cleanse_attribute_from (i + 1) inlen s

unfoldable pub cleanse_attribute : Bytes → Bytes
unfolding cleanse_attribute_from
cleanse_attribute s = cleanse_attribute_from 0 (length s) s

unfoldable pub is_css_safe : ℕ → Bool
is_css_safe c =
    c == b' '
    || c == b'_'
    || c == b'.'
    || c == b','
    || c == b'!'
    || c == b'#'
    || c == b'%'
    || c == b'-'
    || is_alphanumeric c

unfoldable pub cleanse_css : Bytes → Bytes
unfolding is_css_safe
cleanse_css [] = []
cleanse_css (c ∷ s) = if is_css_safe c then c ∷ cleanse_css s else cleanse_css s

abbrev pub IsCssSafe : ℕ → Type 0
IsCssSafe c = is_css_safe c ≡ true

css_output-safe : (s : Bytes) → All IsCssSafe (cleanse_css s)
unfolding cleanse_css
css_output-safe [] = tt
css_output-safe (c ∷ s) = ground (arith, css_output-safe s)

css-of_safe : (s : Bytes) → All IsCssSafe s → cleanse_css s ≡ s
unfolding cleanse_css
css-of_safe [] h = refl
css-of_safe (c ∷ s) h = ground (arith, css-of_safe s h.1)

-- CleanseCss emits letters, digits and ` _.,!#%-` only, and leaves a text of these alone.
pub cleanse_css-safe :
    (s : Bytes) → All IsCssSafe (cleanse_css s) × (All IsCssSafe s → cleanse_css s ≡ s)
cleanse_css-safe s = (css_output-safe s, css-of_safe s)

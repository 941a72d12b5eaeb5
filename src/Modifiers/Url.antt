-- ===== src/Modifiers/Url.antt =====
-- src/template_modifiers.cc: IsUrlQueryEscapeSafeChar, UrlQueryEscape and CssUrlEscape.
pub mod Query
pub mod Protocol
use ctemplate.Common.{
  ℕ, ◌+◌, ◌-◌, ◌/◌, ◌%◌, ◌^◌, [], ◌∷◌, Bool, Option, none, some, flat_map, List, Bytes, codes, ltb,
  ◌==◌, if◌then◌else◌,
}
use ctemplate.Modifiers.Run.{escape_loop}

-- `_safe_characters[i]`
safe_characters : ℕ → ℕ
safe_characters i =
    if i == 1 then 0x03fff702 else if i == 2 then 0x87fffffe else if i == 3 then 0x47fffffe else 0

-- The bit `c & 31` of the word `c >> 5`.
unfoldable pub is_url_query_escape_safe_char : ℕ → Bool
unfolding safe_characters
is_url_query_escape_safe_char c = (safe_characters (c / 32) / 2 ^ (c % 32)) % 2 == 1

unfoldable pub hex_digit : ℕ → ℕ
hex_digit d = if ltb d 10 then d + b'0' else d - 10 + b'A'

-- What is emitted for one unsafe byte.
unfoldable pub url_query_unsafe : ℕ → Bytes
unfolding hex_digit
url_query_unsafe c =
    if c == b' ' then b'+' ∷ [] else b'%' ∷ hex_digit (c / 16) ∷ hex_digit (c % 16) ∷ []

unfoldable pub url_query_entity : ℕ → Option Bytes
url_query_entity c = if is_url_query_escape_safe_char c then none else some (url_query_unsafe c)

-- The outer loop emits a run of safe bytes and then one unsafe byte, until the input ends.
unfoldable pub url_query_escape : Bytes → Bytes
unfolding url_query_entity is_url_query_escape_safe_char url_query_unsafe escape_loop
url_query_escape s = escape_loop url_query_entity [] s []

unfoldable pub css_url_image : ℕ → Bytes
css_url_image c =
    if c == 10
    then codes "%0A"
    else if c == 13
    then codes "%0D"
    else if c == b'"'
    then codes "%22"
    else if c == b'\''
    then codes "%27"
    else if c == b'('
    then codes "%28"
    else if c == b')'
    then codes "%29"
    else if c == b'*'
    then codes "%2A"
    else if c == b'<'
    then codes "%3C"
    else if c == b'>'
    then codes "%3E"
    else if c == b'\\'
    then codes "%5C"
    else c ∷ []

unfoldable pub css_url_escape : Bytes → Bytes
unfolding css_url_image flat_map
css_url_escape s = flat_map css_url_image s

-- ===== src/Modifiers/Markup.antt =====
-- src/template_modifiers.cc: HtmlEscape, PreEscape and XmlEscape. Each switch is a function from
-- the byte to its replacement, none for the default case.
pub mod Safety
pub mod RoundTrip
use ctemplate.Common.{
  ℕ, [], ◌∷◌, Bool, ◌&&◌, ◌||◌, not, Option, none, some, Bytes, codes, ltb, ◌==◌, if◌then◌else◌,
}
use ctemplate.Modifiers.Run.{escape_loop}

-- The five cases that HtmlEscape, PreEscape and XmlEscape spell alike.
pub markup_entity : ℕ → Option Bytes
markup_entity c =
    if c == b'&'
    then some (codes "&amp;")
    else if c == b'"'
    then some (codes "&quot;")
    else if c == b'\''
    then some (codes "&#39;")
    else if c == b'<'
    then some (codes "&lt;")
    else if c == b'>'
    then some (codes "&gt;")
    else none

-- '\r', '\n', '\v', '\f' and '\t'
abbrev pub is_line_space : ℕ → Bool
is_line_space c = c == 13 || c == 10 || c == 11 || c == 12 || c == 9

unfoldable pub html_entity : ℕ → Option Bytes
unfolding markup_entity
html_entity c = if is_line_space c then some (codes " ") else markup_entity c

unfoldable pub pre_entity : ℕ → Option Bytes
unfolding markup_entity
pre_entity c = markup_entity c

-- A byte from 128 on is negative as a `char`, so the test against 0x20 is that of the byte itself.
unfoldable pub xml_entity : ℕ → Option Bytes
unfolding markup_entity
xml_entity c =
    if ltb c 0x20 && not (c == 9) && not (c == 13) && not (c == 10)
    then some (codes " ")
    else markup_entity c

unfoldable pub html_escape : Bytes → Bytes
unfolding html_entity escape_loop
html_escape s = escape_loop html_entity [] s []

unfoldable pub pre_escape : Bytes → Bytes
unfolding pre_entity escape_loop
pre_escape s = escape_loop pre_entity [] s []

unfoldable pub xml_escape : Bytes → Bytes
unfolding xml_entity escape_loop
xml_escape s = escape_loop xml_entity [] s []

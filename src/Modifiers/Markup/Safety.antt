-- ===== src/Modifiers/Markup/Safety.antt =====
-- What the output of HtmlEscape, PreEscape and XmlEscape can hold.
use ctemplate.Common.{ℕ, ◌≤◌, [], ◌≡◌, ◌≢◌, ◌⊎◌, sym, subst, arith, Bytes, All, All-flat_map}
use ctemplate.Modifiers.Markup.{
  html_entity, pre_entity, xml_entity, html_escape, pre_escape, xml_escape,
}
use ctemplate.Modifiers.Run.{image, escape_loop-flat_map}

-- The byte is none of `<`, `>`, `"` and `'`.
abbrev pub IsInert : ℕ → Type 0
IsInert c = (c ≢ b'<') × (c ≢ b'>') × (c ≢ b'"') × (c ≢ b'\'')

-- The byte ends no unquoted context: it is inert, and no tab, newline, `\v`, `\f` or return.
abbrev pub IsInertText : ℕ → Type 0
IsInertText c = IsInert c × (c ≢ 9) × (c ≢ 10) × (c ≢ 11) × (c ≢ 12) × (c ≢ 13)

-- The byte is inert, and allowed by the XML grammar's range for one-byte characters.
abbrev pub IsXmlText : ℕ → Type 0
IsXmlText c = IsInert c × ((0x20 ≤ c) ⊎ (c ≡ 9) ⊎ (c ≡ 10) ⊎ (c ≡ 13))

html-image : (c : ℕ) → All IsInertText (image html_entity c)
unfolding image html_entity
html-image c = ground arith

pre-image : (c : ℕ) → All IsInert (image pre_entity c)
unfolding image pre_entity
pre-image c = ground arith

xml-image : (c : ℕ) → All IsXmlText (image xml_entity c)
unfolding image xml_entity
xml-image c = ground arith

-- HtmlEscape emits no `<`, `>`, quote, tab, newline, vertical tab, form feed or return.
pub html_escape-IsInertText : (s : Bytes) → All IsInertText (html_escape s)
unfolding html_escape
html_escape-IsInertText s =
    subst (All IsInertText) (sym (escape_loop-flat_map html_entity [] s []))
      (All-flat_map IsInertText (image html_entity) html-image s)

-- PreEscape emits no `<`, `>` or quote.
pub pre_escape-IsInert : (s : Bytes) → All IsInert (pre_escape s)
unfolding pre_escape
pre_escape-IsInert s =
    subst (All IsInert) (sym (escape_loop-flat_map pre_entity [] s []))
      (All-flat_map IsInert (image pre_entity) pre-image s)

-- XmlEscape emits no `<`, `>` or quote, and no control byte but tab, newline and return.
pub xml_escape-IsXmlText : (s : Bytes) → All IsXmlText (xml_escape s)
unfolding xml_escape
xml_escape-IsXmlText s =
    subst (All IsXmlText) (sym (escape_loop-flat_map xml_entity [] s []))
      (All-flat_map IsXmlText (image xml_entity) xml-image s)

-- HtmlEscape, PreEscape and XmlEscape emit no `<`, `>` or quote; HtmlEscape emits no tab, newline,
-- vertical tab, form feed or return either, and XmlEscape no control byte but tab, newline and
-- return.
pub escapes-IsInert :
    (s : Bytes)
    → All IsInertText (html_escape s) × All IsInert (pre_escape s) × All IsXmlText (xml_escape s)
escapes-IsInert s = (html_escape-IsInertText s, pre_escape-IsInert s, xml_escape-IsXmlText s)

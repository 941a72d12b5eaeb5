-- ===== src/Modifiers/Markup/RoundTrip.antt =====
-- A reader of character references, and what it gives back from the output of HtmlEscape,
-- PreEscape and XmlEscape.
use ctemplate.Common.{
  ℕ, [], ◌∷◌, ◌++◌, Option, none, some, ◌≡◌, refl, ap, ◌∙◌, flat_map, map, arith, Bytes, codes,
  ◌==◌, if◌then◌else◌, ltb, not, ◌&&◌, equal,
}
use ctemplate.Modifiers.Markup.{
  is_line_space, html_entity, pre_entity, xml_entity, html_escape, pre_escape, xml_escape,
}
use ctemplate.Modifiers.Run.{image, escape_loop-flat_map}

-- The byte that `&name;` stands for; a name that no modifier writes stands for 0.
referent : Bytes → ℕ
unfolding equal
referent name =
    if equal name (codes "amp")
    then b'&'
    else if equal name (codes "quot")
    then b'"'
    else if equal name (codes "#39")
    then b'\''
    else if equal name (codes "lt")
    then b'<'
    else if equal name (codes "gt")
    then b'>'
    else 0

-- The text that a browser shows. The first argument is the name read so far of an open reference.
read_from : Option Bytes → Bytes → Bytes
unfolding referent
read_from open_name [] = []
read_from none (c ∷ s) = if c == b'&' then read_from (some []) s else c ∷ read_from none s
read_from (some name) (c ∷ s) =
    if c == b';' then referent name ∷ read_from none s else read_from (some (name ++ c ∷ [])) s

pub unescape : Bytes → Bytes
unfolding read_from
unescape = read_from none

-- What HtmlEscape and XmlEscape do to the text that is read back.
abbrev pub html_space : ℕ → ℕ
html_space c = if is_line_space c then b' ' else c

abbrev pub xml_space : ℕ → ℕ
xml_space c = if ltb c 0x20 && not (c == 9) && not (c == 13) && not (c == 10) then b' ' else c

read-html :
    (c : ℕ) (rest : Bytes) → unescape (image html_entity c ++ rest) ≡ html_space c ∷ unescape rest
unfolding unescape image html_entity
read-html c rest = ground arith

read-pre : (c : ℕ) (rest : Bytes) → unescape (image pre_entity c ++ rest) ≡ c ∷ unescape rest
unfolding unescape image pre_entity
read-pre c rest = ground arith

read-xml :
    (c : ℕ) (rest : Bytes) → unescape (image xml_entity c ++ rest) ≡ xml_space c ∷ unescape rest
unfolding unescape image xml_entity
read-xml c rest = ground arith

-- A reader that undoes each image undoes their concatenation.
read-flat_map :
    (entity : ℕ → Option Bytes) (meaning : ℕ → ℕ)
    → ((c : ℕ) (rest : Bytes) → unescape (image entity c ++ rest) ≡ meaning c ∷ unescape rest)
    → (s : Bytes) → unescape (flat_map (image entity) s) ≡ map meaning s
unfolding flat_map unescape
read-flat_map entity meaning h [] = refl
read-flat_map entity meaning h (c ∷ s) =
    h c (flat_map (image entity) s) ∙ ap (◌∷◌ (meaning c)) (read-flat_map entity meaning h s)

map_id : (s : Bytes) → map (λ c. c) s ≡ s
map_id [] = refl
map_id (c ∷ s) = ap (◌∷◌ c) (map_id s)

-- The references that PreEscape writes read back as the input, byte for byte.
unescape-pre_escape : (s : Bytes) → unescape (pre_escape s) ≡ s
unfolding pre_escape
unescape-pre_escape s =
    rw escape_loop-flat_map (read-flat_map pre_entity (λ c. c) read-pre s ∙ map_id s)

-- What HtmlEscape writes reads back as the input with each tab, newline, vertical tab, form feed
-- and return turned into a space.
unescape-html_escape : (s : Bytes) → unescape (html_escape s) ≡ map html_space s
unfolding html_escape
unescape-html_escape s = rw escape_loop-flat_map (read-flat_map html_entity html_space read-html s)

-- What XmlEscape writes reads back as the input with each control byte but tab, newline and return
-- turned into a space.
unescape-xml_escape : (s : Bytes) → unescape (xml_escape s) ≡ map xml_space s
unfolding xml_escape
unescape-xml_escape s = rw escape_loop-flat_map (read-flat_map xml_entity xml_space read-xml s)

-- The references that PreEscape writes read back as the input; what HtmlEscape writes reads back as
-- the input with each tab, newline, vertical tab, form feed and return turned into a space, and what
-- XmlEscape writes with each control byte but tab, newline and return turned into a space.
pub unescape-escapes :
    (s : Bytes)
    → (unescape (pre_escape s) ≡ s)
      × (unescape (html_escape s) ≡ map html_space s)
      × (unescape (xml_escape s) ≡ map xml_space s)
unescape-escapes s = (unescape-pre_escape s, unescape-html_escape s, unescape-xml_escape s)

-- ===== src/Modifiers/Json.antt =====
-- src/template_modifiers.cc: JsonEscape, and a reader of JSON string bodies for its output.
use ctemplate.Common.{
  ℕ, ◌+◌, ◌-◌, ◌*◌, zero, suc, [], ◌∷◌, ◌++◌, ◌≡◌, ◌≢◌, refl, sym, subst, ap, ◌∙◌, ◌||◌, Option,
  none, some, flat_map, arith, Bytes, codes, within, ltb, ◌==◌, if◌then◌else◌, All, All-flat_map,
}
use ctemplate.Modifiers.Run.{escape_loop, image, escape_loop-flat_map}

unfoldable pub json_entity : ℕ → Option Bytes
json_entity c =
    if c == b'"'
    then some (codes "\\\"")
    else if c == b'\\'
    then some (codes "\\\\")
    else if c == b'/'
    then some (codes "\\/")
    else if c == 8
    then some (codes "\\b")
    else if c == 12
    then some (codes "\\f")
    else if c == 10
    then some (codes "\\n")
    else if c == 13
    then some (codes "\\r")
    else if c == 9
    then some (codes "\\t")
    else if c == b'&'
    then some (codes "\\u0026")
    else if c == b'<'
    then some (codes "\\u003C")
    else if c == b'>'
    then some (codes "\\u003E")
    else none

unfoldable pub json_escape : Bytes → Bytes
unfolding json_entity escape_loop
json_escape s = escape_loop json_entity [] s []

-- Where a reader of a JSON string body stands: in plain text, behind a backslash, or behind `\u`
-- and some of its four digits.
data Reader : Type 0 where
  plain escaped : Reader
  digits : ℕ → ℕ → Reader

hex_value : ℕ → ℕ
hex_value c = if within b'0' b'9' c then c - 48 else if within b'A' b'F' c then c - 55 else 0

-- The byte that a backslash and `c` stand for, if that is an escape of one letter.
letter : ℕ → Option ℕ
letter c =
    if c == b'"' || c == b'\\' || c == b'/'
    then some c
    else if c == b'b'
    then some 8
    else if c == b'f'
    then some 12
    else if c == b'n'
    then some 10
    else if c == b'r'
    then some 13
    else if c == b't'
    then some 9
    else none

-- Puts a byte in front of what is read later.
add : ℕ → Option Bytes → Option Bytes
add c none = none
add c (some s) = some (c ∷ s)

-- The value of a string body; none at a bare quote, an unknown escape or an unfinished one.
read : Reader → Bytes → Option Bytes
unfolding hex_value letter add
read plain [] = some []
read escaped [] = none
read (digits n v) [] = none
read plain (c ∷ s) =
    if c == b'"' then none else if c == b'\\' then read escaped s else add c (read plain s)
read escaped (c ∷ s) = elim (letter c) [
  | some d ↦ add d (read plain s)
  | none ↦ if c == b'u' then read (digits 3 0) s else none
]
read (digits zero v) (c ∷ s) = add (v * 16 + hex_value c) (read plain s)
read (digits (suc n) v) (c ∷ s) = read (digits n (v * 16 + hex_value c)) s

pub json_read : Bytes → Option Bytes
unfolding read
json_read = read plain

read-json_entity :
    (c : ℕ) (rest : Bytes) → json_read (image json_entity c ++ rest) ≡ add c (json_read rest)
unfolding json_read image json_entity
read-json_entity c rest = ground arith

read-flat_map : (s : Bytes) → json_read (flat_map (image json_entity) s) ≡ some s
unfolding json_read flat_map
read-flat_map [] = refl
read-flat_map (c ∷ s) =
    read-json_entity c (flat_map (image json_entity) s) ∙ ap (add c) (read-flat_map s)

-- What JsonEscape emits is a string body that closes nowhere and reads back as the input.
pub json_read-json_escape : (s : Bytes) → json_read (json_escape s) ≡ some s
unfolding json_escape
json_read-json_escape s = rw escape_loop-flat_map (read-flat_map s)

-- The byte is none of `<`, `>`, `&`, newline and return.
abbrev pub IsScriptInert : ℕ → Type 0
IsScriptInert c = (c ≢ b'<') × (c ≢ b'>') × (c ≢ b'&') × (c ≢ 10) × (c ≢ 13)

json-image : (c : ℕ) → All IsScriptInert (image json_entity c)
unfolding image json_entity
json-image c = ground arith

-- JsonEscape emits no `<`, `>`, `&`, newline or return.
pub json_escape-inert : (s : Bytes) → All IsScriptInert (json_escape s)
unfolding json_escape
json_escape-inert s =
    subst (All IsScriptInert) (sym (escape_loop-flat_map json_entity [] s []))
      (All-flat_map IsScriptInert (image json_entity) json-image s)

-- The bytes below 0x20 of a text, and those of them for which JsonEscape has no escape.
abbrev pub controls : Bytes → Bytes
controls [] = []
controls (c ∷ s) = let rest = controls s in if ltb c 0x20 then c ∷ rest else rest

abbrev pub without_letter : Bytes → Bytes
without_letter [] = []
without_letter (c ∷ s) =
    let rest = without_letter s in
    if c == 8 || c == 9 || c == 10 || c == 12 || c == 13 then rest else c ∷ rest

controls-append : (s t : Bytes) → controls (s ++ t) ≡ controls s ++ controls t
controls-append [] t = refl
controls-append (c ∷ s) t = ground (arith, controls-append s t)

controls-image : (c : ℕ) → controls (image json_entity c) ≡ without_letter (controls (c ∷ []))
unfolding image json_entity
controls-image c = ground arith

without_letter-append :
    (s t : Bytes) → without_letter (s ++ t) ≡ without_letter s ++ without_letter t
without_letter-append [] t = refl
without_letter-append (c ∷ s) t = ground (arith, without_letter-append s t)

controls-flat_map :
    (s : Bytes) → controls (flat_map (image json_entity) s) ≡ without_letter (controls s)
unfolding flat_map
controls-flat_map [] = refl
controls-flat_map (c ∷ s) =
    controls-append (image json_entity c) (flat_map (image json_entity) s)
    ∙ rw (controls-image c, controls-flat_map s)
        (sym (without_letter-append (controls (c ∷ [])) (controls s))
          ∙ ap without_letter (sym (controls-append (c ∷ []) s)))

-- The bytes below 0x20 that JsonEscape emits are those of its input, in their order, without the
-- bytes that have an escape of one letter: \b, \t, \n, \f and \r. No other is escaped.
pub json_escape-controls : (s : Bytes) → controls (json_escape s) ≡ without_letter (controls s)
unfolding json_escape
json_escape-controls s = rw escape_loop-flat_map (controls-flat_map s)

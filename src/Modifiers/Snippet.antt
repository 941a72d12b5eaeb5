-- ===== src/Modifiers/Snippet.antt =====
-- src/template_modifiers.cc: UnclosedSnippetTags and SnippetEscape. The set of unclosed tags is the
-- string that `tags` holds up to its NUL, whose length is `tag_length`.
pub mod Tags
pub mod Fragment
pub mod Steps
pub mod WellFormed
use ctemplate.Common.{
  ℕ, zero, suc, ◌+◌, ◌-◌, ◌<◌, ◌≤◌, List, [], ◌∷◌, ◌++◌, Bool, true, false, not, ◌&&◌, ◌||◌, Option,
  none, some, Bytes, codes, leb, ltb, within, ◌==◌, if◌then◌else◌, length, take, drop, flat_map,
  reverse,
}
use ctemplate.Modifiers.Markup.{is_line_space}
use ctemplate.Modifiers.Run.{emit_run}

pub data Tag : Type 0 where
  tag_b tag_i tag_em tag_span : Tag

abbrev pub same_tag : Tag → Tag → Bool
same_tag tag_b tag_b = true
same_tag tag_i tag_i = true
same_tag tag_em tag_em = true
same_tag tag_span tag_span = true
same_tag _ _ = false

-- `strchr(tags, tag)` as a test
unfoldable pub has_tag : Tag → List Tag → Bool
has_tag t [] = false
has_tag t (u ∷ tags) = if same_tag u t then true else has_tag t tags

-- The copy of all later tags down by one.
unfoldable pub remove_tag : Tag → List Tag → List Tag
remove_tag t [] = []
remove_tag t (u ∷ tags) = if same_tag u t then tags else u ∷ remove_tag t tags

-- MaybeAdd and MaybeRemove: the new set, or none where they return false.
unfoldable pub maybe_add : Tag → List Tag → Option (List Tag)
maybe_add t tags = if has_tag t tags then none else some (tags ++ t ∷ [])

unfoldable pub maybe_remove : Tag → List Tag → Option (List Tag)
maybe_remove t tags = if has_tag t tags then some (remove_tag t tags) else none

unfoldable pub closing_tag : Tag → Bytes
closing_tag tag_b = codes "</b>"
closing_tag tag_i = codes "</i>"
closing_tag tag_em = codes "</em>"
closing_tag tag_span = codes "</span>"

-- PrintClosingTags: the tag that was opened last is closed first.
unfoldable pub print_closing_tags : List Tag → Bytes
unfolding closing_tag flat_map
print_closing_tags tags = flat_map closing_tag (reverse tags)

-- `chars_left >= strlen(literal) && !memcmp(next_pos, literal, strlen(literal))`
unfoldable pub starts_with : Bytes → Bytes → Bool
starts_with s [] = true
starts_with [] (d ∷ literal) = false
starts_with (c ∷ s) (d ∷ literal) = c == d && starts_with s literal

-- The tests of the `if` chain give the length of the tag and the set behind it; where the text or
-- the set refuses, the next test is made.
abbrev pub or_else {ℓ} : {A : Type ℓ} → Option A → Option A → Option A
or_else none b = b
or_else (some a) b = some a

abbrev pub advance : ℕ → Option (List Tag) → Option (ℕ × List Tag)
advance n none = none
advance n (some tags) = some (n, tags)

unfoldable pub opening : Bytes → ℕ → Tag → Bytes → List Tag → Option (ℕ × List Tag)
opening literal n t next_pos tags =
    if starts_with next_pos literal then advance n (maybe_add t tags) else none

unfoldable pub closing : Bytes → ℕ → Tag → Bytes → List Tag → Option (ℕ × List Tag)
closing literal n t next_pos tags =
    if starts_with next_pos literal then advance n (maybe_remove t tags) else none

-- `span dir=` and one of the two directions; the tag has 14 bytes.
unfoldable pub opening_span : Bytes → List Tag → Option (ℕ × List Tag)
opening_span next_pos tags =
    if starts_with next_pos (codes "span dir=ltr>") || starts_with next_pos (codes "span dir=rtl>")
    then advance 14 (maybe_add tag_span tags)
    else none

unfoldable pub void : Bytes → ℕ → Bytes → List Tag → Option (ℕ × List Tag)
void literal n next_pos tags = if starts_with next_pos literal then some (n, tags) else none

-- The `if` chain behind `case '<'`.
unfoldable pub snippet_tag : Bytes → List Tag → Option (ℕ × List Tag)
snippet_tag next_pos tags = or_else (opening (codes "b>") 3 tag_b next_pos tags) (
    or_else (opening (codes "i>") 3 tag_i next_pos tags) (
      or_else (opening (codes "em>") 4 tag_em next_pos tags) (
        or_else (opening_span next_pos tags) (
          or_else (closing (codes "/b>") 4 tag_b next_pos tags) (
            or_else (closing (codes "/i>") 4 tag_i next_pos tags) (
              or_else (closing (codes "/em>") 5 tag_em next_pos tags) (
                or_else (closing (codes "/span>") 7 tag_span next_pos tags) (
                  or_else (void (codes "br>") 4 next_pos tags)
                    (void (codes "wbr>") 5 next_pos tags)))))))))

-- The other cases of the switch, on the byte and the text behind it.
abbrev starts_with_brace : Bytes → Bool
starts_with_brace [] = false
starts_with_brace (c ∷ s) = c == b'{'

unfoldable pub snippet_entity : ℕ → Bytes → Option Bytes
snippet_entity c s =
    if c == b'&'
    then some (if starts_with_brace s then codes "&amp;" else codes "&")
    else if c == b'"'
    then some (codes "&quot;")
    else if c == b'\''
    then some (codes "&#39;")
    else if c == b'>'
    then some (codes "&gt;")
    else if is_line_space c
    then some (codes " ")
    else none

-- The loop, on fuel.
unfoldable pub snippet_loop : ℕ → List Tag → Bytes → Bytes → Bytes → Bytes
unfolding emit_run
snippet_loop fuel tags run [] out = emit_run run out ++ print_closing_tags tags
snippet_loop zero tags run (c ∷ s) out = out
snippet_loop (suc fuel) tags run (c ∷ s) out = elim (c == b'<') [
  | true ↦ elim (snippet_tag s tags) [
    | some (n, tags') ↦ snippet_loop fuel tags' (run ++ take n (c ∷ s)) (drop n (c ∷ s)) out
    | none ↦ snippet_loop fuel tags [] s (emit_run run out ++ codes "&lt;")
  ]
  | false ↦ elim (snippet_entity c s) [
    | some replacement ↦ snippet_loop fuel tags [] s (emit_run run out ++ replacement)
    | none ↦ snippet_loop fuel tags (run ++ c ∷ []) s out
  ]
]

-- A round takes a byte at least, so the length of the text is fuel enough.
unfoldable pub snippet_escape : Bytes → Bytes
unfolding snippet_loop snippet_tag snippet_entity print_closing_tags opening opening_span closing
    void starts_with maybe_add maybe_remove has_tag remove_tag
snippet_escape s = snippet_loop (length s) [] [] s []

-- ===== src/Modifiers/Snippet/Fragment.antt =====
-- What SnippetEscape may emit: fragments of text, permissible tags and line breaks.

use ctemplate.Common.{
  ℕ, ◌≢◌, List, [], ◌∷◌, ◌++◌, ◌≡◌, true, false, Bytes, codes, All, append_assoc,
}
use ctemplate.Modifiers.Markup.{is_line_space}
use ctemplate.Modifiers.Snippet.{
  Tag, tag_b, tag_i, tag_em, tag_span, has_tag, remove_tag, closing_tag,
}

-- A byte of text: no `<`, `>` or quote, and no tab, newline, `\v`, `\f` or return.
abbrev pub IsText : ℕ → Type 0
IsText c = (c ≢ b'<') × (c ≢ b'>') × (c ≢ b'"') × (c ≢ b'\'') × (is_line_space c ≡ false)

pub data OpeningTag : Tag → Bytes → Type 0 where
  b : OpeningTag tag_b (codes "<b>")
  i : OpeningTag tag_i (codes "<i>")
  em : OpeningTag tag_em (codes "<em>")
  ltr : OpeningTag tag_span (codes "<span dir=ltr>")
  rtl : OpeningTag tag_span (codes "<span dir=rtl>")

pub data VoidTag : Bytes → Type 0 where
  br : VoidTag (codes "<br>")
  wbr : VoidTag (codes "<wbr>")

-- The text leads from one set of open tags to another: it is made of text bytes, permissible tags
-- that open what is not open or close what is, and line breaks.
pub data Snippet : List Tag → Bytes → List Tag → Type 0 where
  done : {tags : List Tag} → Snippet tags [] tags
  text :
      {tags after : List Tag} {c : ℕ} {s : Bytes}
      → IsText c
      → Snippet tags s after
      → Snippet tags (c ∷ s) after
  opens :
      {tags after : List Tag} {s r w : Bytes} (t : Tag)
      → has_tag t tags ≡ false
      → OpeningTag t w
      → r ≡ w ++ s
      → Snippet (tags ++ t ∷ []) s after
      → Snippet tags r after
  closes :
      {tags after : List Tag} {s r : Bytes} (t : Tag)
      → has_tag t tags ≡ true
      → r ≡ closing_tag t ++ s
      → Snippet (remove_tag t tags) s after
      → Snippet tags r after
  breaks :
      {tags after : List Tag} {s r w : Bytes}
      → VoidTag w
      → r ≡ w ++ s
      → Snippet tags s after
      → Snippet tags r after

split : {r : Bytes} (w s t : Bytes) → r ≡ w ++ s → r ++ t ≡ w ++ (s ++ t)
split w s t q = rw q (append_assoc w s t)

pub Snippet-append :
    {tags mid after : List Tag} {s t : Bytes}
    → Snippet tags s mid
    → Snippet mid t after
    → Snippet tags (s ++ t) after
Snippet-append done d = d
Snippet-append (text h e) d = text h (Snippet-append e d)
Snippet-append {t} (opens {s} {w} k h o q e) d = opens k h o (split w s t q) (Snippet-append e d)
Snippet-append {t} (closes {s} k h q e) d =
    closes k h (split (closing_tag k) s t q) (Snippet-append e d)
Snippet-append {t} (breaks {s} {w} v q e) d = breaks v (split w s t q) (Snippet-append e d)

pub Snippet-of_text : (tags : List Tag) (s : Bytes) → All IsText s → Snippet tags s tags
Snippet-of_text tags [] h = done
Snippet-of_text tags (c ∷ s) h = text h.0 (Snippet-of_text tags s h.1)

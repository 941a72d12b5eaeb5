-- ===== src/Modifiers/Snippet/Steps.antt =====
-- The steps of SnippetEscape over a tag or a byte.

use ctemplate.Common.{
  ℕ, suc, ◌≤◌, List, [], ◌∷◌, ◌++◌, ◌≡◌, inl, inr, refl, sym, ap, ◌∙◌, true, false, Option, none,
  some, arith, Bytes, codes, ◌==◌, All, length, take, Bool-cases, append-nil,
}
use ctemplate.Modifiers.Snippet.Tags.{Reachable, added, removed}
use ctemplate.Modifiers.Snippet.{
  or_else, advance, Tag, tag_b, tag_i, tag_em, tag_span, has_tag, remove_tag, maybe_add,
  maybe_remove, closing_tag, starts_with, opening, opening_span, closing, void, snippet_tag,
  snippet_entity,
}
use ctemplate.Modifiers.Snippet.Fragment.{
  IsText, OpeningTag, b, i, em, ltr, rtl, VoidTag, br, wbr, Snippet, done, opens, closes, breaks,
}

pub entity-IsText : (c : ℕ) (s r : Bytes) → snippet_entity c s ≡ some r → All IsText r
unfolding snippet_entity
entity-IsText c s r e = ground arith

pub plain-IsText : (c : ℕ) (s : Bytes) → (c == b'<') ≡ false → snippet_entity c s ≡ none → IsText c
unfolding snippet_entity
plain-IsText c s h e = ground arith

starts_with-take :
    (s literal : Bytes) → starts_with s literal ≡ true → take (length literal) s ≡ literal
unfolding starts_with
starts_with-take s [] h = refl
starts_with-take [] (d ∷ literal) h = ground arith
starts_with-take (c ∷ s) (d ∷ literal) h = ground (arith, starts_with-take s literal)

-- A test of the `if` chain is sound at the text behind `<` if what it steps over leads to its set.
abbrev pub Sound : Bytes → List Tag → Option (ℕ × List Tag) → Type 0
Sound s tags none = Unit
Sound s tags (some (n, after)) =
    Snippet tags (take n (b'<' ∷ s)) after × (1 ≤ n) × (Reachable tags → Reachable after)

dir-Sound :
    (literal : Bytes) (s : Bytes) (tags : List Tag)
    → OpeningTag tag_span (b'<' ∷ literal)
    → length literal ≡ 13
    → starts_with s literal ≡ true
    → Sound s tags (advance 14 (maybe_add tag_span tags))
unfolding maybe_add
dir-Sound literal s tags o l e = elim (Bool-cases (has_tag tag_span tags)) [
  | inl h ↦ rw h tt
  | inr h ↦
      let added_tag : maybe_add tag_span tags ≡ some (tags ++ tag_span ∷ []) = rw h in
      let whole : take 13 s ≡ literal = rw l at (starts_with-take s literal e) in
      rw h (
        opens tag_span h o (ap (◌∷◌ b'<') (whole ∙ sym (append-nil literal))) done,
        omega arith,
        λ r. added tag_span r added_tag,
      )
]

opening_span-Sound : (s : Bytes) (tags : List Tag) → Sound s tags (opening_span s tags)
unfolding opening_span
opening_span-Sound s tags = elim (Bool-cases (starts_with s (codes "span dir=ltr>"))) [
  | inl e ↦ rw e (dir-Sound (codes "span dir=ltr>") s tags ltr refl e)
  | inr e ↦ elim (Bool-cases (starts_with s (codes "span dir=rtl>"))) [
    | inl f ↦ rw (e, f) (dir-Sound (codes "span dir=rtl>") s tags rtl refl f)
    | inr f ↦ rw (e, f) tt
  ]
]

closing-Sound :
    (literal : Bytes) (t : Tag) (s : Bytes) (tags : List Tag)
    → closing_tag t ≡ b'<' ∷ literal
    → Sound s tags (closing literal (suc (length literal)) t s tags)
unfolding closing maybe_remove
closing-Sound literal t s tags o = elim (Bool-cases (starts_with s literal)) [
  | inr e ↦ rw e tt
  | inl e ↦ elim (Bool-cases (has_tag t tags)) [
    | inr h ↦ rw (e, h) tt
    | inl h ↦
        let removed_tag : maybe_remove t tags ≡ some (remove_tag t tags) = rw h in
        rw (e, h)
          (
            closes t h
                (ap (◌∷◌ b'<') (starts_with-take s literal e)
                  ∙ sym o
                  ∙ sym (append-nil (closing_tag t)))
                done,
            omega arith,
            λ r. removed t r removed_tag,
          )
  ]
]

void-Sound :
    (literal : Bytes) (s : Bytes) (tags : List Tag)
    → VoidTag (b'<' ∷ literal)
    → Sound s tags (void literal (suc (length literal)) s tags)
unfolding void
void-Sound literal s tags v = elim (Bool-cases (starts_with s literal)) [
  | inr e ↦ rw e tt
  | inl e ↦ rw e (
    breaks v (ap (◌∷◌ b'<') (starts_with-take s literal e ∙ sym (append-nil literal))) done,
    omega arith,
    λ r. r,
  )
]

or_else-Sound :
    (s : Bytes) (tags : List Tag) (p q : Option (ℕ × List Tag))
    → Sound s tags p
    → Sound s tags q
    → Sound s tags (or_else p q)
or_else-Sound s tags none q h k = k
or_else-Sound s tags (some (n, after)) q h k = h

opening-Sound :
    (literal : Bytes) (t : Tag) (s : Bytes) (tags : List Tag)
    → OpeningTag t (b'<' ∷ literal)
    → Sound s tags (opening literal (suc (length literal)) t s tags)
unfolding opening maybe_add
opening-Sound literal t s tags o = elim (Bool-cases (starts_with s literal)) [
  | inr e ↦ rw e tt
  | inl e ↦ elim (Bool-cases (has_tag t tags)) [
    | inl h ↦ rw (e, h, maybe_add) tt
    | inr h ↦
        let added_tag : maybe_add t tags ≡ some (tags ++ t ∷ []) = unfold maybe_add in rw h in
        rw (e, added_tag)
          (
            opens t h o (ap (◌∷◌ b'<') (starts_with-take s literal e ∙ sym (append-nil literal)))
                done,
            omega arith,
            λ r. added t r added_tag,
          )
  ]
]

pub snippet_tag-Sound : (s : Bytes) (tags : List Tag) → Sound s tags (snippet_tag s tags)
unfolding snippet_tag
snippet_tag-Sound s tags = or_else-Sound s tags _ _ (opening-Sound (codes "b>") tag_b s tags b) (
    or_else-Sound s tags _ _ (opening-Sound (codes "i>") tag_i s tags i) (
      or_else-Sound s tags _ _ (opening-Sound (codes "em>") tag_em s tags em) (
        or_else-Sound s tags _ _ (opening_span-Sound s tags) (
          or_else-Sound s tags _ _
            (closing-Sound (codes "/b>") tag_b s tags (unfold closing_tag in refl))
            (or_else-Sound s tags _ _
              (closing-Sound (codes "/i>") tag_i s tags (unfold closing_tag in refl))
              (or_else-Sound s tags _ _
                (closing-Sound (codes "/em>") tag_em s tags (unfold closing_tag in refl))
                (or_else-Sound s tags _ _
                  (closing-Sound (codes "/span>") tag_span s tags (unfold closing_tag in refl))
                  (or_else-Sound s tags _ _ (void-Sound (codes "br>") s tags br)
                    (void-Sound (codes "wbr>") s tags wbr)))))))))

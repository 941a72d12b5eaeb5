-- ===== src/Modifiers/Snippet/WellFormed.antt =====
-- The loop of SnippetEscape and the fragments that it emits.
use mathlib.Core.List.{reverse-cons, reverse-reverse}
use ctemplate.Common.{
  flat_map, ℕ, zero, suc, ◌≤◌, List, [], ◌∷◌, ◌++◌, ◌≡◌, inl, inr, refl, true, false, none, some,
  arith, Bytes, codes, ◌==◌, length, take, drop, reverse, Bool-cases, Option-cases, append-nil,
  append_assoc, length-drop,
}
use ctemplate.Modifiers.Run.{emit_run_lem}
use ctemplate.Modifiers.Snippet.Tags.{
  Reachable, none_open, IsOnce, count-append, count-has_tag, Reachable-IsOnce,
}
use ctemplate.Modifiers.Snippet.{
  Tag, tag_b, tag_i, tag_em, tag_span, same_tag, has_tag, remove_tag, closing_tag,
  print_closing_tags, snippet_tag, snippet_entity, snippet_loop, snippet_escape,
}
use ctemplate.Modifiers.Snippet.Fragment.{
  Snippet, done, text, closes, Snippet-append, Snippet-of_text,
}
use ctemplate.Modifiers.Snippet.Steps.{entity-IsText, plain-IsText, Sound, snippet_tag-Sound}

has_tag-last : (t : Tag) (tags : List Tag) → has_tag t (tags ++ t ∷ []) ≡ true
unfolding has_tag
has_tag-last tag_b [] = refl
has_tag-last tag_i [] = refl
has_tag-last tag_em [] = refl
has_tag-last tag_span [] = refl
has_tag-last t (u ∷ tags) = ground (arith, has_tag-last t tags)

same_tag_refl : (t : Tag) → same_tag t t ≡ true
same_tag_refl t = ground arith

remove_tag-last :
    (t : Tag) (tags : List Tag) → has_tag t tags ≡ false → remove_tag t (tags ++ t ∷ []) ≡ tags
unfolding remove_tag has_tag
remove_tag-last t [] h = ground (arith, same_tag_refl t)
remove_tag-last t (u ∷ tags) h = ground (arith, remove_tag-last t tags)

-- What PrintClosingTags emits closes every open tag, the last one first.
closes_all :
    (open_last : List Tag)
    → IsOnce (reverse open_last)
    → Snippet (reverse open_last) (flat_map closing_tag open_last) []
unfolding flat_map
closes_all [] h = done
closes_all (t ∷ rest) h =
    let order : reverse (t ∷ rest) ≡ reverse rest ++ t ∷ [] = reverse-cons t rest in
    let once : IsOnce (reverse rest ++ t ∷ []) = rw order at h in
    let gone : has_tag t (reverse rest) ≡ false =
      count-has_tag t (reverse rest)
        (ground (arith, once t, count-append t t (reverse rest), same_tag_refl t)) in
    let later = closes_all rest (λ u. omega (arith, once u, count-append u t (reverse rest))) in
    rw order (
      closes t (has_tag-last t (reverse rest)) refl
        (rw (remove_tag-last t (reverse rest) gone) later))

print_closing_tags-closes :
    (tags : List Tag) → IsOnce tags → Snippet tags (print_closing_tags tags) []
unfolding print_closing_tags
print_closing_tags-closes tags h =
    rw (reverse-reverse tags) at (closes_all (reverse tags) (rw (reverse-reverse tags) h))

ends :
    (fuel : ℕ) (tags : List Tag) (run out : Bytes)
    → Reachable tags
    → Snippet [] (out ++ run) tags
    → Snippet [] (snippet_loop fuel tags run [] out) []
unfolding snippet_loop
ends fuel tags run out r d =
    rw emit_run_lem (Snippet-append d (print_closing_tags-closes tags (Reachable-IsOnce r)))

loop_tag :
    (fuel : ℕ) (tags : List Tag) (run s out : Bytes) (n : ℕ) (after : List Tag)
    → snippet_tag s tags ≡ some (n, after)
    → snippet_loop (suc fuel) tags run (b'<' ∷ s) out
      ≡ snippet_loop fuel after (run ++ take n (b'<' ∷ s)) (drop n (b'<' ∷ s)) out
unfolding snippet_loop
loop_tag fuel tags run s out n after e = rw (e, snippet_loop)

loop_less :
    (fuel : ℕ) (tags : List Tag) (run s out : Bytes)
    → snippet_tag s tags ≡ none
    → snippet_loop (suc fuel) tags run (b'<' ∷ s) out
      ≡ snippet_loop fuel tags [] s ((out ++ run) ++ codes "&lt;")
unfolding snippet_loop
loop_less fuel tags run s out e = rw (e, snippet_loop) (rw emit_run_lem)

loop_entity :
    (fuel : ℕ) (tags : List Tag) (run : Bytes) (c : ℕ) (s out w : Bytes)
    → (c == b'<') ≡ false
    → snippet_entity c s ≡ some w
    → snippet_loop (suc fuel) tags run (c ∷ s) out ≡ snippet_loop fuel tags [] s ((out ++ run) ++ w)
unfolding snippet_loop
loop_entity fuel tags run c s out w ne e = rw (ne, e, snippet_loop) (rw emit_run_lem)

loop_plain :
    (fuel : ℕ) (tags : List Tag) (run : Bytes) (c : ℕ) (s out : Bytes)
    → (c == b'<') ≡ false
    → snippet_entity c s ≡ none
    → snippet_loop (suc fuel) tags run (c ∷ s) out ≡ snippet_loop fuel tags (run ++ c ∷ []) s out
unfolding snippet_loop
loop_plain fuel tags run c s out ne e = rw (ne, e, snippet_loop)

loop-Snippet :
    (fuel : ℕ) (tags : List Tag) (run s out : Bytes)
    → length s ≤ fuel
    → Reachable tags
    → Snippet [] (out ++ run) tags
    → Snippet [] (snippet_loop fuel tags run s out) []
loop-Snippet fuel tags run [] out h r d = ends fuel tags run out r d
loop-Snippet zero tags run (c ∷ s) out h r d = absurd (omega arith)
loop-Snippet (suc fuel) tags run (c ∷ s) out h r d = elim (Bool-cases (c == b'<')) [
  | inl lt ↦
      let c_eq : c ≡ b'<' = ground arith in
      elim (Option-cases (snippet_tag s tags)) [
        | inr ((n, after), e) ↦
            let ok : Sound s tags (some (n, after)) = rw e at (snippet_tag-Sound s tags) in
            let taken = Snippet-append d ok.0 in
            rw (c_eq, loop_tag fuel tags run s out n after e)
              (loop-Snippet fuel after (run ++ take n (b'<' ∷ s)) (drop n (b'<' ∷ s)) out
                (omega (arith, ok.1, length-drop n (b'<' ∷ s))) (ok.2 r)
                (rw (append_assoc out run (take n (b'<' ∷ s))) at taken))
        | inl e ↦
            rw (c_eq, loop_less fuel tags run s out e)
              (loop-Snippet fuel tags [] s ((out ++ run) ++ codes "&lt;") (omega arith) r (
                rw append-nil
                  (Snippet-append d (Snippet-of_text tags (codes "&lt;") (ground arith)))))
      ]
  | inr ne ↦ elim (Option-cases (snippet_entity c s)) [
    | inr (w, e) ↦ rw (loop_entity fuel tags run c s out w ne e) (
        loop-Snippet fuel tags [] s ((out ++ run) ++ w) (omega arith) r
          (rw append-nil (Snippet-append d (Snippet-of_text tags w (entity-IsText c s w e)))))
    | inl e ↦ rw (loop_plain fuel tags run c s out ne e) (
        loop-Snippet fuel tags (run ++ c ∷ []) s out (omega arith) r (
          rw (append_assoc out run (c ∷ [])) at
            (Snippet-append d (text (plain-IsText c s ne e) done))))
  ]
]

-- SnippetEscape emits a well-formed fragment: text bytes, line breaks and permissible tags, each
-- opened where it is not open, closed where it is, and all of them closed at the end.
pub snippet_escape-Snippet : (s : Bytes) → Snippet [] (snippet_escape s) []
unfolding snippet_escape
snippet_escape-Snippet s = loop-Snippet (length s) [] [] s [] (omega arith) none_open done

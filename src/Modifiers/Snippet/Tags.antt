-- ===== src/Modifiers/Snippet/Tags.antt =====
-- The set of unclosed tags of SnippetEscape, and its size.
use ctemplate.Common.{
  ℕ, ◌+◌, ◌<◌, ◌≤◌, List, [], ◌∷◌, ◌++◌, ◌≡◌, refl, true, false, some, arith, if◌then◌else◌, length,
}
use ctemplate.Modifiers.Snippet.{
  Tag, tag_b, tag_i, tag_em, tag_span, same_tag, has_tag, remove_tag, maybe_add, maybe_remove,
}

-- How often each tag is open: at most once.
pub count : Tag → List Tag → ℕ
count t [] = 0
count t (u ∷ tags) = (if same_tag u t then 1 else 0) + count t tags

-- Each tag is open once at most.
abbrev pub IsOnce : List Tag → Type 0
IsOnce tags = (t : Tag) → count t tags ≤ 1

has_tag-count : (t : Tag) (tags : List Tag) → has_tag t tags ≡ false → count t tags ≡ 0
unfolding has_tag count
has_tag-count t [] h = refl
has_tag-count t (u ∷ tags) h = ground (arith, has_tag-count t tags)

pub count-has_tag : (t : Tag) (tags : List Tag) → count t tags ≡ 0 → has_tag t tags ≡ false
unfolding has_tag count
count-has_tag t [] h = refl
count-has_tag t (u ∷ tags) h = ground (arith, count-has_tag t tags)

pub count-append :
    (t u : Tag) (tags : List Tag)
    → count t (tags ++ u ∷ []) ≡ count t tags + (if same_tag u t then 1 else 0)
unfolding count
count-append t u [] = omega arith
count-append t u (v ∷ tags) = omega (arith, count-append t u tags)

same_tag_eq : (u t : Tag) → same_tag u t ≡ true → u ≡ t
same_tag_eq tag_b t h = ground arith
same_tag_eq tag_i t h = ground arith
same_tag_eq tag_em t h = ground arith
same_tag_eq tag_span t h = ground arith

count-remove_tag : (t u : Tag) (tags : List Tag) → count t (remove_tag u tags) ≤ count t tags
unfolding count remove_tag
count-remove_tag t u [] = omega arith
count-remove_tag t u (v ∷ tags) = ground (arith, count-remove_tag t u tags)

maybe_add-IsOnce :
    (t : Tag) (tags : List Tag) {after : List Tag}
    → IsOnce tags
    → maybe_add t tags ≡ some after
    → IsOnce after
unfolding maybe_add
maybe_add-IsOnce t tags once e u =
    ground (arith, once u, has_tag-count t tags, count-append u t tags, same_tag_eq t u)

maybe_remove-IsOnce :
    (t : Tag) (tags : List Tag) {after : List Tag}
    → IsOnce tags
    → maybe_remove t tags ≡ some after
    → IsOnce after
unfolding maybe_remove
maybe_remove-IsOnce t tags once e u = ground (arith, once u, count-remove_tag u t tags)

length-count :
    (tags : List Tag)
    → length tags ≡ count tag_b tags + count tag_i tags + count tag_em tags + count tag_span tags
unfolding count
length-count [] = omega arith
length-count (tag_b ∷ tags) = omega (arith, length-count tags)
length-count (tag_i ∷ tags) = omega (arith, length-count tags)
length-count (tag_em ∷ tags) = omega (arith, length-count tags)
length-count (tag_span ∷ tags) = omega (arith, length-count tags)

-- The sets that MaybeAdd and MaybeRemove lead to from the empty one.
pub data Reachable : List Tag → Type 0 where
  none_open : Reachable []
  added :
      {tags after : List Tag} (t : Tag)
      → Reachable tags
      → maybe_add t tags ≡ some after
      → Reachable after
  removed :
      {tags after : List Tag} (t : Tag)
      → Reachable tags
      → maybe_remove t tags ≡ some after
      → Reachable after

pub Reachable-IsOnce : {tags : List Tag} → Reachable tags → IsOnce tags
Reachable-IsOnce none_open t = unfold count in omega arith
Reachable-IsOnce (added {tags} t r e) u = maybe_add-IsOnce t tags (Reachable-IsOnce r) e u
Reachable-IsOnce (removed {tags} t r e) u = maybe_remove-IsOnce t tags (Reachable-IsOnce r) e u

-- Whatever MaybeAdd and MaybeRemove are called with, four tags are open at most, so that the array
-- of five bytes has room for them and the NUL.
pub Reachable-length : (tags : List Tag) → Reachable tags → length tags < 5
Reachable-length tags r =
    let once = Reachable-IsOnce r in
    omega (arith, length-count tags, once tag_b, once tag_i, once tag_em, once tag_span)

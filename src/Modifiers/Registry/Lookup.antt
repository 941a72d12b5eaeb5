-- ===== src/Modifiers/Registry/Lookup.antt =====
-- FindModifier, called twice with the same name.
use ctemplate.Common.{
  List, [], ◌∷◌, ◌++◌, ◌≡◌, ◌≢◌, inl, inr, refl, ◌∙◌, Option, none, some, arith, Bytes, equal_refl,
  All, Option-cases, append-nil,
}
use ctemplate.Modifiers.Registry.{
  xss_unique, ModifierInfo, is_empty, c_str, modifier_info, before_equals, from_equals,
  matches_value, matches_plain, update_best_match, best_match, Registry, find_extension,
}
use ctemplate.Modifiers.Registry.Builtin.{find_modifier}

-- The modifier's value, as the template's parser hands it over: empty, or from the `=` on.
pub data IsValue : Bytes → Type 0 where
  no_value : IsValue []
  with_value : (s : Bytes) → IsValue (b'=' ∷ s)

-- A name as it can stand in front of a value: no `=` and no NUL in it.
abbrev pub IsName : Bytes → Type 0
IsName = All (λ c. (c ≢ b'=') × (c ≢ 0))

before_equals-append :
    (name value : Bytes) → IsName name → IsValue value → before_equals (name ++ value) ≡ name
unfolding before_equals
before_equals-append [] _ h no_value = refl
before_equals-append [] _ h (with_value s) = refl
before_equals-append (c ∷ name) value h v = ground (arith, before_equals-append name value h.1 v)

from_equals-append :
    (name value : Bytes) → IsName name → IsValue value → from_equals (name ++ value) ≡ value
unfolding from_equals
from_equals-append [] _ h no_value = refl
from_equals-append [] _ h (with_value s) = refl
from_equals-append (c ∷ name) value h v = ground (arith, from_equals-append name value h.1 v)

best_match-append :
    (modname modval : Bytes) (best : Option ModifierInfo) (mods : List ModifierInfo)
    (m : ModifierInfo)
    → best_match modname modval best (mods ++ m ∷ [])
      ≡ update_best_match modname modval m (best_match modname modval best mods)
unfolding best_match
best_match-append modname modval best [] m = refl
best_match-append modname modval best (x ∷ mods) m =
    best_match-append modname modval (update_best_match modname modval x best) mods m

-- Whether `strchr` finds the `=` of a name with its value.
from_equals-c_str :
    (name value : Bytes)
    → IsName name
    → IsValue value
    → is_empty (from_equals (c_str (name ++ value))) ≡ is_empty value
unfolding from_equals c_str
from_equals-c_str [] _ h no_value = refl
from_equals-c_str [] _ h (with_value s) = refl
from_equals-c_str (c ∷ name) value h v = ground (arith, from_equals-c_str name value h.1 v)

unknown : Bytes → Bytes → ModifierInfo
unknown modname modval = modifier_info (modname ++ modval) 0 xss_unique none

-- The entry for an unknown name matches that name.
update-unknown :
    (modname modval : Bytes)
    → IsName modname
    → IsValue modval
    → update_best_match modname modval (unknown modname modval) none ≡ some (unknown modname modval)
unfolding update_best_match unknown modifier_info matches_value matches_plain
update-unknown modname _ h no_value =
    let plain = from_equals-c_str modname [] h no_value in
    rw (append-nil modname) (ground (arith, rw (append-nil modname) at plain, equal_refl modname))
update-unknown modname _ h (with_value s) = ground (
  arith,
  from_equals-c_str modname (b'=' ∷ s) h (with_value s),
  from_equals-append modname (b'=' ∷ s) h (with_value s),
  before_equals-append modname (b'=' ∷ s) h (with_value s),
  equal_refl modname,
  equal_refl (b'=' ∷ s),
)

module _ (modname modval : Bytes) where
  find_registered :
      (r : Registry) (m : ModifierInfo)
      → best_match modname modval none r.extension_modifiers ≡ some m
      → find_extension modname modval r ≡ (m, r)
  unfolding find_extension
  find_registered r m e = rw (e, find_extension)

  find_seen :
      (r : Registry) (m : ModifierInfo)
      → best_match modname modval none r.extension_modifiers ≡ none
      → best_match modname modval none r.unknown_modifiers ≡ some m
      → find_extension modname modval r ≡ (m, r)
  unfolding find_extension
  find_seen r m e f = rw (e, find_extension) (rw (f, find_extension))

  abbrev pub with_unknown : Registry → Registry
  with_unknown r = record r {
    unknown_modifiers =
        r.unknown_modifiers ++ modifier_info (modname ++ modval) 0 xss_unique none ∷ [];
  }

  find_new :
      (r : Registry)
      → best_match modname modval none r.extension_modifiers ≡ none
      → best_match modname modval none r.unknown_modifiers ≡ none
      → find_extension modname modval r ≡ (unknown modname modval, with_unknown r)
  unfolding find_extension unknown
  find_new r e f = rw (e, find_extension) (rw (f, find_extension))

  -- The same name, looked up again in what a first lookup leaves, is found there and adds nothing.
  find_extension_twice :
      (r : Registry)
      → IsName modname
      → IsValue modval
      → find_extension modname modval (find_extension modname modval r).1
        ≡ find_extension modname modval r
  find_extension_twice r h v =
      elim (Option-cases (best_match modname modval none r.extension_modifiers)) [
        | inr (m, e) ↦ let found = find_registered r m e in rw found found
        | inl e ↦ elim (Option-cases (best_match modname modval none r.unknown_modifiers)) [
          | inr (m, f) ↦ let found = find_seen r m e f in rw found found
          | inl f ↦
              let again : best_match modname modval none (with_unknown r).unknown_modifiers
                  ≡ some (unknown modname modval) =
                unfold unknown in
                best_match-append modname modval none r.unknown_modifiers _
                ∙ rw f (update-unknown modname modval h v) in
              rw (find_new r e f) (find_seen (with_unknown r) _ e again)
        ]
      ]

-- A modifier looked up again is the one found before, and the second lookup registers nothing: an
-- unknown name is recorded once. The name holds no `=` and no NUL, and the value is empty or starts
-- with a `=`.
pub find_modifier_twice :
    (modname modval : Bytes) (r : Registry)
    → IsName modname
    → IsValue modval
    → find_modifier modname modval (find_modifier modname modval r).1
      ≡ find_modifier modname modval r
unfolding find_modifier
find_modifier_twice modname modval r h v = ground (arith, find_extension_twice modname modval r h v)

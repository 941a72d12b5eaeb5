-- ===== src/Modifiers/Registry/Extensions.antt =====
-- AddModifierCommon and the consistency of the registry.
use ctemplate.Common.{
  List, [], ◌∷◌, ◌++◌, ◌≡◌, ◌≢◌, ◌⊎◌, inl, inr, refl, Bool, true, false, some, arith, Bytes,
  if◌then◌else◌, equal, equal_refl, equal_iff, sym, subst, All, All-append, Bool-cases,
}
use ctemplate.Modifiers.Registry.{
  xss_unique, xss_safe, TemplateModifier, ModifierInfo, modifier_info, is_empty, before_equals,
  from_equals, Registry, is_extension_modifier, conflicts, any_conflicts, add_modifier_common,
}

-- Two names can be registered side by side if they differ in front of the `=`, or if both have a
-- `=` and they are not the same.
abbrev pub AreCompatible : Bytes → Bytes → Type 0
AreCompatible a b =
    (before_equals a ≢ before_equals b) ⊎ ((from_equals a ≢ []) × (from_equals b ≢ []) × (a ≢ b))

-- Every registered modifier is compatible with those registered behind it.
abbrev pub AreDistinct : List ModifierInfo → Type 0
AreDistinct [] = Unit
AreDistinct (m ∷ mods) = All (λ n. AreCompatible m.long_name n.long_name) mods × AreDistinct mods

unequal : (s t : Bytes) → equal s t ≡ false → t ≢ s
unequal s t h e =
    (let same : equal s t ≡ true = subst (λ u. equal s u ≡ true) (sym e) (equal_refl s) in cc)

filled : (s : Bytes) → is_empty s ≡ false → s ≢ []
filled s h e = (let empty : is_empty s ≡ true = rw e refl in cc)

-- A name that is in no conflict with a registered one can stand beside it.
conflicts-AreCompatible :
    (long_name : Bytes) (m : ModifierInfo)
    → conflicts long_name m ≡ false
    → AreCompatible m.long_name long_name
unfolding conflicts
conflicts-AreCompatible long_name m h =
    elim (Bool-cases (equal (before_equals long_name) (before_equals m.long_name))) [
      | inr differ ↦ inl (unequal (before_equals long_name) (before_equals m.long_name) differ)
      | inl same ↦ inr (
        filled (from_equals m.long_name) (ground (arith, h, same)),
        filled (from_equals long_name) (ground (arith, h, same)),
        (λ e. unequal m.long_name long_name (ground (arith, h, same)) (sym e)),
      )
    ]

pub record IsValid (r : Registry) : Type 0 where
  pub distinct : AreDistinct r.extension_modifiers
  pub named : All (λ m. is_extension_modifier m.long_name ≡ true) r.extension_modifiers

AreDistinct-append :
    (mods : List ModifierInfo) (n : ModifierInfo)
    → AreDistinct mods
    → any_conflicts n.long_name mods ≡ false
    → AreDistinct (mods ++ n ∷ [])
unfolding any_conflicts
AreDistinct-append [] n d h = (tt, tt)
AreDistinct-append (m ∷ mods) n d h = (
  All-append (λ k. AreCompatible m.long_name k.long_name) mods (n ∷ []) d.0
      (conflicts-AreCompatible n.long_name m (ground arith), tt),
  AreDistinct-append mods n d.1 (ground arith),
)

new_modifier : Bytes → TemplateModifier → Bool → ModifierInfo
new_modifier long_name m is_safe =
    modifier_info long_name 0 (if is_safe then xss_safe else xss_unique) (some m)

new_modifier-name :
    (long_name : Bytes) (m : TemplateModifier) (is_safe : Bool)
    → (new_modifier long_name m is_safe).long_name ≡ long_name
unfolding new_modifier modifier_info
new_modifier-name long_name m is_safe = refl

abbrev with_extension : Registry → ModifierInfo → Registry
with_extension r n = record r { extension_modifiers = r.extension_modifiers ++ n ∷ [] }

with_extension-IsValid :
    (r : Registry) (n : ModifierInfo)
    → IsValid r
    → is_extension_modifier n.long_name ≡ true
    → any_conflicts n.long_name r.extension_modifiers ≡ false
    → IsValid (with_extension r n)
with_extension-IsValid r n v e f = record {
  distinct = AreDistinct-append r.extension_modifiers n v.distinct f;
  named =
      All-append (λ m. is_extension_modifier m.long_name ≡ true) r.extension_modifiers (n ∷ [])
        v.named (e, tt);
}

add-IsValid :
    (long_name : Bytes) (m : TemplateModifier) (is_safe : Bool) (r : Registry)
    → IsValid r
    → IsValid (add_modifier_common long_name m is_safe r).0
unfolding add_modifier_common new_modifier
add-IsValid long_name m is_safe r v = elim (Bool-cases (is_extension_modifier long_name)) [
  | inr e ↦ rw e v
  | inl e ↦ elim (Bool-cases (any_conflicts long_name r.extension_modifiers)) [
    | inl f ↦ rw (e, f) v
    | inr f ↦
        let name = new_modifier-name long_name m is_safe in
        rw (e, f)
          (with_extension-IsValid r (new_modifier long_name m is_safe) v (rw name e) (rw name f))
  ]
]

self_conflict :
    (long_name : Bytes) (mods : List ModifierInfo) (n : ModifierInfo)
    → n.long_name ≡ long_name
    → any_conflicts long_name (mods ++ n ∷ []) ≡ true
unfolding any_conflicts conflicts
self_conflict long_name [] n e =
    rw e (ground (arith, equal_refl long_name, equal_refl (before_equals long_name)))
self_conflict long_name (m ∷ mods) n e = ground (arith, self_conflict long_name mods n e)

add_twice :
    (long_name : Bytes) (m n : TemplateModifier) (s t : Bool) (r : Registry)
    → add_modifier_common long_name n t (add_modifier_common long_name m s r).0
      ≡ ((add_modifier_common long_name m s r).0, false)
unfolding add_modifier_common new_modifier
add_twice long_name m n s t r = elim (Bool-cases (is_extension_modifier long_name)) [
  | inr e ↦ rw e
  | inl e ↦ elim (Bool-cases (any_conflicts long_name r.extension_modifiers)) [
    | inl f ↦ rw (e, f) (rw f)
    | inr f ↦
        let clash =
          self_conflict long_name r.extension_modifiers (new_modifier long_name m s)
            (new_modifier-name long_name m s) in
        rw (e, f) (rw clash)
  ]
]

abbrev pub IsFree : Bytes → List ModifierInfo → Type 0
IsFree long_name = All (λ m. AreCompatible m.long_name long_name)

not-is_empty : (s : Bytes) → s ≢ [] → is_empty s ≡ false
not-is_empty [] h = absurd (h refl)
not-is_empty (c ∷ s) h = refl

incompatible :
    (long_name : Bytes) (m : ModifierInfo)
    → conflicts long_name m ≡ true
    → ¬ AreCompatible m.long_name long_name
unfolding conflicts
incompatible long_name m h (inl differ) =
    differ (
      sym ((equal_iff (before_equals long_name) (before_equals m.long_name)).0 (ground (arith, h))))
incompatible long_name m h (inr (value, new_value, differ)) =
    let kept : is_empty (from_equals m.long_name) ≡ false = not-is_empty _ value in
    let kept_new : is_empty (from_equals long_name) ≡ false = not-is_empty _ new_value in
    differ ((equal_iff m.long_name long_name).0 (ground (arith, h, kept, kept_new)))

taken :
    (long_name : Bytes) (mods : List ModifierInfo)
    → any_conflicts long_name mods ≡ true
    → ¬ IsFree long_name mods
unfolding any_conflicts
taken long_name [] h free = cc
taken long_name (m ∷ mods) h (c, free) = elim (Bool-cases (conflicts long_name m)) [
  | inl e ↦ incompatible long_name m e c
  | inr e ↦ taken long_name mods (rw e at h) free
]

free :
    (long_name : Bytes) (mods : List ModifierInfo)
    → any_conflicts long_name mods ≡ false
    → IsFree long_name mods
unfolding any_conflicts
free long_name [] h = tt
free long_name (m ∷ mods) h = (
  conflicts-AreCompatible long_name m (ground (arith, h)),
  free long_name mods (ground (arith, h)),
)

-- The name starts with `x-` and is compatible with all that are registered, and the modifier joins
-- them; or one of the two fails, and nothing changes.
abbrev pub Answers : Bytes → TemplateModifier → Bool → Registry → Registry × Bool → Type 0
Answers long_name m is_safe r (after, added) =
    ((added ≡ true)
      × (is_extension_modifier long_name ≡ true)
      × IsFree long_name r.extension_modifiers
      × (after
          ≡ with_extension r
              (modifier_info long_name 0 (if is_safe then xss_safe else xss_unique) (some m))))
    ⊎ ((added ≡ false)
        × (after ≡ r)
        × ((is_extension_modifier long_name ≡ false) ⊎ (¬ IsFree long_name r.extension_modifiers)))

add-Answers :
    (long_name : Bytes) (m : TemplateModifier) (is_safe : Bool) (r : Registry)
    → Answers long_name m is_safe r (add_modifier_common long_name m is_safe r)
unfolding add_modifier_common
add-Answers long_name m is_safe r = elim (Bool-cases (is_extension_modifier long_name)) [
  | inr e ↦ rw e (inr (refl, refl, inl refl))
  | inl e ↦ elim (Bool-cases (any_conflicts long_name r.extension_modifiers)) [
    | inl f ↦ rw (e, f) (inr (refl, refl, inr (taken long_name r.extension_modifiers f)))
    | inr f ↦ rw (e, f) (inl (refl, refl, free long_name r.extension_modifiers f, refl))
  ]
]

-- A name is registered just where it starts with `x-` and is compatible with every name that is
-- registered: it differs from it in front of the `=`, or both have a `=` and they are not the same;
-- else nothing changes. Either way the registry stays valid, and after it the same name is refused
-- and changes nothing, whichever modifier and safety are offered with it.
pub add_modifier_common-IsValid :
    (long_name : Bytes) (m n : TemplateModifier) (s t : Bool) (r : Registry)
    → IsValid r
    → Answers long_name m s r (add_modifier_common long_name m s r)
      × IsValid (add_modifier_common long_name m s r).0
      × (add_modifier_common long_name n t (add_modifier_common long_name m s r).0
          ≡ ((add_modifier_common long_name m s r).0, false))
add_modifier_common-IsValid long_name m n s t r v =
    (add-Answers long_name m s r, add-IsValid long_name m s r v, add_twice long_name m n s t r)

-- ===== src/Template/Matching.antt =====
-- The loops of FindLongestMatch.
use mathlib.Core.List.{reverse-append, reverse-cons}
use ctemplate.Common.{
  ℕ, suc, ◌-◌, ◌≤◌, List, [], ◌∷◌, ◌++◌, true, false, ◌==◌, length, drop, take, reverse, ◌≡◌, refl,
  sym, ap, subst, ◌∙◌, inl, inr, Bool-cases, arith, length-append, take-append-drop, length-drop,
}
use ctemplate.Modifiers.Registry.{ModifierInfo, address, xss_unique}
use ctemplate.Modifiers.Registry.Builtin.{is_safe_xss_alternative}
use ctemplate.Template.{ModifierAndValue, matches_from_end, longest_prefix, infos_of, same_class}

pub is_safe_xss_alternative_refl : (m : ModifierInfo) → is_safe_xss_alternative m m ≡ true
unfolding is_safe_xss_alternative
is_safe_xss_alternative_refl m =
    let same : (address m.modifier == address m.modifier) ≡ true = ground arith in rw same refl

-- The same modifiers at the ends of both vectors are matched with each other.
pub matches-append :
    (p auto man : List ModifierInfo)
    → matches_from_end (p ++ auto) (p ++ man) ≡ matches_from_end auto man
unfolding matches_from_end
matches-append [] auto man = refl
matches-append (m ∷ p) auto man =
    rw (is_safe_xss_alternative_refl m, matches_from_end) (matches-append p auto man)

longest_prefix_bound : (auto man : List ModifierInfo) → longest_prefix auto man ≤ length auto
unfolding longest_prefix
longest_prefix_bound [] man = omega arith
longest_prefix_bound (a ∷ auto) man = elim (Bool-cases (matches_from_end (a ∷ auto) man)) [
  | inl e ↦ rw (e, longest_prefix) (omega arith)
  | inr e ↦ rw (e, longest_prefix) (omega (arith, longest_prefix_bound auto man))
]

-- The prefix found is matched.
pub longest_prefix-matches :
    (auto man : List ModifierInfo)
    → matches_from_end (drop (length auto - longest_prefix auto man) auto) man ≡ true
unfolding longest_prefix matches_from_end
longest_prefix-matches [] man = refl
longest_prefix-matches (a ∷ auto) man = elim (Bool-cases (matches_from_end (a ∷ auto) man)) [
  | inl e ↦
      let none_left : suc (length auto) - suc (length auto) ≡ 0 = omega arith in
      rw (e, longest_prefix)
        (subst (λ n. matches_from_end (drop n (a ∷ auto)) man ≡ true) (sym none_left) e)
  | inr e ↦
      let one_more : suc (length auto) - longest_prefix auto man
          ≡ suc (length auto - longest_prefix auto man) =
        omega (arith, longest_prefix_bound auto man) in
      rw (e, longest_prefix)
        (subst (λ n. matches_from_end (drop n (a ∷ auto)) man ≡ true) (sym one_more)
          (longest_prefix-matches auto man))
]

pub full-longest_prefix :
    (auto man : List ModifierInfo)
    → matches_from_end auto man ≡ true
    → longest_prefix auto man ≡ length auto
unfolding longest_prefix
full-longest_prefix [] man e = refl
full-longest_prefix (a ∷ auto) man e = rw (e, longest_prefix) refl

pub infos_of-append : (s t : List ModifierAndValue) → infos_of (s ++ t) ≡ infos_of s ++ infos_of t
unfolding infos_of
infos_of-append [] t = refl
infos_of-append (m ∷ s) t = rw (infos_of-append s t)

pub length-infos_of : (s : List ModifierAndValue) → length (infos_of s) ≡ length s
unfolding infos_of
length-infos_of [] = refl
length-infos_of (m ∷ s) = omega (arith, length-infos_of s)

module _ {A : Type 0} where
  pub length-reverse : (s : List A) → length (reverse s) ≡ length s
  length-reverse [] = refl
  length-reverse (a ∷ s) =
      ap length (reverse-cons a s)
      ∙ omega (arith, length-append (reverse s) (a ∷ []), length-reverse s)

  drop-front : (p q : List A) → drop (length p) (p ++ q) ≡ q
  drop-front [] q = refl
  drop-front (a ∷ p) q = drop-front p q

  pub reverse-split : (n : ℕ) (s : List A) → reverse s ≡ reverse (drop n s) ++ reverse (take n s)
  reverse-split n s = ap reverse (sym (take-append-drop n s)) ∙ reverse-append (take n s) (drop n s)

  -- The end of a reversed vector is the reversed front.
  pub drop-reverse :
      (n : ℕ) (s : List A) → drop (length (reverse s) - n) (reverse s) ≡ reverse (take n s)
  drop-reverse n s =
      let front : length (reverse s) - n ≡ length (reverse (drop n s)) =
        omega (arith, length-reverse s, length-reverse (drop n s), length-drop n s) in
      ap (λ k. drop k (reverse s)) front
      ∙ ap (drop (length (reverse (drop n s)))) (reverse-split n s)
      ∙ drop-front (reverse (drop n s)) (reverse (take n s))

-- The modifiers of `auto` stand in `man`, both read from their ends: each as itself or as one of
-- its safe alternatives, with nothing between them but modifiers of the class of the next one.
pub data Covers : List ModifierInfo → List ModifierInfo → Type 0 where
  all_found : (man : List ModifierInfo) → Covers [] man
  found :
      (a m : ModifierInfo) (auto man : List ModifierInfo)
      → is_safe_xss_alternative a m ≡ true
      → Covers auto man
      → Covers (a ∷ auto) (m ∷ man)
  passed :
      (a m : ModifierInfo) (auto man : List ModifierInfo)
      → same_class m.xss_class a.xss_class ≡ true
      → same_class m.xss_class xss_unique ≡ false
      → Covers (a ∷ auto) man
      → Covers (a ∷ auto) (m ∷ man)

pub matched-Covers :
    (auto man : List ModifierInfo) → matches_from_end auto man ≡ true → Covers auto man
unfolding matches_from_end
matched-Covers [] man e = all_found man
matched-Covers (a ∷ auto) [] e = absurd cc
matched-Covers (a ∷ auto) (m ∷ man) e = elim (Bool-cases (is_safe_xss_alternative a m)) [
  | inl f ↦ found a m auto man f (matched-Covers auto man (rw (f, matches_from_end) at e))
  | inr f ↦ elim (Bool-cases (same_class m.xss_class a.xss_class)) [
    | inr g ↦ absurd (let never : false ≡ true = rw (f, g, matches_from_end) at e in cc)
    | inl g ↦ elim (Bool-cases (same_class m.xss_class xss_unique)) [
      | inl k ↦ absurd (let never : false ≡ true = rw (f, g, k, matches_from_end) at e in cc)
      | inr k ↦
          passed a m auto man g k
            (matched-Covers (a ∷ auto) man (rw (f, g, k, matches_from_end) at e))
    ]
  ]
]

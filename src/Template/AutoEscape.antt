-- ===== src/Template/AutoEscape.antt =====
-- UpdateModifier and the modifiers that auto-escaping asks for.
use mathlib.Core.List.{reverse-append}
use ctemplate.Common.{
  ℕ, zero, suc, ◌-◌, List, [], ◌∷◌, ◌++◌, append-nil, true, ◌==◌, length, drop, take, reverse, ◌≡◌,
  refl, sym, ap, subst, ◌∙◌, ◌⊎◌, inl, inr, Bool-cases, arith,
}
use ctemplate.Modifiers.Registry.{ModifierInfo}
use ctemplate.Template.{
  ModifierAndValue, matches_from_end, longest_prefix, infos_of, find_longest_match, any_safe,
  update_modifier,
}
use ctemplate.Template.Matching.{
  matches-append, longest_prefix-matches, full-longest_prefix, infos_of-append, length-infos_of,
  length-reverse, reverse-split, drop-reverse, Covers, matched-Covers,
}

module _ (auto : List ModifierAndValue) where
  -- All modifiers that auto-escaping asks for are found at the end of a vector.
  abbrev IsFull : List ModifierAndValue → Type 0
  IsFull man = find_longest_match man auto ≡ length auto

  matched-IsFull :
      (man : List ModifierAndValue)
      → matches_from_end (reverse (infos_of auto)) (reverse (infos_of man)) ≡ true
      → IsFull man
  unfolding find_longest_match
  matched-IsFull man e =
      full-longest_prefix (reverse (infos_of auto)) (reverse (infos_of man)) e
      ∙ length-reverse (infos_of auto)
      ∙ length-infos_of auto

  auto-IsFull : IsFull auto
  unfolding matches_from_end
  auto-IsFull = matched-IsFull auto (
      ap (λ s. matches_from_end s s) (sym (append-nil (reverse (infos_of auto))))
      ∙ matches-append (reverse (infos_of auto)) [] [])

  module _ (man : List ModifierAndValue) where
    abbrev longest : ℕ
    longest = find_longest_match man auto

    prefix_matched :
        matches_from_end (reverse (take longest (infos_of auto))) (reverse (infos_of man)) ≡ true
    unfolding find_longest_match
    prefix_matched =
        subst (λ s. matches_from_end s (reverse (infos_of man)) ≡ true)
          (drop-reverse longest (infos_of auto))
          (longest_prefix-matches (reverse (infos_of auto)) (reverse (infos_of man)))

    infos_of-drop : (n : ℕ) (s : List ModifierAndValue) → infos_of (drop n s) ≡ drop n (infos_of s)
    unfolding infos_of
    infos_of-drop zero s = refl
    infos_of-drop (suc n) [] = refl
    infos_of-drop (suc n) (m ∷ s) = infos_of-drop n s

    completed-IsFull : IsFull (man ++ drop longest auto)
    completed-IsFull = matched-IsFull (man ++ drop longest auto) (
        let missing = reverse (drop longest (infos_of auto)) in
        ap (λ s. matches_from_end s (reverse (infos_of (man ++ drop longest auto))))
          (reverse-split longest (infos_of auto))
        ∙ ap (matches_from_end (missing ++ reverse (take longest (infos_of auto)))) (
            ap reverse (
              infos_of-append man (drop longest auto)
              ∙ ap (λ s. infos_of man ++ s) (infos_of-drop longest auto))
            ∙ reverse-append (infos_of man) (drop longest (infos_of auto)))
        ∙ matches-append missing (reverse (take longest (infos_of auto))) (reverse (infos_of man))
        ∙ prefix_matched)

    completed-cases :
        (m : ModifierAndValue) (rest : List ModifierAndValue)
        → man ≡ m ∷ rest
        → (any_safe (update_modifier (m ∷ rest) auto) ≡ true)
          ⊎ IsFull (update_modifier (m ∷ rest) auto)
    unfolding update_modifier
    completed-cases m rest here = elim (Bool-cases (any_safe (m ∷ rest))) [
      | inl e ↦ inl (rw (e, update_modifier) e)
      | inr e ↦ elim (Bool-cases (find_longest_match (m ∷ rest) auto == length auto)) [
        | inl f ↦
            let full : find_longest_match (m ∷ rest) auto ≡ length auto = ground arith in
            inr (rw (e, f, update_modifier) full)
        | inr f ↦ inr (
            rw (e, f, update_modifier)
              (subst (λ s. IsFull (s ++ drop (find_longest_match s auto) auto)) here
                completed-IsFull))
      ]
    ]

  updated-cases :
      (man : List ModifierAndValue)
      → (any_safe (update_modifier man auto) ≡ true) ⊎ IsFull (update_modifier man auto)
  unfolding update_modifier
  updated-cases [] = inr auto-IsFull
  updated-cases (m ∷ rest) = completed-cases (m ∷ rest) m rest refl

longest_prefix-nil : (auto : List ModifierInfo) → longest_prefix auto [] ≡ 0
unfolding longest_prefix matches_from_end
longest_prefix-nil [] = refl
longest_prefix-nil (a ∷ auto) = longest_prefix-nil auto

settled :
    (auto man : List ModifierAndValue)
    → (any_safe man ≡ true) ⊎ IsFull auto man
    → update_modifier man auto ≡ man
unfolding update_modifier any_safe find_longest_match infos_of
settled auto [] (inl e) = absurd cc
settled [] [] (inr e) = refl
settled (a ∷ auto) [] (inr e) =
    absurd (omega (arith, e, longest_prefix-nil (reverse (infos_of (a ∷ auto)))))
settled auto (m ∷ man) (inl e) = rw (e, update_modifier) refl
settled auto (m ∷ man) (inr e) =
    let same : (find_longest_match (m ∷ man) auto == length auto) ≡ true = ground arith in
    elim (Bool-cases (any_safe (m ∷ man))) [
      | inl f ↦ rw (f, update_modifier) refl
      | inr f ↦ rw (f, same, update_modifier) refl
    ]

full-matched :
    (auto man : List ModifierAndValue)
    → IsFull auto man
    → matches_from_end (reverse (infos_of auto)) (reverse (infos_of man)) ≡ true
unfolding find_longest_match
full-matched auto man e =
    let ra = reverse (infos_of auto) in
    let rm = reverse (infos_of man) in
    let whole : length ra - longest_prefix ra rm ≡ 0 =
      omega (arith, e, length-reverse (infos_of auto), length-infos_of auto) in
    subst (λ n. matches_from_end (drop n ra) rm ≡ true) whole (longest_prefix-matches ra rm)

appended :
    (modvals auto : List ModifierAndValue)
    → (added : List ModifierAndValue) × (update_modifier modvals auto ≡ modvals ++ added)
unfolding update_modifier
appended [] auto = (auto, refl)
appended (m ∷ modvals) auto = elim (Bool-cases (any_safe (m ∷ modvals))) [
  | inl e ↦ ([], rw (e, update_modifier) (sym (append-nil (m ∷ modvals))))
  | inr e ↦ elim (Bool-cases (find_longest_match (m ∷ modvals) auto == length auto)) [
    | inl f ↦ ([], rw (e, f, update_modifier) (sym (append-nil (m ∷ modvals))))
    | inr f ↦ (drop (find_longest_match (m ∷ modvals) auto) auto, rw (e, f, update_modifier) refl)
  ]
]

-- UpdateModifier keeps the modifiers of the template in front; behind it one of them is declared
-- XSS-safe, or the modifiers that auto-escaping asks for all stand in the token's, in their order
-- and at its end, but for safe alternatives and for modifiers of the same class between them; and
-- to update the token again changes nothing.
pub update_modifier-Covers :
    (modvals auto : List ModifierAndValue)
    → ((any_safe (update_modifier modvals auto) ≡ true)
        ⊎ Covers (reverse (infos_of auto)) (reverse (infos_of (update_modifier modvals auto))))
      × (update_modifier (update_modifier modvals auto) auto ≡ update_modifier modvals auto)
      × ((added : List ModifierAndValue) × (update_modifier modvals auto ≡ modvals ++ added))
update_modifier-Covers modvals auto = (
  elim (updated-cases auto modvals) [
    | inl e ↦ inl e
    | inr e ↦ inr (matched-Covers _ _ (full-matched auto (update_modifier modvals auto) e))
  ],
  settled auto (update_modifier modvals auto) (updated-cases auto modvals),
  appended modvals auto,
)

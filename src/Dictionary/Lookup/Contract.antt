-- ===== src/Dictionary/Lookup/Contract.antt =====
-- What Expand relies on when it asks a dictionary for an iterator or for a file name.
use ctemplate.Common.{
  ℕ, zero, suc, ◌<◌, ◌≤◌, ◌≡◌, ◌≢◌, refl, sym, ap, ◌∙◌, Option, none, some, arith, inl, inr,
  Option-cases, Bool-cases, ◌⊎◌, true, List, [], ◌∷◌, false, Bytes, All, length,
}
use ctemplate.Dictionary.{TemplateString, Map, find_in, Dict, Heap, template_globals}
use ctemplate.Dictionary.Lookup.{
  search_up, or_globals, sections_of, includes_of, is_none, is_hidden_section, is_hidden_template,
  create_section_iterator, create_template_iterator, element, get_include_template_name,
}
use ctemplate.Dictionary.Lookup.Chain.{parent_below, search-within}
use ctemplate.Dictionary.Valid.{IfSome, AllValues, IsChild, AreChildren, IsValid, owner_of}
use ctemplate.Dictionary.Valid.Preserved.{find_ptr-AllValues}
use ctemplate.Dictionary.Valid.Globals.{globals_made}

-- Dictionaries that are made, one at least.
abbrev pub AreMade : Heap → List ℕ → Type 0
AreMade h dicts = (dicts ≢ []) × All (λ c. c < h.next) dicts

-- A file name for every number below `n`.
abbrev pub HasNamesBelow : Heap → ℕ → TemplateString → ℕ → Type 0
HasNamesBelow h d name zero = Unit {0}
HasNamesBelow h d name (suc n) =
    ((filename : Bytes) × (get_include_template_name h d name n ≡ some filename))
    × HasNamesBelow h d name n

-- A section is hidden and has no iterator, or is shown and has one.
abbrev pub SectionContract : Heap → ℕ → TemplateString → Type 0
SectionContract h d name =
    ((is_hidden_section h d name ≡ true) × (create_section_iterator h d name ≡ none))
    ⊎ ((is_hidden_section h d name ≡ false)
        × ((dicts : List ℕ) × ((create_section_iterator h d name ≡ some dicts) × AreMade h dicts)))

-- An include is hidden and has no iterator, or is shown and has one, and names for what it has.
abbrev pub IncludeContract : Heap → ℕ → TemplateString → Type 0
IncludeContract h d name =
    ((is_hidden_template h d name ≡ true) × (create_template_iterator h d name ≡ none))
    ⊎ ((is_hidden_template h d name ≡ false)
        × ((dicts : List ℕ) × ((create_template_iterator h d name ≡ some dicts)
              × (AreMade h dicts × HasNamesBelow h d name (length dicts)))))

All-made :
    (h : Heap) (d owner : ℕ) (parent : Option ℕ) (dicts : List ℕ)
    → All (IsChild h d owner parent) dicts
    → All (λ c. c < h.next) dicts
All-made h d owner parent [] all = tt
All-made h d owner parent (c ∷ dicts) all = (all.0.1, All-made h d owner parent dicts all.1)

module _ (h : Heap) (valid : IsValid h) where
  -- A property of all that a probe finds in the dictionaries that are made, found by the loops.
  module _ {B : Type 0} (probe : Dict → Option B) (P : B → Type 0)
      (all : (d : ℕ) → d < h.next → (b : B) → probe (h.dict d) ≡ some b → P b) where
    search-all : (d : ℕ) (b : B) → d < h.next → search_up probe h d ≡ some b → P b
    search-all d b made e =
        search-within h probe (λ c. c < h.next)
          (λ c p there f.
            (let below = parent_below h valid c p there f in omega (arith, there, below)))
          P all h.next d b made e

    abbrev ask : Option ℕ → Option B
    ask o = elim o [ none ↦ none | some g ↦ probe (h.dict g) ]

    or_globals-all :
        (d : ℕ) (b : B) → d < h.next → or_globals probe h d (search_up probe h d) ≡ some b → P b
    or_globals-all d b made e = elim (Option-cases (search_up probe h d)) [
      | inr (answer, f) ↦ search-all d b made (f ∙ rw f at e)
      | inl f ↦ elim (Option-cases (template_globals h d)) [
        | inl g ↦ absurd (let none_found : none ≡ some b = sym (ap ask g) ∙ rw f at e in cc)
        | inr (g, same) ↦
            all g (globals_made h valid d made g same).1 b (sym (ap ask same) ∙ rw f at e)
      ]
    ]

  in_map :
      (d owner : ℕ) (parent : Option ℕ) (m : Option (Map (List ℕ))) (id : ℕ) (dicts : List ℕ)
      → IfSome (AllValues (AreChildren h d owner parent)) m
      → find_in m id ≡ some dicts
      → AreChildren h d owner parent dicts
  in_map d owner parent none id dicts all e = absurd cc
  in_map d owner parent (some m) id dicts all e = find_ptr-AllValues _ m id dicts all e

  pub sections_children_of :
      (name : TemplateString) (d : ℕ)
      → d < h.next
      → (dicts : List ℕ) → sections_of name (h.dict d) ≡ some dicts
      → AreChildren h d (owner_of h d) (some d) dicts
  sections_children_of name d made dicts e =
      in_map d _ _ (h.dict d).section_dict name.id dicts (valid.valid_at d made).sections_children e

  pub includes_children_of :
      (name : TemplateString) (d : ℕ)
      → d < h.next
      → (dicts : List ℕ) → includes_of name (h.dict d) ≡ some dicts
      → AreChildren h d (owner_of h d) none dicts
  includes_children_of name d made dicts e =
      in_map d _ _ (h.dict d).include_dict name.id dicts (valid.valid_at d made).includes_children e

  pub sections_made :
      (name : TemplateString) (d : ℕ) (dicts : List ℕ)
      → d < h.next
      → create_section_iterator h d name ≡ some dicts
      → AreMade h dicts
  unfolding create_section_iterator
  sections_made name d dicts made e =
      or_globals-all (sections_of name) (AreMade h)
        (λ b there found_dicts f.
          (let children = sections_children_of name b there found_dicts f in
            (children.0, All-made h b (owner_of h b) (some b) found_dicts children.1)))
        d dicts made e

  pub includes_made :
      (name : TemplateString) (d : ℕ) (dicts : List ℕ)
      → d < h.next
      → create_template_iterator h d name ≡ some dicts
      → AreMade h dicts
  unfolding create_template_iterator
  includes_made name d dicts made e =
      search-all (includes_of name) (AreMade h)
        (λ b there found_dicts f.
          (let children = includes_children_of name b there found_dicts f in
            (children.0, All-made h b (owner_of h b) none found_dicts children.1)))
        d dicts made e

  pub is_none-some : {B : Type 0} (o : Option B) → is_none o ≡ false → (b : B) × (o ≡ some b)
  is_none-some none e = absurd cc
  is_none-some (some b) e = (b, refl)

  element_there : (dicts : List ℕ) (i : ℕ) → i < length dicts → (c : ℕ) × (element dicts i ≡ some c)
  unfolding element
  element_there [] i e = absurd (omega arith)
  element_there (c ∷ dicts) zero e = (c, refl)
  element_there (c ∷ dicts) (suc i) e = element_there dicts i (omega (arith, e))

  name_there :
      (name : TemplateString) (d i : ℕ) (dicts : List ℕ)
      → create_template_iterator h d name ≡ some dicts
      → i < length dicts
      → (filename : Bytes) × (get_include_template_name h d name i ≡ some filename)
  unfolding get_include_template_name create_template_iterator
  name_there name d i dicts e below =
      let there = element_there dicts i below in
      elim (Option-cases (h.dict there.0).filename) [
        | inl f ↦ ([], rw (e, get_include_template_name) (rw (there.1) (rw f refl)))
        | inr (filename, f) ↦
            (filename, rw (e, get_include_template_name) (rw (there.1) (rw f refl)))
      ]

  names_below :
      (name : TemplateString) (d : ℕ) (dicts : List ℕ) (n : ℕ)
      → create_template_iterator h d name ≡ some dicts
      → n ≤ length dicts
      → HasNamesBelow h d name n
  names_below name d dicts zero e below = tt
  names_below name d dicts (suc n) e below = (
    name_there name d n dicts e (omega (arith, below)),
    names_below name d dicts n e (omega (arith, below)),
  )

  pub is_none-none : {B : Type 0} (o : Option B) → is_none o ≡ true → o ≡ none
  is_none-none none e = refl
  is_none-none (some b) e = absurd cc

  shown-section : (name : TemplateString) (d : ℕ) → d < h.next → SectionContract h d name
  unfolding is_hidden_section create_section_iterator
  shown-section name d made = elim (Bool-cases (is_hidden_section h d name)) [
    | inl e ↦ inl (e, is_none-none _ e)
    | inr e ↦
        let (dicts, there) = is_none-some _ e in
        inr (e, (dicts, (there, sections_made name d dicts made there)))
  ]

  shown-include : (name : TemplateString) (d : ℕ) → d < h.next → IncludeContract h d name
  unfolding is_hidden_template create_template_iterator
  shown-include name d made = elim (Bool-cases (is_hidden_template h d name)) [
    | inl e ↦ inl (e, is_none-none _ e)
    | inr e ↦
        let (dicts, there) = is_none-some _ e in
        inr (
          e,
          (
            dicts,
            (
              there,
              (
                includes_made name d dicts made there,
                names_below name d dicts (length dicts) there (omega arith),
              ),
            ),
          ),
        )
  ]

  -- In a valid heap, a dictionary that is made hides a section, and CreateSectionIterator aborts for
  -- it, or does not hide it, and has an iterator over one dictionary at least. Whatever it does with
  -- sections, it hides an include, and CreateTemplateIterator aborts for it, or does not hide it,
  -- and has an iterator over one dictionary at least and a file name for the number of each: where
  -- Expand has asked whether a name is hidden, no abort is reached.
  pub shown-iterator :
      (section include_name : TemplateString) (d : ℕ)
      → d < h.next
      → SectionContract h d section × IncludeContract h d include_name
  shown-iterator section include_name d made =
      (shown-section section d made, shown-include include_name d made)

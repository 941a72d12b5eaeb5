-- ===== src/Template/Dictionaries/Ends.antt =====
-- Expansions with the dictionaries of a heap end.
use ctemplate.Common.{
  ℕ, zero, suc, ◌+◌, ◌<◌, ◌≤◌, List, [], ◌∷◌, Bool, true, false, not, ◌&&◌, Option, none, some,
  Bytes, ◌≡◌, refl, sym, subst, ◌∙◌, ◌⊎◌, inl, inr, Option-cases, Bool-cases, All, length, arith,
}
use ctemplate.Dictionary.{TemplateString, Heap}
use ctemplate.Dictionary.Lookup.{
  includes_of, search_up, element, create_section_iterator, create_template_iterator,
  is_hidden_section, is_unhidden_section, is_hidden_template, get_include_template_name,
}
use ctemplate.Dictionary.Lookup.Contract.{is_none-some}
use ctemplate.Dictionary.Valid.{IsValid}
use ctemplate.Template.Nodes.{Strip, PerExpandData, Template, ts_ready}
use ctemplate.Template.Expand.{c_string, Expanded, expand_section}
use ctemplate.Template.Expand.Yields.{Yields, around-Yields}
use ctemplate.Template.Expand.Total.{IsExpandable, expand_section-Yields}
use ctemplate.Template.ExpandLocked.{modified, is_ready, expand_parsed, expand_locked}
use ctemplate.Template.Dictionaries.{dictionary_interface}
use ctemplate.Template.Dictionaries.Roots.{
  HasPlainGlobals, root_bound, Rooted, Included, sections-Rooted, includes-Rooted,
}

-- The file name that GetIncludeTemplateName gives of a dictionary.
abbrev pub name_of : Option Bytes → Bytes
name_of none = []
name_of (some filename) = filename

-- The dictionaries with the same root, at most `n` before the last that is made.
abbrev pub Near : (h : Heap) → IsValid h → ℕ → ℕ → Type 0
Near h valid n d = (r : ℕ) × (Rooted h valid r d × (h.next ≤ r + n))

module _ (h : Heap) (valid : IsValid h) (plain : HasPlainGlobals h) (N : Bytes → Type 0)
    (names : (c : ℕ) → c < h.next → N (c_string (name_of (h.dict c).filename))) where
  Near-sections :
      (n r : ℕ) (dicts : List ℕ)
      → h.next ≤ r + n
      → All (Rooted h valid r) dicts
      → All (Near h valid n) dicts
  Near-sections n r [] near all = tt
  Near-sections n r (c ∷ dicts) near (inside, all) =
      ((r, (inside, near)), Near-sections n r dicts near all)

  Near-includes :
      (n r : ℕ) (dicts : List ℕ)
      → h.next ≤ r + suc n
      → All (Included h valid r) dicts
      → All (Near h valid n) dicts
  Near-includes n r [] near all = tt
  Near-includes n r (c ∷ dicts) near ((inside, later), all) =
      ((c, (inside, omega (arith, near, later))), Near-includes n r dicts near all)

  element_made :
      (r : ℕ) (dicts : List ℕ) (i : ℕ)
      → i < length dicts
      → All (Included h valid r) dicts
      → (c : ℕ) × ((element dicts i ≡ some c) × (c < h.next))
  unfolding element
  element_made r [] i below all = absurd (omega arith)
  element_made r (c ∷ dicts) zero below all = (c, (refl, all.0.0.0))
  element_made r (c ∷ dicts) (suc i) below all = element_made r dicts i (omega (arith, below)) all.1

  Included-name :
      (variable : TemplateString) (d r : ℕ) (dicts : List ℕ) (i : ℕ)
      → create_template_iterator h d variable ≡ some dicts
      → All (Included h valid r) dicts
      → i < length dicts
      → (filename : Bytes) × ((get_include_template_name h d variable i ≡ some filename)
          × N (c_string filename))
  unfolding get_include_template_name create_template_iterator
  Included-name variable d r dicts i e all below =
      let (c, (there, made)) = element_made r dicts i below all in
      elim (Option-cases (h.dict c).filename) [
        | inl f ↦ (
          [],
          (
            rw (e, get_include_template_name) (rw there (rw f refl)),
            subst (λ o. N (c_string (name_of o))) f (names c made),
          ),
        )
        | inr (filename, f) ↦ (
          filename,
          (
            rw (e, get_include_template_name) (rw there (rw f refl)),
            subst (λ o. N (c_string (name_of o))) f (names c made),
          ),
        )
      ]

  abbrev NamedChildren : ℕ → ℕ → TemplateString → List ℕ → Type 0
  NamedChildren n d variable dicts =
      (create_template_iterator h d variable ≡ some dicts)
      × All (Near h valid n) dicts
      × ((i : ℕ)
          → i < length dicts
          → (filename : Bytes) × ((get_include_template_name h d variable i ≡ some filename)
              × N (c_string filename)))

  named_children :
      (n d r : ℕ) (variable : TemplateString) (dicts : List ℕ)
      → Rooted h valid r d
      → h.next ≤ r + suc n
      → create_template_iterator h d variable ≡ some dicts
      → (child : ℕ) × ((children : List ℕ) × NamedChildren n d variable (child ∷ children))
  named_children n d r variable [] inside near there =
      absurd ((includes-Rooted h valid variable r d [] inside there).0 refl)
  named_children n d r variable (c ∷ dicts) inside near there =
      let all = (includes-Rooted h valid variable r d (c ∷ dicts) inside there).1 in
      (
        c,
        (
          dicts,
          (
            there,
            Near-includes n r (c ∷ dicts) near all,
            λ i below. Included-name variable d r (c ∷ dicts) i there all below,
          ),
        ),
      )

  include_children :
      (n d : ℕ) (variable : TemplateString)
      → Near h valid (suc n) d
      → is_hidden_template h d variable ≡ false
      → (child : ℕ) × ((children : List ℕ) × NamedChildren n d variable (child ∷ children))
  unfolding is_hidden_template create_template_iterator
  include_children n d variable (r, (inside, near)) e =
      let (dicts, there) = is_none-some h valid (search_up (includes_of variable) h d) e in
      named_children n d r variable dicts inside near there

  shown : (b : Bool) → (not b ≡ true) ⊎ (b ≡ false) → b ≡ false
  shown b (inr e) = e
  shown false (inl e) = refl
  shown true (inl e) = absurd cc

  heap_contract :
      (n : ℕ) → IsExpandable (dictionary_interface h) N (Near h valid (suc n)) (Near h valid n)
  unfolding is_unhidden_section is_hidden_section create_section_iterator
  heap_contract n = record {
    sections_in = λ d variable (r, (inside, near)) visible.
        (let (dicts, there) = is_none-some h valid _ (shown _ visible) in
          (
            dicts,
            (
              there,
              Near-sections (suc n) r dicts near
                  (sections-Rooted h valid plain variable r d dicts inside there),
            ),
          ));
    includes_in = λ d variable near e. include_children n d variable near e;
  }

modified-Yields :
    (R : Bool → Type 0) (per_expand_data : PerExpandData) (file : Bytes) (x : Expanded)
    → Yields R x
    → Yields R (modified per_expand_data.template_expansion_modifier file x)
unfolding modified
modified-Yields R per_expand_data file x (out, (a, (e, r))) =
    elim (Option-cases per_expand_data.template_expansion_modifier) [
      | inl f ↦ (out, (a, (rw (f, e) refl, r)))
      | inr (modifier, f) ↦ elim (Bool-cases (modifier.might_modify_file file)) [
        | inl g ↦ (modifier.modify_file file out, (a, (rw (f, e) (rw g refl), r)))
        | inr g ↦ (out, (a, (rw (f, e) (rw g refl), r)))
      ]
    ]

-- What the cache gives for a name is there and parsed without errors.
abbrev pub IsParsed : Option Template → Type 0
IsParsed found = (template : Template) × ((found ≡ some template) × (template.state ≡ ts_ready))

module _ (R : Bool → Type 0) (R_true : R true) (R_and : (a b : Bool) → R a → R b → R (a && b))
    (h : Heap) (valid : IsValid h) (plain : HasPlainGlobals h) (N : Bytes → Type 0)
    (names : (c : ℕ) → c < h.next → N (c_string (name_of (h.dict c).filename)))
    (per_expand_data : PerExpandData) (get_template : Bytes → Strip → Option Template)
    (files : (c : ℕ) (name : Bytes) (strip : Strip)
      → N (c ∷ name)
      → IsParsed (get_template (c ∷ name) strip) ⊎ R false) where
  abbrev expand_heap : ℕ → Bytes → Strip → ℕ → Expanded
  expand_heap = expand_locked (dictionary_interface h) per_expand_data get_template

  parsed_ends :
      (expand_file : Bytes → Strip → ℕ → Expanded) (template : Template) (d : ℕ)
      → Yields R
          (expand_section (dictionary_interface h) per_expand_data expand_file template.tree d)
      → (template.state ≡ ts_ready) ⊎ R false
      → Yields R (expand_parsed (dictionary_interface h) per_expand_data expand_file template d)
  unfolding expand_parsed
  parsed_ends expand_file template d y ready = elim (Bool-cases (is_ready template.state)) [
    | inl e ↦ rw e (around-Yields R R_true R_and _ _ _ (modified-Yields R per_expand_data _ _ y))
    | inr e ↦ elim ready [
      | inl f ↦ absurd (let never : true ≡ false = rw f at e in cc)
      | inr r ↦ rw e ([], (false, (refl, r)))
    ]
  ]

  locked_missing :
      (n : ℕ) (filename : Bytes) (strip : Strip) (d : ℕ)
      → get_template filename strip ≡ none
      → expand_heap (suc n) filename strip d ≡ some ([], false)
  unfolding expand_locked
  locked_missing n filename strip d e = rw (e, expand_locked) refl

  locked_found :
      (n : ℕ) (filename : Bytes) (strip : Strip) (d : ℕ) (template : Template)
      → get_template filename strip ≡ some template
      → expand_heap (suc n) filename strip d
        ≡ expand_parsed (dictionary_interface h) per_expand_data (expand_heap n) template d
  unfolding expand_locked
  locked_found n filename strip d template e = rw (e, expand_locked) refl

  pub file_ends :
      (n : ℕ) (filename : Bytes) (strip : Strip) (d : ℕ)
      → IsParsed (get_template filename strip) ⊎ R false
      → Near h valid n d
      → Yields R (expand_heap n filename strip d)
  file_ends zero filename strip d file (r, (inside, near)) =
      absurd (omega (arith, near, root_bound h valid d r inside.0 inside.1, inside.0))
  file_ends (suc n) filename strip d file near =
      let inner = λ (template : Template).
        expand_section-Yields R R_true R_and (dictionary_interface h) per_expand_data
          (expand_heap n) N (Near h valid (suc n)) (Near h valid n)
          (λ c name s b m q. file_ends n (c ∷ name) s b (files c name s m) q)
          (heap_contract h valid plain N names n) template.tree d near in
      elim (Option-cases (get_template filename strip)) [
        | inl e ↦ elim file [
          | inl (template, (f, state)) ↦ absurd (let never : none ≡ some template = sym e ∙ f in cc)
          | inr r ↦ ([], (false, (locked_missing n filename strip d e, r)))
        ]
        | inr (template, e) ↦ subst (Yields R) (sym (locked_found n filename strip d template e)) (
            parsed_ends (expand_heap n) template d (inner template) (elim file [
              | inl (found, (f, state)) ↦
                  let same : some found ≡ some template = sym f ∙ e in
                  let equal_templates : found ≡ template = cc in
                  inl (subst (λ t. t.state ≡ ts_ready) equal_templates state)
              | inr r ↦ inr r
            ]))
      ]

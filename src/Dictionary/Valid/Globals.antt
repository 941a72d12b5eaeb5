-- ===== src/Dictionary/Valid/Globals.antt =====
-- The template-global dictionaries and the shape of the heap.
use ctemplate.Common.{
  ℕ, ◌<◌, [], ◌∷◌, ◌≡◌, refl, codes, sym, ap, subst, ◌∙◌, none, some, arith, Option-cases, inl, inr,
  Bytes,
}
use ctemplate.Dictionary.{
  TemplateString, Dict, Heap, write, allocate, new_dict, template_globals, in_template_globals,
  create_template_subdict, lazy_create_template_global_dict, set_value, set_template_global_value,
  add_section_dictionary, show_section, show_template_global_section, set_value_and_show_section,
}
use ctemplate.Dictionary.Valid.{owner_of, IfSome, IsChild, IsValid}
use ctemplate.Dictionary.Valid.Preserved.{write-Grows, write-IsValid, allocate-Grows}
use ctemplate.Dictionary.Valid.Operations.{
  store_self, subdict-IsValid, subdict-IsChild, owner_made, set_value-IsValid, show_section-IsValid,
  add_section_dictionary-IsValid,
}

-- A dictionary of the heap and the template globals of its owner.
module _ (h : Heap) (valid : IsValid h) (d : ℕ) (made : d < h.next) where
  owner_owns_itself : (h.dict (owner_of h d)).template_global_dict_owner ≡ owner_of h d
  owner_owns_itself = (valid.valid_at d made).owner_owns

  pub globals_made :
      (g : ℕ)
      → template_globals h d ≡ some g
      → IsChild h (owner_of h d) (owner_of h d) (some (owner_of h d)) g
  globals_made g e =
      (subst
        (IfSome (λ b.
          ((h.dict (owner_of h d)).template_global_dict_owner ≡ owner_of h d)
          × IsChild h (owner_of h d) (owner_of h d) (some (owner_of h d)) b))
        e (valid.valid_at (owner_of h d) (owner_made h valid d made)).globals_child).1

  -- The heap with new template globals, and the owner's dictionary in it.
  abbrev with_globals : Heap
  with_globals =
      allocate h (new_dict (codes "Template Globals") (owner_of h d) (some (owner_of h d)))

  abbrev owner_with_globals : Dict
  owner_with_globals = record (with_globals.dict (owner_of h d)) {
    template_global_dict = some h.next;
  }

  with_globals-IsValid : IsValid with_globals
  with_globals-IsValid =
      subdict-IsValid h valid (codes "Template Globals") (owner_of h d) (some (owner_of h d))
        (owner_made h valid d made) owner_owns_itself
        ((owner_made h valid d made), owner_owns_itself)

  new_globals-IsValid : IsValid (write with_globals (owner_of h d) owner_with_globals)
  new_globals-IsValid =
      let v =
        with_globals-IsValid.valid_at (owner_of h d) (omega (arith, (owner_made h valid d made))) in
      let own =
        (allocate-Grows h valid
            (new_dict (codes "Template Globals") (owner_of h d) (some (owner_of h d)))).same_owner
          (owner_of h d) (owner_made h valid d made) in
      write-IsValid with_globals with_globals-IsValid (owner_of h d) owner_with_globals refl refl
        (record {
          owner_first = v.owner_first;
          owner_owns = v.owner_owns;
          parent_first = v.parent_first;
          globals_child = (
            own ∙ owner_owns_itself,
            subdict-IsChild h valid (codes "Template Globals") (owner_of h d) (some (owner_of h d))
                (owner_of h d) (owner_made h valid d made),
          );
          sections_children = v.sections_children;
          includes_children = v.includes_children;
        })

  new_globals :
      template_globals (write with_globals (owner_of h d) owner_with_globals) d ≡ some h.next
  new_globals =
      let written = write with_globals (owner_of h d) owner_with_globals in
      let same =
        (write-Grows with_globals with_globals-IsValid (owner_of h d) owner_with_globals refl
            refl).same_owner
          d (omega (arith, made))
        ∙ (allocate-Grows h valid
              (new_dict (codes "Template Globals") (owner_of h d) (some (owner_of h d)))).same_owner
            d made in
      ap (λ o. (written.dict o).template_global_dict) same
      ∙ ap (λ n. n.template_global_dict)
          (store_self with_globals.dict (owner_of h d) owner_with_globals)

  -- The template-global dictionary of the owner, behind lazy_create_template_global_dict.
  pub lazy_globals :
      IsValid (lazy_create_template_global_dict h d)
      × ((g : ℕ) × (template_globals (lazy_create_template_global_dict h d) d ≡ some g)
          × (g < (lazy_create_template_global_dict h d).next))
  unfolding lazy_create_template_global_dict create_template_subdict
  lazy_globals = elim (Option-cases (template_globals h d)) [
    | inr (g, e) ↦ rw (e, lazy_create_template_global_dict) (valid, (g, e, (globals_made g e).1))
    | inl e ↦
        rw (e, lazy_create_template_global_dict)
          (new_globals-IsValid, (h.next, new_globals, omega arith))
  ]

  in_globals-IsValid :
      (operation : Heap → ℕ → Heap)
      → ((k : Heap) → IsValid k → (g : ℕ) → g < k.next → IsValid (operation k g))
      → IsValid (in_template_globals (lazy_create_template_global_dict h d) d operation)
  in_globals-IsValid operation ok =
      let k = lazy_create_template_global_dict h d in
      let globals = lazy_globals in
      subst (λ o. IsValid (elim o [ none ↦ k | some g ↦ operation k g ])) (sym globals.1.1)
        (ok k globals.0 globals.1.0 globals.1.2)

  pub set_template_global_value-IsValid :
      (variable : TemplateString) (value : Bytes)
      → IsValid (set_template_global_value h d variable value)
  unfolding set_template_global_value
  set_template_global_value-IsValid variable value =
      in_globals-IsValid (λ k g. set_value k g variable value)
        (λ k ok g there. set_value-IsValid k ok g there variable value)

  pub show_template_global_section-IsValid :
      (section : TemplateString) → IsValid (show_template_global_section h d section)
  unfolding show_template_global_section
  show_template_global_section-IsValid section =
      in_globals-IsValid (λ k g. show_section k g section)
        (λ k ok g there. show_section-IsValid k ok g there section)

  pub set_value_and_show_section-IsValid :
      (variable : TemplateString) (value : Bytes) (section : TemplateString)
      → IsValid (set_value_and_show_section h d variable value section)
  unfolding set_value_and_show_section add_section_dictionary create_template_subdict
  set_value_and_show_section-IsValid variable [] section = valid
  set_value_and_show_section-IsValid variable (c ∷ value) section =
      set_value-IsValid (add_section_dictionary h d section).0
        (add_section_dictionary-IsValid h valid d made section) h.next (omega arith) variable
        (c ∷ value)

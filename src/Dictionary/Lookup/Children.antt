-- ===== src/Dictionary/Lookup/Children.antt =====
-- What the dictionary of a new section and of a new include find.
use ctemplate.Common.{
  ℕ, ◌<◌, ◌≡◌, refl, sym, ap, ◌∙◌, Option, none, some, arith, inl, inr, Option-cases, false,
  Bool-cases, ◌==◌, Bytes,
}
use ctemplate.Dictionary.{
  TemplateString, find_ptr, find_in, Dict, Heap, write, allocate, new_dict, template_globals,
  create_template_subdict, add_section_dictionary, add_include_dictionary,
}
use ctemplate.Dictionary.Lookup.{search, search_up, variable_of, get_value}
use ctemplate.Dictionary.Lookup.Chain.{search-same}
use ctemplate.Dictionary.Lookup.Values.{
  first_of, probe_globals, in_globals, get_value_lem, first_of_both,
}
use ctemplate.Dictionary.Valid.{IsValid, owner_of}
use ctemplate.Dictionary.Valid.Operations.{store_self, store_other, owner_made}
use ctemplate.Dictionary.Valid.Globals.{globals_made}

-- One step of the loop over the parents, at the members given.
abbrev step : {B : Type 0} → (Dict → Option B) → ℕ → Heap → Dict → Option B
step probe fuel h b = elim (probe b) [
  | some answer ↦ some answer
  | none ↦ elim b.parent_dict [ none ↦ none | some p ↦ search probe fuel h p ]
]

-- A new dictionary, and the one at `d` with other members changed than those that GetValue reads.
module _ (h : Heap) (valid : IsValid h) (d : ℕ) (made : d < h.next) (name : Bytes)
    (parent : Option ℕ) (n : Dict) where
  abbrev grown : Heap
  grown = write (allocate h (new_dict name (owner_of h d) parent)) d n

  kept :
      {X : Type 0} (member : Dict → X)
      → member n ≡ member (h.dict d)
      → (e : ℕ) → e < h.next
      → member (grown.dict e) ≡ member (h.dict e)
  kept member same e there = elim (Bool-cases (e == d)) [
    | inl f ↦ let here : d ≡ e = ground arith in rw f (same ∙ ap (λ b. member (h.dict b)) here)
    | inr f ↦ let old : (e == h.next) ≡ false = ground arith in rw (f, old) refl
  ]

  new_there : grown.dict h.next ≡ new_dict name (owner_of h d) parent
  new_there =
      store_other (allocate h (new_dict name (owner_of h d) parent)).dict d h.next n
        (omega (arith, made))
      ∙ store_self h.dict h.next _

  module _ (variables : n.variable_dict ≡ (h.dict d).variable_dict)
      (globals : n.template_global_dict ≡ (h.dict d).template_global_dict)
      (parents : n.parent_dict ≡ (h.dict d).parent_dict) where
    same_globals : template_globals grown h.next ≡ template_globals h d
    same_globals =
        ap (λ b. (grown.dict b.template_global_dict_owner).template_global_dict) new_there
        ∙ kept (λ b. b.template_global_dict) globals (owner_of h d) (owner_made h valid d made)

    module _ (variable : TemplateString) where
      same_variables :
          (e : ℕ)
          → e < h.next
          → variable_of variable (grown.dict e) ≡ variable_of variable (h.dict e)
      same_variables e there =
          kept (variable_of variable) (ap (λ m. find_in m variable.id) variables) e there

      new_globals_found : in_globals grown h.next variable ≡ in_globals h d variable
      new_globals_found = elim (Option-cases (template_globals h d)) [
        | inl e ↦
            ap (probe_globals (variable_of variable) grown) (same_globals ∙ e)
            ∙ sym (ap (probe_globals (variable_of variable) h) e)
        | inr (g, e) ↦
            ap (probe_globals (variable_of variable) grown) (same_globals ∙ e)
            ∙ same_variables g (globals_made h valid d made g e).1
            ∙ sym (ap (probe_globals (variable_of variable) h) e)
      ]

      above :
          elim parent [ none ↦ none | some p ↦ search (variable_of variable) h.next grown p ]
          ≡ search_up (variable_of variable) grown h.next
      unfolding search
      above = ap (λ b. step (variable_of variable) h.next grown b) (sym new_there)

      orphan_value :
          parent ≡ none
          → get_value grown h.next variable
            ≡ first_of none (in_globals h d variable) (find_ptr h.global_dict variable.id)
      orphan_value e =
          get_value_lem grown h.next variable
          ∙ first_of_both {a' = none} (sym above ∙ rw e refl) new_globals_found
              (find_ptr h.global_dict variable.id)

      child_value : parent ≡ some d → get_value grown h.next variable ≡ get_value h d variable
      child_value e =
          get_value_lem grown h.next variable
          ∙ first_of_both {a' = search_up (variable_of variable) h d}
              (sym above
                ∙ rw e (
                    search-same h grown valid (variable_of variable) same_variables
                      (kept (λ b. b.parent_dict) parents) h.next d made))
              new_globals_found (find_ptr h.global_dict variable.id)
          ∙ sym (get_value_lem h d variable)

-- The dictionary of a new section finds every variable that the dictionary it was added to finds;
-- that of a new include finds only those of the template globals and of the global dictionary.
pub add_dictionary-get_value :
    (h : Heap) (d : ℕ) (name variable : TemplateString)
    → IsValid h
    → d < h.next
    → (get_value (add_section_dictionary h d name).0 (add_section_dictionary h d name).1 variable
        ≡ get_value h d variable)
      × (get_value (add_include_dictionary h d name).0 (add_include_dictionary h d name).1 variable
          ≡ first_of none (in_globals h d variable) (find_ptr h.global_dict variable.id))
unfolding add_section_dictionary add_include_dictionary create_template_subdict
add_dictionary-get_value h d name variable valid made = (
  child_value h valid d made _ (some d) _ refl refl refl variable refl,
  orphan_value h valid d made _ none _ refl refl refl variable refl,
)

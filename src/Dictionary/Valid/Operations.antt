-- ===== src/Dictionary/Valid/Operations.antt =====
-- The operations of the dictionaries and the shape of the heap.
use ctemplate.Common.{
  ℕ, ◌<◌, List, [], ◌∷◌, ◌++◌, ◌≡◌, ◌≢◌, refl, codes, sym, ap, subst, ◌∙◌, Option, none, some,
  arith, true, false, ◌==◌, Option-cases, inl, inr, Bytes, All, All-append,
}
use ctemplate.Dictionary.{
  TemplateString, Map, find_ptr, hash_insert, lazily_create_dict, find_in, Dict, Heap, store, write,
  allocate, new_dict, entries, vector_at, push_section, push_include, template_dictionary,
  create_template_subdict, set_value, add_section_dictionary, show_section, add_include_dictionary,
  set_filename,
}
use ctemplate.Dictionary.Valid.{
  owner_of, IfSome, AllValues, IsChild, AreChildren, IsValidDict, IsValid,
}
use ctemplate.Dictionary.Valid.Preserved.{
  IfSome-map, Grows, hash_insert-AllValues, find_ptr-AllValues, AllValues-map, AreChildren-Grows,
  IsValidDict-Grows, write-IsValid, allocate-Grows, allocate-IsValid,
}

pub store_self : (dicts : ℕ → Dict) (d : ℕ) (n : Dict) → store dicts d n d ≡ n
store_self dicts d n = let same : (d == d) ≡ true = ground arith in rw same refl

pub store_other : (dicts : ℕ → Dict) (d e : ℕ) (n : Dict) → e ≢ d → store dicts d n e ≡ dicts e
store_other dicts d e n h = let other : (e == d) ≡ false = ground arith in rw other refl

pub template_dictionary-IsValid :
    (h : Heap) (name : Bytes) → IsValid h → IsValid (template_dictionary h name).0
unfolding template_dictionary
template_dictionary-IsValid h name valid =
    allocate-IsValid h valid (new_dict name h.next none) (record {
      owner_first = omega arith;
      owner_owns =
          ap (λ n. n.template_global_dict_owner)
            (store_self h.dict h.next (new_dict name h.next none));
      parent_first = tt;
      globals_child = tt;
      sections_children = tt;
      includes_children = tt;
    })

-- An allocation below a dictionary of the heap, in the tree of the same owner.
module _ (h : Heap) (valid : IsValid h) (name : Bytes) (owner : ℕ) (parent : Option ℕ) where
  abbrev made : Heap
  made = allocate h (new_dict name owner parent)

  pub subdict-IsValid :
      owner < h.next
      → (h.dict owner).template_global_dict_owner ≡ owner
      → IfSome (λ p. (p < h.next) × ((h.dict p).template_global_dict_owner ≡ owner)) parent
      → IsValid made
  subdict-IsValid first own above = allocate-IsValid h valid (new_dict name owner parent) (record {
    owner_first = omega arith;
    owner_owns =
        ap (λ n. n.template_global_dict_owner) (store_other h.dict h.next owner _ (omega arith))
        ∙ own;
    parent_first =
        IfSome-map _ _ parent
          (λ p (below, o).
            (below, (allocate-Grows h valid (new_dict name owner parent)).same_owner p below ∙ o))
          above;
    globals_child = tt;
    sections_children = tt;
    includes_children = tt;
  })

  pub subdict-IsChild : (d : ℕ) → d < h.next → IsChild made d owner parent h.next
  subdict-IsChild d below = (
    below,
    omega arith,
    ap (λ n. n.template_global_dict_owner) (store_self h.dict h.next (new_dict name owner parent)),
    ap (λ n. n.parent_dict) (store_self h.dict h.next (new_dict name owner parent)),
  )

append_not_empty : (s : List ℕ) (c : ℕ) → s ++ c ∷ [] ≢ []
append_not_empty [] c e = cc
append_not_empty (d ∷ s) c e = cc

-- A dictionary and what it says of itself and its owner.
module _ (h : Heap) (valid : IsValid h) (d : ℕ) (made : d < h.next) where
  pub owner_made : owner_of h d < h.next
  owner_made = omega (arith, made, (valid.valid_at d made).owner_first)

  pub set_value-IsValid :
      (variable : TemplateString) (value : Bytes) → IsValid (set_value h d variable value)
  unfolding set_value
  set_value-IsValid variable value =
      let v = valid.valid_at d made in
      write-IsValid h valid d _ refl refl (record {
        owner_first = v.owner_first;
        owner_owns = v.owner_owns;
        parent_first = v.parent_first;
        globals_child = v.globals_child;
        sections_children = v.sections_children;
        includes_children = v.includes_children;
      })

  pub set_filename-IsValid : (filename : Bytes) → IsValid (set_filename h d filename)
  unfolding set_filename
  set_filename-IsValid filename =
      let v = valid.valid_at d made in
      write-IsValid h valid d _ refl refl (record {
        owner_first = v.owner_first;
        owner_owns = v.owner_owns;
        parent_first = v.parent_first;
        globals_child = v.globals_child;
        sections_children = v.sections_children;
        includes_children = v.includes_children;
      })

  -- A vector that the new dictionary is added to.
  module _ (name : Bytes) (parent : Option ℕ) where
    abbrev grown : Heap
    grown = allocate h (new_dict name (owner_of h d) parent)

    grown-Grows : Grows h grown
    grown-Grows = allocate-Grows h valid (new_dict name (owner_of h d) parent)

    children_there :
        (m : Option (Map (List ℕ))) (id : ℕ)
        → IfSome (AllValues (AreChildren h d (owner_of h d) parent)) m
        → All (IsChild grown d (owner_of h d) parent) (vector_at m id)
    children_there none id all = tt
    children_there (some m) id all = elim (Option-cases (find_ptr m id)) [
      | inl e ↦ rw e tt
      | inr (dicts, e) ↦
          subst (λ o. All (IsChild grown d (owner_of h d) parent) (entries o)) (sym e)
            (AreChildren-Grows h grown grown-Grows d (owner_of h d) parent dicts
              (find_ptr-AllValues (AreChildren h d (owner_of h d) parent) m id dicts all e)).1
    ]

    vector-AreChildren :
        (m : Option (Map (List ℕ))) (id : ℕ)
        → IfSome (AllValues (AreChildren h d (owner_of h d) parent)) m
        → AreChildren grown d (owner_of h d) parent (vector_at m id ++ h.next ∷ [])
    vector-AreChildren m id all = (
      append_not_empty (vector_at m id) h.next,
      All-append (IsChild grown d (owner_of h d) parent) (vector_at m id) (h.next ∷ [])
          (children_there m id all) (subdict-IsChild h valid name (owner_of h d) parent d made, tt),
    )

    inserted-AllValues :
        (m : Option (Map (List ℕ))) (id : ℕ) (dicts : List ℕ)
        → IfSome (AllValues (AreChildren h d (owner_of h d) parent)) m
        → AreChildren grown d (owner_of h d) parent dicts
        → AllValues
            (AreChildren grown d (owner_of h d) parent)
            (hash_insert (lazily_create_dict m) id dicts)
    inserted-AllValues none id dicts all new = hash_insert-AllValues _ [] id dicts tt new
    inserted-AllValues (some m) id dicts all new =
        hash_insert-AllValues _ m id dicts
          (AllValues-map _ _ m (AreChildren-Grows h grown grown-Grows d (owner_of h d) parent) all)
          new

    grown-IsValid :
        IfSome (λ p. (p < h.next) × ((h.dict p).template_global_dict_owner ≡ owner_of h d)) parent
        → IsValid grown
    grown-IsValid above =
        subdict-IsValid h valid name (owner_of h d) parent owner_made
          (valid.valid_at d made).owner_owns above

    -- The write of a section's or an include's vector behind the allocation.
    written-IsValid :
        (n : Dict)
        → IsValid grown
        → n.template_global_dict_owner ≡ owner_of h d
        → n.parent_dict ≡ (h.dict d).parent_dict
        → IsValidDict grown d n
        → IsValid (write grown d n)
    written-IsValid n ok o p v =
        write-IsValid grown ok d n (o ∙ sym (grown-Grows.same_owner d made))
          (p ∙ sym (grown-Grows.same_parent d made)) v

  pushed_section :
      (name : Bytes) (id : ℕ) (dicts : List ℕ)
      → AreChildren (grown name (some d)) d (owner_of h d) (some d) dicts
      → IsValid (write (grown name (some d)) d (push_section (h.dict d) id dicts))
  pushed_section name id dicts new =
      let v =
        IsValidDict-Grows h (grown name (some d)) (grown-Grows name (some d)) d (h.dict d) made
          (valid.valid_at d made) in
      written-IsValid name (some d) (push_section (h.dict d) id dicts)
        (grown-IsValid name (some d) (made, refl)) refl refl
        (record {
          owner_first = v.owner_first;
          owner_owns = v.owner_owns;
          parent_first = v.parent_first;
          globals_child = v.globals_child;
          sections_children =
              inserted-AllValues name (some d) (h.dict d).section_dict id dicts
                (valid.valid_at d made).sections_children new;
          includes_children = v.includes_children;
        })

  pushed_include :
      (name : Bytes) (id : ℕ) (dicts : List ℕ)
      → AreChildren (grown name none) d (owner_of h d) none dicts
      → IsValid (write (grown name none) d (push_include (h.dict d) id dicts))
  pushed_include name id dicts new =
      let v =
        IsValidDict-Grows h (grown name none) (grown-Grows name none) d (h.dict d) made
          (valid.valid_at d made) in
      written-IsValid name none (push_include (h.dict d) id dicts) (grown-IsValid name none tt) refl
        refl
        (record {
          owner_first = v.owner_first;
          owner_owns = v.owner_owns;
          parent_first = v.parent_first;
          globals_child = v.globals_child;
          sections_children = v.sections_children;
          includes_children =
              inserted-AllValues name none (h.dict d).include_dict id dicts
                (valid.valid_at d made).includes_children new;
        })

  pub add_section_dictionary-IsValid :
      (section : TemplateString) → IsValid (add_section_dictionary h d section).0
  unfolding add_section_dictionary create_template_subdict
  add_section_dictionary-IsValid section = pushed_section _ section.id _ (
      vector-AreChildren _ (some d) (h.dict d).section_dict section.id
        (valid.valid_at d made).sections_children)

  pub add_include_dictionary-IsValid :
      (include_name : TemplateString) → IsValid (add_include_dictionary h d include_name).0
  unfolding add_include_dictionary create_template_subdict
  add_include_dictionary-IsValid include_name = pushed_include _ include_name.id _ (
      vector-AreChildren _ none (h.dict d).include_dict include_name.id
        (valid.valid_at d made).includes_children)

  pub show_section-IsValid : (section : TemplateString) → IsValid (show_section h d section)
  unfolding show_section create_template_subdict
  show_section-IsValid section = elim (Option-cases (find_in (h.dict d).section_dict section.id)) [
    | inr (dicts, e) ↦ rw (e, show_section) valid
    | inl e ↦
        rw (e, show_section)
          (pushed_section (codes "empty dictionary") section.id (h.next ∷ []) (
            cc,
            (subdict-IsChild h valid (codes "empty dictionary") (owner_of h d) (some d) d made, tt),
          ))
  ]

-- ===== src/Dictionary/Lookup.antt =====
-- src/template_dictionary.cc: what Expand asks a dictionary.
pub mod Chain
pub mod Values
pub mod Children
pub mod Contract
use ctemplate.Common.{
  ℕ, zero, suc, List, [], ◌∷◌, Bool, true, false, not, ◌||◌, Option, none, some, Bytes, codes,
  if◌then◌else◌,
}
use ctemplate.Dictionary.{TemplateString, Map, find_ptr, find_in, Dict, Heap, template_globals}

-- The globals that SetupGlobalDict makes, for the ids of their two names.
abbrev pub setup_global_dict : TemplateString → TemplateString → Map Bytes
setup_global_dict bi_space bi_newline = (bi_space.id, codes " ") ∷ (bi_newline.id, codes "\n") ∷ []

-- The loop `for (d = this; d; d = d->parent_dict_)` up to the first answer, on fuel.
module _ {B : Type 0} (probe : Dict → Option B) where
  unfoldable pub search : ℕ → Heap → ℕ → Option B
  search zero h d = none
  search (suc fuel) h d = elim (probe (h.dict d)) [
    | some answer ↦ some answer
    | none ↦ elim (h.dict d).parent_dict [ none ↦ none | some p ↦ search fuel h p ]
  ]

  -- A parent is made before its child, so the number of dictionaries is fuel enough.
  abbrev pub search_up : Heap → ℕ → Option B
  search_up h d = search h.next h d

  -- And then the template-global dictionary.
  abbrev pub or_globals : Heap → ℕ → Option B → Option B
  or_globals h d (some answer) = some answer
  or_globals h d none = elim (template_globals h d) [ none ↦ none | some g ↦ probe (h.dict g) ]

abbrev pub variable_of : TemplateString → Dict → Option Bytes
variable_of variable n = find_in n.variable_dict variable.id

abbrev pub sections_of : TemplateString → Dict → Option (List ℕ)
sections_of name n = find_in n.section_dict name.id

abbrev pub includes_of : TemplateString → Dict → Option (List ℕ)
includes_of name n = find_in n.include_dict name.id

unfoldable pub get_value : Heap → ℕ → TemplateString → Bytes
unfolding search find_ptr
get_value h d variable =
    elim (or_globals (variable_of variable) h d (search_up (variable_of variable) h d)) [
      | some value ↦ value
      | none ↦ elim (find_ptr h.global_dict variable.id) [ none ↦ [] | some value ↦ value ]
    ]

abbrev pub is_none : {B : Type 0} → Option B → Bool
is_none none = true
is_none (some b) = false

unfoldable pub is_hidden_section : Heap → ℕ → TemplateString → Bool
unfolding search find_ptr
is_hidden_section h d name =
    is_none (or_globals (sections_of name) h d (search_up (sections_of name) h d))

unfoldable pub is_unhidden_section : Heap → ℕ → TemplateString → Bool
unfolding is_hidden_section
is_unhidden_section h d name = not (is_hidden_section h d name)

unfoldable pub is_hidden_template : Heap → ℕ → TemplateString → Bool
unfolding search find_ptr
is_hidden_template h d name = is_none (search_up (includes_of name) h d)

-- What the iterators go over; none where the source aborts.
unfoldable pub create_section_iterator : Heap → ℕ → TemplateString → Option (List ℕ)
unfolding search find_ptr
create_section_iterator h d name =
    or_globals (sections_of name) h d (search_up (sections_of name) h d)

unfoldable pub create_template_iterator : Heap → ℕ → TemplateString → Option (List ℕ)
unfolding search find_ptr
create_template_iterator h d name = search_up (includes_of name) h d

unfoldable pub element : List ℕ → ℕ → Option ℕ
element [] i = none
element (c ∷ dicts) zero = some c
element (c ∷ dicts) (suc i) = element dicts i

-- The file name of the dictionary with a number; none where the source aborts or reads behind the
-- end of the vector.
unfoldable pub get_include_template_name : Heap → ℕ → TemplateString → ℕ → Option Bytes
unfolding search find_ptr element
get_include_template_name h d variable dictnum = elim (search_up (includes_of variable) h d) [
  | none ↦ none
  | some dicts ↦ elim (element dicts dictnum) [
    | none ↦ none
    | some c ↦ elim (h.dict c).filename [ none ↦ some [] | some filename ↦ some filename ]
  ]
]

-- Empty: the tests on the sections and on the includes are as in the source.
abbrev pub is_empty_map : {B : Type 0} → Map B → Bool
is_empty_map [] = true
is_empty_map (e ∷ m) = false

abbrev pub holds : {B : Type 0} → (Map B → Bool) → Option (Map B) → Bool
holds test none = false
holds test (some m) = test m

unfoldable pub empty : Dict → Bool
empty n =
    if holds (λ m. not (is_empty_map m)) n.variable_dict
      || holds is_empty_map n.section_dict
      || holds is_empty_map n.include_dict
    then false
    else true

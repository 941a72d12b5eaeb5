-- ===== src/Tests/Dictionary.antt =====
-- Runs of the dictionaries and of the expansion, and the theorems at concrete inputs.
use ctemplate.Common.{[], ◌∷◌, true, false, Option, none, some, Bytes, codes, ◌≡◌, refl, arith}
use ctemplate.Dictionary.{
  TemplateString, hash_insert, lazy_create_template_global_dict, find_ptr, Heap,
  template_dictionary, set_value, add_section_dictionary, add_include_dictionary, set_filename,
  set_template_global_value, set_int_value, show_section, Dict,
}
use ctemplate.Dictionary.Lookup.{
  setup_global_dict, search, search_up, variable_of, get_value, is_hidden_section,
  is_hidden_template, create_section_iterator, create_template_iterator, get_include_template_name,
  empty,
}
use ctemplate.Dictionary.Lookup.Chain.{search_up_lem}
use ctemplate.Dictionary.Lookup.Values.{first_of, in_globals, set_value-get_value}
use ctemplate.Dictionary.Lookup.Children.{add_dictionary-get_value}
use ctemplate.Dictionary.Lookup.Contract.{SectionContract, IncludeContract, shown-iterator}
use ctemplate.Dictionary.Valid.{IsValid}
use ctemplate.Dictionary.Valid.Reach.{
  no_dictionary, Reachable, at_start, after, constructing, setting, adding_section, adding_include,
  naming_file, Reachable-IsValid,
}

abbrev name_string : TemplateString
name_string = record { text = codes "NAME"; id = 11 }

abbrev section_string : TemplateString
section_string = record { text = codes "ROW"; id = 13 }

abbrev include_string : TemplateString
include_string = record { text = codes "FOOT"; id = 15 }

abbrev globals : Heap
globals = no_dictionary (
    setup_global_dict (record { text = codes "BI_SPACE"; id = 3 })
      (record { text = codes "BI_NEWLINE"; id = 5 }))

abbrev with_main : Heap
with_main = (template_dictionary globals (codes "main")).0

abbrev with_name : Heap
with_name = set_value with_main 0 name_string (codes "a<b")

abbrev with_row : Heap
with_row = (add_section_dictionary with_name 0 section_string).0

abbrev with_foot : Heap
with_foot = (add_include_dictionary with_row 0 include_string).0

abbrev pub example_heap : Heap
example_heap = set_filename with_foot 2 (codes "foot.tpl")

pub made : (Reachable example_heap) × (example_heap.next ≡ 3)
unfolding template_dictionary set_value add_section_dictionary add_include_dictionary set_filename
made = (
  after with_foot example_heap
      (after with_row with_foot
        (after with_name with_row
          (after with_main with_name
            (after globals with_main (at_start _) (constructing (codes "main")))
            (setting 0 (omega arith) name_string (codes "a<b")))
          (adding_section 0 (omega arith) section_string))
        (adding_include 0 (omega arith) include_string))
      (naming_file 2 (omega arith) (codes "foot.tpl")),
  refl,
)

-- A section's dictionary sees its parent's values and an include's does not.
lookup_runs :
    (get_value example_heap 0 name_string ≡ codes "a<b")
    × (get_value example_heap 1 name_string ≡ codes "a<b")
    × (get_value example_heap 2 name_string ≡ [])
    × (get_value example_heap 2 (record { text = codes "BI_SPACE"; id = 3 }) ≡ codes " ")
    × (create_section_iterator example_heap 0 section_string ≡ some (1 ∷ []))
    × (create_template_iterator example_heap 0 include_string ≡ some (2 ∷ []))
    × (get_include_template_name example_heap 0 include_string 0 ≡ some (codes "foot.tpl"))
    × ((example_heap.dict 1).name ≡ codes "main/ROW#1")
unfolding template_dictionary set_value add_section_dictionary add_include_dictionary set_filename
    get_value create_section_iterator create_template_iterator get_include_template_name hash_insert
lookup_runs = (refl, refl, refl, refl, refl, refl, refl, refl)

-- Template globals are seen by the sections and the includes of the tree.
globals_runs :
    (get_value (set_template_global_value example_heap 1 name_string (codes "g")) 2 name_string
      ≡ codes "g")
    × (get_value (set_template_global_value example_heap 1 name_string (codes "g")) 1 name_string
        ≡ codes "a<b")
    × (get_value (set_int_value example_heap 2 name_string true 120) 2 name_string ≡ codes "-120")
unfolding template_dictionary set_value add_section_dictionary add_include_dictionary set_filename
    get_value set_template_global_value set_int_value lazy_create_template_global_dict hash_insert
globals_runs = (refl, refl, refl)

-- A dictionary with a section and nothing else is empty for Empty.
empty_runs :
    (empty ((show_section with_main 0 section_string).dict 0) ≡ true)
    × (empty (with_name.dict 0) ≡ false)
unfolding template_dictionary set_value show_section empty hash_insert
empty_runs = (refl, refl)

pub example_IsValid : IsValid example_heap
example_IsValid = Reachable-IsValid example_heap made.0

Reachable-IsValid_example : IsValid example_heap
Reachable-IsValid_example = Reachable-IsValid example_heap made.0

abbrev name_probe : Dict → Option Bytes
name_probe = variable_of name_string

search_up_lem_example : search name_probe 2 example_heap 1 ≡ search_up name_probe example_heap 1
search_up_lem_example =
    search_up_lem example_heap example_IsValid name_probe 2 1 (omega (arith, made.1)) (omega arith)

set_value-get_value_example :
    (get_value (set_value example_heap 0 section_string (codes "v")) 0 section_string ≡ codes "v")
    × (get_value (set_value example_heap 0 section_string (codes "v")) 1 name_string
        ≡ get_value example_heap 1 name_string)
set_value-get_value_example =
    set_value-get_value example_heap example_IsValid 0 (omega (arith, made.1)) section_string
      (codes "v") name_string (λ e. cc) 1 (omega (arith, made.1))

add_dictionary-get_value_example :
    (get_value
        (add_section_dictionary example_heap 0 section_string).0
        (add_section_dictionary example_heap 0 section_string).1
        name_string
      ≡ get_value example_heap 0 name_string)
    × (get_value
          (add_include_dictionary example_heap 0 section_string).0
          (add_include_dictionary example_heap 0 section_string).1
          name_string
        ≡ first_of none
            (in_globals example_heap 0 name_string)
            (find_ptr example_heap.global_dict name_string.id))
add_dictionary-get_value_example =
    add_dictionary-get_value example_heap 0 section_string name_string example_IsValid
      (omega (arith, made.1))

shown :
    (is_hidden_section example_heap 0 section_string ≡ false)
    × (is_hidden_template example_heap 0 include_string ≡ false)
unfolding template_dictionary set_value add_section_dictionary add_include_dictionary set_filename
    is_hidden_section is_hidden_template hash_insert
shown = (refl, refl)

shown-iterator_example :
    SectionContract example_heap 0 section_string × IncludeContract example_heap 0 include_string
shown-iterator_example =
    shown-iterator example_heap example_IsValid section_string include_string 0
      (omega (arith, made.1))

-- ===== src/Dictionary/Valid/Reach.antt =====
-- The heaps that a program makes with the dictionaries' operations.
use ctemplate.Common.{ℕ, ◌<◌, [], Bool, none, arith, Bytes}
use ctemplate.Dictionary.{
  TemplateString, Map, Heap, new_dict, template_dictionary, set_value, set_escaped_value,
  set_int_value, set_template_global_value, set_global_value, add_section_dictionary, show_section,
  show_template_global_section, set_value_and_show_section, add_include_dictionary, set_filename,
}
use ctemplate.Dictionary.Valid.{IsValid}
use ctemplate.Dictionary.Valid.Operations.{
  template_dictionary-IsValid, set_value-IsValid, set_filename-IsValid, show_section-IsValid,
  add_section_dictionary-IsValid, add_include_dictionary-IsValid,
}
use ctemplate.Dictionary.Valid.Globals.{
  set_template_global_value-IsValid, show_template_global_section-IsValid,
  set_value_and_show_section-IsValid,
}

-- No dictionary is made.
abbrev pub no_dictionary : Map Bytes → Heap
no_dictionary globals = record { next = 0; dict = λ d. new_dict [] 0 none; global_dict = globals }

-- What one call does, to a dictionary that is made.
pub data Call (h : Heap) : Heap → Type 0 where
  constructing : (name : Bytes) → Call h (template_dictionary h name).0
  setting :
      (d : ℕ)
      → d < h.next
      → (variable : TemplateString) (value : Bytes) → Call h (set_value h d variable value)
  setting_escaped :
      (d : ℕ)
      → d < h.next
      → (variable : TemplateString) (value : Bytes) (escfn : Bytes → Bytes)
      → Call h (set_escaped_value h d variable value escfn)
  setting_int :
      (d : ℕ)
      → d < h.next
      → (variable : TemplateString) (negative : Bool) (magnitude : ℕ)
      → Call h (set_int_value h d variable negative magnitude)
  setting_template_global :
      (d : ℕ)
      → d < h.next
      → (variable : TemplateString) (value : Bytes)
      → Call h (set_template_global_value h d variable value)
  setting_global :
      (variable : TemplateString) (value : Bytes) → Call h (set_global_value h variable value)
  adding_section :
      (d : ℕ)
      → d < h.next
      → (section : TemplateString) → Call h (add_section_dictionary h d section).0
  showing : (d : ℕ) → d < h.next → (section : TemplateString) → Call h (show_section h d section)
  showing_template_global :
      (d : ℕ)
      → d < h.next
      → (section : TemplateString) → Call h (show_template_global_section h d section)
  setting_and_showing :
      (d : ℕ)
      → d < h.next
      → (variable : TemplateString) (value : Bytes) (section : TemplateString)
      → Call h (set_value_and_show_section h d variable value section)
  adding_include :
      (d : ℕ)
      → d < h.next
      → (include_name : TemplateString) → Call h (add_include_dictionary h d include_name).0
  naming_file : (d : ℕ) → d < h.next → (filename : Bytes) → Call h (set_filename h d filename)

pub data Reachable : Heap → Type 0 where
  at_start : (globals : Map Bytes) → Reachable (no_dictionary globals)
  after : (h k : Heap) → Reachable h → Call h k → Reachable k

set_global_value-IsValid :
    (h : Heap) (variable : TemplateString) (value : Bytes)
    → IsValid h
    → IsValid (set_global_value h variable value)
unfolding set_global_value
set_global_value-IsValid h variable value valid = record {
  valid_at = λ d made.
      (let v = valid.valid_at d made in
        record {
          owner_first = v.owner_first;
          owner_owns = v.owner_owns;
          parent_first = v.parent_first;
          globals_child = v.globals_child;
          sections_children = v.sections_children;
          includes_children = v.includes_children;
        });
}

Call-IsValid : (h k : Heap) → IsValid h → Call h k → IsValid k
unfolding set_escaped_value set_int_value
Call-IsValid h k valid (constructing name) = template_dictionary-IsValid h name valid
Call-IsValid h k valid (setting d made variable value) =
    set_value-IsValid h valid d made variable value
Call-IsValid h k valid (setting_escaped d made variable value escfn) =
    set_value-IsValid h valid d made variable (escfn value)
Call-IsValid h k valid (setting_int d made variable negative magnitude) =
    set_value-IsValid h valid d made variable _
Call-IsValid h k valid (setting_template_global d made variable value) =
    set_template_global_value-IsValid h valid d made variable value
Call-IsValid h k valid (setting_global variable value) =
    set_global_value-IsValid h variable value valid
Call-IsValid h k valid (adding_section d made section) =
    add_section_dictionary-IsValid h valid d made section
Call-IsValid h k valid (showing d made section) = show_section-IsValid h valid d made section
Call-IsValid h k valid (showing_template_global d made section) =
    show_template_global_section-IsValid h valid d made section
Call-IsValid h k valid (setting_and_showing d made variable value section) =
    set_value_and_show_section-IsValid h valid d made variable value section
Call-IsValid h k valid (adding_include d made include_name) =
    add_include_dictionary-IsValid h valid d made include_name
Call-IsValid h k valid (naming_file d made filename) = set_filename-IsValid h valid d made filename

-- In every heap that the operations make, the owner of a dictionary's tree is made no later than it
-- and owns itself, a parent is made before its child in the same tree, template globals are a child
-- of the owner, and every entry of the sections and of the includes is a non-empty vector of later
-- dictionaries of the tree: a section's have this dictionary as their parent, an include's have none.
pub Reachable-IsValid : (h : Heap) → Reachable h → IsValid h
Reachable-IsValid h (at_start globals) = record { valid_at = λ d made. absurd (omega arith) }
Reachable-IsValid h (after h' k before call) = Call-IsValid h' h (Reachable-IsValid h' before) call

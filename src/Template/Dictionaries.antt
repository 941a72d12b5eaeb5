-- ===== src/Template/Dictionaries.antt =====
-- TemplateDictionary as the dictionary of an expansion, by src/template_dictionary.cc.
pub mod Roots
pub mod Ends
pub mod Expansion
use ctemplate.Common.{ℕ}
use ctemplate.Dictionary.{Heap}
use ctemplate.Dictionary.Lookup.{
  get_value, is_hidden_section, is_unhidden_section, is_hidden_template, get_include_template_name,
  create_section_iterator, create_template_iterator,
}
use ctemplate.Template.Nodes.{TemplateDictionaryInterface}

-- The dictionaries of a heap, by their numbers.
abbrev pub dictionary_interface : Heap → TemplateDictionaryInterface ℕ
dictionary_interface h = record {
  get_value = get_value h;
  is_hidden_section = is_hidden_section h;
  is_unhidden_section = is_unhidden_section h;
  is_hidden_template = is_hidden_template h;
  get_include_template_name = get_include_template_name h;
  create_section_iterator = create_section_iterator h;
  create_template_iterator = create_template_iterator h;
}

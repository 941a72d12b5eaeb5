-- ===== src/Tests/Template.antt =====
-- src/template.cc: runs of the expansion with the dictionaries of a heap, and instances of its
-- theorems.
use ctemplate.Common.{
  ℕ, zero, suc, ◌∙◌, ◌<◌, List, [], ◌∷◌, Bool, true, false, Option, none, some, Bytes, codes, ◌≡◌,
  ◌⊎◌, inl, inr, refl, arith, reverse, ◌++◌, sym, Bool-cases, if◌then◌else◌, equal,
}
use ctemplate.Dictionary.{
  TemplateString, hash_insert, lazy_create_template_global_dict, Heap, template_dictionary,
  set_value, add_section_dictionary, add_include_dictionary, set_filename,
  show_template_global_section, template_globals,
}
use ctemplate.Dictionary.Lookup.{
  get_value, is_unhidden_section, create_section_iterator, is_hidden_template,
  create_template_iterator, get_include_template_name,
}
use ctemplate.Modifiers.Markup.{html_escape as html_escape_text}
use ctemplate.Modifiers.Registry.{html_escape, xss_web_standard}
use ctemplate.Modifiers.Registry.Builtin.{modify}
use ctemplate.Template.{ModifierAndValue, TemplateToken, infos_of, any_safe, update_modifier}
use ctemplate.Template.AutoEscape.{update_modifier-Covers}
use ctemplate.Template.Matching.{Covers}
use ctemplate.Template.Nodes.{
  Strip, do_not_strip, text_node, variable_node, section_node, section, NodeList, no_nodes, node,
  template_template_node, PerExpandData, Template, ts_ready,
}
use ctemplate.Template.ExpandLocked.{expand_locked}
use ctemplate.Template.Dictionaries.{dictionary_interface}
use ctemplate.Template.Dictionaries.Roots.{HasPlainGlobals}
use ctemplate.Template.Dictionaries.Expansion.{Loaded, expand_locked-ends, expand_locked-error_free}
use ctemplate.Tests.Dictionary.{example_heap, made, example_IsValid}

abbrev as_html : ModifierAndValue
as_html = record {
  info = record {
    long_name = codes "html_escape";
    short_name = b'h';
    modval_required = false;
    is_registered = true;
    xss_class = xss_web_standard;
    modifier = html_escape;
  };
  value = [];
}

abbrev plain_token : Bytes → TemplateToken
plain_token text = record { text = text; modvals = [] }

abbrev string_of : Bytes → ℕ → TemplateString
string_of text id = record { text = text; id = id }

abbrev pub no_data : PerExpandData
no_data = record {
  annotate_path = none;
  annotator_set = none;
  template_expansion_modifier = none;
  modifiers = record {
    might_modify = λ m value. true;
    modify = λ m value s. modify (λ n t. t) m s;
  };
}

abbrev main_of : NodeList → Template
main_of nodes = record {
  state = ts_ready;
  template_file = codes "main.tpl";
  tree =
      section (plain_token (codes "__{{MAIN}}__")) (string_of (codes "__{{MAIN}}__") 17) nodes none
        true;
}

-- `Hi {{NAME:h}}{{#ROW}}[{{NAME}}]{{/ROW}}{{>FOOT}}`
abbrev main_tpl : Template
main_tpl = main_of (
    node (text_node (codes "Hi ")) (
      node
        (variable_node (record { text = codes "NAME"; modvals = as_html ∷ [] })
          (string_of (codes "NAME") 11))
        (node
          (section_node (
            section (plain_token (codes "ROW")) (string_of (codes "ROW") 13)
              (node (text_node (codes "[")) (
                node (variable_node (plain_token (codes "NAME")) (string_of (codes "NAME") 11))
                  (node (text_node (codes "]")) no_nodes)))
              none true))
          (node
            (template_template_node (plain_token (codes "FOOT")) (string_of (codes "FOOT") 15)
              do_not_strip [])
            no_nodes))))

abbrev foot_tpl : Template
foot_tpl = main_of (node (text_node (codes "bye")) no_nodes)

abbrev get_template : Bytes → Strip → Option Template
get_template filename strip =
    some (if equal filename (codes "foot.tpl") then foot_tpl else main_tpl)

expand_runs :
    expand_locked
      (dictionary_interface example_heap)
      no_data
      get_template
      3
      (codes "main.tpl")
      do_not_strip
      0
    ≡ some (codes "Hi a&lt;b[a<b]bye", true)
unfolding expand_locked template_template_node modify hash_insert template_dictionary set_value
    add_section_dictionary add_include_dictionary set_filename equal is_unhidden_section
    create_section_iterator is_hidden_template create_template_iterator get_include_template_name
    html_escape_text get_value
expand_runs = refl

-- The separator stands between the expansions of a section, and each is annotated.
abbrev two_rows : Heap
two_rows = (add_section_dictionary example_heap 0 (string_of (codes "ROW") 13)).0

abbrev row_tpl : Template
row_tpl = main_of (
    node
      (section_node (
        section (plain_token (codes "ROW")) (string_of (codes "ROW") 13)
          (node (text_node (codes "x")) (
            node
              (section_node (
                section (plain_token (codes "ROW_separator")) (string_of (codes "ROW_separator") 19)
                  (node (text_node (codes ", ")) no_nodes) none true))
              no_nodes))
          (some 1) true))
      no_nodes)

separator_runs :
    expand_locked
      (dictionary_interface two_rows)
      no_data
      (λ f s. some row_tpl)
      9
      (codes "main.tpl")
      do_not_strip
      0
    ≡ some (codes "x, x", true)
unfolding expand_locked template_template_node modify hash_insert template_dictionary set_value
    add_section_dictionary add_include_dictionary set_filename equal is_unhidden_section
    create_section_iterator is_hidden_template create_template_iterator get_include_template_name
    html_escape_text get_value
separator_runs = refl

-- A missing file below an include: without modifiers the text around it is kept, with PrefixLine it
-- is lost.
abbrev nested_heap : Heap
nested_heap =
    set_filename (add_include_dictionary example_heap 2 (string_of (codes "FOOT") 15)).0 3
      (codes "gone.tpl")

abbrev nested_tpl : Bytes → Template
nested_tpl indentation = main_of (
    node (text_node (codes ".")) (
      node
        (template_template_node (plain_token (codes "FOOT")) (string_of (codes "FOOT") 15)
          do_not_strip indentation)
        no_nodes))

abbrev without_gone : Bytes → Bytes → Strip → Option Template
without_gone indentation filename strip =
    if equal filename (codes "gone.tpl") then none else some (nested_tpl indentation)

nested_runs :
    (expand_locked
        (dictionary_interface nested_heap)
        no_data
        (without_gone [])
        9
        (codes "main.tpl")
        do_not_strip
        0
      ≡ some (codes "..", false))
    × (expand_locked
          (dictionary_interface nested_heap)
          no_data
          (without_gone (codes " "))
          9
          (codes "main.tpl")
          do_not_strip
          0
        ≡ some (codes ".", false))
unfolding expand_locked template_template_node modify hash_insert template_dictionary set_value
    add_section_dictionary add_include_dictionary set_filename equal is_unhidden_section
    create_section_iterator is_hidden_template create_template_iterator get_include_template_name
    html_escape_text get_value
nested_runs = (refl, refl)

-- A section of the template globals, with an include of the template itself in it, has no end: the
-- section's dictionary has the owner among its parents and so the owner's includes.
abbrev shown_globally : Heap
shown_globally = show_template_global_section example_heap 0 (string_of (codes "LOOP") 21)

abbrev loop_tpl : Template
loop_tpl = main_of (
    node
      (section_node (
        section (plain_token (codes "LOOP")) (string_of (codes "LOOP") 21)
          (node
            (template_template_node (plain_token (codes "FOOT")) (string_of (codes "FOOT") 15)
              do_not_strip [])
            no_nodes)
          none true))
      no_nodes)

loop_runs :
    expand_locked
      (dictionary_interface shown_globally)
      no_data
      (λ f s. some loop_tpl)
      12
      (codes "main.tpl")
      do_not_strip
      0
    ≡ none
unfolding expand_locked template_template_node modify hash_insert template_dictionary set_value
    add_section_dictionary add_include_dictionary set_filename equal is_unhidden_section
    create_section_iterator is_hidden_template create_template_iterator get_include_template_name
    html_escape_text get_value show_template_global_section lazy_create_template_global_dict
loop_runs = refl

no_globals : (d : ℕ) → d < 3 → template_globals example_heap d ≡ none
unfolding template_dictionary set_value add_section_dictionary add_include_dictionary set_filename
no_globals zero below = refl
no_globals (suc zero) below = refl
no_globals (suc (suc zero)) below = refl
no_globals (suc (suc (suc d))) below = absurd (omega (arith, below))

example_HasPlainGlobals : HasPlainGlobals example_heap
example_HasPlainGlobals d g below e =
    absurd (let never : none ≡ some g = sym (no_globals d (omega (arith, below, made.1))) ∙ e in cc)

expand_locked-ends_example :
    (out : Bytes) × ((error_free : Bool) × (expand_locked
          (dictionary_interface example_heap)
          no_data
          get_template
          3
          (codes "main.tpl")
          do_not_strip
          0
        ≡ some (out, error_free)))
expand_locked-ends_example =
    expand_locked-ends example_heap example_IsValid example_HasPlainGlobals no_data get_template
      (codes "main.tpl") do_not_strip 0 3 (omega (arith, made.1)) (omega (arith, made.1))

always-Loaded : (filename : Bytes) → Loaded get_template filename
always-Loaded [] = tt
always-Loaded (c ∷ name) = λ strip. elim (Bool-cases (equal (c ∷ name) (codes "foot.tpl"))) [
  | inl e ↦ (foot_tpl, (rw e refl, refl))
  | inr e ↦ (main_tpl, (rw e refl, refl))
]

expand_locked-error_free_example :
    (out : Bytes) × (expand_locked
        (dictionary_interface example_heap)
        no_data
        get_template
        3
        (codes "main.tpl")
        do_not_strip
        0
      ≡ some (out, true))
expand_locked-error_free_example =
    expand_locked-error_free example_heap example_IsValid example_HasPlainGlobals no_data
      get_template (codes "main.tpl") do_not_strip 0 3 (omega (arith, made.1))
      (omega (arith, made.1)) (always-Loaded (codes "main.tpl") do_not_strip)
      (λ c m. always-Loaded _)

update_modifier-Covers_example :
    ((any_safe (update_modifier (as_html ∷ []) (as_html ∷ as_html ∷ [])) ≡ true)
      ⊎ Covers
          (reverse (infos_of (as_html ∷ as_html ∷ [])))
          (reverse (infos_of (update_modifier (as_html ∷ []) (as_html ∷ as_html ∷ [])))))
    × (update_modifier
          (update_modifier (as_html ∷ []) (as_html ∷ as_html ∷ []))
          (as_html ∷ as_html ∷ [])
        ≡ update_modifier (as_html ∷ []) (as_html ∷ as_html ∷ []))
    × ((added : List ModifierAndValue) × (update_modifier (as_html ∷ []) (as_html ∷ as_html ∷ [])
          ≡ (as_html ∷ []) ++ added))
update_modifier-Covers_example = update_modifier-Covers (as_html ∷ []) (as_html ∷ as_html ∷ [])

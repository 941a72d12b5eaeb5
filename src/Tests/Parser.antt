-- ===== src/Tests/Parser.antt =====
-- src/template.cc: runs of the parser, and instances of its theorems.
use ctemplate.Common.{
  ℕ, List, [], ◌∷◌, ◌++◌, ◌≤◌, length, Bool, true, false, Option, none, some, Bytes, codes, ◌≡◌,
  refl, arith, All, equal, if◌then◌else◌,
}
use ctemplate.Dictionary.{
  digits, hash_insert, template_dictionary, set_value, add_section_dictionary,
  add_include_dictionary, set_filename,
}
use ctemplate.Dictionary.Lookup.{
  get_value, is_hidden_section, is_unhidden_section, create_section_iterator,
}
use ctemplate.Modifiers.Markup.{html_escape as html_escape_text}
use ctemplate.Modifiers.Registry.{
  Registry, is_extension_modifier, find_extension, best_match, update_best_match, matches_value,
  matches_plain, before_equals, from_equals,
}
use ctemplate.Modifiers.Registry.Builtin.{modify, find_modifier, g_modifiers}
use ctemplate.Template.Nodes.{
  Strip, do_not_strip, strip_blank_lines, strip_whitespace, TemplateState, ts_error, ts_ready,
  Template,
}
use ctemplate.Template.Expand.{Expanded}
use ctemplate.Template.ExpandLocked.{expand_parsed}
use ctemplate.Template.Dictionaries.{dictionary_interface}
use ctemplate.Template.Markers.{is_valid_name}
use ctemplate.Template.Headers.{write_header_entries, no_entries}
use ctemplate.Template.StripBuffer.{strip_buffer}
use ctemplate.Template.StripBuffer.Ends.{strip_buffer-ends}
use ctemplate.Template.Tree.{build_tree}
use ctemplate.Template.Tree.Literal.{printed, IsPiece}
use ctemplate.Template.Tree.Ends.{build_tree-ends}
use ctemplate.Template.Tree.Substitution.{filled, build_tree-expand_parsed}
use ctemplate.Tests.Dictionary.{example_heap}
use ctemplate.Tests.Template.{no_data}

abbrev no_modifiers : Registry
no_modifiers = record { extension_modifiers = []; unknown_modifiers = [] }

-- Ids for the names of the runs.
abbrev name_hash : Bytes → ℕ
name_hash text =
    if equal text (codes "NAME") then 11 else if equal text (codes "ROW") then 13 else 0

abbrev no_pragma : Bytes → Bool
no_pragma text = false

abbrev no_files : Bytes → Strip → ℕ → Expanded
no_files filename strip d = none

abbrev parsed : Bytes → Option Template
parsed text = build_tree name_hash strip_whitespace no_pragma 99 no_modifiers (codes "t.tpl") text

abbrev state_of : Option Template → TemplateState
state_of none = ts_error
state_of (some t) = t.state

abbrev expanded : Option Template → Expanded
expanded none = none
expanded (some t) = expand_parsed (dictionary_interface example_heap) no_data no_files t 0

state_runs :
    (state_of (parsed (codes "a{{NAME:h}}b{{!x}}")) ≡ ts_ready)
    × (state_of (parsed (codes "{{#ROW}}x")) ≡ ts_error)
    × (state_of (parsed (codes "{{#ROW}}x{{/COL}}")) ≡ ts_error)
    × (state_of (parsed (codes "{{NAME")) ≡ ts_error)
    × (state_of (parsed (codes "{{NA ME}}")) ≡ ts_error)
    × (state_of (parsed (codes "{{#ROW:h}}{{/ROW}}")) ≡ ts_error)
    × (state_of (parsed (codes "{{=<< >>=}}<<NAME>>")) ≡ ts_ready)
    × (state_of (parsed (codes "{{=<<>>=}}")) ≡ ts_error)
unfolding build_tree find_modifier equal is_extension_modifier find_extension best_match
    update_best_match matches_value matches_plain before_equals from_equals g_modifiers
state_runs = (refl, refl, refl, refl, refl, refl, refl, refl)

abbrev hi : List (Bytes × Bytes)
hi = (codes "Hi ", codes "NAME") ∷ []

-- Modifiers, comments, other delimiters and an escaped newline.
expand_runs :
    (expanded (parsed (codes "a{{NAME:h}}b{{!x}}")) ≡ some (codes "aa&lt;bb", true))
    × (expanded (parsed (codes "{{=<< >>=}}<<NAME>>{{")) ≡ some (codes "a<b{{", true))
    × (expanded (parsed (codes "{{#ROW}}\n[{{NAME}}]{{/ROW}}\\\n."))
        ≡ some (codes "[a<b]\n.", true))
    × (expanded (parsed (codes "{{{NAME}}")) ≡ some (codes "{a<b", true))
unfolding build_tree find_modifier equal is_extension_modifier find_extension best_match
    update_best_match matches_value matches_plain before_equals from_equals g_modifiers
    expand_parsed get_value is_hidden_section is_unhidden_section create_section_iterator modify
    html_escape_text hash_insert template_dictionary set_value add_section_dictionary
    add_include_dictionary set_filename
expand_runs = (refl, refl, refl, refl)

build_tree-ends_example :
    (template : Template) × (build_tree name_hash strip_whitespace no_pragma 99 no_modifiers
        (codes "t.tpl")
        (codes "{{#ROW}}")
      ≡ some template)
build_tree-ends_example =
    build_tree-ends no_pragma strip_whitespace name_hash no_modifiers (codes "t.tpl")
      (codes "{{#ROW}}") 99 (omega arith)

hi_pieces : All IsPiece hi
unfolding is_valid_name
hi_pieces = ((ground arith, (λ e. cc), refl), tt)

build_tree-expand_parsed_example :
    (template : Template) × ((build_tree name_hash strip_whitespace no_pragma 4 no_modifiers
          (codes "t.tpl")
          (printed hi (codes "!"))
        ≡ some template)
      × (expand_parsed (dictionary_interface example_heap) no_data no_files template 0
          ≡ some (
            filled
                (λ name. get_value example_heap 0 (record { text = name; id = name_hash name }))
                hi
                (codes "!"),
            true,
          )))
build_tree-expand_parsed_example =
    build_tree-expand_parsed (dictionary_interface example_heap) no_data no_files no_modifiers
      no_pragma strip_whitespace name_hash 0 refl (codes "t.tpl") hi (codes "!") 4 refl hi_pieces
      (ground arith) (omega arith)

-- A line with two spaces on either side of what it holds.
abbrev spaced : Bytes → Bytes
spaced text = codes "  " ++ (text ++ (codes "  " ++ 10 ∷ []))

strip_runs :
    (strip_buffer 40 do_not_strip (spaced (codes "{{#A}}")) ≡ some (spaced (codes "{{#A}}")))
    × (strip_buffer 40 strip_blank_lines (spaced (codes "{{#A}}")) ≡ some (codes "{{#A}}"))
    × (strip_buffer 40 strip_blank_lines (spaced []) ≡ some [])
    × (strip_buffer 40 strip_blank_lines (spaced (codes "{{A}}")) ≡ some (spaced (codes "{{A}}")))
    × (strip_buffer 40 strip_blank_lines (spaced (codes "{{#A}}{{/A}}"))
        ≡ some (spaced (codes "{{#A}}{{/A}}")))
    × (strip_buffer 40 strip_whitespace (spaced (codes "a b") ++ spaced (codes "c"))
        ≡ some (codes "a bc"))
    × (strip_buffer 40 strip_blank_lines (spaced (codes "{{=| |=}}") ++ spaced (codes "|#A|"))
        ≡ some (codes "{{=| |=}}|#A|"))
unfolding strip_buffer
strip_runs = (refl, refl, refl, refl, refl, refl, refl)

-- Empty delimiters are accepted, and the loop over the markers uses up its fuel.
empty_delimiters_run : strip_buffer 40 strip_blank_lines (codes "{{= =}}") ≡ none
unfolding strip_buffer
empty_delimiters_run = refl

strip_buffer-ends_example :
    (out : Bytes) × (strip_buffer 9 strip_blank_lines (codes " {{/A}}") ≡ some out)
    × (length out ≤ 7)
strip_buffer-ends_example =
    strip_buffer-ends 9 strip_blank_lines (codes " {{/A}}") (omega arith)
      (refl, (refl, (refl, (refl, (refl, (refl, (refl, tt)))))))

abbrev headers : Option Template → Bytes
headers none = []
headers (some t) = (write_header_entries name_hash t no_entries).0

-- A name is written once, and the built-in names and the main section are not.
header_runs :
    headers (
      build_tree name_hash strip_whitespace no_pragma 99 no_modifiers
        (codes "dir/ab_cd_post.tpl")
        (codes "{{NAME}}{{BI_SPACE}}{{NAME}}"))
    ≡ codes
        "#include <ctemplate/template_string.h>\nstatic const ::ctemplate::StaticTemplateString kac_NAME = STS_INIT_WITH_HASH(kac_NAME, \"NAME\", 11ULL);\n"
unfolding write_header_entries build_tree digits
header_runs = refl

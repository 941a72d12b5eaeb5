-- ===== src/Template/Nodes.antt =====
-- src/template.cc and src/template_annotator.cc: the nodes of a parsed template, the interface of a
-- dictionary, the data of one call of Expand, and what a template is made of.
use ctemplate.Common.{ℕ, List, [], ◌∷◌, ◌++◌, Bool, Option, none, some, Bytes, codes}
use ctemplate.Dictionary.{TemplateString}
use ctemplate.Template.{TemplateToken, g_prefix_line_info, Dispatch}

pub data Strip : Type 0 where
  do_not_strip strip_blank_lines strip_whitespace : Strip

-- A section's separator is its place in the section's list of nodes.
mutual
  pub data TemplateNode : Type 0 where
    text_node : Bytes → TemplateNode
    variable_node : TemplateToken → TemplateString → TemplateNode
    pragma_node : Bytes → TemplateNode
    template_node : TemplateToken → TemplateString → Strip → TemplateNode
    section_node : SectionTemplateNode → TemplateNode

  pub data SectionTemplateNode : Type 0 where
    section :
        (token : TemplateToken) (variable : TemplateString) (node_list : NodeList)
        (separator_section : Option ℕ) (hidden_by_default : Bool)
        → SectionTemplateNode

  pub data NodeList : Type 0 where
    no_nodes : NodeList
    node : TemplateNode → NodeList → NodeList

-- The constructor of TemplateTemplateNode, which gives an indented include the modifier PrefixLine.
unfoldable pub template_template_node :
    TemplateToken → TemplateString → Strip → Bytes → TemplateNode
template_template_node token variable strip [] = template_node token variable strip
template_template_node token variable strip (c ∷ indentation) =
    template_node
      (record token {
        modvals =
            token.modvals ++ record { info = g_prefix_line_info; value = c ∷ indentation } ∷ [];
      })
      variable strip

-- TemplateDictionaryInterface over the dictionaries of a type. An iterator is the list of what it
-- goes over; none where the implementation aborts. A NULL file name is the empty one.
pub record TemplateDictionaryInterface (D : Type 0) : Type 0 where
  pub get_value : D → TemplateString → Bytes
  pub is_hidden_section : D → TemplateString → Bool
  pub is_unhidden_section : D → TemplateString → Bool
  pub is_hidden_template : D → TemplateString → Bool
  pub get_include_template_name : D → TemplateString → ℕ → Option Bytes
  pub create_section_iterator : D → TemplateString → Option (List D)
  pub create_template_iterator : D → TemplateString → Option (List D)

-- The functions of a TemplateAnnotator, by what they emit.
pub record TemplateAnnotator : Type 0 where
  pub emit_open_include : Bytes → Bytes
  pub emit_close_include : Bytes
  pub emit_open_file : Bytes → Bytes
  pub emit_close_file : Bytes
  pub emit_open_section : Bytes → Bytes
  pub emit_close_section : Bytes
  pub emit_open_variable : Bytes → Bytes
  pub emit_close_variable : Bytes
  pub emit_file_is_missing : Bytes → Bytes

-- EMIT_OPEN_ANNOTATION, EMIT_CLOSE_ANNOTATION and EMIT_MISSING_ANNOTATION
unfoldable pub emit_open_annotation : Bytes → Bytes → Bytes
emit_open_annotation name value = codes "{{#" ++ (name ++ (codes "=" ++ (value ++ codes "}}")))

unfoldable pub emit_close_annotation : Bytes → Bytes
emit_close_annotation name = codes "{{/" ++ (name ++ codes "}}")

unfoldable pub emit_missing_annotation : Bytes → Bytes → Bytes
emit_missing_annotation name value = codes "{{" ++ (name ++ (codes "=" ++ (value ++ codes "}}")))

unfoldable pub text_template_annotator : TemplateAnnotator
unfolding emit_open_annotation emit_close_annotation emit_missing_annotation
text_template_annotator = record {
  emit_open_include = emit_open_annotation (codes "INC");
  emit_close_include = emit_close_annotation (codes "INC");
  emit_open_file = emit_open_annotation (codes "FILE");
  emit_close_file = emit_close_annotation (codes "FILE");
  emit_open_section = emit_open_annotation (codes "SEC");
  emit_close_section = emit_close_annotation (codes "SEC");
  emit_open_variable = emit_open_annotation (codes "VAR");
  emit_close_variable = emit_close_annotation (codes "VAR");
  emit_file_is_missing = emit_missing_annotation (codes "MISSING_FILE");
}

-- A modifier of whole templates, whose argument is the template's file.
pub record ExpansionModifier : Type 0 where
  pub might_modify_file : Bytes → Bool
  pub modify_file : Bytes → Bytes → Bytes

-- The members of PerExpandData; what InsertForModifiers stores is read by the modifiers only, that
-- is, by the functions of `modifiers`.
pub record PerExpandData : Type 0 where
  pub annotate_path : Option Bytes
  pub annotator_set : Option TemplateAnnotator
  pub template_expansion_modifier : Option ExpansionModifier
  pub modifiers : Dispatch

-- PerExpandData::annotator
unfoldable pub annotator : PerExpandData → TemplateAnnotator
unfolding text_template_annotator
annotator per_expand_data = elim per_expand_data.annotator_set [
  | some set ↦ set
  | none ↦ text_template_annotator
]

-- `if (per_expand_data->annotate())`
unfoldable pub annotation : PerExpandData → (TemplateAnnotator → Bytes) → Bytes
unfolding annotator
annotation per_expand_data emit = elim per_expand_data.annotate_path [
  | none ↦ []
  | some path ↦ emit (annotator per_expand_data)
]

pub data TemplateState : Type 0 where
  ts_unused ts_empty ts_error ts_ready : TemplateState

pub record Template : Type 0 where
  pub state : TemplateState
  pub template_file : Bytes
  pub tree : SectionTemplateNode

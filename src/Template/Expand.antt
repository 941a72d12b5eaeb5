-- ===== src/Template/Expand.antt =====
-- src/template.cc: Expand of the nodes and ExpandLocked.
pub mod Yields
pub mod Total
use ctemplate.Common.{
  ℕ, zero, suc, ◌+◌, List, [], ◌∷◌, ◌++◌, Bool, true, false, not, ◌&&◌, Option, none, some, Bytes,
  codes, ◌==◌, if◌then◌else◌, drop, equal,
}
use ctemplate.Dictionary.{TemplateString}
use ctemplate.Pathops.{find}
use ctemplate.Template.{TemplateToken, token_to_string, any_might_modify, emit_modified_string}
use ctemplate.Template.Nodes.{
  Strip, TemplateNode, text_node, variable_node, pragma_node, template_node, section_node,
  SectionTemplateNode, section, NodeList, no_nodes, node, TemplateDictionaryInterface,
  TemplateAnnotator, PerExpandData, annotation, TemplateState, ts_ready, Template,
}

-- The bytes of a string up to the first NUL, which is what is read of a `const char*`.
unfoldable pub c_string : Bytes → Bytes
c_string [] = []
c_string (c ∷ s) = if c == 0 then [] else c ∷ c_string s

-- What a call of Expand emits and whether it is free of errors; none where a dictionary aborts and
-- where the fuel for the nesting of includes runs out.
abbrev pub Expanded : Type 0
Expanded = Option (Bytes × Bool)

-- Two calls with the same emitter, with `error_free &=`.
abbrev pub and_then : Expanded → Expanded → Expanded
and_then none second = none
and_then (some first) none = none
and_then (some first) (some second) = some (first.0 ++ second.0, first.1 && second.1)

abbrev pub emitting : Bytes → Expanded
emitting s = some (s, true)

-- Annotations around a call.
abbrev pub around : Bytes → Bytes → Expanded → Expanded
around before after none = none
around before after (some (out, error_free)) = some (before ++ (out ++ after), error_free)

-- The loop over the children of an iterator; `true` is for the last one.
unfoldable pub for_each : {D : Type 0} → (D → Bool → Expanded) → List D → Expanded
for_each body [] = emitting []
for_each body (child ∷ []) = body child true
for_each body (child ∷ next ∷ children) =
    let rest = for_each body (next ∷ children) in and_then (body child false) rest

-- An iterator without children stands for the containing dictionary.
unfoldable pub for_iterator :
    {D : Type 0} → Option (List D) → Expanded → (D → Bool → Expanded) → Expanded
unfolding for_each
for_iterator none main body = none
for_iterator (some []) main body = main
for_iterator (some (child ∷ children)) main body = for_each body (child ∷ children)

module _ {D : Type 0} (I : TemplateDictionaryInterface D) (per_expand_data : PerExpandData) where
  -- VariableTemplateNode::Expand
  unfoldable pub expand_variable : TemplateToken → TemplateString → D → Expanded
  unfolding annotation token_to_string any_might_modify emit_modified_string
  expand_variable token variable d =
      let value = I.get_value d variable in
      around (annotation per_expand_data (λ a. a.emit_open_variable (token_to_string token)))
        (annotation per_expand_data (λ a. a.emit_close_variable))
        (emitting (
          if any_might_modify per_expand_data.modifiers token.modvals
          then emit_modified_string per_expand_data.modifiers token.modvals value
          else value))

  -- The included file, which TemplateCache::ExpandLocked expands. It is what the node was given and
  -- none of what it emits is kept where it fails with modifiers.
  unfoldable pub included : TemplateToken → Bytes → Bytes × Bool → Bytes × Bool
  unfolding any_might_modify emit_modified_string annotation
  included token filename (out, true) =
      if any_might_modify per_expand_data.modifiers token.modvals
      then (emit_modified_string per_expand_data.modifiers token.modvals out, true)
      else (out, true)
  included token filename (out, false) =
      let missing = annotation per_expand_data (λ a. a.emit_file_is_missing filename) in
      if any_might_modify per_expand_data.modifiers token.modvals
      then (missing, false)
      else (out ++ missing, false)

  -- SectionTemplateNode::ExpandOnce around its loop over the nodes.
  unfoldable pub expand_once : TemplateToken → Expanded → Expanded
  unfolding annotation token_to_string
  expand_once token body =
      around (annotation per_expand_data (λ a. a.emit_open_section (token_to_string token)))
        (annotation per_expand_data (λ a. a.emit_close_section)) body

  module _ (expand_file : Bytes → Strip → D → Expanded) where
    -- TemplateTemplateNode::ExpandOnce
    unfoldable pub expand_include_once : TemplateToken → Strip → Bytes → D → Expanded
    unfolding included annotation token_to_string
    expand_include_once token strip filename d = elim (expand_file filename strip d) [
      | none ↦ none
      | some result ↦
          around (annotation per_expand_data (λ a. a.emit_open_include (token_to_string token)))
            (annotation per_expand_data (λ a. a.emit_close_include))
            (some (included token filename result))
    ]

    -- A file name that is not set or empty expands to nothing.
    unfoldable pub expand_named : TemplateToken → Strip → Option Bytes → D → Expanded
    unfolding expand_include_once c_string
    expand_named token strip none d = none
    expand_named token strip (some filename) d = elim (c_string filename) [
      | [] ↦ emitting []
      | c ∷ rest ↦ expand_include_once token strip (c ∷ rest) d
    ]

    -- The loop of TemplateTemplateNode::Expand, from the number of its first child on.
    unfoldable pub expand_children :
        TemplateToken → TemplateString → Strip → D → ℕ → List D → Expanded
    unfolding expand_named
    expand_children token variable strip d dict_num [] = emitting []
    expand_children token variable strip d dict_num (child ∷ children) =
        and_then (expand_named token strip (I.get_include_template_name d variable dict_num) child)
          (expand_children token variable strip d (suc dict_num) children)

    -- TemplateTemplateNode::Expand
    unfoldable pub expand_template : TemplateToken → TemplateString → Strip → D → Expanded
    unfolding expand_children
    expand_template token variable strip d =
        if I.is_hidden_template d variable
        then emitting []
        else elim (I.create_template_iterator d variable) [
          | none ↦ none
          | some [] ↦ expand_named token strip (I.get_include_template_name d variable 0) d
          | some (child ∷ children) ↦ expand_children token variable strip d 0 (child ∷ children)
        ]

    unfoldable mutual
      unfolding expand_variable expand_template expand_once for_iterator

      pub expand : TemplateNode → D → Expanded
      expand (text_node text) d = emitting text
      expand (variable_node token variable) d = expand_variable token variable d
      expand (pragma_node text) d = emitting []
      expand (template_node token variable strip) d = expand_template token variable strip d
      expand (section_node s) d = expand_section s d

      -- SectionTemplateNode::Expand
      pub expand_section : SectionTemplateNode → D → Expanded
      expand_section (section token variable nodes separator hidden_by_default) d =
          let hidden =
            if hidden_by_default
            then not (I.is_unhidden_section d variable)
            else I.is_hidden_section d variable in
          let main = expand_once token (expand_nodes nodes separator true d) in
          let shown =
            for_iterator (I.create_section_iterator d variable) main
              (λ c is_last. expand_once token (expand_nodes nodes separator is_last c)) in
          if equal token.text (codes "__{{MAIN}}__")
          then main
          else if hidden
          then emitting []
          else shown

      -- The loop of SectionTemplateNode::ExpandOnce, with the place of the separator from here on.
      pub expand_nodes : NodeList → Option ℕ → Bool → D → Expanded
      expand_nodes no_nodes separator is_last d = emitting []
      expand_nodes (node n nodes) none is_last d =
          and_then (expand n d) (expand_nodes nodes none is_last d)
      expand_nodes (node n nodes) (some (suc place)) is_last d =
          and_then (expand n d) (expand_nodes nodes (some place) is_last d)
      expand_nodes (node n nodes) (some zero) is_last d =
          let separated = if is_last then emitting [] else expand_separator n d in
          and_then (expand n d) (and_then separated (expand_nodes nodes none is_last d))

      -- ExpandOnce of the separator, which is a section.
      pub expand_separator : TemplateNode → D → Expanded
      expand_separator (section_node (section token variable nodes separator hidden_by_default)) d =
          expand_once token (expand_nodes nodes separator true d)
      expand_separator n d = emitting []

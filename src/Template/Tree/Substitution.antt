-- ===== src/Template/Tree/Substitution.antt =====
-- From the text of a template to what Expand emits.
use ctemplate.Common.{
  ℕ, ◌+◌, ◌*◌, ◌≤◌, List, [], ◌∷◌, ◌++◌, append-nil, Bool, true, none, some, Bytes, length, ◌≡◌,
  refl, ap, ◌∙◌, All, equal,
}
use ctemplate.Modifiers.Registry.{Registry}
use ctemplate.Template.{any_might_modify, token_to_string}
use ctemplate.Template.Nodes.{
  Strip, TemplateNode, TemplateDictionaryInterface, TemplateAnnotator, PerExpandData, Template,
  annotation, ts_ready,
}
use ctemplate.Template.Expand.{
  Expanded, and_then, around, emitting, expand_section, expand_nodes, expand, expand_once,
  expand_variable,
}
use ctemplate.Template.ExpandLocked.{expand_parsed, short_file, modified}
use ctemplate.Template.Tree.{node_list, build_tree, main_section_name}
use ctemplate.Template.Tree.Literal.{printed, IsPlain, IsPiece, token_of}
use ctemplate.Template.Tree.RoundTrip.{
  text_nodes, variable_of_name, nodes_of, tree_of, build_tree-printed,
}

-- The texts, with the value of each variable in its place.
abbrev pub filled : (Bytes → Bytes) → List (Bytes × Bytes) → Bytes → Bytes
filled value [] tail = tail
filled value ((text, name) ∷ pieces) tail = text ++ (value name ++ filled value pieces tail)

module _ {D : Type 0} (I : TemplateDictionaryInterface D) (per_expand_data : PerExpandData)
    (expand_file : Bytes → Strip → D → Expanded) (registry : Registry) (pragma_ok : Bytes → Bool)
    (strip : Strip) (hash : Bytes → ℕ) (d : D) (silent : per_expand_data.annotate_path ≡ none) where
  abbrev value_of : Bytes → Bytes
  value_of name = I.get_value d (record { text = name; id = hash name })

  no_annotation : (emit : TemplateAnnotator → Bytes) → annotation per_expand_data emit ≡ []
  unfolding annotation
  no_annotation emit = rw (silent, annotation) refl

  around_silent :
      (first last : TemplateAnnotator → Bytes) (out : Bytes)
      → around (annotation per_expand_data first) (annotation per_expand_data last) (emitting out)
        ≡ emitting out
  around_silent first last out =
      ap (λ a. around a (annotation per_expand_data last) (emitting out)) (no_annotation first)
      ∙ ap (λ a. around [] a (emitting out)) (no_annotation last)
      ∙ ap emitting (append-nil out)

  variable_value :
      (name : Bytes)
      → expand I per_expand_data expand_file (variable_of_name registry pragma_ok strip hash name) d
        ≡ emitting (value_of name)
  unfolding expand expand_variable any_might_modify
  variable_value name =
      around_silent
        (λ a. a.emit_open_variable (token_to_string (token_of registry pragma_ok strip name)))
        (λ a. a.emit_close_variable) (value_of name)

  abbrev expand_list : List TemplateNode → Expanded
  expand_list nodes = expand_nodes I per_expand_data expand_file (node_list nodes) none true d

  text_first :
      (text : Bytes) (nodes : List TemplateNode) (out : Bytes)
      → expand_list nodes ≡ emitting out
      → expand_list (text_nodes registry pragma_ok strip hash text ++ nodes)
        ≡ emitting (text ++ out)
  unfolding expand node_list
  text_first [] nodes out e = e
  text_first (c ∷ text) nodes out e = ap (and_then (emitting (c ∷ text))) e

  nodes_filled :
      (pieces : List (Bytes × Bytes)) (tail : Bytes)
      → expand_list (nodes_of registry pragma_ok strip hash pieces tail)
        ≡ emitting (filled value_of pieces tail)
  unfolding expand node_list
  nodes_filled [] [] = refl
  nodes_filled [] (c ∷ tail) = ap (λ s. emitting (c ∷ s)) (append-nil tail)
  nodes_filled ((text, name) ∷ pieces) tail =
      text_first text _ (value_of name ++ filled value_of pieces tail) (
        ap (λ x. and_then x (expand_list (nodes_of registry pragma_ok strip hash pieces tail)))
          (variable_value name)
        ∙ ap (and_then (emitting (value_of name))) (nodes_filled pieces tail))

  tree_filled :
      (pieces : List (Bytes × Bytes)) (tail : Bytes)
      → expand_section I per_expand_data expand_file
          (tree_of registry pragma_ok strip hash pieces tail)
          d
        ≡ emitting (filled value_of pieces tail)
  unfolding expand expand_once equal
  tree_filled pieces tail =
      ap (expand_once I per_expand_data (record { text = main_section_name; modvals = [] }))
        (nodes_filled pieces tail)
      ∙ around_silent
          (λ a.
            a.emit_open_section
              (token_to_string (record { text = main_section_name; modvals = [] })))
          (λ a. a.emit_close_section) (filled value_of pieces tail)

  abbrev in_file : Bytes → Expanded → Expanded
  in_file file x =
      around (annotation per_expand_data (λ a. a.emit_open_file (short_file per_expand_data file)))
        (annotation per_expand_data (λ a. a.emit_close_file)) x

  -- A template of texts without `{` and of names of variables between them is parsed on enough fuel,
  -- and its expansion without annotations and without an expansion modifier emits the texts with the
  -- dictionary's value of each variable in its place, free of errors.
  pub build_tree-expand_parsed :
      (file : Bytes) (pieces : List (Bytes × Bytes)) (tail : Bytes) (fuel : ℕ)
      → per_expand_data.template_expansion_modifier ≡ none
      → All IsPiece pieces
      → IsPlain tail
      → 2 * length pieces + 2 ≤ fuel
      → (template : Template) × ((build_tree hash strip pragma_ok fuel registry file
              (printed pieces tail)
            ≡ some template)
          × (expand_parsed I per_expand_data expand_file template d
              ≡ some (
                filled (λ name. I.get_value d (record { text = name; id = hash name })) pieces tail,
                true,
              )))
  unfolding expand_parsed modified
  build_tree-expand_parsed file pieces tail fuel unmodified all plain enough = (
    record {
      state = ts_ready;
      template_file = file;
      tree = tree_of registry pragma_ok strip hash pieces tail;
    },
    (
      build_tree-printed registry pragma_ok strip hash file pieces tail fuel all plain enough,
      ap (λ x. in_file file (modified per_expand_data.template_expansion_modifier file x))
            (tree_filled pieces tail)
          ∙ ap (λ m. in_file file (modified m file (emitting (filled value_of pieces tail))))
              unmodified
          ∙ around_silent (λ a. a.emit_open_file (short_file per_expand_data file))
              (λ a. a.emit_close_file) (filled value_of pieces tail),
    ),
  )

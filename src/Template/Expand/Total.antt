-- ===== src/Template/Expand/Total.antt =====
-- Expand of a node over dictionaries whose iterators and file names are always there.
use ctemplate.Common.{
  ℕ, zero, suc, ◌<◌, List, [], ◌∷◌, Bool, true, false, ◌&&◌, Option, none, some, Bytes, codes, ◌≡◌,
  ◌⊎◌, inl, inr, Bool-cases, All, length, equal, arith,
}
use ctemplate.Dictionary.{TemplateString}
use ctemplate.Template.{TemplateToken}
use ctemplate.Template.Nodes.{
  Strip, TemplateNode, text_node, variable_node, pragma_node, template_node, section_node,
  SectionTemplateNode, section, NodeList, no_nodes, node, TemplateDictionaryInterface,
  PerExpandData,
}
use ctemplate.Template.Expand.{
  c_string, Expanded, for_iterator, expand_once, expand_template, expand, expand_section,
  expand_nodes, expand_separator,
}
use ctemplate.Template.Expand.Yields.{
  Yields, emitting-Yields, and_then-Yields, for_iterator-Yields, expand_variable-Yields,
  expand_once-Yields, children-Yields,
}

-- What Expand relies on at the dictionaries of `Q`: what an iterator of a section goes over is in
-- `Q`, an include that is shown has an iterator over one dictionary of `Below` at least, and a file
-- name in `N` for the number of each.
pub record IsExpandable {D : Type 0} (I : TemplateDictionaryInterface D) (N : Bytes → Type 0)
    (Q Below : D → Type 0) : Type 0 where
  pub sections_in :
      (d : D) (variable : TemplateString)
      → Q d
      → (I.is_unhidden_section d variable ≡ true) ⊎ (I.is_hidden_section d variable ≡ false)
      → (children : List D) × ((I.create_section_iterator d variable ≡ some children)
          × All Q children)
  pub includes_in :
      (d : D) (variable : TemplateString)
      → Q d
      → I.is_hidden_template d variable ≡ false
      → (child : D) × ((children : List D) × ((I.create_template_iterator d variable
              ≡ some (child ∷ children))
            × All Below (child ∷ children)
            × ((i : ℕ)
                → i < length (child ∷ children)
                → (filename : Bytes) × ((I.get_include_template_name d variable i ≡ some filename)
                    × N (c_string filename)))))

module _ (R : Bool → Type 0) (R_true : R true) (R_and : (a b : Bool) → R a → R b → R (a && b))
    {D : Type 0} (I : TemplateDictionaryInterface D) (per_expand_data : PerExpandData)
    (expand_file : Bytes → Strip → D → Expanded) (N : Bytes → Type 0) (Q Below : D → Type 0)
    (file_yields : (c : ℕ) (name : Bytes) (strip : Strip) (d : D)
      → N (c ∷ name)
      → Below d
      → Yields R (expand_file (c ∷ name) strip d))
    (contract : IsExpandable I N Q Below) where
  template-Yields :
      (token : TemplateToken) (variable : TemplateString) (strip : Strip) (d : D)
      → Q d
      → Yields R (expand_template I per_expand_data expand_file token variable strip d)
  unfolding expand_template
  template-Yields token variable strip d q = elim (Bool-cases (I.is_hidden_template d variable)) [
    | inl e ↦ rw (e, expand_template) (emitting-Yields R R_true R_and [])
    | inr e ↦
        let (child, (children, (there, all, names))) = contract.includes_in d variable q e in
        rw (e, there, expand_template)
          (children-Yields R R_true R_and I per_expand_data expand_file N Below file_yields variable
            d token strip 0 (child ∷ children) (λ j below. names j (omega (arith, below))) all)
  ]

  shown-Yields :
      (token : TemplateToken) (variable : TemplateString) (d : D) (body : D → Bool → Expanded)
      → Q d
      → (I.is_unhidden_section d variable ≡ true) ⊎ (I.is_hidden_section d variable ≡ false)
      → ((c : D) (is_last : Bool) → Q c → Yields R (body c is_last))
      → Yields R (for_iterator (I.create_section_iterator d variable) (body d true) body)
  shown-Yields token variable d body q visible all =
      let (children, (there, inside)) = contract.sections_in d variable q visible in
      rw there
        (for_iterator-Yields R R_true R_and Q body all children (body d true) inside (all d true q))

  section-Yields :
      (token : TemplateToken) (variable : TemplateString) (nodes : NodeList) (separator : Option ℕ)
      (hidden_by_default : Bool) (d : D)
      → Q d
      → ((c : D) (is_last : Bool)
          → Q c
          → Yields R (
              expand_once I per_expand_data token
                (expand_nodes I per_expand_data expand_file nodes separator is_last c)))
      → Yields R (
          expand_section I per_expand_data expand_file
            (section token variable nodes separator hidden_by_default)
            d)
  unfolding expand_section
  section-Yields token variable nodes separator true d q all =
      elim (Bool-cases (equal token.text (codes "__{{MAIN}}__"))) [
        | inl e ↦ rw e (all d true q)
        | inr e ↦ elim (Bool-cases (I.is_unhidden_section d variable)) [
          | inl f ↦ rw (e, f) (shown-Yields token variable d _ q (inl f) all)
          | inr f ↦ rw (e, f) (emitting-Yields R R_true R_and [])
        ]
      ]
  section-Yields token variable nodes separator false d q all =
      elim (Bool-cases (equal token.text (codes "__{{MAIN}}__"))) [
        | inl e ↦ rw e (all d true q)
        | inr e ↦ elim (Bool-cases (I.is_hidden_section d variable)) [
          | inr f ↦ rw (e, f) (shown-Yields token variable d _ q (inr f) all)
          | inl f ↦ rw (e, f) (emitting-Yields R R_true R_and [])
        ]
      ]

  mutual
    unfolding expand

    pub expand-Yields :
        (n : TemplateNode) (d : D) → Q d → Yields R (expand I per_expand_data expand_file n d)
    expand-Yields (text_node text) d q = emitting-Yields R R_true R_and text
    expand-Yields (variable_node token variable) d q =
        expand_variable-Yields R R_true R_and I per_expand_data token variable d
    expand-Yields (pragma_node text) d q = emitting-Yields R R_true R_and []
    expand-Yields (template_node token variable strip) d q =
        template-Yields token variable strip d q
    expand-Yields (section_node s) d q = expand_section-Yields s d q

    pub expand_section-Yields :
        (s : SectionTemplateNode) (d : D)
        → Q d
        → Yields R (expand_section I per_expand_data expand_file s d)
    expand_section-Yields (section token variable nodes separator hidden_by_default) d q =
        section-Yields token variable nodes separator hidden_by_default d q (λ c is_last inside.
          expand_once-Yields R R_true R_and I per_expand_data token _
            (expand_nodes-Yields nodes separator is_last c inside))

    expand_nodes-Yields :
        (nodes : NodeList) (separator : Option ℕ) (is_last : Bool) (d : D)
        → Q d
        → Yields R (expand_nodes I per_expand_data expand_file nodes separator is_last d)
    expand_nodes-Yields no_nodes separator is_last d q = emitting-Yields R R_true R_and []
    expand_nodes-Yields (node n nodes) none is_last d q =
        and_then-Yields R R_true R_and _ _ (expand-Yields n d q)
          (expand_nodes-Yields nodes none is_last d q)
    expand_nodes-Yields (node n nodes) (some (suc place)) is_last d q =
        and_then-Yields R R_true R_and _ _ (expand-Yields n d q)
          (expand_nodes-Yields nodes (some place) is_last d q)
    expand_nodes-Yields (node n nodes) (some zero) true d q =
        and_then-Yields R R_true R_and _ _ (expand-Yields n d q) (
          and_then-Yields R R_true R_and _ _ (emitting-Yields R R_true R_and [])
            (expand_nodes-Yields nodes none true d q))
    expand_nodes-Yields (node n nodes) (some zero) false d q =
        and_then-Yields R R_true R_and _ _ (expand-Yields n d q) (
          and_then-Yields R R_true R_and _ _ (expand_separator-Yields n d q)
            (expand_nodes-Yields nodes none false d q))

    expand_separator-Yields :
        (n : TemplateNode) (d : D)
        → Q d
        → Yields R (expand_separator I per_expand_data expand_file n d)
    expand_separator-Yields
          (section_node (section token variable nodes separator hidden_by_default)) d q =
        expand_once-Yields R R_true R_and I per_expand_data token _
          (expand_nodes-Yields nodes separator true d q)
    expand_separator-Yields (text_node text) d q = emitting-Yields R R_true R_and []
    expand_separator-Yields (variable_node token variable) d q = emitting-Yields R R_true R_and []
    expand_separator-Yields (pragma_node text) d q = emitting-Yields R R_true R_and []
    expand_separator-Yields (template_node token variable strip) d q =
        emitting-Yields R R_true R_and []

-- ===== src/Template/Tree.antt =====
-- src/template.cc: AddSubnode with its sub-routines, and BuildTree.
pub mod Progress
pub mod Ends
pub mod Literal
pub mod RoundTrip
pub mod Substitution
use ctemplate.Common.{
  ℕ, zero, suc, ◌+◌, ◌-◌, List, [], ◌∷◌, ◌++◌, Bool, true, false, not, ◌&&◌, ◌||◌, Option, none,
  some, Bytes, codes, ltb, ◌==◌, if◌then◌else◌, length, take, drop, equal,
}
use ctemplate.Dictionary.{TemplateString}
use ctemplate.Modifiers.PrefixLine.{index_of}
use ctemplate.Modifiers.Registry.{Registry}
use ctemplate.Template.{ModifierAndValue, TemplateToken, update_modifier}
use ctemplate.Template.Nodes.{
  Strip, TemplateNode, text_node, variable_node, pragma_node, section_node, template_template_node,
  SectionTemplateNode, section, NodeList, no_nodes, node, TemplateState, ts_ready, ts_error,
  Template,
}
use ctemplate.Template.Tokens.{
  Token, text_token, pragma_token, set_delimiters_token, variable_token, section_start_token,
  section_end_token, template_token, comment_token, null_token, MarkerDelimiters, Phase,
  getting_text, ParseState, get_next_token,
}
use ctemplate.Template.Layout.{
  last_is_equals, occurs_once, parse_delimiters, last_line, is_indentation, get_indentation,
}

-- A section that is being read: its nodes, its separator among them, and its indentation_.
pub record Section : Type 0 where
  pub nodes : List TemplateNode
  pub separator : Option ℕ
  pub indentation : Bytes

abbrev pub new_section : Section
new_section = record { nodes = []; separator = none; indentation = codes "\n" }

-- node_list_.push_back, after which the indentation is what is given.
abbrev pub push_back : Section → TemplateNode → Bytes → Section
push_back b n indentation = record b { nodes = b.nodes ++ n ∷ []; indentation = indentation }

unfoldable pub node_list : List TemplateNode → NodeList
node_list [] = no_nodes
node_list (n ∷ nodes) = node n (node_list nodes)

abbrev pub main_section_name : Bytes
main_section_name = codes "__{{MAIN}}__"

abbrev pub set_error : ParseState → ParseState
set_error ps = record ps { failed = true }

-- A token that starts a section.
abbrev pub started : Token → Option TemplateToken
started (section_start_token token) = some token
started (text_token text) = none
started (pragma_token text) = none
started (set_delimiters_token text) = none
started (variable_token token) = none
started (section_end_token token) = none
started (template_token token) = none
started comment_token = none
started null_token = none

-- Outside auto-escape mode: the tree is made of what the tokens say. `hash` gives a name its id.
module _ (hash : Bytes → ℕ) (strip : Strip) where
  abbrev pub hashed : Bytes → TemplateString
  hashed text = record { text = text; id = hash text }

  -- AddTextNode, with the indentation that AddSubnode stores.
  unfoldable pub add_text_node : Section → Bytes → Section
  unfolding get_indentation
  add_text_node b [] = record b {
    indentation = get_indentation [] (equal b.indentation (codes "\n"));
  }
  add_text_node b (c ∷ s) =
      push_back b (text_node (c ∷ s)) (get_indentation (c ∷ s) (equal b.indentation (codes "\n")))

  -- AddSectionNode, when the section is read; one named NAME_separator in a section NAME is its
  -- separator.
  unfoldable pub add_section_node : Bytes → Section → TemplateToken → Section → Section
  unfolding node_list
  add_section_node name b token inner =
      let added =
        push_back b
          (section_node
            (section token (hashed token.text) (node_list inner.nodes) inner.separator false))
          [] in
      if equal token.text (name ++ codes "_separator")
      then record added { separator = some (length b.nodes) }
      else added

  -- AddPragmaNode: in the main section only, before any node.
  unfoldable pub add_pragma_node : Bytes → Section → Bytes → Option Section
  add_pragma_node name b text = elim b.nodes [
    | [] ↦
        if equal name main_section_name
        then some (push_back b (pragma_node text) b.indentation)
        else none
    | n ∷ nodes ↦ none
  ]

  -- What AddSubnode does with a token that does not start a section, and whether it returns true.
  unfoldable pub on_token : Bytes → Section → Token → ParseState → Section × (ParseState × Bool)
  unfolding add_text_node add_pragma_node parse_delimiters template_template_node
  on_token name b (text_token text) ps = (add_text_node b text, (ps, true))
  on_token name b (variable_token token) ps =
      (push_back b (variable_node token (hashed token.text)) [], (ps, true))
  on_token name b (section_start_token token) ps = (b, (ps, false))
  on_token name b (section_end_token token) ps =
      (record b { indentation = [] }, (if equal token.text name then ps else set_error ps, false))
  on_token name b (template_token token) ps = (
    push_back b (template_template_node token (hashed token.text) strip b.indentation) [],
    (ps, true),
  )
  on_token name b comment_token ps = (b, (ps, true))
  on_token name b (set_delimiters_token text) ps = elim (parse_delimiters text) [
    | none ↦ (b, (set_error ps, true))
    | some delimiters ↦ (b, (record ps { current_delimiters = delimiters }, true))
  ]
  on_token name b (pragma_token text) ps = elim (add_pragma_node name b text) [
    | none ↦ (b, (set_error ps, true))
    | some added ↦ (added, (ps, true))
  ]
  on_token name b null_token ps = (b, (ps, false))

  module _ (pragma_ok : Bytes → Bool) where
    -- AddSubnode where there is a token to read; `again` is the loop that calls it.
    unfoldable pub add_next :
        (Bytes → Section → ParseState → Option (Section × ParseState))
        → Bytes
        → Section
        → Token × ParseState
        → Option (Section × ParseState)
    unfolding on_token add_section_node
    add_next again name b token = elim (started token.0) [
      | none ↦
          let step = on_token name b token.0 token.1 in
          if step.1.1 then again name step.0 step.1.0 else some (step.0, step.1.0)
      | some start ↦ elim (again start.text new_section token.1) [
        | none ↦ none
        | some inner ↦ again name (add_section_node name b start inner.0) inner.1
      ]
    ]

    -- The end of the buffer ends the main section only.
    unfoldable pub add_subnode :
        (Bytes → Section → ParseState → Option (Section × ParseState))
        → Bytes
        → Section
        → ParseState
        → Bytes
        → Option (Section × ParseState)
    unfolding add_next get_next_token
    add_subnode again name b ps [] =
        some (b, if equal name main_section_name then ps else set_error ps)
    add_subnode again name b ps (c ∷ s) = add_next again name b (get_next_token pragma_ok strip ps)

    -- The loop `while (AddSubnode(...))` of a section with a name, on fuel.
    unfoldable pub add_subnodes : ℕ → Bytes → Section → ParseState → Option (Section × ParseState)
    unfolding add_subnode
    add_subnodes zero name b ps = none
    add_subnodes (suc fuel) name b ps =
        let again = add_subnodes fuel in
        if ps.failed then some (b, ps) else add_subnode again name b ps ps.rest

    abbrev pub start_state : Registry → Bytes → ParseState
    start_state registry text = record {
      rest = text;
      phase = getting_text;
      current_delimiters = record { start_marker = codes "{{"; end_marker = codes "}}" };
      registry = registry;
      failed = false;
    }

    -- The main section that was read.
    unfoldable pub main_section : Section → SectionTemplateNode
    unfolding node_list
    main_section b =
        section (record { text = main_section_name; modvals = [] }) (hashed main_section_name)
          (node_list b.nodes) b.separator false

    -- The template of what was read: ready where no error was met.
    unfoldable pub template_of : Bytes → Section × ParseState → Template
    unfolding main_section
    template_of file (b, ps) = record {
      state = if ps.failed then ts_error else ts_ready;
      template_file = file;
      tree = main_section b;
    }

    -- BuildTree
    unfoldable pub build_tree : ℕ → Registry → Bytes → Bytes → Option Template
    unfolding add_subnodes template_of
    build_tree fuel registry file text =
        elim (add_subnodes fuel main_section_name new_section (start_state registry text)) [
          | none ↦ none
          | some result ↦ some (template_of file result)
        ]

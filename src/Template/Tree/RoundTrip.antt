-- ===== src/Template/Tree/RoundTrip.antt =====
-- Printed templates read back, and expand to their texts with the values of their variables.
use ctemplate.Common.{
  ℕ, zero, suc, ◌+◌, ◌*◌, ◌≤◌, List, [], ◌∷◌, ◌++◌, append-nil, append_assoc, Bool, true, false,
  Option, none, some, Bytes, codes, length, ◌≡◌, ◌≢◌, refl, sym, ap, ◌∙◌, arith, equal, All,
}
use ctemplate.Modifiers.Registry.{Registry}
use ctemplate.Pathops.{find}
use ctemplate.Template.Nodes.{
  Strip, TemplateNode, text_node, variable_node, SectionTemplateNode, section, Template, ts_ready,
}
use ctemplate.Template.Tokens.{
  getting_text, getting_name, ParseState, next_text, by_phase, get_next_token, text_token,
}
use ctemplate.Template.Markers.{is_valid_name}
use ctemplate.Template.Tree.{
  Section, new_section, push_back, node_list, main_section_name, add_text_node, on_token, add_next,
  add_subnode, add_subnodes, template_of, main_section, build_tree,
}
use ctemplate.Template.Tree.Literal.{
  printed, IsPlain, IsPiece, reading, find_nothing, name_bytes, next_text-text, next_name-variable,
  token_of,
}

module _ (registry : Registry) (pragma_ok : Bytes → Bool) (strip : Strip) (hash : Bytes → ℕ) where
  abbrev adding : ℕ → Section → ParseState → Option (Section × ParseState)
  adding fuel b ps = add_subnodes hash strip pragma_ok fuel main_section_name b ps

  abbrev pub variable_of_name : Bytes → TemplateNode
  variable_of_name name =
      variable_node (token_of registry pragma_ok strip name)
        (record { text = name; id = hash name })

  abbrev pub text_nodes : Bytes → List TemplateNode
  text_nodes [] = []
  text_nodes (c ∷ text) = text_node (c ∷ text) ∷ []

  -- The nodes of a printed template.
  abbrev pub nodes_of : List (Bytes × Bytes) → Bytes → List TemplateNode
  nodes_of [] tail = text_nodes tail
  nodes_of ((text, name) ∷ pieces) tail =
      text_nodes text ++ variable_of_name name ∷ nodes_of pieces tail

  some_text : (text s : Bytes) (c : ℕ) → text ++ c ∷ s ≢ []
  some_text [] s c e = cc
  some_text (d ∷ text) s c e = cc

  read_text :
      (fuel : ℕ) (b : Section) (s : Bytes)
      → s ≢ []
      → adding (suc fuel) b (reading registry getting_text s)
        ≡ add_next hash strip pragma_ok
            (add_subnodes hash strip pragma_ok fuel)
            main_section_name
            b
            (next_text (reading registry getting_text s))
  unfolding add_subnodes add_subnode get_next_token by_phase
  read_text fuel b [] some_one = absurd (some_one refl)
  read_text fuel b (c ∷ s) some_one = refl

  read_name :
      (fuel : ℕ) (b : Section) (c : ℕ) (name s : Bytes)
      → is_valid_name (c ∷ name) ≡ true
      → adding (suc fuel) b (reading registry getting_name (c ∷ name ++ b'}' ∷ b'}' ∷ s))
        ≡ adding fuel
            (push_back b (variable_of_name (c ∷ name)) [])
            (reading registry getting_text s)
  unfolding add_subnodes add_subnode get_next_token by_phase add_next on_token
  read_name fuel b c name s valid =
      ap
        (add_next hash strip pragma_ok (add_subnodes hash strip pragma_ok fuel) main_section_name b)
        (next_name-variable registry pragma_ok strip c name s valid)

  abbrev after_piece : Section → Bytes → Bytes → Section
  after_piece b text name = push_back (add_text_node hash strip b text) (variable_of_name name) []

  read_piece :
      (fuel : ℕ) (b : Section) (text name s : Bytes)
      → IsPiece (text, name)
      → adding
          (suc (suc fuel))
          b
          (reading registry getting_text (text ++ b'{' ∷ b'{' ∷ (name ++ b'}' ∷ b'}' ∷ s)))
        ≡ adding fuel (after_piece b text name) (reading registry getting_text s)
  unfolding add_next on_token
  read_piece fuel b text [] s (plain, some_name, valid) = absurd (some_name refl)
  read_piece fuel b text (c ∷ name) s (plain, some_name, valid) =
      read_text (suc fuel) b _ (some_text text _ b'{')
      ∙ ap
          (add_next hash strip pragma_ok (add_subnodes hash strip pragma_ok (suc fuel))
            main_section_name b)
          (next_text-text registry text (c ∷ name) (b'}' ∷ b'}' ∷ s) plain some_name
            (name_bytes (c ∷ name) valid))
      ∙ read_name fuel (add_text_node hash strip b text) c name s valid

  -- The section behind the pieces and the tail.
  abbrev read_tail : Section → Bytes → Section
  read_tail b [] = b
  read_tail b (c ∷ tail) = add_text_node hash strip b (c ∷ tail)

  abbrev read_pieces : Section → List (Bytes × Bytes) → Bytes → Section
  read_pieces b [] tail = read_tail b tail
  read_pieces b ((text, name) ∷ pieces) tail = read_pieces (after_piece b text name) pieces tail

  read_end :
      (fuel : ℕ) (b : Section)
      → adding (suc fuel) b (reading registry getting_text [])
        ≡ some (b, reading registry getting_text [])
  unfolding add_subnodes add_subnode equal
  read_end fuel b = refl

  next_text_plain :
      (text : Bytes)
      → find text (codes "{{") ≡ none
      → next_text (reading registry getting_text text)
        ≡ (text_token text, reading registry getting_text [])
  unfolding next_text
  next_text_plain text e = rw (e, next_text) refl

  adding_tail :
      (fuel : ℕ) (b : Section) (tail : Bytes)
      → IsPlain tail
      → adding (suc (suc fuel)) b (reading registry getting_text tail)
        ≡ some (read_tail b tail, reading registry getting_text [])
  unfolding add_next on_token
  adding_tail fuel b [] plain = read_end (suc fuel) b
  adding_tail fuel b (c ∷ tail) plain =
      read_text (suc fuel) b (c ∷ tail) (λ e. cc)
      ∙ ap
          (add_next hash strip pragma_ok (add_subnodes hash strip pragma_ok (suc fuel))
            main_section_name b)
          (next_text_plain (c ∷ tail) (find_nothing b'{' b'{' (c ∷ tail) plain))
      ∙ read_end fuel (add_text_node hash strip b (c ∷ tail))

  adding_pieces :
      (pieces : List (Bytes × Bytes)) (tail : Bytes) (fuel : ℕ) (b : Section)
      → All IsPiece pieces
      → IsPlain tail
      → 2 * length pieces + 2 ≤ fuel
      → adding fuel b (reading registry getting_text (printed pieces tail))
        ≡ some (read_pieces b pieces tail, reading registry getting_text [])
  adding_pieces [] tail zero b all plain enough = absurd (omega (arith, enough))
  adding_pieces [] tail (suc zero) b all plain enough = absurd (omega (arith, enough))
  adding_pieces [] tail (suc (suc fuel)) b all plain enough = adding_tail fuel b tail plain
  adding_pieces (piece ∷ pieces) tail zero b all plain enough = absurd (omega (arith, enough))
  adding_pieces (piece ∷ pieces) tail (suc zero) b all plain enough = absurd (omega (arith, enough))
  adding_pieces ((text, name) ∷ pieces) tail (suc (suc fuel)) b (one, all) plain enough =
      read_piece fuel b text name (printed pieces tail) one
      ∙ adding_pieces pieces tail fuel (after_piece b text name) all plain (omega (arith, enough))

  add_text_node-nodes :
      (b : Section) (text : Bytes)
      → ((add_text_node hash strip b text).nodes ≡ b.nodes ++ text_nodes text)
        × ((add_text_node hash strip b text).separator ≡ b.separator)
  unfolding add_text_node
  add_text_node-nodes b [] = (sym (append-nil b.nodes), refl)
  add_text_node-nodes b (c ∷ text) = (refl, refl)

  read_pieces-nodes :
      (pieces : List (Bytes × Bytes)) (tail : Bytes) (b : Section)
      → ((read_pieces b pieces tail).nodes ≡ b.nodes ++ nodes_of pieces tail)
        × ((read_pieces b pieces tail).separator ≡ b.separator)
  read_pieces-nodes [] [] b = (sym (append-nil b.nodes), refl)
  read_pieces-nodes [] (c ∷ tail) b = add_text_node-nodes b (c ∷ tail)
  read_pieces-nodes ((text, name) ∷ pieces) tail b =
      let rest = read_pieces-nodes pieces tail (after_piece b text name) in
      let here = add_text_node-nodes b text in
      (
        rest.0
            ∙ ap (λ s. (s ++ variable_of_name name ∷ []) ++ nodes_of pieces tail) here.0
            ∙ append_assoc (b.nodes ++ text_nodes text) (variable_of_name name ∷ [])
                (nodes_of pieces tail)
            ∙ append_assoc b.nodes (text_nodes text) (variable_of_name name ∷ nodes_of pieces tail),
        rest.1 ∙ here.1,
      )

  abbrev pub tree_of : List (Bytes × Bytes) → Bytes → SectionTemplateNode
  tree_of pieces tail =
      section (record { text = main_section_name; modvals = [] })
        (record { text = main_section_name; id = hash main_section_name })
        (node_list (nodes_of pieces tail)) none false

  -- The template of what was read.
  abbrev finished : Bytes → Option (Section × ParseState) → Option Template
  finished file o = elim o [
    | none ↦ none
    | some result ↦ some (template_of hash strip pragma_ok file result)
  ]

  abbrev with_tree : Bytes → List TemplateNode → Option ℕ → Option Template
  with_tree file nodes separator = some (record {
    state = ts_ready;
    template_file = file;
    tree =
        section (record { text = main_section_name; modvals = [] })
          (record { text = main_section_name; id = hash main_section_name }) (node_list nodes)
          separator false;
  })

  -- A template that is printed from texts without `{` and from the names of variables between them
  -- is read back, with the default delimiters and on enough fuel: it is ready, and its main section
  -- has the texts that are not empty and the variables in their order.
  pub build_tree-printed :
      (file : Bytes) (pieces : List (Bytes × Bytes)) (tail : Bytes) (fuel : ℕ)
      → All IsPiece pieces
      → IsPlain tail
      → 2 * length pieces + 2 ≤ fuel
      → build_tree hash strip pragma_ok fuel registry file (printed pieces tail)
        ≡ some (record { state = ts_ready; template_file = file; tree = tree_of pieces tail })
  unfolding build_tree template_of main_section
  build_tree-printed file pieces tail fuel all plain enough =
      let nodes = read_pieces-nodes pieces tail new_section in
      ap (finished file) (adding_pieces pieces tail fuel new_section all plain enough)
      ∙ ap (λ s. with_tree file s (read_pieces new_section pieces tail).separator) nodes.0
      ∙ ap (with_tree file (nodes_of pieces tail)) nodes.1

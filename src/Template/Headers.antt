-- ===== src/Template/Headers.antt =====
-- src/template.cc: WriteHeaderEntries and WriteOneHeaderEntry. The static variables are a state that
-- is passed on; the id of a name is a function.
pub mod Once
use ctemplate.Common.{
  ℕ, List, [], ◌∷◌, ◌++◌, Bool, true, false, not, ◌&&◌, ◌||◌, Bytes, codes, equal, ◌==◌,
  if◌then◌else◌, take,
}
use ctemplate.Dictionary.{decimal}
use ctemplate.Pathops.{basename, occurs}
use ctemplate.Template.{TemplateToken}
use ctemplate.Template.Nodes.{
  TemplateNode, SectionTemplateNode, NodeList, text_node, variable_node, pragma_node, template_node,
  section_node, section, no_nodes, node, Template, ts_ready,
}
use ctemplate.Template.Tree.{main_section_name}

pub record HeaderState : Type 0 where
  pub vars_seen : List Bytes
  pub current_file : Bytes
  pub prefix : Bytes

-- The loop over the file's name.
unfoldable pub filename_prefix : Bool → Bytes → Bytes
unfolding equal
filename_prefix take_next [] = []
filename_prefix take_next (c ∷ s) =
    let rest = filename_prefix (c == b'_') s in
    if c == b'.' || (take_next && equal (take 4 (c ∷ s)) (codes "post"))
    then []
    else if take_next
    then c ∷ rest
    else rest

unfoldable pub change_file : Bytes → HeaderState → HeaderState
unfolding equal basename filename_prefix
change_file full_pathname st = if equal full_pathname st.current_file then st else record {
  vars_seen = [];
  current_file = full_pathname;
  prefix = codes "k" ++ (filename_prefix true (basename full_pathname) ++ codes "_");
}

unfoldable pub is_seen : Bytes → List Bytes → Bool
unfolding equal
is_seen variable [] = false
is_seen variable (v ∷ seen) = equal v variable || is_seen variable seen

module _ (global_id : Bytes → ℕ) where
  -- What is written for a name.
  abbrev pub header_entry : Bytes → Bytes → Bytes
  header_entry prefix variable =
      codes "static const ::ctemplate::StaticTemplateString "
      ++ (prefix
          ++ (variable
              ++ (codes " = STS_INIT_WITH_HASH("
                  ++ (prefix
                      ++ (variable
                          ++ (codes ", \""
                              ++ (variable
                                  ++ (codes "\", "
                                      ++ (decimal (global_id variable) ++ codes "ULL);\n")))))))))

  unfoldable pub entry_of : HeaderState → Bytes → Bytes
  unfolding equal occurs
  entry_of st variable =
      if equal variable main_section_name || occurs variable (codes "BI_")
      then []
      else header_entry st.prefix variable

  unfoldable pub write_one_header_entry : Bytes → Bytes → HeaderState → Bytes × HeaderState
  unfolding change_file is_seen entry_of
  write_one_header_entry variable full_pathname st =
      let current = change_file full_pathname st in
      if is_seen variable current.vars_seen
      then ([], current)
      else (entry_of current variable, record current { vars_seen = variable ∷ current.vars_seen })

  -- WriteHeaderEntries of each node.
  unfoldable mutual
    unfolding write_one_header_entry

    pub node_entries : TemplateNode → Bytes → HeaderState → Bytes × HeaderState
    node_entries (text_node text) filename st = ([], st)
    node_entries (variable_node token variable) filename st =
        write_one_header_entry token.text filename st
    node_entries (pragma_node text) filename st = ([], st)
    node_entries (template_node token variable strip) filename st =
        write_one_header_entry token.text filename st
    node_entries (section_node s) filename st = section_entries s filename st

    pub section_entries : SectionTemplateNode → Bytes → HeaderState → Bytes × HeaderState
    section_entries (section token variable nodes separator hidden) filename st =
        let own = write_one_header_entry token.text filename st in
        let inner = list_entries nodes filename own.1 in (own.0 ++ inner.0, inner.1)

    pub list_entries : NodeList → Bytes → HeaderState → Bytes × HeaderState
    list_entries no_nodes filename st = ([], st)
    list_entries (node n nodes) filename st =
        let first = node_entries n filename st in
        let rest = list_entries nodes filename first.1 in (first.0 ++ rest.0, rest.1)

  -- Template::WriteHeaderEntries
  unfoldable pub write_header_entries : Template → HeaderState → Bytes × HeaderState
  unfolding section_entries
  write_header_entries t st = elim t.state [
    | ts_ready ↦
        let entries = section_entries t.tree t.template_file st in
        (codes "#include <ctemplate/template_string.h>\n" ++ entries.0, entries.1)
    | _ ↦ ([], st)
  ]

-- The static variables before the first call.
abbrev pub no_entries : HeaderState
no_entries = record { vars_seen = []; current_file = []; prefix = [] }

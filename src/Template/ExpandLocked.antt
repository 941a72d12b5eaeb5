-- ===== src/Template/ExpandLocked.antt =====
-- src/template.cc: Template::ExpandLocked; src/template_cache.cc: TemplateCache::ExpandLocked. What
-- GetTemplateLocked gives for a name is a function, and the templates stay what they are during an
-- expansion.
use ctemplate.Common.{
  ℕ, zero, suc, [], Bool, true, false, Option, none, some, Bytes, drop, if◌then◌else◌,
}
use ctemplate.Pathops.{find}
use ctemplate.Template.Nodes.{
  Strip, TemplateDictionaryInterface, ExpansionModifier, PerExpandData, annotation, TemplateState,
  ts_unused, ts_empty, ts_error, ts_ready, Template,
}
use ctemplate.Template.Expand.{c_string, Expanded, around, expand_section}

-- `strstr`, or the text itself where the word does not occur.
unfoldable pub from_word : Bytes → Bytes → Bytes
unfolding find
from_word text word = elim (find text word) [ none ↦ text | some place ↦ drop place text ]

-- The name of a template in its annotation.
unfoldable pub short_file : PerExpandData → Bytes → Bytes
unfolding from_word c_string
short_file per_expand_data file = elim per_expand_data.annotate_path [
  | none ↦ file
  | some path ↦ from_word (c_string file) (c_string path)
]

-- The expansion modifier, where there is one that might modify the template.
unfoldable pub modified : Option ExpansionModifier → Bytes → Expanded → Expanded
modified modifier file none = none
modified none file (some result) = some result
modified (some modifier) file (some (out, error_free)) =
    if modifier.might_modify_file file
    then some (modifier.modify_file file out, error_free)
    else some (out, error_free)

abbrev pub is_ready : TemplateState → Bool
is_ready ts_unused = false
is_ready ts_empty = false
is_ready ts_error = false
is_ready ts_ready = true

module _ {D : Type 0} (I : TemplateDictionaryInterface D) (per_expand_data : PerExpandData) where
  -- Template::ExpandLocked
  unfoldable pub expand_parsed : (Bytes → Strip → D → Expanded) → Template → D → Expanded
  unfolding expand_section annotation short_file modified
  expand_parsed expand_file template d =
      let file = template.template_file in
      if is_ready template.state
      then around
          (annotation per_expand_data (λ a. a.emit_open_file (short_file per_expand_data file)))
          (annotation per_expand_data (λ a. a.emit_close_file))
          (modified per_expand_data.template_expansion_modifier file
            (expand_section I per_expand_data expand_file template.tree d))
      else some ([], false)

  -- TemplateCache::ExpandLocked, on fuel for the nesting of includes.
  unfoldable pub expand_locked :
      (Bytes → Strip → Option Template) → ℕ → Bytes → Strip → D → Expanded
  unfolding expand_parsed
  expand_locked get_template zero filename strip d = none
  expand_locked get_template (suc fuel) filename strip d =
      let expand_file = expand_locked get_template fuel in
      elim (get_template filename strip) [
        | none ↦ some ([], false)
        | some template ↦ expand_parsed expand_file template d
      ]

-- ===== src/Tests/Registry.antt =====
-- src/template_modifiers.cc: runs of the registry and of auto-escaping, and instances of their
-- theorems.
use ctemplate.Common.{
  ℕ, [], ◌≡◌, ◌≢◌, ◌⊎◌, refl, arith, Bytes, codes, All, equal, none, some, Option, Bool, true,
  false,
}
use ctemplate.Modifiers.Registry.Builtin.{modify, g_modifiers, find_modifier}
use ctemplate.Modifiers.Registry.Context.Safety.{
  IsQuoteFree, IsSpaceFree, quoted_value_contained, unquoted_value_contained,
}
use ctemplate.Modifiers.Registry.Context.{
  HtmlParser, state_value, attr_uri, get_modifier_for_html_js, apply_directives,
}
use ctemplate.Modifiers.Registry.Extensions.{Answers, IsValid, add_modifier_common-IsValid}
use ctemplate.Modifiers.Registry.Lookup.{with_value, find_modifier_twice}
use ctemplate.Modifiers.Registry.{
  Registry, ModifierInfo, add_modifier_common, add_modifier, custom, modifier_info, c_str,
  is_extension_modifier, find_extension, best_match, update_best_match, matches_value,
  matches_plain, before_equals, from_equals, any_conflicts, conflicts,
}

abbrev empty_registry : Registry
empty_registry = record { extension_modifiers = []; unknown_modifiers = [] }

abbrev client : ℕ → Bytes → Bytes
client n s = s

abbrev long_name_of : Option ModifierInfo → Bytes
long_name_of none = []
long_name_of (some m) = m.long_name

-- A value of its own picks the specialization; a short name will do.
find_runs :
    (long_name_of (find_modifier (codes "h") [] empty_registry).0 ≡ codes "html_escape")
    × (long_name_of (find_modifier (codes "H") (codes "=pre") empty_registry).0
        ≡ codes "html_escape_with_arg=pre")
    × (long_name_of (find_modifier (codes "url_escape_with_arg") (codes "=css") empty_registry).0
        ≡ codes "url_escape_with_arg=css")
    × ((find_modifier (codes "H") [] empty_registry).0 ≡ none)
unfolding find_modifier g_modifiers is_extension_modifier find_extension best_match
    update_best_match matches_value matches_plain before_equals from_equals equal
find_runs = (refl, refl, refl, refl)

add_runs :
    ((add_modifier (codes "x-a") (custom 0) empty_registry).1 ≡ true)
    × ((add_modifier (codes "a") (custom 0) empty_registry).1 ≡ false)
    × ((add_modifier
          (codes "x-a=1")
          (custom 0)
          (add_modifier (codes "x-a=2") (custom 1) empty_registry).0).1
        ≡ true)
    × ((add_modifier
          (codes "x-a")
          (custom 0)
          (add_modifier (codes "x-a=2") (custom 1) empty_registry).0).1
        ≡ false)
unfolding add_modifier add_modifier_common is_extension_modifier any_conflicts conflicts
    modifier_info before_equals from_equals c_str equal
add_runs = (refl, refl, refl, refl)

find_modifier_twice_example :
    find_modifier
      (codes "x-foo")
      (codes "=1")
      (find_modifier (codes "x-foo") (codes "=1") empty_registry).1
    ≡ find_modifier (codes "x-foo") (codes "=1") empty_registry
find_modifier_twice_example =
    find_modifier_twice (codes "x-foo") (codes "=1") empty_registry (omega arith)
      (with_value (codes "1"))

add_modifier_common-IsValid_example :
    Answers
      (codes "x-a")
      (custom 0)
      true
      empty_registry
      (add_modifier_common (codes "x-a") (custom 0) true empty_registry)
    × IsValid (add_modifier_common (codes "x-a") (custom 0) true empty_registry).0
    × (add_modifier_common
          (codes "x-a")
          (custom 1)
          false
          (add_modifier_common (codes "x-a") (custom 0) true empty_registry).0
        ≡ ((add_modifier_common (codes "x-a") (custom 0) true empty_registry).0, false))
add_modifier_common-IsValid_example =
    add_modifier_common-IsValid (codes "x-a") (custom 0) (custom 1) true false empty_registry
      (record { distinct = tt; named = tt })

abbrev in_href : Bool → HtmlParser
in_href quoted = record {
  state = state_value;
  attribute = codes "href";
  attribute_type = attr_uri;
  is_attribute_quoted = quoted;
  is_url_start = false;
  in_javascript = false;
  is_javascript_quoted = false;
  in_css = false;
}

quoted_value_contained_example : All IsQuoteFree (
    apply_directives
      (modify client)
      (get_modifier_for_html_js (in_href true)).modvals
      (codes "\" onclick='x'"))
quoted_value_contained_example =
    quoted_value_contained client (in_href true) (codes "\" onclick='x'") refl refl (ground arith)
      (omega arith)

unquoted_value_contained_example :
    (((get_modifier_for_html_js (in_href false)).modvals ≡ [])
      × ((get_modifier_for_html_js (in_href false)).error_msg ≢ []))
    ⊎ All IsSpaceFree (
        apply_directives
          (modify client)
          (get_modifier_for_html_js (in_href false)).modvals
          (codes "a onclick=b"))
unquoted_value_contained_example =
    unquoted_value_contained client (in_href false) (codes "a onclick=b") refl refl (ground arith)
      (omega arith)

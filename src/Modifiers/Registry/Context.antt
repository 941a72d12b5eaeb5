-- ===== src/Modifiers/Registry/Context.antt =====
-- src/template_modifiers.cc: AutoModifyDirective, g_am_dirs and GetModifierForHtmlJs. What the
-- parser of src/htmlparser answers to the queries is a record.
pub mod Safety
use ctemplate.Common.{
  ℕ, List, [], ◌∷◌, ◌++◌, Bool, true, false, not, ◌&&◌, Option, none, some, Bytes, codes,
  if◌then◌else◌,
}
use Prim.Native.Nat.{zero, suc}
use Prim.Native.String.{String}
use ctemplate.Modifiers.Registry.{
  TemplateModifier, html_escape, cleanse_attribute, cleanse_css, xml_escape, javascript_escape,
  javascript_number, url_query_escape, validate_url_and_html_escape, ModifierInfo,
}
use ctemplate.Modifiers.Registry.Builtin.{ModifierWithAlternatives, g_modifiers}

pub data AutoModifyDirective : Type 0 where
  am_empty am_html am_html_unquoted am_js am_js_number : AutoModifyDirective
  am_url_html am_url_query am_style am_xml : AutoModifyDirective

-- The place in g_modifiers and the value of the one entry that each directive has; AM_EMPTY has
-- none.
unfoldable pub g_am_dirs : AutoModifyDirective → List (ℕ × Bytes)
g_am_dirs am_empty = []
g_am_dirs am_html = (1, []) ∷ []
g_am_dirs am_html_unquoted = (4, codes "=attribute") ∷ []
g_am_dirs am_js = (6, []) ∷ []
g_am_dirs am_js_number = (15, codes "=number") ∷ []
g_am_dirs am_url_html = (11, codes "=html") ∷ []
g_am_dirs am_url_query = (9, []) ∷ []
g_am_dirs am_style = (0, []) ∷ []
g_am_dirs am_xml = (14, []) ∷ []

-- HtmlParser::STATE_xxx and HtmlParser::ATTR_xxx
pub data HtmlState : Type 0 where
  state_text state_tag state_attr state_value state_comment : HtmlState
  state_js_file state_css_file state_error : HtmlState

pub data AttributeType : Type 0 where
  attr_none attr_regular attr_uri attr_js attr_style : AttributeType

-- The answers of the parser where a variable stands.
pub record HtmlParser : Type 0 where
  pub state : HtmlState
  pub attribute : Bytes
  pub attribute_type : AttributeType
  pub is_attribute_quoted : Bool
  pub is_url_start : Bool
  pub in_javascript : Bool
  pub is_javascript_quoted : Bool
  pub in_css : Bool

-- The vector of directives, what is appended to `error_msg`, and whether InsertText is called.
pub record Modvals : Type 0 where
  pub modvals : List AutoModifyDirective
  pub error_msg : Bytes
  pub inserts_text : Bool

abbrev pub directive : AutoModifyDirective → Bool → Modvals
directive d inserts = record { modvals = d ∷ []; error_msg = []; inserts_text = inserts }

abbrev pub failure : Bytes → Modvals
failure message = record { modvals = []; error_msg = message; inserts_text = false }

must_be_quoted : String → Bytes → Modvals
must_be_quoted what attribute_name =
    failure (codes what ++ (attribute_name ++ (b'"' ∷ codes " must be enclosed in quotes.")))

-- `case STATE_VALUE`, by the attribute's type. ATTR_NONE fails an assertion, and returns the empty
-- vector where assertions are off.
unfoldable pub modifier_in_value : AttributeType → HtmlParser → Modvals
unfolding must_be_quoted
modifier_in_value attr_uri p =
    if not p.is_attribute_quoted
    then if p.is_url_start
      then must_be_quoted "Value of URL attribute \"" p.attribute
      else directive am_url_query true
    else directive (if p.is_url_start then am_url_html else am_html) true
modifier_in_value attr_regular p =
    directive (if p.is_attribute_quoted then am_html else am_html_unquoted) true
modifier_in_value attr_style p =
    if p.is_attribute_quoted
    then directive am_style true
    else must_be_quoted "Value of style attribute \"" p.attribute
modifier_in_value attr_js p =
    if not p.is_attribute_quoted
    then must_be_quoted "Value of javascript attribute \"" p.attribute
    else directive (if p.is_javascript_quoted then am_js else am_js_number) true
modifier_in_value attr_none p = failure []

-- The switch on the state.
unfoldable pub modifier_in_state : HtmlState → HtmlParser → Modvals
unfolding modifier_in_value
modifier_in_state state_value p = modifier_in_value p.attribute_type p
modifier_in_state state_tag p = directive am_html_unquoted false
modifier_in_state state_attr p = directive am_html_unquoted false
modifier_in_state state_comment p = directive (if p.in_css then am_style else am_html) false
modifier_in_state state_text p = directive (if p.in_css then am_style else am_html) false
modifier_in_state _ p = failure []

abbrev pub is_value : HtmlState → Bool
is_value state_value = true
is_value _ = false

unfoldable pub get_modifier_for_html_js : HtmlParser → Modvals
unfolding modifier_in_state
get_modifier_for_html_js p =
    if p.in_javascript && not (is_value p.state)
    then directive (if p.is_javascript_quoted then am_js else am_js_number) false
    else modifier_in_state p.state p

-- The modifiers of the contexts that ask the parser nothing.
unfoldable pub get_modifier_for_css : List AutoModifyDirective
get_modifier_for_css = am_style ∷ []

unfoldable pub get_modifier_for_xml : List AutoModifyDirective
get_modifier_for_xml = am_xml ∷ []

unfoldable pub get_modifier_for_json : List AutoModifyDirective
get_modifier_for_json = am_js ∷ []

unfoldable pub get_default_modifier_for_html : List AutoModifyDirective
get_default_modifier_for_html = am_html ∷ []

unfoldable pub get_default_modifier_for_js : List AutoModifyDirective
get_default_modifier_for_js = am_js ∷ []

-- The modifier at a place of the table.
unfoldable pub modifier_at : ℕ → List ModifierWithAlternatives → Option TemplateModifier
modifier_at i [] = none
modifier_at zero (m ∷ mods) = some m.info.modifier
modifier_at (suc i) (m ∷ mods) = modifier_at i mods

-- The text that the modifiers of a list of directives make of a value, one after the other.
unfoldable pub apply_modifier : (TemplateModifier → Bytes → Bytes) → ℕ → Bytes → Bytes
unfolding modifier_at g_modifiers
apply_modifier modify i s = elim (modifier_at i g_modifiers) [ none ↦ s | some m ↦ modify m s ]

unfoldable pub apply_entries : (TemplateModifier → Bytes → Bytes) → List (ℕ × Bytes) → Bytes → Bytes
unfolding apply_modifier
apply_entries modify [] s = s
apply_entries modify ((i, value) ∷ entries) s =
    apply_entries modify entries (apply_modifier modify i s)

unfoldable pub apply_directives :
    (TemplateModifier → Bytes → Bytes) → List AutoModifyDirective → Bytes → Bytes
unfolding apply_entries g_am_dirs
apply_directives modify [] s = s
apply_directives modify (d ∷ directives) s =
    apply_directives modify directives (apply_entries modify (g_am_dirs d) s)

-- ===== src/Modifiers/Registry/Builtin.antt =====
-- src/template_modifiers.cc: g_modifiers, FindModifier, IsSafeXSSAlternative and the modifiers that
-- the table names.
use ctemplate.Common.{
  ℕ, zero, suc, List, [], ◌∷◌, Bool, true, false, ◌&&◌, Option, none, some, Bytes, codes, ◌==◌,
  if◌then◌else◌, equal,
}
use ctemplate.Modifiers.Cleanse.{
  cleanse_attribute as cleanse_attribute_text, cleanse_css as cleanse_css_text,
}
use ctemplate.Modifiers.Cleanse.Number.{javascript_number as javascript_number_text}
use ctemplate.Modifiers.Javascript.{javascript_escape as javascript_escape_text}
use ctemplate.Modifiers.Json.{json_escape as json_escape_text}
use ctemplate.Modifiers.Markup.{
  html_escape as html_escape_text, pre_escape as pre_escape_text, xml_escape as xml_escape_text,
}
use ctemplate.Modifiers.PrefixLine.{prefix_line as prefix_line_text}
use ctemplate.Modifiers.Registry.{
  xss_web_standard, xss_safe, TemplateModifier, null_modifier, html_escape, pre_escape,
  snippet_escape, cleanse_attribute, cleanse_css, xml_escape, javascript_escape, javascript_number,
  url_query_escape, json_escape, validate_url_and_html_escape, validate_url_and_javascript_escape,
  validate_url_and_css_escape, validate_img_src_url_and_html_escape,
  validate_img_src_url_and_javascript_escape, validate_img_src_url_and_css_escape, prefix_line,
  custom, address, ModifierInfo, modifier_info, best_match, Registry, is_extension_modifier,
  find_extension,
}
use ctemplate.Modifiers.Snippet.{snippet_escape as snippet_escape_text}
use ctemplate.Modifiers.Url.Protocol.{validate_url}
use ctemplate.Modifiers.Url.{css_url_escape, url_query_escape as url_query_escape_text}

-- kUnsafeUrlReplacement and kUnsafeImgSrcUrlReplacement
abbrev unsafe_url_replacement : Bytes
unsafe_url_replacement = codes "#"

abbrev unsafe_img_src_url_replacement : Bytes
unsafe_img_src_url_replacement = codes "/images/cleardot.gif"

-- Modify of the modifier that a pointer stands for, with an empty argument; `client` is what the clients' modifiers do.
unfoldable pub modify : (ℕ → Bytes → Bytes) → TemplateModifier → Bytes → Bytes
modify client null_modifier s = s
modify client html_escape s = html_escape_text s
modify client pre_escape s = pre_escape_text s
modify client snippet_escape s = snippet_escape_text s
modify client cleanse_attribute s = cleanse_attribute_text s
modify client cleanse_css s = cleanse_css_text s
modify client xml_escape s = xml_escape_text s
modify client javascript_escape s = javascript_escape_text s
modify client javascript_number s = javascript_number_text s
modify client url_query_escape s = url_query_escape_text s
modify client json_escape s = json_escape_text s
modify client validate_url_and_html_escape s =
    validate_url html_escape_text unsafe_url_replacement s
modify client validate_url_and_javascript_escape s =
    validate_url javascript_escape_text unsafe_url_replacement s
modify client validate_url_and_css_escape s = validate_url css_url_escape unsafe_url_replacement s
modify client validate_img_src_url_and_html_escape s =
    validate_url html_escape_text unsafe_img_src_url_replacement s
modify client validate_img_src_url_and_javascript_escape s =
    validate_url javascript_escape_text unsafe_img_src_url_replacement s
modify client validate_img_src_url_and_css_escape s =
    validate_url css_url_escape unsafe_img_src_url_replacement s
modify client prefix_line s = prefix_line_text [] s
modify client (custom n) s = client n s

-- An entry of g_modifiers, and the places of its safe alternatives in that table.
pub record ModifierWithAlternatives : Type 0 where
  pub info : ModifierInfo
  pub safe_alt_mods : List ℕ

abbrev entry : Bytes → ℕ → TemplateModifier → List ℕ → ModifierWithAlternatives
entry name short m alternatives = record {
  info = modifier_info name short xss_web_standard (some m);
  safe_alt_mods = alternatives;
}

unfoldable pub g_modifiers : List ModifierWithAlternatives
unfolding modifier_info
g_modifiers =
    entry (codes "cleanse_css") b'c' cleanse_css (16 ∷ 19 ∷ [])
    ∷ entry (codes "html_escape") b'h' html_escape (2 ∷ 3 ∷ 4 ∷ 5 ∷ 8 ∷ 9 ∷ 11 ∷ 12 ∷ 18 ∷ [])
    ∷ entry (codes "html_escape_with_arg=snippet") b'H' snippet_escape (1 ∷ 3 ∷ 4 ∷ 8 ∷ 9 ∷ 12 ∷ [])
    ∷ entry (codes "html_escape_with_arg=pre") b'H' pre_escape (1 ∷ 2 ∷ 4 ∷ 8 ∷ 9 ∷ 12 ∷ [])
    ∷ entry (codes "html_escape_with_arg=attribute") b'H' cleanse_attribute []
    ∷ entry (codes "html_escape_with_arg=url") b'H' validate_url_and_html_escape (18 ∷ [])
    ∷ entry (codes "javascript_escape") b'j' javascript_escape (7 ∷ 10 ∷ 17 ∷ [])
    ∷ entry (codes "json_escape") b'o' json_escape (6 ∷ [])
    ∷ entry (codes "pre_escape") b'p' pre_escape (1 ∷ 2 ∷ 3 ∷ 4 ∷ 9 ∷ 12 ∷ [])
    ∷ entry (codes "url_query_escape") b'u' url_query_escape []
    ∷ entry (codes "url_escape_with_arg=javascript") b'U' validate_url_and_javascript_escape
        (17 ∷ [])
    ∷ entry (codes "url_escape_with_arg=html") b'U' validate_url_and_html_escape (18 ∷ [])
    ∷ entry (codes "url_escape_with_arg=query") b'U' url_query_escape []
    ∷ record {
      info = modifier_info (codes "none") 0 xss_safe (some null_modifier);
      safe_alt_mods = [];
    }
    ∷ entry (codes "xml_escape") 0 xml_escape (1 ∷ 4 ∷ [])
    ∷ entry (codes "javascript_escape_with_arg=number") b'J' javascript_number []
    ∷ entry (codes "url_escape_with_arg=css") b'U' validate_url_and_css_escape []
    ∷ entry (codes "img_src_url_escape_with_arg=javascript") b'I'
        validate_img_src_url_and_javascript_escape []
    ∷ entry (codes "img_src_url_escape_with_arg=html") b'I' validate_img_src_url_and_html_escape []
    ∷ entry (codes "img_src_url_escape_with_arg=css") b'I' validate_img_src_url_and_css_escape []
    ∷ []

infos : List ModifierWithAlternatives → List ModifierInfo
infos [] = []
infos (m ∷ mods) = m.info ∷ infos mods

-- FindModifier: an extension's name is looked up in the two vectors, any other in the table.
unfoldable pub find_modifier : Bytes → Bytes → Registry → Option ModifierInfo × Registry
unfolding infos
find_modifier modname modval r =
    if is_extension_modifier modname
    then (some (find_extension modname modval r).0, (find_extension modname modval r).1)
    else (best_match modname modval none (infos g_modifiers), r)

-- The long name at a place of the table, the empty one out of it.
unfoldable pub name_at : ℕ → List ModifierWithAlternatives → Bytes
name_at i [] = []
name_at zero (m ∷ mods) = m.info.long_name
name_at (suc i) (m ∷ mods) = name_at i mods

-- The inner loop of IsSafeXSSAlternative.
unfoldable pub lists_alternative : Bytes → List ℕ → Bool
unfolding name_at
lists_alternative name [] = false
lists_alternative name (i ∷ alternatives) =
    if equal (name_at i g_modifiers) name then true else lists_alternative name alternatives

-- Its outer loop, which goes on behind an entry that does not list the candidate.
unfoldable pub finds_alternative : Bytes → Bytes → List ModifierWithAlternatives → Bool
unfolding lists_alternative
finds_alternative our candidate [] = false
finds_alternative our candidate (m ∷ mods) =
    if equal m.info.long_name our && lists_alternative candidate m.safe_alt_mods
    then true
    else finds_alternative our candidate mods

unfoldable pub is_safe_xss_alternative : ModifierInfo → ModifierInfo → Bool
unfolding finds_alternative
is_safe_xss_alternative our candidate =
    if address our.modifier == address candidate.modifier
    then true
    else finds_alternative our.long_name candidate.long_name g_modifiers

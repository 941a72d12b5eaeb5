-- ===== src/Modifiers/Registry.antt =====
-- src/template_modifiers_internal.h and src/template_modifiers.cc: ModifierInfo, UpdateBestMatch,
-- FindModifier and AddModifier over the two vectors of registered and of unknown modifiers.
pub mod Builtin
pub mod Lookup
pub mod Extensions
pub mod Context
use ctemplate.Common.{
  ℕ, ◌+◌, ◌<◌, List, [], ◌∷◌, ◌++◌, Bool, true, false, not, ◌&&◌, ◌||◌, Option, none, some, Bytes,
  codes, leb, ltb, ◌==◌, if◌then◌else◌, length, equal,
}

pub data XssClass : Type 0 where
  xss_unused xss_web_standard xss_unique xss_safe : XssClass

-- The modifier that a pointer to a TemplateModifier stands for. `custom` is one that a client of
-- the library has made.
pub data TemplateModifier : Type 0 where
  null_modifier html_escape pre_escape snippet_escape cleanse_attribute : TemplateModifier
  cleanse_css xml_escape javascript_escape javascript_number : TemplateModifier
  url_query_escape json_escape : TemplateModifier
  validate_url_and_html_escape validate_url_and_javascript_escape : TemplateModifier
  validate_url_and_css_escape validate_img_src_url_and_html_escape : TemplateModifier
  validate_img_src_url_and_javascript_escape : TemplateModifier
  validate_img_src_url_and_css_escape prefix_line : TemplateModifier
  custom : ℕ → TemplateModifier

-- A number for each pointer.
abbrev pub address : TemplateModifier → ℕ
address null_modifier = 0
address html_escape = 1
address pre_escape = 2
address snippet_escape = 3
address cleanse_attribute = 4
address cleanse_css = 5
address xml_escape = 6
address javascript_escape = 7
address javascript_number = 8
address url_query_escape = 9
address json_escape = 10
address validate_url_and_html_escape = 11
address validate_url_and_javascript_escape = 12
address validate_url_and_css_escape = 13
address validate_img_src_url_and_html_escape = 14
address validate_img_src_url_and_javascript_escape = 15
address validate_img_src_url_and_css_escape = 16
address prefix_line = 17
address (custom n) = 18 + n

pub record ModifierInfo : Type 0 where
  pub long_name : Bytes
  pub short_name : ℕ
  pub modval_required : Bool
  pub is_registered : Bool
  pub xss_class : XssClass
  pub modifier : TemplateModifier

-- The text in front of the first `=`, all of it if there is none; and the text from there on.
unfoldable pub before_equals : Bytes → Bytes
before_equals [] = []
before_equals (c ∷ s) = if c == b'=' then [] else c ∷ before_equals s

unfoldable pub from_equals : Bytes → Bytes
from_equals [] = []
from_equals (c ∷ s) = if c == b'=' then c ∷ s else from_equals s

abbrev pub is_empty : Bytes → Bool
is_empty [] = true
is_empty (c ∷ s) = false

-- What `c_str()` shows of a string: the text in front of the first NUL.
unfoldable pub c_str : Bytes → Bytes
c_str [] = []
c_str (c ∷ s) = if c == 0 then [] else c ∷ c_str s

-- The constructor of ModifierInfo.
unfoldable pub modifier_info : Bytes → ℕ → XssClass → Option TemplateModifier → ModifierInfo
unfolding from_equals c_str
modifier_info ln sn xc m = record {
  long_name = ln;
  short_name = sn;
  modval_required = not (is_empty (from_equals (c_str ln)));
  is_registered = elim m [ none ↦ false | some _ ↦ true ];
  xss_class = xc;
  modifier = elim m [ none ↦ null_modifier | some p ↦ p ];
}

-- `modname_len == 1 && *modname == short_name`
abbrev pub is_short : Bytes → ModifierInfo → Bool
is_short [] m = false
is_short (c ∷ []) m = c == m.short_name
is_short (c ∷ d ∷ s) m = false

-- `equals[1] == '\0'`
abbrev pub is_bare : Bytes → Bool
is_bare [] = false
is_bare (c ∷ []) = true
is_bare (c ∷ d ∷ s) = d == 0

-- The two conditions of UpdateBestMatch, by `modval_required`.
unfoldable pub matches_value : Bytes → Bytes → ModifierInfo → Bool
matches_value modname modval m =
    not (is_empty modval)
    && (is_short modname m || equal modname (before_equals m.long_name))
    && (is_bare (from_equals m.long_name) || equal modval (from_equals m.long_name))

unfoldable pub matches_plain : Bytes → Bytes → ModifierInfo → Bool
matches_plain modname modval m =
    is_empty modval && (is_short modname m || equal modname m.long_name)

-- A candidate that takes a value wants a longer name than the best match.
abbrev pub is_longer : ModifierInfo → Option ModifierInfo → Bool
is_longer m none = true
is_longer m (some b) = ltb (length b.long_name) (length m.long_name)

unfoldable pub update_best_match :
    Bytes → Bytes → ModifierInfo → Option ModifierInfo → Option ModifierInfo
update_best_match modname modval candidate best =
    if candidate.modval_required
    then if matches_value modname modval candidate && is_longer candidate best
      then some candidate
      else best
    else if matches_plain modname modval candidate
    then some candidate
    else best

-- The loop over a vector of modifiers.
unfoldable pub best_match :
    Bytes → Bytes → Option ModifierInfo → List ModifierInfo → Option ModifierInfo
best_match modname modval best [] = best
best_match modname modval best (m ∷ mods) =
    best_match modname modval (update_best_match modname modval m best) mods

-- g_extension_modifiers and g_unknown_modifiers
pub record Registry : Type 0 where
  pub extension_modifiers : List ModifierInfo
  pub unknown_modifiers : List ModifierInfo

-- `memcmp(long_name, "x-", 2) == 0`
unfoldable pub is_extension_modifier : Bytes → Bool
is_extension_modifier [] = false
is_extension_modifier (c ∷ []) = false
is_extension_modifier (c ∷ d ∷ s) = c == b'x' && d == b'-'

-- A name that is in neither vector joins the unknown ones.
unfoldable pub find_extension : Bytes → Bytes → Registry → ModifierInfo × Registry
find_extension modname modval r = elim (best_match modname modval none r.extension_modifiers) [
  | some m ↦ (m, r)
  | none ↦ elim (best_match modname modval none r.unknown_modifiers) [
    | some m ↦ (m, r)
    | none ↦
        let m = modifier_info (modname ++ modval) 0 xss_unique none in
        (m, record r { unknown_modifiers = r.unknown_modifiers ++ m ∷ [] })
  ]
]

-- The test of one registered modifier in AddModifierCommon.
unfoldable pub conflicts : Bytes → ModifierInfo → Bool
conflicts long_name m =
    equal (before_equals long_name) (before_equals m.long_name)
    && not (
        not (is_empty (from_equals long_name))
        && not (is_empty (from_equals m.long_name))
        && not (equal m.long_name long_name))

unfoldable pub any_conflicts : Bytes → List ModifierInfo → Bool
any_conflicts long_name [] = false
any_conflicts long_name (m ∷ mods) =
    if conflicts long_name m then true else any_conflicts long_name mods

-- AddModifierCommon: the registry behind it and whether the modifier was added.
unfoldable pub add_modifier_common : Bytes → TemplateModifier → Bool → Registry → Registry × Bool
add_modifier_common long_name modifier is_safe r =
    if not (is_extension_modifier long_name)
    then (r, false)
    else if any_conflicts long_name r.extension_modifiers
    then (r, false)
    else (
      record r {
        extension_modifiers =
            r.extension_modifiers
            ++ modifier_info long_name 0 (if is_safe then xss_safe else xss_unique) (some modifier)
              ∷ [];
      },
      true,
    )

unfoldable pub add_modifier : Bytes → TemplateModifier → Registry → Registry × Bool
add_modifier long_name modifier r = add_modifier_common long_name modifier false r

unfoldable pub add_xss_safe_modifier : Bytes → TemplateModifier → Registry → Registry × Bool
add_xss_safe_modifier long_name modifier r = add_modifier_common long_name modifier true r

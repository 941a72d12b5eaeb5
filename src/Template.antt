-- ===== src/Template.antt =====
-- src/template.cc: TemplateToken and its modifiers, FindLongestMatch, AnyMightModify and
-- EmitModifiedString.
pub mod Matching
pub mod AutoEscape
pub mod Nodes
pub mod Expand
pub mod ExpandLocked
pub mod Dictionaries
pub mod Markers
pub mod Tokens
pub mod Layout
pub mod StripBuffer
pub mod Tree
pub mod Headers
use ctemplate.Common.{
  ℕ, zero, suc, ◌+◌, List, [], ◌∷◌, ◌++◌, Bool, true, false, not, ◌&&◌, ◌||◌, Bytes, codes, ◌==◌,
  if◌then◌else◌, length, drop, reverse,
}
use ctemplate.Modifiers.Registry.{
  XssClass, xss_unused, xss_web_standard, xss_unique, xss_safe, TemplateModifier, prefix_line,
  ModifierInfo, modifier_info,
}
use ctemplate.Modifiers.Registry.Builtin.{is_safe_xss_alternative}

pub record ModifierAndValue : Type 0 where
  pub info : ModifierInfo
  pub value : Bytes

-- The virtual functions of the modifiers, with the data of the call of Expand; `value` is what
-- stands behind the modifier's name.
pub record Dispatch : Type 0 where
  pub might_modify : TemplateModifier → Bytes → Bool
  pub modify : TemplateModifier → Bytes → Bytes → Bytes

abbrev pub g_prefix_line_info : ModifierInfo
g_prefix_line_info = record {
  long_name = [];
  short_name = 0;
  modval_required = false;
  is_registered = true;
  xss_class = xss_web_standard;
  modifier = prefix_line;
}

-- A number for each class.
abbrev pub class_number : XssClass → ℕ
class_number xss_unused = 0
class_number xss_web_standard = 1
class_number xss_unique = 2
class_number xss_safe = 3

abbrev pub same_class : XssClass → XssClass → Bool
same_class a b = class_number a == class_number b

-- The inner loop of FindLongestMatch, over the two vectors from their ends.
unfoldable pub matches_from_end : List ModifierInfo → List ModifierInfo → Bool
unfolding is_safe_xss_alternative
matches_from_end [] man = true
matches_from_end (a ∷ auto) [] = false
matches_from_end (a ∷ auto) (m ∷ man) =
    let next = matches_from_end auto man in
    let ignored = matches_from_end (a ∷ auto) man in
    if is_safe_xss_alternative a m
    then next
    else if same_class m.xss_class a.xss_class && not (same_class m.xss_class xss_unique)
    then ignored
    else false

-- The outer loop, over the ends of the prefixes.
unfoldable pub longest_prefix : List ModifierInfo → List ModifierInfo → ℕ
unfolding matches_from_end
longest_prefix [] man = 0
longest_prefix (a ∷ auto) man =
    if matches_from_end (a ∷ auto) man then length (a ∷ auto) else longest_prefix auto man

unfoldable pub infos_of : List ModifierAndValue → List ModifierInfo
infos_of [] = []
infos_of (m ∷ modvals) = m.info ∷ infos_of modvals

unfoldable pub find_longest_match : List ModifierAndValue → List ModifierAndValue → ℕ
unfolding longest_prefix infos_of
find_longest_match modvals_man modvals_auto =
    longest_prefix (reverse (infos_of modvals_auto)) (reverse (infos_of modvals_man))

-- The search for a modifier of the class XSS_SAFE.
unfoldable pub any_safe : List ModifierAndValue → Bool
any_safe [] = false
any_safe (m ∷ modvals) = if same_class m.info.xss_class xss_safe then true else any_safe modvals

-- The modifiers of a token behind TemplateToken::UpdateModifier, without its log.
unfoldable pub update_modifier :
    List ModifierAndValue → List ModifierAndValue → List ModifierAndValue
unfolding any_safe find_longest_match
update_modifier [] auto_modvals = auto_modvals
update_modifier (m ∷ modvals) auto_modvals =
    let longest_match = find_longest_match (m ∷ modvals) auto_modvals in
    if any_safe (m ∷ modvals)
    then m ∷ modvals
    else if longest_match == length auto_modvals
    then m ∷ modvals
    else (m ∷ modvals) ++ drop longest_match auto_modvals

-- The type of a token is the constructor of its node.
pub record TemplateToken : Type 0 where
  pub text : Bytes
  pub modvals : List ModifierAndValue

unfoldable pub modifier_names : List ModifierAndValue → Bytes
modifier_names [] = []
modifier_names (m ∷ modvals) =
    codes ":"
    ++ (m.info.long_name
        ++ ((if m.info.is_registered then [] else codes "<not registered>")
            ++ modifier_names modvals))

-- TemplateToken::ToString
unfoldable pub token_to_string : TemplateToken → Bytes
unfolding modifier_names
token_to_string token = token.text ++ modifier_names token.modvals

unfoldable pub pretty_print_one_modifier : ModifierAndValue → Bytes
pretty_print_one_modifier m =
    codes ":"
    ++ ((if m.info.short_name == 0 then m.info.long_name else m.info.short_name ∷ []) ++ m.value)

unfoldable pub pretty_print_token_modifiers : List ModifierAndValue → Bytes
unfolding pretty_print_one_modifier
pretty_print_token_modifiers [] = []
pretty_print_token_modifiers (m ∷ modvals) =
    pretty_print_one_modifier m ++ pretty_print_token_modifiers modvals

unfoldable pub any_might_modify : Dispatch → List ModifierAndValue → Bool
any_might_modify dispatch [] = false
any_might_modify dispatch (m ∷ modifiers) =
    if dispatch.might_modify m.info.modifier m.value
    then true
    else any_might_modify dispatch modifiers

-- Every modifier but the last gives a buffer that the next one reads; the last one writes into the
-- emitter. The vector is not empty.
unfoldable pub emit_modified_string : Dispatch → List ModifierAndValue → Bytes → Bytes
emit_modified_string dispatch [] input = input
emit_modified_string dispatch (m ∷ modifiers) input =
    emit_modified_string dispatch modifiers (dispatch.modify m.info.modifier m.value input)

-- ===== src/Modifiers/Registry/Context/Safety.antt =====
-- The modifiers that GetModifierForHtmlJs picks for the value of an attribute, applied.
use ctemplate.Common.{
  ℕ, ◌+◌, ◌<◌, [], ◌∷◌, ◌≡◌, ◌≢◌, ◌⊎◌, inl, inr, refl, true, false, ◌&&◌, arith, Bytes, All,
  Bool-cases,
}
use ctemplate.Modifiers.Cleanse.Attribute.{is_attribute_byte, AreAt, cleanse_attribute-AreAt}
use ctemplate.Modifiers.Cleanse.Number.{
  javascript_number, is_literal_byte, javascript_number-literal,
}
use ctemplate.Modifiers.Cleanse.{cleanse_css, cleanse_attribute, is_css_safe, cleanse_css-safe}
use ctemplate.Modifiers.Javascript.{javascript_escape}
use ctemplate.Modifiers.Url.{url_query_escape}
use ctemplate.Modifiers.Javascript.Safety.{IsScriptText, javascript_escape-text}
use ctemplate.Modifiers.Markup.Safety.{IsInertText, html_escape-IsInertText}
use ctemplate.Modifiers.Markup.{html_escape as html_escape_text}
use ctemplate.Modifiers.Registry.Builtin.{modify}
use ctemplate.Modifiers.Registry.Context.{
  AutoModifyDirective, am_html, am_html_unquoted, am_js, am_js_number, am_url_html, am_url_query,
  am_style, HtmlParser, state_value, AttributeType, attr_none, attr_regular, attr_uri, attr_js,
  attr_style, modifier_in_value, modifier_in_state, get_modifier_for_html_js, apply_directives,
}
use ctemplate.Modifiers.Url.Protocol.{validate_url, has_colon_before_slash, has_insecure_protocol}
use ctemplate.Modifiers.Url.Query.{is_query_byte, url_query_escape-query_bytes}

-- A property of bytes that follows from another holds of every byte.
All-mono : {P Q : ℕ → Type 0} → ((c : ℕ) → P c → Q c) → (s : Bytes) → All P s → All Q s
All-mono h [] p = tt
All-mono h (c ∷ s) p = (h c p.0, All-mono h s p.1)

-- Whatever ValidateUrl decides, its chained modifier has made the output.
validate_url-All :
    (P : ℕ → Type 0) (f : Bytes → Bytes) (replacement s : Bytes)
    → ((t : Bytes) → All P (f t))
    → All P (validate_url f replacement s)
unfolding validate_url
validate_url-All P f replacement s h =
    elim (Bool-cases (has_colon_before_slash s && has_insecure_protocol s)) [
      | inl e ↦ rw e (h replacement)
      | inr e ↦ rw e (h s)
    ]

AreAt-All : (i inlen : ℕ) (s : Bytes) → AreAt i inlen s → All (λ c. is_attribute_byte c ≡ true) s
AreAt-All i inlen [] h = tt
AreAt-All i inlen (c ∷ s) h = (h.0.0, AreAt-All (i + 1) inlen s h.1)

-- No quote ends the attribute's value.
abbrev pub IsQuoteFree : ℕ → Type 0
IsQuoteFree c = (c ≢ b'"') × (c ≢ b'\'')

-- Nothing that ends an unquoted value: white space, a quote, an angle bracket or a backtick.
abbrev pub IsSpaceFree : ℕ → Type 0
IsSpaceFree c =
    IsQuoteFree c
    × (c ≢ b' ')
    × (c ≢ 9)
    × (c ≢ 10)
    × (c ≢ 12)
    × (c ≢ 13)
    × (c ≢ b'<')
    × (c ≢ b'>')
    × (c ≢ b'`')

attribute-IsSpaceFree : (c : ℕ) → is_attribute_byte c ≡ true → IsSpaceFree c
attribute-IsSpaceFree c h = ground arith

query-IsSpaceFree : (c : ℕ) → is_query_byte c ≡ true → IsSpaceFree c
query-IsSpaceFree c h = ground arith

literal-IsQuoteFree : (c : ℕ) → is_literal_byte c ≡ true → IsQuoteFree c
literal-IsQuoteFree c h = ground arith

css-IsQuoteFree : (c : ℕ) → is_css_safe c ≡ true → IsQuoteFree c
unfolding is_css_safe
css-IsQuoteFree c h = ground arith

-- In a value the attribute's type decides.
in_value :
    (p : HtmlParser)
    → p.state ≡ state_value
    → get_modifier_for_html_js p ≡ modifier_in_value p.attribute_type p
unfolding get_modifier_for_html_js modifier_in_state
in_value p v = elim (Bool-cases p.in_javascript) [ inl e ↦ rw (e, v) | inr e ↦ rw (e, v) ]

module _ (client : ℕ → Bytes → Bytes) where
  -- What auto-escaping makes of a value for one directive.
  abbrev pub escaped_by : AutoModifyDirective → Bytes → Bytes
  escaped_by d s = apply_directives (modify client) (d ∷ []) s

  html-IsQuoteFree : (s : Bytes) → All IsQuoteFree (escaped_by am_html s)
  unfolding apply_directives modify
  html-IsQuoteFree s =
      All-mono {P = IsInertText} (λ c h. (h.0.2, h.0.3)) (html_escape_text s)
        (html_escape-IsInertText s)

  url_html-IsQuoteFree : (s : Bytes) → All IsQuoteFree (escaped_by am_url_html s)
  unfolding apply_directives modify
  url_html-IsQuoteFree s = validate_url-All IsQuoteFree html_escape_text _ s html-IsQuoteFree

  style-IsQuoteFree : (s : Bytes) → All IsQuoteFree (escaped_by am_style s)
  unfolding apply_directives modify
  style-IsQuoteFree s = All-mono css-IsQuoteFree (cleanse_css s) (cleanse_css-safe s).0

  number-IsQuoteFree : (s : Bytes) → All IsQuoteFree (escaped_by am_js_number s)
  unfolding apply_directives modify
  number-IsQuoteFree s =
      All-mono literal-IsQuoteFree (javascript_number s) (javascript_number-literal s)

  js-IsQuoteFree : (s : Bytes) → All (λ c. c < 256) s → All IsQuoteFree (escaped_by am_js s)
  unfolding apply_directives modify
  js-IsQuoteFree s b =
      All-mono {P = IsScriptText} (λ c h. (h.0, h.1)) (javascript_escape s)
        (javascript_escape-text s b)

  unquoted-IsSpaceFree : (s : Bytes) → All IsSpaceFree (escaped_by am_html_unquoted s)
  unfolding apply_directives modify
  unquoted-IsSpaceFree s =
      All-mono attribute-IsSpaceFree (cleanse_attribute s)
        (AreAt-All 0 _ _ (cleanse_attribute-AreAt s).1)

  query-IsSpaceFree-All :
      (s : Bytes) → All (λ c. c < 256) s → All IsSpaceFree (escaped_by am_url_query s)
  unfolding apply_directives modify
  query-IsSpaceFree-All s b =
      All-mono query-IsSpaceFree (url_query_escape s) (url_query_escape-query_bytes s b)

  quoted_in :
      (a : AttributeType) (p : HtmlParser) (s : Bytes)
      → p.is_attribute_quoted ≡ true
      → a ≢ attr_none
      → All (λ c. c < 256) s
      → All IsQuoteFree (apply_directives (modify client) (modifier_in_value a p).modvals s)
  unfolding modifier_in_value
  quoted_in attr_none p s q n b = absurd (n refl)
  quoted_in attr_regular p s q n b = rw q (html-IsQuoteFree s)
  quoted_in attr_uri p s q n b = elim (Bool-cases p.is_url_start) [
    | inl e ↦ rw (q, e) (url_html-IsQuoteFree s)
    | inr e ↦ rw (q, e) (html-IsQuoteFree s)
  ]
  quoted_in attr_style p s q n b = rw q (style-IsQuoteFree s)
  quoted_in attr_js p s q n b = elim (Bool-cases p.is_javascript_quoted) [
    | inl e ↦ rw (q, e) (js-IsQuoteFree s b)
    | inr e ↦ rw (q, e) (number-IsQuoteFree s)
  ]

  unquoted_in :
      (a : AttributeType) (p : HtmlParser) (s : Bytes)
      → p.is_attribute_quoted ≡ false
      → a ≢ attr_none
      → All (λ c. c < 256) s
      → (((modifier_in_value a p).modvals ≡ []) × ((modifier_in_value a p).error_msg ≢ []))
        ⊎ All IsSpaceFree (apply_directives (modify client) (modifier_in_value a p).modvals s)
  unfolding modifier_in_value
  unquoted_in attr_none p s q n b = absurd (n refl)
  unquoted_in attr_regular p s q n b = rw q (inr (unquoted-IsSpaceFree s))
  unquoted_in attr_uri p s q n b = elim (Bool-cases p.is_url_start) [
    | inl e ↦ rw (q, e) (inl (refl, λ h. cc))
    | inr e ↦ rw (q, e) (inr (query-IsSpaceFree-All s b))
  ]
  unquoted_in attr_style p s q n b = rw q (inl (refl, λ h. cc))
  unquoted_in attr_js p s q n b = rw q (inl (refl, λ h. cc))

  -- In the quoted value of an attribute, whatever the attribute's type, the modifiers that are
  -- picked leave no quote in a value made of bytes, so that it cannot end the attribute.
  pub quoted_value_contained :
      (p : HtmlParser) (s : Bytes)
      → p.state ≡ state_value
      → p.is_attribute_quoted ≡ true
      → p.attribute_type ≢ attr_none
      → All (λ c. c < 256) s
      → All IsQuoteFree (apply_directives (modify client) (get_modifier_for_html_js p).modvals s)
  quoted_value_contained p s v q n b = rw (in_value p v) (quoted_in p.attribute_type p s q n b)

  -- In an unquoted value either an error is reported, with no modifier picked, or the modifiers
  -- leave no white space, quote, angle bracket or backtick in a value made of bytes.
  pub unquoted_value_contained :
      (p : HtmlParser) (s : Bytes)
      → p.state ≡ state_value
      → p.is_attribute_quoted ≡ false
      → p.attribute_type ≢ attr_none
      → All (λ c. c < 256) s
      → (((get_modifier_for_html_js p).modvals ≡ [])
          × ((get_modifier_for_html_js p).error_msg ≢ []))
        ⊎ All IsSpaceFree (apply_directives (modify client) (get_modifier_for_html_js p).modvals s)
  unquoted_value_contained p s v q n b = rw (in_value p v) (unquoted_in p.attribute_type p s q n b)

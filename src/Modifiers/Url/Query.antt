-- ===== src/Modifiers/Url/Query.antt =====
-- The bytes that UrlQueryEscape and CssUrlEscape emit, and the query decoding of the first.
use native.Mathlib.Decide.{ℕ_discrete}
use ctemplate.Common.{
  not, ℕ, zero, suc, ◌+◌, ◌-◌, ◌*◌, ◌/◌, ◌%◌, ◌<◌, [], ◌∷◌, ◌++◌, ◌≡◌, ◌≢◌, inl, inr, refl, sym,
  subst, ap, ◌∙◌, Bool, true, false, ◌||◌, flat_map, arith, Bytes, within, ◌==◌, if◌then◌else◌, All,
  All-append, All-flat_map, Bool-cases,
}
use ctemplate.Modifiers.Run.{image, escape_loop-flat_map}
use ctemplate.Modifiers.Url.{
  is_url_query_escape_safe_char, hex_digit, url_query_unsafe, url_query_entity, url_query_escape,
  css_url_image, css_url_escape,
}

abbrev pub is_alphanumeric : ℕ → Bool
is_alphanumeric c = within b'a' b'z' c || within b'A' b'Z' c || within b'0' b'9' c

-- The set that the comment names: [0-9a-zA-Z.,_*/~!()-].
abbrev pub is_documented_safe : ℕ → Bool
is_documented_safe c =
    is_alphanumeric c
    || c == b'.'
    || c == b','
    || c == b'_'
    || c == b'*'
    || c == b'/'
    || c == b'~'
    || c == b'!'
    || c == b'('
    || c == b')'
    || c == b'-'

-- The test holds of every byte under the bound.
passes_below : (ℕ → Bool) → ℕ → Bool
passes_below test zero = true
passes_below test (suc bound) = if test bound then passes_below test bound else false

passes_below-at :
    (test : ℕ → Bool) (bound c : ℕ) → c < bound → passes_below test bound ≡ true → test c ≡ true
unfolding passes_below
passes_below-at test zero c l e = absurd (omega arith)
passes_below-at test (suc bound) c l e = elim (ℕ_discrete c bound) [
  | yes top ↦ rw top (ground arith)
  | no other ↦ passes_below-at test bound c (omega arith) (ground arith)
]

-- The table and the comment say the same of a byte.
tells_the_same : ℕ → Bool
tells_the_same c =
    if is_url_query_escape_safe_char c then is_documented_safe c else not (is_documented_safe c)

table_checked : passes_below tells_the_same 256 ≡ true
unfolding passes_below tells_the_same is_url_query_escape_safe_char
table_checked = refl

read_off : (a b : Bool) → (if a then b else not b) ≡ true → a ≡ b
read_off true b h = sym h
read_off false b h = ground arith

-- The bit table holds exactly the documented characters.
pub safe_char_table : (c : ℕ) → c < 256 → is_url_query_escape_safe_char c ≡ is_documented_safe c
unfolding tells_the_same
safe_char_table c h =
    read_off (is_url_query_escape_safe_char c) (is_documented_safe c)
      (passes_below-at tells_the_same 256 c h table_checked)

hex_value : ℕ → ℕ
hex_value c = if within b'0' b'9' c then c - b'0' else c - 55

hex_value-hex_digit : (d : ℕ) → d < 16 → hex_value (hex_digit d) ≡ d
unfolding hex_value hex_digit
hex_value-hex_digit d h = ground arith

-- Where a reader of a query stands: in plain text, behind a percent sign, or behind it and a digit.
data Reader : Type 0 where
  plain percent : Reader
  digit : ℕ → Reader

-- The text that a query string stands for: `+` is a space, and `%` leads two hexadecimal digits.
read : Reader → Bytes → Bytes
read r [] = []
read plain (c ∷ s) =
    if c == b'+'
    then b' ' ∷ read plain s
    else if c == b'%'
    then read percent s
    else c ∷ read plain s
read percent (c ∷ s) = read (digit (hex_value c)) s
read (digit h) (c ∷ s) = (h * 16 + hex_value c) ∷ read plain s

pub url_decode : Bytes → Bytes
unfolding read
url_decode = read plain

read_safe :
    (c : ℕ) (rest : Bytes)
    → is_documented_safe c ≡ true
    → url_decode (c ∷ rest) ≡ c ∷ url_decode rest
unfolding url_decode
read_safe c rest h = ground arith

read_unsafe :
    (c : ℕ) (rest : Bytes) → c < 256 → url_decode (url_query_unsafe c ++ rest) ≡ c ∷ url_decode rest
unfolding url_decode url_query_unsafe
read_unsafe c rest h =
    ground (
      arith,
      hex_value-hex_digit (c / 16) (omega arith),
      hex_value-hex_digit (c % 16) (omega arith),
    )

entity_safe : (c : ℕ) → is_url_query_escape_safe_char c ≡ true → image url_query_entity c ≡ c ∷ []
unfolding image url_query_entity
entity_safe c e = ground arith

entity_unsafe :
    (c : ℕ)
    → is_url_query_escape_safe_char c ≡ false
    → image url_query_entity c ≡ url_query_unsafe c
unfolding image url_query_entity
entity_unsafe c e = ground arith

read-entity :
    (c : ℕ) (rest : Bytes)
    → c < 256
    → url_decode (image url_query_entity c ++ rest) ≡ c ∷ url_decode rest
read-entity c rest h = elim (Bool-cases (is_url_query_escape_safe_char c)) [
  | inl e ↦ rw (entity_safe c e) (read_safe c rest (sym (safe_char_table c h) ∙ e))
  | inr e ↦ rw (entity_unsafe c e) (read_unsafe c rest h)
]

read-flat_map :
    (s : Bytes) → All (λ c. c < 256) s → url_decode (flat_map (image url_query_entity) s) ≡ s
unfolding url_decode flat_map
read-flat_map [] h = refl
read-flat_map (c ∷ s) h =
    read-entity c (flat_map (image url_query_entity) s) h.0 ∙ ap (◌∷◌ c) (read-flat_map s h.1)

-- A string of bytes reads back from the query string that UrlQueryEscape makes of it.
pub url_decode-url_query_escape :
    (s : Bytes) → All (λ c. c < 256) s → url_decode (url_query_escape s) ≡ s
unfolding url_query_escape
url_decode-url_query_escape s h = rw escape_loop-flat_map (read-flat_map s h)

-- A byte that a query string may hold: a documented safe character, `+`, or one that `%XX` is made of.
abbrev pub is_query_byte : ℕ → Bool
is_query_byte c = is_documented_safe c || c == b'+' || c == b'%'

abbrev IsQueryByte : ℕ → Type 0
IsQueryByte c = is_query_byte c ≡ true

hex_digit-safe : (d : ℕ) → d < 16 → is_documented_safe (hex_digit d) ≡ true
unfolding hex_digit
hex_digit-safe d h = ground arith

unsafe-query_bytes : (c : ℕ) → c < 256 → All IsQueryByte (url_query_unsafe c)
unfolding url_query_unsafe
unsafe-query_bytes c h =
    ground (arith, hex_digit-safe (c / 16) (omega arith), hex_digit-safe (c % 16) (omega arith))

entity-query_bytes : (c : ℕ) → c < 256 → All IsQueryByte (image url_query_entity c)
entity-query_bytes c h = elim (Bool-cases (is_url_query_escape_safe_char c)) [
  | inl e ↦
      let documented = sym (safe_char_table c h) ∙ e in
      rw (entity_safe c e) (ground (arith, documented), tt)
  | inr e ↦ rw (entity_unsafe c e) (unsafe-query_bytes c h)
]

flat_map-query_bytes :
    (s : Bytes) → All (λ c. c < 256) s → All IsQueryByte (flat_map (image url_query_entity) s)
unfolding flat_map
flat_map-query_bytes [] h = tt
flat_map-query_bytes (c ∷ s) h =
    All-append IsQueryByte (image url_query_entity c) _ (entity-query_bytes c h.0)
      (flat_map-query_bytes s h.1)

-- UrlQueryEscape emits letters, digits, `.,_*/~!()-`, `+` and `%` only.
pub url_query_escape-query_bytes :
    (s : Bytes) → All (λ c. c < 256) s → All (λ c. is_query_byte c ≡ true) (url_query_escape s)
unfolding url_query_escape
url_query_escape-query_bytes s h =
    subst (All IsQueryByte) (sym (escape_loop-flat_map url_query_entity [] s []))
      (flat_map-query_bytes s h)

-- The byte neither leaves a CSS `url(...)` nor a quoted string, comment or tag around it.
abbrev pub IsCssInert : ℕ → Type 0
IsCssInert c =
    (c ≢ 10)
    × (c ≢ 13)
    × (c ≢ b'"')
    × (c ≢ b'\'')
    × (c ≢ b'(')
    × (c ≢ b')')
    × (c ≢ b'*')
    × (c ≢ b'<')
    × (c ≢ b'>')
    × (c ≢ b'\\')

css-image : (c : ℕ) → All IsCssInert (css_url_image c)
unfolding css_url_image
css-image c = ground arith

-- CssUrlEscape emits no newline, return, quote, parenthesis, asterisk, angle bracket or backslash.
pub css_url_escape-inert : (s : Bytes) → All IsCssInert (css_url_escape s)
unfolding css_url_escape
css_url_escape-inert s = All-flat_map IsCssInert css_url_image css-image s

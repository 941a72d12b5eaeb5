-- ===== src/Modifiers/Url/Protocol.antt =====
-- src/template_modifiers.cc: HasInsecureProtocol and ValidateUrl.
use ctemplate.Common.{
  ℕ, ◌+◌, [], ◌∷◌, ◌++◌, ◌≡◌, ◌≢◌, refl, Bool, true, false, ◌&&◌, arith, Bytes, codes, ltb, within,
  ◌==◌, if◌then◌else◌, All, length, Bool-cases, map, inl, inr,
}

-- tolower() of the C locale
abbrev pub to_lower : ℕ → ℕ
to_lower c = if within b'A' b'Z' c then c + 32 else c

-- `strncasecmp(in, literal, strlen(literal)) == 0`, for a lower case literal
unfoldable pub starts_with_nocase : Bytes → Bytes → Bool
starts_with_nocase s [] = true
starts_with_nocase [] (d ∷ literal) = false
starts_with_nocase (c ∷ s) (d ∷ literal) = to_lower c == d && starts_with_nocase s literal

-- One of the tests of HasInsecureProtocol: the URL is longer than the literal and starts with it.
unfoldable pub has_protocol : Bytes → Bytes → Bool
unfolding starts_with_nocase
has_protocol s literal = ltb (length literal) (length s) && starts_with_nocase s literal

unfoldable pub has_insecure_protocol : Bytes → Bool
unfolding has_protocol
has_insecure_protocol s =
    if has_protocol s (codes "http://")
    then false
    else if has_protocol s (codes "https://")
    then false
    else if has_protocol s (codes "ftp://")
    then false
    else true

-- memchr for the colon in front of the first slash, the end of the text if it has none.
unfoldable pub has_colon_before_slash : Bytes → Bool
has_colon_before_slash [] = false
has_colon_before_slash (c ∷ s) =
    if c == b'/' then false else if c == b':' then true else has_colon_before_slash s

-- ValidateUrl::Modify over its chained modifier and its replacement for an unsafe URL.
unfoldable pub validate_url : (Bytes → Bytes) → Bytes → Bytes → Bytes
unfolding has_colon_before_slash has_insecure_protocol
validate_url chained_modifier unsafe_url_replacement s =
    if has_colon_before_slash s && has_insecure_protocol s
    then chained_modifier unsafe_url_replacement
    else chained_modifier s

-- The text holds neither a colon nor a slash, as the name of a protocol.
abbrev pub IsScheme : Bytes → Type 0
IsScheme = All (λ c. (c ≢ b':') × (c ≢ b'/'))

colon_after_scheme :
    (scheme rest : Bytes) → IsScheme scheme → has_colon_before_slash (scheme ++ b':' ∷ rest) ≡ true
unfolding has_colon_before_slash
colon_after_scheme [] rest h = refl
colon_after_scheme (c ∷ scheme) rest h = ground (arith, colon_after_scheme scheme rest h.1)

-- A URL whose scheme is not `p` cannot start with `p:`.
not_starts_with :
    (scheme p rest q : Bytes)
    → IsScheme scheme
    → IsScheme p
    → map to_lower scheme ≢ p
    → starts_with_nocase (scheme ++ b':' ∷ rest) (p ++ b':' ∷ q) ≡ false
unfolding starts_with_nocase
not_starts_with [] [] rest q hs hp ne = absurd (ne refl)
not_starts_with [] (d ∷ p) rest q hs hp ne = ground arith
not_starts_with (c ∷ scheme) [] rest q hs hp ne = ground arith
not_starts_with (c ∷ scheme) (d ∷ p) rest q hs hp ne = elim (Bool-cases (to_lower c == d)) [
  | inl e ↦ rw e (not_starts_with scheme p rest q hs.1 hp.1 (λ r. ne (ground (arith, r))))
  | inr e ↦ rw e
]

-- A scheme that is none of http, https and ftp, in any letter case.
abbrev pub IsUnknownScheme : Bytes → Type 0
IsUnknownScheme scheme =
    IsScheme scheme
    × (map to_lower scheme ≢ codes "http")
    × (map to_lower scheme ≢ codes "https")
    × (map to_lower scheme ≢ codes "ftp")

insecure_scheme :
    (scheme rest : Bytes)
    → IsUnknownScheme scheme
    → has_insecure_protocol (scheme ++ b':' ∷ rest) ≡ true
unfolding has_insecure_protocol
insecure_scheme scheme rest h = ground (
  arith,
  not_starts_with scheme (codes "http") rest (codes "//") h.0 (omega arith) h.1,
  not_starts_with scheme (codes "https") rest (codes "//") h.0 (omega arith) h.2,
  not_starts_with scheme (codes "ftp") rest (codes "//") h.0 (omega arith) h.3,
)

-- A URL whose scheme, the text in front of its first colon, holds no slash and is not http, https
-- or ftp in any letter case is replaced, whatever follows the colon.
pub validate_url_unknown_scheme :
    (chained_modifier : Bytes → Bytes) (replacement scheme rest : Bytes)
    → IsUnknownScheme scheme
    → validate_url chained_modifier replacement (scheme ++ b':' ∷ rest)
      ≡ chained_modifier replacement
unfolding validate_url
validate_url_unknown_scheme chained_modifier replacement scheme rest h =
    rw (colon_after_scheme scheme rest h.0, insecure_scheme scheme rest h)

-- ===== src/Template/Tree/Literal.antt =====
-- Templates of texts and variables: what BuildTree makes of them and what they expand to.
use ctemplate.Common.{
  ℕ, suc, ◌+◌, List, [], ◌∷◌, ◌++◌, append-nil, append_assoc, Bool, true, false, Option, none, some,
  Bytes, codes, length, drop, take, ◌≡◌, ◌≢◌, refl, sym, ap, ◌∙◌, Bool-cases, inl, inr, arith, ◌==◌,
  if◌then◌else◌, ◌||◌, All,
}
use ctemplate.Modifiers.Cleanse.{is_alphanumeric}
use ctemplate.Modifiers.Registry.{Registry}
use ctemplate.Pathops.{find, occurs}
use ctemplate.Template.{TemplateToken}
use ctemplate.Template.Nodes.{Strip}
use ctemplate.Template.Tokens.{
  Token, text_token, variable_token, Phase, getting_text, getting_name, ParseState, next_text,
  next_named, next_kind, next_name, fail, named_token,
}
use ctemplate.Template.Markers.{
  later_marker, segments, read_modifiers, is_valid_name, variable, kind_of, token_end_of, Kind,
  body_of, behind_token,
}

-- Texts, each with the name of a variable behind it, and the text behind all of them.
abbrev pub printed : List (Bytes × Bytes) → Bytes → Bytes
printed [] tail = tail
printed ((text, name) ∷ pieces) tail =
    text ++ b'{' ∷ b'{' ∷ (name ++ b'}' ∷ b'}' ∷ printed pieces tail)

abbrev pub IsPlain : Bytes → Type 0
IsPlain text = All (λ c. c ≢ b'{') text

abbrev pub IsPiece : Bytes × Bytes → Type 0
IsPiece (text, name) = IsPlain text × (name ≢ []) × (is_valid_name name ≡ true)

find_marker :
    (m : ℕ) (text s : Bytes)
    → All (λ c. c ≢ m) text
    → find (text ++ m ∷ m ∷ s) (m ∷ m ∷ []) ≡ some (length text)
unfolding find occurs
find_marker m [] s plain = let same : (m == m) ≡ true = ground arith in rw (same, find) refl
find_marker m (c ∷ text) s (n, plain) =
    let differ : (c == m) ≡ false = ground arith in
    rw (differ, find) (rw (find_marker m text s plain) refl)

pub find_nothing : (m k : ℕ) (text : Bytes) → All (λ c. c ≢ m) text → find text (m ∷ k ∷ []) ≡ none
unfolding find occurs
find_nothing m k [] plain = refl
find_nothing m k (c ∷ text) (n, plain) =
    let differ : (c == m) ≡ false = ground arith in
    rw (differ, find) (rw (find_nothing m k text plain) refl)

take_front : (p q : Bytes) → take (length p) (p ++ q) ≡ p
take_front [] q = refl
take_front (c ∷ p) q = ap (◌∷◌ c) (take_front p q)

drop_front : (p q : Bytes) → drop (length p) (p ++ q) ≡ q
drop_front [] q = refl
drop_front (c ∷ p) q = drop_front p q

drop_marker : (m : ℕ) (p q : Bytes) → drop (length p + 2) (p ++ m ∷ m ∷ q) ≡ q
drop_marker m [] q = refl
drop_marker m (c ∷ p) q =
    ap (λ k. drop k (c ∷ p ++ m ∷ m ∷ q)) {x = suc (length p) + 2} {y = suc (length p + 2)}
      (omega arith)
    ∙ drop_marker m p q

-- The bytes of a name are no markers and no colons.
abbrev IsNameByte : ℕ → Type 0
IsNameByte c = (is_alphanumeric c || c == b'_') ≡ true

pub name_bytes : (name : Bytes) → is_valid_name name ≡ true → All IsNameByte name
unfolding is_valid_name
name_bytes [] e = tt
name_bytes (c ∷ name) e = elim (Bool-cases (is_alphanumeric c || c == b'_')) [
  | inl f ↦ (f, name_bytes name (rw (f, is_valid_name) at e))
  | inr f ↦ absurd (let never : false ≡ true = rw (f, is_valid_name) at e in cc)
]

name_byte_kind : (c : ℕ) → IsNameByte c → kind_of c ≡ variable
name_byte_kind c e = ground arith

no_end_marker : (name : Bytes) → All IsNameByte name → All (λ c. c ≢ b'}') name
no_end_marker [] all = tt
no_end_marker (c ∷ name) (e, all) = ((ground arith), no_end_marker name all)

segments_name : (acc name : Bytes) → All IsNameByte name → segments acc name ≡ (acc ++ name, [])
unfolding segments
segments_name acc [] all = ap (λ s. (s, [])) (sym (append-nil acc))
segments_name acc (c ∷ name) (e, all) =
    let differ : (c == b':') ≡ false = ground arith in
    rw (differ, segments)
      (segments_name (acc ++ c ∷ []) name all ∙ ap (λ s. (s, [])) (append_assoc acc (c ∷ []) name))

module _ (registry : Registry) where
  -- The states in which such a template is read.
  abbrev pub reading : Phase → Bytes → ParseState
  reading p s = record {
    rest = s;
    phase = p;
    current_delimiters = record { start_marker = codes "{{"; end_marker = codes "}}" };
    registry = registry;
    failed = false;
  }

  -- A marker that a name follows is not moved on.
  no_later_marker :
      (name s : Bytes)
      → name ≢ []
      → All IsNameByte name
      → later_marker (codes "{{") (b'{' ∷ b'{' ∷ (name ++ s)) ≡ 0
  unfolding later_marker occurs
  no_later_marker [] s some_name all = absurd (some_name refl)
  no_later_marker (c ∷ name) s some_name (e, all) =
      let differ : (c == b'{') ≡ false = ground arith in rw differ refl

  pub next_text-text :
      (text name s : Bytes)
      → IsPlain text
      → name ≢ []
      → All IsNameByte name
      → next_text (reading getting_text (text ++ b'{' ∷ b'{' ∷ (name ++ s)))
        ≡ (text_token text, reading getting_name (name ++ s))
  unfolding next_text
  next_text-text text name s plain some_name all =
      let marked = b'{' ∷ b'{' ∷ (name ++ s) in
      let found = find_marker b'{' text (name ++ s) plain in
      let no_later =
        ap (later_marker (codes "{{")) (drop_front text marked)
        ∙ no_later_marker name s some_name all in
      let token_end : length text + later_marker (codes "{{") (drop (length text) (text ++ marked))
          ≡ length text =
        omega (arith, no_later) in
      rw (found, next_text)
        (ap
            (λ n. (
              text_token (take n (text ++ marked)),
              reading getting_name (drop (n + 2) (text ++ marked)),
            ))
            token_end
          ∙ ap (λ t. (text_token t, reading getting_name (drop (length text + 2) (text ++ marked))))
              (take_front text marked)
          ∙ ap (λ r. (text_token text, reading getting_name r)) (drop_marker b'{' text (name ++ s)))

  module _ (pragma_ok : Bytes → Bool) (strip : Strip) where
    abbrev pub token_of : Bytes → TemplateToken
    token_of name = record { text = name; modvals = [] }

    -- The rest of the case GETTING_NAME, by the parts of the text, by the token's end, by its kind.
    abbrev by_parts : Bytes → ParseState → Bytes × List Bytes → Token × ParseState
    by_parts behind ps (name, mods) =
        if is_valid_name name
        then elim (read_modifiers mods ps.registry).0 [
          | none ↦ fail (record ps { registry = (read_modifiers mods ps.registry).1 })
          | some modifiers ↦ elim (named_token variable name modifiers) [
            | none ↦ fail (record ps { registry = (read_modifiers mods ps.registry).1 })
            | some token ↦ (
              token,
              record ps {
                phase = getting_text;
                rest = behind;
                registry = (read_modifiers mods ps.registry).1;
              },
            )
          ]
        ]
        else fail ps

    abbrev by_end : Kind → Bytes → ParseState → Option ℕ → Token × ParseState
    by_end kind body ps found = elim found [
      | none ↦ fail ps
      | some n ↦
          next_kind pragma_ok kind (take n body)
            (behind_token kind strip (drop (n + length ps.current_delimiters.end_marker) body)) ps
    ]

    abbrev by_kind : ℕ → Bytes → ParseState → Kind → Token × ParseState
    by_kind c s ps kind =
        by_end kind (body_of kind c s) ps
          (token_end_of kind ps.current_delimiters.end_marker (body_of kind c s))

    next_named-name :
        (name behind : Bytes) (ps : ParseState)
        → is_valid_name name ≡ true
        → next_named variable name behind ps
          ≡ (variable_token (token_of name), record ps { phase = getting_text; rest = behind })
    unfolding next_named read_modifiers
    next_named-name name behind ps valid =
        ap (by_parts behind ps) (segments_name [] name (name_bytes name valid)) ∙ rw valid refl

    pub next_name-variable :
        (c : ℕ) (name s : Bytes)
        → is_valid_name (c ∷ name) ≡ true
        → next_name pragma_ok strip c
            (name ++ b'}' ∷ b'}' ∷ s)
            (reading getting_name (c ∷ name ++ b'}' ∷ b'}' ∷ s))
          ≡ (variable_token (token_of (c ∷ name)), reading getting_text s)
    unfolding next_name token_end_of next_kind
    next_name-variable c name s valid =
        let all = name_bytes (c ∷ name) valid in
        let behind = name ++ b'}' ∷ b'}' ∷ s in
        let ps = reading getting_name (c ∷ behind) in
        ap (by_kind c behind ps) (name_byte_kind c all.0)
        ∙ ap (by_end variable (c ∷ behind) ps)
            (find_marker b'}' (c ∷ name) s (no_end_marker (c ∷ name) all))
        ∙ ap (λ t. next_named variable t (drop (length (c ∷ name) + 2) (c ∷ behind)) ps)
            (take_front (c ∷ name) (b'}' ∷ b'}' ∷ s))
        ∙ ap (λ r. next_named variable (c ∷ name) r ps) (drop_marker b'}' (c ∷ name) s)
        ∙ next_named-name (c ∷ name) s ps valid

-- ===== src/Htmlparser/JsParser/Keywords.antt =====
-- When a regular expression can follow: a specification on the characters in front of a slash, and
-- the tables of src/htmlparser/jsparser.cc against it.
use ctemplate.Common.{
  ℕ, zero, suc, ◌≡◌, refl, sym, Bool, true, false, not, none, some, arith, Bytes, [], ◌∷◌, ◌==◌,
  if◌then◌else◌, codes, equal, one_of, ltb, length, List, ◌++◌, ◌||◌, ◌&&◌,
}
use ctemplate.Htmlparser.JsBuffer.{at}
use ctemplate.Htmlparser.JsBuffer.Words.{word_length, backwards, behind_space, last_word}
use ctemplate.Htmlparser.JsParser.{
  is_regexp_punctuator, is_listed, is_regexp_token_prefix, regexp_token_prefix,
}

-- The specification. The punctuators behind which an expression starts, as the characters of one
-- text; it has the closing brace, behind which a statement can start, and not the other closing
-- ones.
abbrev pub opening_punctuators : Bytes
opening_punctuators = codes "([{}<>=!~&|^%*/?:,;"

-- The words behind which an expression can start, as one text with spaces.
abbrev pub keyword_text : Bytes
keyword_text =
    codes "abstract break case catch class const continue debugger default delete "
    ++ (codes "do else enum eval export extends field final finally for function goto "
        ++ (codes "if implements import in instanceof native new package private "
            ++ (codes "protected public return static switch synchronized throw throws "
                ++ (codes "transient try typeof var void volatile while with"))))

-- The words of a text; `word` is what was read of the first.
abbrev pub words : Bytes → Bytes → List Bytes
words word [] = word ∷ []
words word (c ∷ s) =
    let next = words [] s in
    let longer = words (word ++ c ∷ []) s in if c == 32 then word ∷ next else longer

abbrev pub is_word_of : Bytes → List Bytes → Bool
is_word_of word [] = false
is_word_of word (w ∷ others) = equal word w || is_word_of word others

abbrev pub is_keyword : Bytes → Bool
is_keyword word = is_word_of word (words [] keyword_text)

-- On the characters in front of a slash, the last one first and one white space passed over: a
-- regular expression can follow a single `+` or `-`, an opening punctuator, nothing, or a keyword.
abbrev pub regexp_may_follow : Bytes → Bool
regexp_may_follow s =
    let front = behind_space s in
    if at front 0 == b'+'
    then not (at front 1 == b'+')
    else if at front 0 == b'-'
    then not (at front 1 == b'-')
    else if one_of (at front 0) opening_punctuators || at front 0 == 0
    then true
    else elim (last_word s) [ none ↦ false | some token ↦ is_keyword token ]

pub is_regexp_punctuator_lem :
    (c : ℕ) → is_regexp_punctuator c ≡ (one_of c opening_punctuators || c == 0)
is_regexp_punctuator_lem c = ground arith

is_listed_lem : (token : Bytes) (ws : List Bytes) → is_listed token ws ≡ is_word_of token ws
unfolding is_listed
is_listed_lem token [] = refl
is_listed_lem token (w ∷ ws) = rw (is_listed_lem token ws) refl

is_regexp_token_prefix_lem : (token : Bytes) → is_regexp_token_prefix token ≡ is_keyword token
unfolding is_regexp_token_prefix
is_regexp_token_prefix_lem token = is_listed_lem token regexp_token_prefix

-- No keyword has one character, so that it does not matter that such words are not found.
are_long : List Bytes → Bool
are_long [] = true
are_long (w ∷ ws) = ltb 1 (length w) && are_long ws

short_word : (c : ℕ) (ws : List Bytes) → are_long ws ≡ true → is_word_of (c ∷ []) ws ≡ false
unfolding are_long equal
short_word c [] h = refl
short_word c ([] ∷ ws) h = absurd cc
short_word c ((d ∷ []) ∷ ws) h = absurd cc
short_word c ((d ∷ e ∷ w) ∷ ws) h = ground (arith, short_word c ws (ground (arith, h)))

keyword_of_length :
    (s : Bytes) (n : ℕ)
    → (elim (if n == 1 then none else if n == 0 then none else some (backwards s n)) [
      | none ↦ false
      | some token ↦ is_regexp_token_prefix token
    ])
      ≡ (elim (if n == 0 then none else some (backwards s n)) [
        | none ↦ false
        | some token ↦ is_keyword token
      ])
unfolding are_long
keyword_of_length s zero = refl
keyword_of_length s (suc zero) = sym (short_word (at s 0) (words [] keyword_text) refl)
keyword_of_length s (suc (suc n)) =
    let many : (suc (suc n) == 1) ≡ false = ground arith in
    let more : (suc (suc n) == 0) ≡ false = ground arith in
    rw (many, more) (is_regexp_token_prefix_lem (backwards s (suc (suc n))))

pub keyword_behind :
    (s : Bytes)
    → (elim (if word_length (behind_space s) == 1 then none else last_word s) [
      | none ↦ false
      | some token ↦ is_regexp_token_prefix token
    ])
      ≡ (elim (last_word s) [ none ↦ false | some token ↦ is_keyword token ])
keyword_behind s = keyword_of_length (behind_space s) (word_length (behind_space s))

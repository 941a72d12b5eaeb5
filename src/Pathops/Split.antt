-- ===== src/Pathops/Split.antt =====
-- ContainsFullWord against the ways to split a text around a word.
use ctemplate.Common.{
  one_of, ℕ, zero, suc, ◌+◌, ◌-◌, ◌≤◌, [], ◌∷◌, ◌++◌, ◌≡◌, ◌⊎◌, refl, sym, ap, ◌∙◌, subst, true,
  false, arith, Bytes, leb, ◌==◌, length, length-drop, length-append, take, drop, take-append-drop,
  Bool-cases, inl, inr, All, codes,
}
use ctemplate.Pathops.{
  is_delimiter, occurs, byte_at, pre_delimited, post_delimited, contains_full_word,
}
use ctemplate.Pathops.Search.{IsWord, byte_at-drop, drop-drop}
use ctemplate.Pathops.FullWord.{IsFullWordAt, full_word_fits, contains_full_word-IsFullWordAt}

-- The delimiters of the header's comment, and the NUL, which the comment does not list.
abbrev pub delimiters : Bytes
delimiters = codes ".,_-#*?:" ++ 0 ∷ []

abbrev pub LacksDelimiters : Bytes → Type 0
LacksDelimiters = All (λ c. one_of c delimiters ≡ false)

-- A text that is empty or starts with a delimiter, and one that is empty or ends with one.
abbrev pub StartsDelimited : Bytes → Type 0
StartsDelimited [] = Unit {0}
StartsDelimited (c ∷ s) = one_of c delimiters ≡ true

abbrev pub EndsDelimited : Bytes → Type 0
EndsDelimited [] = Unit {0}
EndsDelimited (c ∷ []) = one_of c delimiters ≡ true
EndsDelimited (c ∷ d ∷ s) = EndsDelimited (d ∷ s)

-- What the text has in front of the word and behind it.
abbrev pub HasFullWord : Bytes → Bytes → Type 0
HasFullWord text word =
    (front : Bytes) × ((behind : Bytes) × ((text ≡ front ++ (word ++ behind))
        × (EndsDelimited front × StartsDelimited behind)))

is_delimiter_lem : (c : ℕ) → is_delimiter c ≡ one_of c delimiters
is_delimiter_lem c = ground arith

IsWord_lem : (word : Bytes) → LacksDelimiters word → IsWord word
IsWord_lem [] h = tt
IsWord_lem (c ∷ word) h = (is_delimiter_lem c ∙ h.0, IsWord_lem word h.1)

occurs-split : (s word : Bytes) → occurs s word ≡ true → s ≡ word ++ drop (length word) s
unfolding occurs
occurs-split s [] e = refl
occurs-split [] (d ∷ word) e = absurd cc
occurs-split (c ∷ s) (d ∷ word) e =
    let same : c ≡ d = ground (arith, e) in
    rw same (ap (◌∷◌ d) (occurs-split s word (ground (arith, e))))

occurs-front : (word behind : Bytes) → occurs (word ++ behind) word ≡ true
unfolding occurs
occurs-front [] behind = refl
occurs-front (c ∷ word) behind = ground (arith, occurs-front word behind)

drop-front : (front s : Bytes) → drop (length front) (front ++ s) ≡ s
drop-front [] s = refl
drop-front (c ∷ front) s = drop-front front s

ends_at :
    (c : ℕ) (s : Bytes) (p : ℕ)
    → p ≤ length s
    → is_delimiter (byte_at (c ∷ s) p) ≡ true
    → EndsDelimited (c ∷ take p s)
unfolding byte_at
ends_at c s zero h e = sym (is_delimiter_lem c) ∙ e
ends_at c [] (suc p) h e = absurd (omega (arith, h))
ends_at c (d ∷ s) (suc p) h e = ends_at d s p (omega (arith, h)) e

pre_suc : (text : Bytes) (p : ℕ) → pre_delimited text (suc p) ≡ is_delimiter (byte_at text p)
unfolding pre_delimited
pre_suc text p =
    let late : (suc p == 0) ≡ false = ground arith in
    let before : byte_at text (suc p - 1) ≡ byte_at text p = ap (byte_at text) (omega arith) in
    rw (late, before) refl

pre-EndsDelimited :
    (text : Bytes) (p : ℕ)
    → p ≤ length text
    → pre_delimited text p ≡ true
    → EndsDelimited (take p text)
unfolding pre_delimited
pre-EndsDelimited text zero h e = tt
pre-EndsDelimited [] (suc p) h e = absurd (omega (arith, h))
pre-EndsDelimited (c ∷ s) (suc p) h e =
    ends_at c s p (omega (arith, h)) (sym (pre_suc (c ∷ s) p) ∙ e)

last_at :
    (c : ℕ) (s rest : Bytes)
    → EndsDelimited (c ∷ s)
    → is_delimiter (byte_at (c ∷ (s ++ rest)) (length s)) ≡ true
unfolding byte_at
last_at c [] rest e = is_delimiter_lem c ∙ e
last_at c (d ∷ s) rest e = last_at d s rest e

EndsDelimited-pre :
    (front rest : Bytes) → EndsDelimited front → pre_delimited (front ++ rest) (length front) ≡ true
unfolding pre_delimited
EndsDelimited-pre [] rest e = refl
EndsDelimited-pre (c ∷ s) rest e = pre_suc (c ∷ (s ++ rest)) (length s) ∙ last_at c s rest e

starts_at : (s : Bytes) → is_delimiter (byte_at s 0) ≡ true → StartsDelimited s
unfolding byte_at
starts_at [] e = tt
starts_at (c ∷ s) e = sym (is_delimiter_lem c) ∙ e

nothing-StartsDelimited : (s : Bytes) → length s ≡ 0 → StartsDelimited s
nothing-StartsDelimited [] e = tt
nothing-StartsDelimited (c ∷ s) e = absurd (omega (arith, e))

post-StartsDelimited :
    (text word : Bytes) (p : ℕ)
    → p + length word ≤ length text
    → post_delimited text word p ≡ true
    → StartsDelimited (drop (p + length word) text)
unfolding post_delimited
post-StartsDelimited text word p h e = elim (Bool-cases (leb (length text - length word) p)) [
  | inl end ↦
      nothing-StartsDelimited (drop (p + length word) text)
        (ground (arith, end, h, length-drop (p + length word) text))
  | inr inside ↦
      let there : byte_at (drop (p + length word) text) 0 ≡ byte_at text (p + length word) =
        byte_at-drop (p + length word) text 0 ∙ ap (byte_at text) (omega arith) in
      starts_at (drop (p + length word) text) (ap is_delimiter there ∙ rw inside at e)
]

byte_at-behind : (word : Bytes) (c : ℕ) (s : Bytes) → byte_at (word ++ c ∷ s) (length word) ≡ c
unfolding byte_at
byte_at-behind [] c s = refl
byte_at-behind (d ∷ word) c s = byte_at-behind word c s

StartsDelimited-post :
    (front word behind : Bytes)
    → StartsDelimited behind
    → post_delimited (front ++ (word ++ behind)) word (length front) ≡ true
unfolding post_delimited
StartsDelimited-post front word [] e =
    ground (arith, length-append front (word ++ []), length-append word [])
StartsDelimited-post front word (c ∷ s) e =
    let text = front ++ (word ++ c ∷ s) in
    let there : byte_at text (length front + length word) ≡ c =
      sym (byte_at-drop (length front) text (length word))
      ∙ ap (λ t. byte_at t (length word)) (drop-front front (word ++ c ∷ s))
      ∙ byte_at-behind word c s in
    elim (Bool-cases (leb (length text - length word) (length front))) [
      | inl end ↦ rw end refl
      | inr inside ↦ rw (inside, there) (is_delimiter_lem c ∙ e)
    ]

IsFullWordAt-HasFullWord :
    (text word : Bytes) (p : ℕ) → 1 ≤ length word → IsFullWordAt text word p → HasFullWord text word
IsFullWordAt-HasFullWord text word p h f =
    let fits = full_word_fits text word p h f in
    (
      take p text,
      (
        drop (p + length word) text,
        (
          sym (take-append-drop p text)
              ∙ ap (λ t. take p text ++ t)
                  (occurs-split (drop p text) word f.0
                    ∙ ap (λ t. word ++ t) (drop-drop p (length word) text)),
          (
            pre-EndsDelimited text p (omega (arith, fits)) f.1,
            post-StartsDelimited text word p fits f.2,
          ),
        ),
      ),
    )

HasFullWord-IsFullWordAt :
    (text word : Bytes) → HasFullWord text word → (p : ℕ) × IsFullWordAt text word p
HasFullWord-IsFullWordAt text word (front, (behind, (e, (ends, starts)))) = (
  length front,
  subst (λ t. IsFullWordAt t word (length front)) (sym e)
      (
        ap (λ t. occurs t word) (drop-front front (word ++ behind)) ∙ occurs-front word behind,
        EndsDelimited-pre front (word ++ behind) ends,
        StartsDelimited-post front word behind starts,
      ),
)

-- ContainsFullWord of a word that is not empty and holds none of `.,_-#*?:` and no NUL: it returns
-- true, and the text is the word with a text in front of it that is empty or ends with one of these
-- bytes and a text behind it that is empty or starts with one, or it returns false, and the text is
-- not of this form.
pub contains_full_word-HasFullWord :
    (text word : Bytes)
    → LacksDelimiters word
    → 1 ≤ length word
    → ((contains_full_word text word ≡ true) × HasFullWord text word)
      ⊎ ((contains_full_word text word ≡ false) × ¬ HasFullWord text word)
contains_full_word-HasFullWord text word w h =
    elim (contains_full_word-IsFullWordAt text word (IsWord_lem word w) h) [
      | inl (found, (p, f)) ↦ inl (found, IsFullWordAt-HasFullWord text word p h f)
      | inr (lost, nowhere) ↦
          inr
            (lost, λ there. (let (p, f) = HasFullWord-IsFullWordAt text word there in nowhere p f))
    ]

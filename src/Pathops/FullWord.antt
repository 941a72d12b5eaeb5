-- ===== src/Pathops/FullWord.antt =====
-- ContainsFullWord against the places of a word in a text.
use ctemplate.Common.{
  ℕ, zero, suc, ◌+◌, ◌-◌, ◌<◌, ◌≤◌, ◌≡◌, ◌⊎◌, refl, sym, ap, ◌∙◌, true, false, ◌&&◌, ◌||◌, arith,
  Bytes, ltb, ◌==◌, length, length-drop, drop, Bool-cases, Option-cases, inl, inr,
}
use ctemplate.Pathops.{
  is_delimiter, occurs, find, byte_at, pre_delimited, post_delimited, word_loop, contains_full_word,
}
use ctemplate.Pathops.Search.{
  IsWord, find-Found, occurs-inside, drop-drop, byte_at-drop, occurs-length,
}

-- The word stands at a place of the text, between delimiters.
abbrev pub IsFullWordAt : Bytes → Bytes → ℕ → Type 0
IsFullWordAt text word p =
    (occurs (drop p text) word ≡ true)
    × (pre_delimited text p ≡ true)
    × (post_delimited text word p ≡ true)

-- A full word does not start inside an occurrence, nor right behind it.
no_full_word_inside :
    (text word : Bytes) (pos p : ℕ)
    → IsWord word
    → occurs (drop pos text) word ≡ true
    → pos < p
    → p ≤ pos + length word
    → pre_delimited text p ≡ false
unfolding pre_delimited
no_full_word_inside text word pos p w e h k =
    let inside : is_delimiter (byte_at text (p - 1)) ≡ false =
      ap (λ i. is_delimiter (byte_at text i)) {y = pos + (p - 1 - pos)} (omega arith)
      ∙ ap is_delimiter (sym (byte_at-drop pos text (p - 1 - pos)))
      ∙ occurs-inside (drop pos text) word (p - 1 - pos) e w (omega arith) in
    let late : (p == 0) ≡ false = ground arith in rw (late, inside) refl

-- What the loop answers with true is a full word.
word_loop-finds :
    (fuel : ℕ) (text word : Bytes) (next : ℕ)
    → word_loop fuel text word next ≡ true
    → (p : ℕ) × IsFullWordAt text word p
unfolding word_loop
word_loop-finds zero text word next e = absurd cc
word_loop-finds (suc fuel) text word next e = elim (Bool-cases (ltb next (length text))) [
  | inr out ↦ absurd (let no : false ≡ true = rw out at e in cc)
  | inl more ↦ elim (Option-cases (find (drop next text) word)) [
    | inl none_left ↦ absurd (let no : false ≡ true = rw (more, none_left) at e in cc)
    | inr (n, found) ↦
        let pos = next + n in
        let here = rw found at (find-Found (drop next text) word) in
        elim (Bool-cases (pre_delimited text pos && post_delimited text word pos)) [
          | inl both ↦ (
            pos,
            (
              ap (λ s. occurs s word) (sym (drop-drop next n text)) ∙ here.0,
              ground arith,
              ground arith,
            ),
          )
          | inr other ↦
              word_loop-finds fuel text word (pos + length word + 1) (rw (more, found, other) at e)
        ]
  ]
]

-- A full word that does not stand at an occurrence stands behind it.
full_word_behind :
    (text word : Bytes) (pos p : ℕ)
    → IsWord word
    → occurs (drop pos text) word ≡ true
    → IsFullWordAt text word p
    → (pre_delimited text pos && post_delimited text word pos) ≡ false
    → pos ≤ p
    → pos + length word + 1 ≤ p
full_word_behind text word pos p w e f other h = elim (Bool-cases (ltb (pos + length word) p)) [
  | inl far ↦ ground arith
  | inr near ↦ elim (Bool-cases (p == pos)) [
    | inl same ↦ absurd (
        let equal : p ≡ pos = ground arith in
        let pre : pre_delimited text pos ≡ true = rw equal at f.1 in
        let post : post_delimited text word pos ≡ true = rw equal at f.2 in
        let no : true ≡ false = rw (pre, post) at other in cc)
    | inr apart ↦ absurd (
        let pre = no_full_word_inside text word pos p w e (ground arith) (ground arith) in
        let no : false ≡ true = sym pre ∙ f.1 in cc)
  ]
]

word_loop_complete :
    (fuel : ℕ) (text word : Bytes) (next p : ℕ)
    → IsWord word
    → IsFullWordAt text word p
    → next ≤ p
    → p < length text
    → length text ≤ next + fuel
    → word_loop fuel text word next ≡ true
unfolding word_loop
word_loop_complete zero text word next p w f h k l = absurd (omega arith)
word_loop_complete (suc fuel) text word next p w f h k l =
    let more : ltb next (length text) ≡ true = ground arith in
    let there : occurs (drop (p - next) (drop next text)) word ≡ true =
      ap (λ s. occurs s word)
        (drop-drop next (p - next) text ∙ ap (λ m. drop m text) {y = p} (omega arith))
      ∙ f.0 in
    elim (Option-cases (find (drop next text) word)) [
      | inl none_left ↦
          let nothing = rw none_left at (find-Found (drop next text) word) in
          absurd (
            let no : false ≡ true =
              sym (nothing (p - next) (omega (arith, length-drop next text))) ∙ there in
            cc)
      | inr (n, found) ↦
          let pos = next + n in
          let first = rw found at (find-Found (drop next text) word) in
          let not_later : ¬ (p < pos) = λ early.
            (let no : false ≡ true = sym (first.2 (p - next) (omega (arith, early))) ∙ there in
              cc) in
          rw (more, found)
            (elim (Bool-cases (pre_delimited text pos && post_delimited text word pos)) [
              | inl both ↦ rw both refl
              | inr other ↦ rw other (
                  word_loop_complete fuel text word (pos + length word + 1) p w f
                    (full_word_behind text word pos p w
                      (ap (λ s. occurs s word) (sym (drop-drop next n text)) ∙ first.0) f other
                      (omega (arith, not_later)))
                    k (omega arith))
            ])
    ]

-- A word that is not empty fits into the text behind its place.
pub full_word_fits :
    (text word : Bytes) (p : ℕ)
    → 1 ≤ length word
    → IsFullWordAt text word p
    → p + length word ≤ length text
full_word_fits text word p h f =
    omega (arith, occurs-length (drop p text) word f.0, length-drop p text)

-- ContainsFullWord answers whether its two tests hold at some occurrence of the word.
pub contains_full_word-IsFullWordAt :
    (text word : Bytes)
    → IsWord word
    → 1 ≤ length word
    → ((contains_full_word text word ≡ true) × ((p : ℕ) × IsFullWordAt text word p))
      ⊎ ((contains_full_word text word ≡ false) × ((p : ℕ) → ¬ IsFullWordAt text word p))
unfolding contains_full_word
contains_full_word-IsFullWordAt text word w h =
    elim (Bool-cases (length text == 0 || length word == 0 || ltb (length text) (length word))) [
      | inl empty ↦
          rw empty (inr (refl, λ p f. ground (arith, empty, full_word_fits text word p h f)))
      | inr full ↦ elim (Bool-cases (word_loop (length text) text word 0)) [
        | inl got ↦ rw (full, got) (inl (refl, word_loop-finds (length text) text word 0 got))
        | inr lost ↦
            rw (full, lost)
              (inr (
                refl,
                λ p f.
                    (let fits = full_word_fits text word p h f in
                      let found : true ≡ false =
                        sym (
                          word_loop_complete (length text) text word 0 p w f (omega arith)
                            (omega (arith, fits)) (omega arith))
                        ∙ lost in
                      cc),
              ))
      ]
    ]

-- ===== src/Pathops/Search.antt =====
-- The search for a word: text.find and the places of a text.
use ctemplate.Common.{
  ℕ, zero, suc, ◌+◌, ◌<◌, ◌≤◌, [], ◌∷◌, ◌≡◌, refl, sym, ap, ◌∙◌, true, false, Option, none, some,
  arith, Bytes, length, drop, Bool-cases, inl, inr, All,
}
use ctemplate.Pathops.{is_delimiter, occurs, find, byte_at}

-- The word holds no delimiter.
abbrev pub IsWord : Bytes → Type 0
IsWord word = All (λ c. is_delimiter c ≡ false) word

-- What a search gives: the first occurrence, or that there is none.
abbrev pub Found : Bytes → Bytes → Option ℕ → Type 0
Found s word none = (p : ℕ) → p ≤ length s → occurs (drop p s) word ≡ false
Found s word (some n) =
    (occurs (drop n s) word ≡ true)
    × (n ≤ length s)
    × ((p : ℕ) → p < n → occurs (drop p s) word ≡ false)

abbrev later : Option ℕ → Option ℕ
later r = elim r [ none ↦ none | some n ↦ some (suc n) ]

Found-later_none :
    (c : ℕ) (s word : Bytes)
    → occurs (c ∷ s) word ≡ false
    → Found s word none
    → (p : ℕ) → p ≤ suc (length s)
    → occurs (drop p (c ∷ s)) word ≡ false
Found-later_none c s word e f zero h = e
Found-later_none c s word e f (suc p) h = f p (omega arith)

Found-later_first :
    (c : ℕ) (s word : Bytes) (n : ℕ)
    → occurs (c ∷ s) word ≡ false
    → Found s word (some n)
    → (p : ℕ) → p < suc n
    → occurs (drop p (c ∷ s)) word ≡ false
Found-later_first c s word n e f zero h = e
Found-later_first c s word n e f (suc p) h = f.2 p (omega arith)

Found-later :
    (c : ℕ) (s word : Bytes) (r : Option ℕ)
    → occurs (c ∷ s) word ≡ false
    → Found s word r
    → Found (c ∷ s) word (later r)
Found-later c s word none e f = Found-later_none c s word e f
Found-later c s word (some n) e f = (f.0, omega (arith, f.1), Found-later_first c s word n e f)

empty_text : (word : Bytes) → occurs [] word ≡ false → Found [] word none
empty_text word e zero h = e
empty_text word e (suc p) h = absurd (omega arith)

occurs_at_start : (s word : Bytes) → occurs s word ≡ true → Found s word (some 0)
occurs_at_start s word e = (e, omega arith, λ p h. absurd (omega (arith, h)))

pub find-Found : (s word : Bytes) → Found s word (find s word)
unfolding find
find-Found [] word = elim (Bool-cases (occurs [] word)) [
  | inl e ↦ rw (e, find) (occurs_at_start [] word e)
  | inr e ↦ rw (e, find) (empty_text word e)
]
find-Found (c ∷ s) word = elim (Bool-cases (occurs (c ∷ s) word)) [
  | inl e ↦ rw (e, find) (occurs_at_start (c ∷ s) word e)
  | inr e ↦ rw (e, find) (Found-later c s word (find s word) e (find-Found s word))
]

-- Inside an occurrence stands no delimiter.
pub occurs-inside :
    (s word : Bytes) (i : ℕ)
    → occurs s word ≡ true
    → IsWord word
    → i < length word
    → is_delimiter (byte_at s i) ≡ false
unfolding occurs byte_at
occurs-inside s [] i e w h = absurd (omega arith)
occurs-inside [] (d ∷ word) i e w h = absurd cc
occurs-inside (c ∷ s) (d ∷ word) zero e w h = let same : c ≡ d = ground arith in rw same w.0
occurs-inside (c ∷ s) (d ∷ word) (suc i) e w h =
    occurs-inside s word i (ground arith) w.1 (omega arith)

drop_empty : (n : ℕ) → drop {A = ℕ} n [] ≡ []
drop_empty zero = refl
drop_empty (suc n) = refl

pub drop-drop : (k n : ℕ) (s : Bytes) → drop n (drop k s) ≡ drop (k + n) s
drop-drop zero n s = ap (λ m. drop m s) {y = 0 + n} (omega arith)
drop-drop (suc k) n [] = drop_empty n ∙ sym (drop_empty (suc k + n))
drop-drop (suc k) n (c ∷ s) =
    drop-drop k n s ∙ ap (λ m. drop m (c ∷ s)) {x = suc (k + n)} (omega arith)

pub byte_at-drop : (k : ℕ) (s : Bytes) (i : ℕ) → byte_at (drop k s) i ≡ byte_at s (k + i)
unfolding byte_at
byte_at-drop zero s i = ap (byte_at s) {y = 0 + i} (omega arith)
byte_at-drop (suc k) [] i = refl
byte_at-drop (suc k) (c ∷ s) i =
    byte_at-drop k s i ∙ ap (byte_at (c ∷ s)) {x = suc (k + i)} (omega arith)

pub occurs-length : (s word : Bytes) → occurs s word ≡ true → length word ≤ length s
unfolding occurs
occurs-length s [] e = omega arith
occurs-length [] (d ∷ word) e = absurd cc
occurs-length (c ∷ s) (d ∷ word) e = ground (arith, occurs-length s word (ground arith))

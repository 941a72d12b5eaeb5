-- ===== src/Template/Dictionaries/Expansion.antt =====
-- ExpandLocked with the dictionaries of a heap, on fuel for as many includes as there are
-- dictionaries.
use ctemplate.Common.{
  ℕ, ◌<◌, ◌≤◌, [], ◌∷◌, Bool, true, false, ◌&&◌, Option, some, Bytes, ◌≡◌, refl, ◌⊎◌, inl, inr,
  arith,
}
use ctemplate.Dictionary.{Heap}
use ctemplate.Dictionary.Valid.{IsValid}
use ctemplate.Template.Nodes.{Strip, PerExpandData, Template}
use ctemplate.Template.Expand.{c_string}
use ctemplate.Template.ExpandLocked.{expand_locked}
use ctemplate.Template.Dictionaries.{dictionary_interface}
use ctemplate.Template.Dictionaries.Roots.{HasPlainGlobals, IsRoot-of}
use ctemplate.Template.Dictionaries.Ends.{name_of, IsParsed, Near, file_ends}

-- A name that is empty, or that the cache has a parsed template for.
abbrev pub Loaded : (Bytes → Strip → Option Template) → Bytes → Type 0
Loaded get_template [] = Unit {0}
Loaded get_template (c ∷ name) = (strip : Strip) → IsParsed (get_template (c ∷ name) strip)

module _ (h : Heap) (valid : IsValid h) (plain : HasPlainGlobals h)
    (per_expand_data : PerExpandData) (get_template : Bytes → Strip → Option Template)
    (filename : Bytes) (strip : Strip) (d fuel : ℕ) (made : d < h.next)
    (enough : h.next ≤ fuel) where
  Near-all : Near h valid fuel d
  Near-all = let (r, root) = IsRoot-of h valid d made in (r, ((made, root), omega (arith, enough)))

  -- In a valid heap whose template globals have no sections, the expansion of any file with any
  -- dictionary that is made ends with an output, whatever the cache has, on any fuel that is no
  -- less than the number of dictionaries: includes are not nested deeper, and no dictionary aborts.
  pub expand_locked-ends :
      (out : Bytes) × ((error_free : Bool) × (expand_locked
            (dictionary_interface h)
            per_expand_data
            get_template
            fuel
            filename
            strip
            d
          ≡ some (out, error_free)))
  expand_locked-ends =
      let (out, (error_free, (e, u))) =
        file_ends (λ b. Unit {0}) tt (λ a b r s. tt) h valid plain (λ s. Unit {0}) (λ c m. tt)
          per_expand_data get_template (λ c name s n. inr tt) fuel filename strip d (inr tt)
          Near-all in
      (out, (error_free, e))

  both_true : (a b : Bool) → a ≡ true → b ≡ true → (a && b) ≡ true
  both_true true b e f = f
  both_true false b e f = e

  names-IsParsed :
      (c : ℕ) (name : Bytes) (s : Strip)
      → Loaded get_template (c ∷ name)
      → IsParsed (get_template (c ∷ name) s) ⊎ (false ≡ true)
  names-IsParsed c name s loaded = inl (loaded s)

  -- Where the file and every file name of a dictionary that is not empty have templates that are
  -- parsed, such an expansion is free of errors.
  pub expand_locked-error_free :
      IsParsed (get_template filename strip)
      → ((c : ℕ) → c < h.next → Loaded get_template (c_string (name_of (h.dict c).filename)))
      → (out : Bytes) × (expand_locked
            (dictionary_interface h)
            per_expand_data
            get_template
            fuel
            filename
            strip
            d
          ≡ some (out, true))
  expand_locked-error_free parsed loaded =
      let (out, (error_free, (e, u))) =
        file_ends (λ b. b ≡ true) refl both_true h valid plain (Loaded get_template) loaded
          per_expand_data get_template names-IsParsed fuel filename strip d (inl parsed) Near-all in
      (out, rw u at e)

-- ===== src/Template/Dictionaries/Roots.antt =====
-- The dictionary that a chain of parents ends with, and the includes that a chain finds.
use ctemplate.Common.{
  ℕ, zero, suc, ◌<◌, ◌≤◌, List, [], ◌∷◌, ◌≢◌, Option, none, some, ◌≡◌, sym, ap, subst, ◌∙◌, inl,
  inr, Option-cases, All, arith,
}
use ctemplate.Dictionary.{TemplateString, find_in, Heap, template_globals}
use ctemplate.Dictionary.Lookup.{
  search_up, sections_of, includes_of, create_section_iterator, create_template_iterator,
}
use ctemplate.Dictionary.Lookup.Chain.{parent_below, search-within}
use ctemplate.Dictionary.Lookup.Contract.{sections_children_of, includes_children_of}
use ctemplate.Dictionary.Valid.{IsChild, IsValid, owner_of}

pub data IsRoot (h : Heap) : ℕ → ℕ → Type 0 where
  no_parent : (d : ℕ) → (h.dict d).parent_dict ≡ none → IsRoot h d d
  by_parent : (d p r : ℕ) → (h.dict d).parent_dict ≡ some p → IsRoot h p r → IsRoot h d r

-- A template-global dictionary has no sections.
abbrev pub HasPlainGlobals : Heap → Type 0
HasPlainGlobals h =
    (d g : ℕ) → d < h.next → template_globals h d ≡ some g → (h.dict g).section_dict ≡ none

some_parent : (h : Heap) (d p r : ℕ) → (h.dict d).parent_dict ≡ some p → IsRoot h d r → IsRoot h p r
some_parent h d p r e (no_parent _ f) = absurd (let never : none ≡ some p = sym f ∙ e in cc)
some_parent h d p r e (by_parent _ q _ f rest) =
    let same : some q ≡ some p = sym f ∙ e in
    let equal_parents : q ≡ p = cc in subst (λ b. IsRoot h b r) equal_parents rest

module _ (h : Heap) (valid : IsValid h) where
  pub root_bound : (d r : ℕ) → d < h.next → IsRoot h d r → r ≤ d
  root_bound d r made (no_parent _ e) = omega arith
  root_bound d r made (by_parent _ p _ e rest) =
      let below = parent_below h valid d p made e in
      omega (arith, below, root_bound p r (omega (arith, made, below)) rest)

  IsRoot-found : (fuel d : ℕ) → d < fuel → d < h.next → (r : ℕ) × IsRoot h d r
  IsRoot-found zero d a made = absurd (omega arith)
  IsRoot-found (suc fuel) d a made = elim (Option-cases (h.dict d).parent_dict) [
    | inl e ↦ (d, no_parent d e)
    | inr (p, e) ↦
        let below = parent_below h valid d p made e in
        let (r, root) =
          IsRoot-found fuel p (omega (arith, a, below)) (omega (arith, made, below)) in
        (r, by_parent d p r e root)
  ]

  pub IsRoot-of : (d : ℕ) → d < h.next → (r : ℕ) × IsRoot h d r
  IsRoot-of d made = IsRoot-found (suc d) d (omega arith) made

  -- A dictionary that is made, with its root.
  abbrev pub Rooted : ℕ → ℕ → Type 0
  Rooted r d = (d < h.next) × IsRoot h d r

  Rooted-parent : (r d p : ℕ) → Rooted r d → (h.dict d).parent_dict ≡ some p → Rooted r p
  Rooted-parent r d p (made, root) e = (
    (let below = parent_below h valid d p made e in omega (arith, made, below)),
    some_parent h d p r e root,
  )

  children-Rooted :
      (r d : ℕ) (dicts : List ℕ)
      → IsRoot h d r
      → All (IsChild h d (owner_of h d) (some d)) dicts
      → All (Rooted r) dicts
  children-Rooted r d [] root all = tt
  children-Rooted r d (c ∷ dicts) root ((later, made, o, p), all) =
      ((made, by_parent c d r p root), children-Rooted r d dicts root all)

  -- What an include goes over: dictionaries that are their own roots, made behind `r`.
  abbrev pub Included : ℕ → ℕ → Type 0
  Included r c = Rooted c c × (r < c)

  children-Included :
      (r d : ℕ) (dicts : List ℕ)
      → r ≤ d
      → All (IsChild h d (owner_of h d) none) dicts
      → All (Included r) dicts
  children-Included r d [] first all = tt
  children-Included r d (c ∷ dicts) first ((later, made, o, p), all) =
      (((made, no_parent c p), omega (arith, later, first)), children-Included r d dicts first all)

  abbrev ask : TemplateString → Option ℕ → Option (List ℕ)
  ask name o = elim o [ none ↦ none | some g ↦ sections_of name (h.dict g) ]

  pub sections-Rooted :
      HasPlainGlobals h
      → (name : TemplateString) (r d : ℕ) (dicts : List ℕ) → Rooted r d
      → create_section_iterator h d name ≡ some dicts
      → All (Rooted r) dicts
  unfolding create_section_iterator
  sections-Rooted plain name r d dicts inside e =
      elim (Option-cases (search_up (sections_of name) h d)) [
        | inr (found, f) ↦
            search-within h (sections_of name) (Rooted r) (Rooted-parent r) (All (Rooted r))
              (λ a there b g.
                children-Rooted r a b there.1 (sections_children_of h valid name a there.0 b g).1)
              h.next d dicts inside (f ∙ rw f at e)
        | inl f ↦ elim (Option-cases (template_globals h d)) [
          | inl g ↦ absurd (let never : none ≡ some dicts = sym (ap (ask name) g) ∙ rw f at e in cc)
          | inr (g, there) ↦ absurd (
              let never : none ≡ some dicts =
                sym (ap (λ m. find_in m name.id) (plain d g inside.0 there))
                ∙ sym (ap (ask name) there)
                ∙ rw f at e in
              cc)
        ]
      ]

  pub includes-Rooted :
      (name : TemplateString) (r d : ℕ) (dicts : List ℕ)
      → Rooted r d
      → create_template_iterator h d name ≡ some dicts
      → (dicts ≢ []) × All (Included r) dicts
  unfolding create_template_iterator
  includes-Rooted name r d dicts inside e =
      search-within h (includes_of name) (Rooted r) (Rooted-parent r)
        (λ b. (b ≢ []) × All (Included r) b)
        (λ a there b g.
          (let children = includes_children_of h valid name a there.0 b g in
            (children.0, children-Included r a b (root_bound a r there.0 there.1) children.1)))
        h.next d dicts inside e

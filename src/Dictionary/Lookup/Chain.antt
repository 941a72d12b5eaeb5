-- ===== src/Dictionary/Lookup/Chain.antt =====
-- The loop over the parents of a dictionary, without its fuel.
use ctemplate.Common.{
  ℕ, zero, suc, ◌<◌, ◌≡◌, refl, subst, ◌∙◌, Option, none, some, arith, inl, inr, Option-cases,
}
use ctemplate.Dictionary.{Dict, Heap}
use ctemplate.Dictionary.Lookup.{search, search_up}
use ctemplate.Dictionary.Valid.{IfSome, IsValid}

module _ (h : Heap) (valid : IsValid h) where
  pub parent_below : (d p : ℕ) → d < h.next → (h.dict d).parent_dict ≡ some p → p < d
  parent_below d p made e =
      (subst
        (IfSome (λ b.
          (b < d)
          × ((h.dict b).template_global_dict_owner ≡ (h.dict d).template_global_dict_owner)))
        e (valid.valid_at d made).parent_first).0

  module _ {B : Type 0} (probe : Dict → Option B) where
    pub search_enough :
        (fuel enough d : ℕ)
        → d < h.next
        → d < fuel
        → d < enough
        → search probe fuel h d ≡ search probe enough h d
    unfolding search
    search_enough zero enough d made a b = absurd (omega arith)
    search_enough (suc fuel) zero d made a b = absurd (omega arith)
    search_enough (suc fuel) (suc enough) d made a b = elim (Option-cases (probe (h.dict d))) [
      | inr (answer, e) ↦ rw (e, search) refl
      | inl e ↦ elim (Option-cases (h.dict d).parent_dict) [
        | inl f ↦ rw (e, f, search) refl
        | inr (p, f) ↦
            let below = parent_below d p made f in
            rw (e, f, search)
              (search_enough fuel enough p (omega (arith, made, below)) (omega (arith, a, below))
                (omega (arith, b, below)))
      ]
    ]

    -- In a valid heap the loop over the parents ends with the same answer on any fuel above the
    -- dictionary's number, so the number of dictionaries is enough.
    pub search_up_lem :
        (fuel d : ℕ) → d < h.next → d < fuel → search probe fuel h d ≡ search_up probe h d
    search_up_lem fuel d made a = search_enough fuel h.next d made a made

-- Heaps that agree on the dictionaries of one of them.
module _ (h k : Heap) (valid : IsValid h) {B : Type 0} (probe : Dict → Option B) where
  pub search-same :
      ((e : ℕ) → e < h.next → probe (k.dict e) ≡ probe (h.dict e))
      → ((e : ℕ) → e < h.next → (k.dict e).parent_dict ≡ (h.dict e).parent_dict)
      → (fuel d : ℕ) → d < h.next
      → search probe fuel k d ≡ search probe fuel h d
  unfolding search
  search-same same parent zero d made = refl
  search-same same parent (suc fuel) d made = elim (Option-cases (probe (h.dict d))) [
    | inr (answer, e) ↦ rw (same d made ∙ e, e, search) refl
    | inl e ↦ elim (Option-cases (h.dict d).parent_dict) [
      | inl f ↦ rw (same d made ∙ e, e, parent d made ∙ f, f, search) refl
      | inr (p, f) ↦
          let below = parent_below h valid d p made f in
          rw (same d made ∙ e, e, parent d made ∙ f, f, search)
            (search-same same parent fuel p (omega (arith, made, below)))
    ]
  ]

-- A property of all that a probe finds, at the dictionaries of a set that is closed under parents.
module _ (h : Heap) {B : Type 0} (probe : Dict → Option B) (S : ℕ → Type 0)
    (up : (d p : ℕ) → S d → (h.dict d).parent_dict ≡ some p → S p) (P : B → Type 0)
    (all : (d : ℕ) → S d → (b : B) → probe (h.dict d) ≡ some b → P b) where
  pub search-within : (fuel d : ℕ) (b : B) → S d → search probe fuel h d ≡ some b → P b
  unfolding search
  search-within zero d b inside e = absurd cc
  search-within (suc fuel) d b inside e = elim (Option-cases (probe (h.dict d))) [
    | inr (answer, f) ↦ all d inside b (f ∙ rw (f, search) at e)
    | inl f ↦ elim (Option-cases (h.dict d).parent_dict) [
      | inl g ↦ absurd (let none_found : none ≡ some b = rw (f, g, search) at e in cc)
      | inr (p, g) ↦ search-within fuel p b (up d p inside g) (rw (f, g, search) at e)
    ]
  ]

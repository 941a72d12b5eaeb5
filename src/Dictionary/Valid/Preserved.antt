-- ===== src/Dictionary/Valid/Preserved.antt =====
-- Writes, allocations and the shape of the heap.
use ctemplate.Common.{
  ℕ, ◌<◌, ◌≤◌, List, [], ◌∷◌, ◌≡◌, refl, ap, subst, ◌∙◌, Option, none, some, arith, false, ◌==◌,
  Bool-cases, inl, inr, All,
}
use ctemplate.Dictionary.{Map, find_ptr, hash_insert, Dict, Heap, write, allocate}
use ctemplate.Dictionary.Valid.{IfSome, AllValues, IsChild, AreChildren, IsValidDict, IsValid}

-- A heap holds the dictionaries of another, in the same trees, and maybe more.
pub record Grows (h k : Heap) : Type 0 where
  pub more : h.next ≤ k.next
  pub same_owner :
      (c : ℕ)
      → c < h.next
      → (k.dict c).template_global_dict_owner ≡ (h.dict c).template_global_dict_owner
  pub same_parent : (c : ℕ) → c < h.next → (k.dict c).parent_dict ≡ (h.dict c).parent_dict

module _ {V : Type 0} (P : V → Type 0) where
  pub hash_insert-AllValues :
      (m : Map V) (key : ℕ) (value : V)
      → AllValues P m
      → P value
      → AllValues P (hash_insert m key value)
  unfolding hash_insert
  hash_insert-AllValues [] key value h p = (p, tt)
  hash_insert-AllValues ((k, v) ∷ m) key value h p = elim (Bool-cases (k == key)) [
    | inl e ↦ rw e (p, h.1)
    | inr e ↦ rw e (h.0, hash_insert-AllValues m key value h.1 p)
  ]

  pub find_ptr-AllValues :
      (m : Map V) (key : ℕ) (value : V) → AllValues P m → find_ptr m key ≡ some value → P value
  unfolding find_ptr
  find_ptr-AllValues [] key value h e = absurd cc
  find_ptr-AllValues ((k, v) ∷ m) key value h e = elim (Bool-cases (k == key)) [
    | inl f ↦ subst P (let same : some v ≡ some value = rw f at e in cc) h.0
    | inr f ↦ find_ptr-AllValues m key value h.1 (rw f at e)
  ]

  pub AllValues-map :
      (Q : V → Type 0) (m : Map V) → ((v : V) → P v → Q v) → AllValues P m → AllValues Q m
  AllValues-map Q [] f h = tt
  AllValues-map Q ((k, v) ∷ m) f h = (f v h.0, AllValues-map Q m f h.1)

All-map : (P Q : ℕ → Type 0) (s : List ℕ) → ((c : ℕ) → P c → Q c) → All P s → All Q s
All-map P Q [] f h = tt
All-map P Q (c ∷ s) f h = (f c h.0, All-map P Q s f h.1)

pub IfSome-map :
    {B : Type 0} (P Q : B → Type 0) (o : Option B) → ((b : B) → P b → Q b) → IfSome P o → IfSome Q o
IfSome-map P Q none f h = tt
IfSome-map P Q (some b) f h = f b h

module _ (h k : Heap) (grows : Grows h k) where
  pub IsChild-Grows :
      (d owner : ℕ) (parent : Option ℕ) (c : ℕ)
      → IsChild h d owner parent c
      → IsChild k d owner parent c
  IsChild-Grows d owner parent c (later, made, o, p) =
      (later, omega (arith, grows.more), grows.same_owner c made ∙ o, grows.same_parent c made ∙ p)

  pub AreChildren-Grows :
      (d owner : ℕ) (parent : Option ℕ) (dicts : List ℕ)
      → AreChildren h d owner parent dicts
      → AreChildren k d owner parent dicts
  AreChildren-Grows d owner parent dicts (some_one, all) =
      (some_one, All-map (IsChild h d owner parent) _ dicts (IsChild-Grows d owner parent) all)

  pub IsValidDict-Grows : (d : ℕ) (n : Dict) → d < h.next → IsValidDict h d n → IsValidDict k d n
  IsValidDict-Grows d n made v = record {
    owner_first = v.owner_first;
    owner_owns =
        grows.same_owner n.template_global_dict_owner (omega (arith, v.owner_first)) ∙ v.owner_owns;
    parent_first =
        IfSome-map _ _ n.parent_dict
          (λ p (below, o). (below, grows.same_owner p (omega (arith, below)) ∙ o)) v.parent_first;
    globals_child =
        IfSome-map _ _ n.template_global_dict
          (λ g (o, child). (o, IsChild-Grows d d (some d) g child)) v.globals_child;
    sections_children =
        IfSome-map _ _ n.section_dict
          (λ m. AllValues-map _ _ m (AreChildren-Grows d n.template_global_dict_owner (some d)))
          v.sections_children;
    includes_children =
        IfSome-map _ _ n.include_dict
          (λ m. AllValues-map _ _ m (AreChildren-Grows d n.template_global_dict_owner none))
          v.includes_children;
  }

-- The two primitives, on a valid heap.
module _ (h : Heap) (valid : IsValid h) where
  pub write-Grows :
      (d : ℕ) (n : Dict)
      → n.template_global_dict_owner ≡ (h.dict d).template_global_dict_owner
      → n.parent_dict ≡ (h.dict d).parent_dict
      → Grows h (write h d n)
  write-Grows d n o p = record {
    more = omega arith;
    same_owner = λ c made. elim (Bool-cases (c == d)) [
      | inl e ↦ rw e (o ∙ ap (λ b. (h.dict b).template_global_dict_owner) {x = d} (ground arith))
      | inr e ↦ rw e refl
    ];
    same_parent = λ c made. elim (Bool-cases (c == d)) [
      | inl e ↦ rw e (p ∙ ap (λ b. (h.dict b).parent_dict) {x = d} (ground arith))
      | inr e ↦ rw e refl
    ];
  }

  pub write-IsValid :
      (d : ℕ) (n : Dict)
      → n.template_global_dict_owner ≡ (h.dict d).template_global_dict_owner
      → n.parent_dict ≡ (h.dict d).parent_dict
      → IsValidDict h d n
      → IsValid (write h d n)
  write-IsValid d n o p v = record {
    valid_at = λ e made.
        (let kept = IsValidDict-Grows h (write h d n) (write-Grows d n o p) in
          elim (Bool-cases (e == d)) [
            | inl f ↦
                let here : d ≡ e = ground arith in
                rw f (
                  subst (λ b. IsValidDict (write h d n) b n) here
                    (kept d n (omega (arith, made, here)) v))
            | inr f ↦ rw f (kept e (h.dict e) made (valid.valid_at e made))
          ]);
  }

  pub allocate-Grows : (n : Dict) → Grows h (allocate h n)
  allocate-Grows n = record {
    more = omega arith;
    same_owner = λ c made. (let old : (c == h.next) ≡ false = ground arith in rw old refl);
    same_parent = λ c made. (let old : (c == h.next) ≡ false = ground arith in rw old refl);
  }

  pub allocate-IsValid : (n : Dict) → IsValidDict (allocate h n) h.next n → IsValid (allocate h n)
  allocate-IsValid n v = record {
    valid_at = λ e made. elim (Bool-cases (e == h.next)) [
      | inl f ↦
          let here : h.next ≡ e = ground arith in
          rw f (subst (λ b. IsValidDict (allocate h n) b n) here v)
      | inr f ↦
          let old : e < h.next = ground arith in
          rw f (
            IsValidDict-Grows h (allocate h n) (allocate-Grows n) e (h.dict e) old
              (valid.valid_at e old))
    ];
  }

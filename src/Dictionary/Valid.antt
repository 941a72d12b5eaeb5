-- ===== src/Dictionary/Valid.antt =====
-- The shape of the heap of dictionaries.
pub mod Preserved
pub mod Operations
pub mod Globals
pub mod Reach
use ctemplate.Common.{
  ℕ, zero, suc, ◌+◌, ◌<◌, ◌≤◌, List, [], ◌∷◌, ◌++◌, ◌≡◌, ◌≢◌, refl, Option, none, some, Bytes, All,
}
use ctemplate.Dictionary.{Map, Dict, Heap}

-- A property of what a pointer points to, where it is not NULL.
abbrev pub IfSome : {B : Type 0} → (B → Type 0) → Option B → Type 0
IfSome P none = Unit {0}
IfSome P (some b) = P b

-- A property of every value of a map.
abbrev pub AllValues : {V : Type 0} → (V → Type 0) → Map V → Type 0
AllValues P m = All (λ e. P e.1) m

-- The dictionary that keeps the template globals of the tree of `d`.
abbrev pub owner_of : Heap → ℕ → ℕ
owner_of h d = (h.dict d).template_global_dict_owner

-- The dictionary at `c` is a child of the one at `d`: made later, in the tree of the same owner,
-- with the parent given.
abbrev pub IsChild : Heap → ℕ → ℕ → Option ℕ → ℕ → Type 0
IsChild h d owner parent c =
    (d < c)
    × (c < h.next)
    × ((h.dict c).template_global_dict_owner ≡ owner)
    × ((h.dict c).parent_dict ≡ parent)

-- A vector of children, which is not empty.
abbrev pub AreChildren : Heap → ℕ → ℕ → Option ℕ → List ℕ → Type 0
AreChildren h d owner parent dicts = (dicts ≢ []) × All (IsChild h d owner parent) dicts

pub record IsValidDict (h : Heap) (d : ℕ) (n : Dict) : Type 0 where
  pub owner_first : n.template_global_dict_owner ≤ d
  pub owner_owns :
      (h.dict n.template_global_dict_owner).template_global_dict_owner
      ≡ n.template_global_dict_owner
  pub parent_first :
      IfSome
        (λ p. (p < d) × ((h.dict p).template_global_dict_owner ≡ n.template_global_dict_owner))
        n.parent_dict
  pub globals_child :
      IfSome
        (λ g. (n.template_global_dict_owner ≡ d) × IsChild h d d (some d) g)
        n.template_global_dict
  pub sections_children :
      IfSome (AllValues (AreChildren h d n.template_global_dict_owner (some d))) n.section_dict
  pub includes_children :
      IfSome (AllValues (AreChildren h d n.template_global_dict_owner none)) n.include_dict

pub record IsValid (h : Heap) : Type 0 where
  pub valid_at : (d : ℕ) → d < h.next → IsValidDict h d (h.dict d)

-- ===== src/Dictionary/Lookup/Values.antt =====
-- GetValue behind the operations that set values and make sub-dictionaries.
use ctemplate.Common.{
  ℕ, suc, ◌<◌, ◌≡◌, ◌≢◌, refl, sym, ap, ◌∙◌, Option, none, some, arith, inl, inr, Option-cases, [],
  ◌∷◌, true, false, Bool-cases, ◌==◌, Bytes,
}
use ctemplate.Dictionary.{
  TemplateString, Map, find_ptr, hash_insert, find_in, lazily_create_dict, Dict, Heap,
  template_globals, set_value,
}
use ctemplate.Dictionary.Lookup.{search, search_up, variable_of, get_value}
use ctemplate.Dictionary.Lookup.Chain.{search_up_lem, search-same}
use ctemplate.Dictionary.Valid.{IsValid}
use ctemplate.Dictionary.Valid.Operations.{store_self, set_value-IsValid}

find_ptr-hash_insert :
    {V : Type 0} (m : Map V) (key : ℕ) (value : V)
    → find_ptr (hash_insert m key value) key ≡ some value
unfolding find_ptr hash_insert
find_ptr-hash_insert [] key value =
    let same : (key == key) ≡ true = ground arith in rw (same, find_ptr) refl
find_ptr-hash_insert ((k, v) ∷ m) key value =
    let same : (key == key) ≡ true = ground arith in
    elim (Bool-cases (k == key)) [
      | inl e ↦ rw (e, same, find_ptr, hash_insert) refl
      | inr e ↦ rw (e, hash_insert, find_ptr, e) (find_ptr-hash_insert m key value)
    ]

find_ptr-hash_insert_other :
    {V : Type 0} (m : Map V) (key other : ℕ) (value : V)
    → other ≢ key
    → find_ptr (hash_insert m key value) other ≡ find_ptr m other
unfolding find_ptr hash_insert
find_ptr-hash_insert_other [] key other value n =
    let differ : (key == other) ≡ false = ground arith in rw (differ, find_ptr) refl
find_ptr-hash_insert_other ((k, v) ∷ m) key other value n = elim (Bool-cases (k == key)) [
  | inl e ↦
      let differ : (key == other) ≡ false = ground arith in
      let differ_k : (k == other) ≡ false = ground arith in
      rw (e, differ, differ_k, find_ptr, hash_insert) refl
  | inr e ↦ elim (Bool-cases (k == other)) [
    | inl f ↦ rw (e, f, find_ptr, hash_insert) refl
    | inr f ↦ rw (e, f, find_ptr, hash_insert) (find_ptr-hash_insert_other m key other value n)
  ]
]

-- The three places of GetValue, in their order.
abbrev pub first_of : Option Bytes → Option Bytes → Option Bytes → Bytes
first_of (some value) second third = value
first_of none (some value) third = value
first_of none none (some value) = value
first_of none none none = []

abbrev pub probe_globals : {B : Type 0} → (Dict → Option B) → Heap → Option ℕ → Option B
probe_globals probe h none = none
probe_globals probe h (some g) = probe (h.dict g)

abbrev pub in_globals : Heap → ℕ → TemplateString → Option Bytes
in_globals h d variable = probe_globals (variable_of variable) h (template_globals h d)

last_of :
    (third : Option Bytes)
    → elim third [ none ↦ [] | some value ↦ value ] ≡ first_of none none third
last_of none = refl
last_of (some value) = refl

last_two :
    (second third : Option Bytes)
    → elim second [ some value ↦ value | none ↦ elim third [ none ↦ [] | some value ↦ value ] ]
      ≡ first_of none second third
last_two (some value) third = refl
last_two none third = last_of third

pub get_value_lem :
    (h : Heap) (d : ℕ) (variable : TemplateString)
    → get_value h d variable
      ≡ first_of
          (search_up (variable_of variable) h d)
          (in_globals h d variable)
          (find_ptr h.global_dict variable.id)
unfolding get_value
get_value_lem h d variable = elim (Option-cases (search_up (variable_of variable) h d)) [
  | inr (value, e) ↦ rw (e, get_value) refl
  | inl e ↦ elim (Option-cases (template_globals h d)) [
    | inl f ↦ rw (e, f, get_value) (last_of (find_ptr h.global_dict variable.id))
    | inr (g, f) ↦
        rw (e, f, get_value)
          (last_two (variable_of variable (h.dict g)) (find_ptr h.global_dict variable.id))
  ]
]

pub first_of_both :
    {a a' b b' : Option Bytes}
    → a ≡ a'
    → b ≡ b'
    → (third : Option Bytes) → first_of a b third ≡ first_of a' b' third
first_of_both {a' = x} {b = y} p q third =
    ap (λ o. first_of o y third) p ∙ ap (λ o. first_of x o third) q

find_in-hash_insert :
    (m : Option (Map Bytes)) (key other : ℕ) (value : Bytes)
    → other ≢ key
    → find_ptr (hash_insert (lazily_create_dict m) key value) other ≡ find_in m other
unfolding find_ptr
find_in-hash_insert none key other value n = find_ptr-hash_insert_other [] key other value n
find_in-hash_insert (some m) key other value n = find_ptr-hash_insert_other m key other value n

module _ (h : Heap) (valid : IsValid h) (d : ℕ) (made : d < h.next) (variable : TemplateString)
    (value : Bytes) where
  abbrev after_set : Heap
  after_set = set_value h d variable value

  value_there : variable_of variable (after_set.dict d) ≡ some value
  unfolding set_value
  value_there =
      ap (variable_of variable) (store_self h.dict d _)
      ∙ find_ptr-hash_insert (lazily_create_dict (h.dict d).variable_dict) variable.id value

  set_value_probe :
      (other : TemplateString)
      → other.id ≢ variable.id
      → (e : ℕ) → variable_of other (after_set.dict e) ≡ variable_of other (h.dict e)
  unfolding set_value
  set_value_probe other n e = elim (Bool-cases (e == d)) [
    | inr f ↦ rw f refl
    | inl f ↦
        let here : e ≡ d = ground arith in
        rw (f, here) (find_in-hash_insert (h.dict d).variable_dict variable.id other.id value n)
  ]

  -- Every other member of every dictionary is kept.
  set_value_kept :
      {X : Type 0} (member : Dict → X) (e : ℕ)
      → ((n : Dict) (m : Option (Map Bytes)) → member (record n { variable_dict = m }) ≡ member n)
      → member (after_set.dict e) ≡ member (h.dict e)
  unfolding set_value
  set_value_kept member e same = elim (Bool-cases (e == d)) [
    | inr f ↦ rw f refl
    | inl f ↦ let here : e ≡ d = ground arith in rw (f, here) (same (h.dict d) _)
  ]

  own_globals : (e : ℕ) → template_globals after_set e ≡ template_globals h e
  own_globals e =
      ap (λ o. (after_set.dict o).template_global_dict)
        (set_value_kept (λ n. n.template_global_dict_owner) e (λ n m. refl))
      ∙ set_value_kept (λ n. n.template_global_dict) _ (λ n m. refl)

  read_back : get_value after_set d variable ≡ value
  unfolding search set_value
  read_back =
      let ok = set_value-IsValid h valid d made variable value in
      let found : search_up (variable_of variable) after_set d ≡ some value =
        sym (search_up_lem after_set ok (variable_of variable) (suc d) d made (omega arith))
        ∙ rw (value_there, search) refl in
      get_value_lem after_set d variable ∙ rw found refl

  in_others :
      (other : TemplateString)
      → other.id ≢ variable.id
      → (o : Option ℕ)
      → probe_globals (variable_of other) after_set o ≡ probe_globals (variable_of other) h o
  in_others other n none = refl
  in_others other n (some g) = set_value_probe other n g

  others_kept :
      (other : TemplateString)
      → other.id ≢ variable.id
      → (e : ℕ) → e < h.next
      → get_value after_set e other ≡ get_value h e other
  unfolding set_value
  others_kept other n e there =
      let up =
        search-same h after_set valid (variable_of other) (λ b made_b. set_value_probe other n b)
          (λ b made_b. set_value_kept (λ m. m.parent_dict) b (λ m o. refl)) h.next e there in
      get_value_lem after_set e other
      ∙ first_of_both up
          (ap (probe_globals (variable_of other) after_set) (own_globals e)
            ∙ in_others other n (template_globals h e))
          (find_ptr h.global_dict other.id)
      ∙ sym (get_value_lem h e other)

  -- A dictionary that is made finds behind SetValue the value that was set under the variable's own
  -- id, and every dictionary finds under any other id what it has found before.
  pub set_value-get_value :
      (other : TemplateString)
      → other.id ≢ variable.id
      → (e : ℕ) → e < h.next
      → (get_value (set_value h d variable value) d variable ≡ value)
        × (get_value (set_value h d variable value) e other ≡ get_value h e other)
  set_value-get_value other n e there = (read_back, others_kept other n e there)

-- ===== src/Dictionary.antt =====
-- src/template_dictionary.cc: the dictionaries of a program as a heap. The arena's memory is never
-- given back, so an address is the number of the dictionary in the order in which they were made.
pub mod Lookup
pub mod Valid
use ctemplate.Common.{
  ℕ, zero, suc, ◌+◌, ◌-◌, ◌/◌, ◌%◌, ◌<◌, List, [], ◌∷◌, ◌++◌, Bool, true, false, not, ◌&&◌, ◌||◌,
  Option, none, some, Bytes, codes, ltb, ◌==◌, if◌then◌else◌, length, drop,
}

-- A TemplateString with the id that GetGlobalId gives it.
pub record TemplateString : Type 0 where
  pub text : Bytes
  pub id : ℕ

abbrev pub Map : Type 0 → Type 0
Map V = List (ℕ × V)

-- find_ptr and find_ptr2, and HashInsert.
module _ {V : Type 0} where
  unfoldable pub find_ptr : Map V → ℕ → Option V
  find_ptr [] key = none
  find_ptr ((k, v) ∷ m) key = if k == key then some v else find_ptr m key

  unfoldable pub hash_insert : Map V → ℕ → V → Map V
  hash_insert [] key value = (key, value) ∷ []
  hash_insert ((k, v) ∷ m) key value =
      if k == key then (key, value) ∷ m else (k, v) ∷ hash_insert m key value

  -- The map behind a pointer, that LazilyCreateDict makes where the pointer is NULL.
  abbrev pub lazily_create_dict : Option (Map V) → Map V
  lazily_create_dict none = []
  lazily_create_dict (some m) = m

  -- `map && find_ptr(*map, key)`
  abbrev pub find_in : Option (Map V) → ℕ → Option V
  find_in none key = none
  find_in (some m) key = find_ptr m key

-- The members of TemplateDictionary, with addresses for pointers.
pub record Dict : Type 0 where
  pub name : Bytes
  pub variable_dict : Option (Map Bytes)
  pub section_dict : Option (Map (List ℕ))
  pub include_dict : Option (Map (List ℕ))
  pub template_global_dict : Option ℕ
  pub template_global_dict_owner : ℕ
  pub parent_dict : Option ℕ
  pub filename : Option Bytes

-- All dictionaries, of which those below `next` are made, and the static global_dict_.
pub record Heap : Type 0 where
  pub next : ℕ
  pub dict : ℕ → Dict
  pub global_dict : Map Bytes

abbrev pub store : (ℕ → Dict) → ℕ → Dict → ℕ → Dict
store dicts d n e = if e == d then n else dicts e

-- The write to the dictionary at an address, and the allocation of one.
abbrev pub write : Heap → ℕ → Dict → Heap
write h d n = record h { dict = store h.dict d n }

abbrev pub allocate : Heap → Dict → Heap
allocate h n = record h { next = suc h.next; dict = store h.dict h.next n }

abbrev pub new_dict : Bytes → ℕ → Option ℕ → Dict
new_dict name owner parent = record {
  name = name;
  variable_dict = none;
  section_dict = none;
  include_dict = none;
  template_global_dict = none;
  template_global_dict_owner = owner;
  parent_dict = parent;
  filename = none;
}

-- The public constructor, which makes a dictionary that owns its template globals.
unfoldable pub template_dictionary : Heap → Bytes → Heap × ℕ
template_dictionary h name = (allocate h (new_dict name h.next none), h.next)

unfoldable pub create_template_subdict : Heap → Bytes → Option ℕ → ℕ → Heap × ℕ
create_template_subdict h name parent owner = (allocate h (new_dict name owner parent), h.next)

-- The heap behind it; the owner of `d` has a template-global dictionary there.
unfoldable pub lazy_create_template_global_dict : Heap → ℕ → Heap
unfolding create_template_subdict
lazy_create_template_global_dict h d =
    let owner = (h.dict d).template_global_dict_owner in
    elim (h.dict owner).template_global_dict [
      | some g ↦ h
      | none ↦
          let made = create_template_subdict h (codes "Template Globals") (some owner) owner in
          write made.0 owner (record (made.0.dict owner) { template_global_dict = some made.1 })
    ]

-- The template-global dictionary that `d` refers to, where there is one.
abbrev pub template_globals : Heap → ℕ → Option ℕ
template_globals h d = (h.dict (h.dict d).template_global_dict_owner).template_global_dict

unfoldable pub set_value : Heap → ℕ → TemplateString → Bytes → Heap
set_value h d variable value =
    let n = h.dict d in
    write h d (record n {
      variable_dict = some (hash_insert (lazily_create_dict n.variable_dict) variable.id value);
    })

unfoldable pub set_escaped_value : Heap → ℕ → TemplateString → Bytes → (Bytes → Bytes) → Heap
unfolding set_value
set_escaped_value h d variable value escfn = set_value h d variable (escfn value)

-- The decimal digits of a number, on fuel: a number below 2 ^ 64 has 20 at most.
unfoldable pub digits : ℕ → ℕ → Bytes → Bytes
digits zero n out = out
digits (suc fuel) n out =
    let rest = digits fuel (n / 10) ((n % 10 + b'0') ∷ out) in
    if ltb n 10 then (n + b'0') ∷ out else rest

abbrev pub decimal : ℕ → Bytes
decimal n = digits 20 n []

-- `%ld` of a long, by its sign and its magnitude.
unfoldable pub set_int_value : Heap → ℕ → TemplateString → Bool → ℕ → Heap
unfolding set_value digits
set_int_value h d variable negative magnitude =
    set_value h d variable (if negative then b'-' ∷ decimal magnitude else decimal magnitude)

-- What is done with the template-global dictionary of the owner.
abbrev pub in_template_globals : Heap → ℕ → (Heap → ℕ → Heap) → Heap
in_template_globals h d operation = elim (template_globals h d) [
  | none ↦ h
  | some g ↦ operation h g
]

unfoldable pub set_template_global_value : Heap → ℕ → TemplateString → Bytes → Heap
unfolding set_value
set_template_global_value h d variable value =
    in_template_globals (lazy_create_template_global_dict h d) d
      (λ h' g. set_value h' g variable value)

unfoldable pub set_global_value : Heap → TemplateString → Bytes → Heap
set_global_value h variable value = record h {
  global_dict = hash_insert h.global_dict variable.id value;
}

-- CreateSubdictName with an empty suffix.
unfoldable pub create_subdict_name : Bytes → Bytes → ℕ → Bytes
unfolding digits
create_subdict_name dict_name sub_name index =
    dict_name ++ (codes "/" ++ (sub_name ++ (codes "#" ++ decimal index)))

-- The vector under an id, empty where AddSectionDictionary makes it.
abbrev pub entries : Option (List ℕ) → List ℕ
entries none = []
entries (some dicts) = dicts

abbrev pub vector_at : Option (Map (List ℕ)) → ℕ → List ℕ
vector_at m id = entries (find_in m id)

abbrev pub push_section : Dict → ℕ → List ℕ → Dict
push_section n id dicts = record n {
  section_dict = some (hash_insert (lazily_create_dict n.section_dict) id dicts);
}

abbrev pub push_include : Dict → ℕ → List ℕ → Dict
push_include n id dicts = record n {
  include_dict = some (hash_insert (lazily_create_dict n.include_dict) id dicts);
}

unfoldable pub add_section_dictionary : Heap → ℕ → TemplateString → Heap × ℕ
unfolding create_subdict_name create_template_subdict
add_section_dictionary h d section =
    let n = h.dict d in
    let dicts = vector_at n.section_dict section.id in
    let name = create_subdict_name n.name section.text (length dicts + 1) in
    let made = create_template_subdict h name (some d) n.template_global_dict_owner in
    (write made.0 d (push_section n section.id (dicts ++ made.1 ∷ [])), made.1)

unfoldable pub show_section : Heap → ℕ → TemplateString → Heap
unfolding create_template_subdict
show_section h d section =
    let n = h.dict d in
    elim (find_in n.section_dict section.id) [
      | some dicts ↦ h
      | none ↦
          let made =
            create_template_subdict h (codes "empty dictionary") (some d)
              n.template_global_dict_owner in
          write made.0 d (push_section n section.id (made.1 ∷ []))
    ]

unfoldable pub show_template_global_section : Heap → ℕ → TemplateString → Heap
unfolding show_section
show_template_global_section h d section =
    in_template_globals (lazy_create_template_global_dict h d) d (λ h' g. show_section h' g section)

unfoldable pub set_value_and_show_section :
    Heap → ℕ → TemplateString → Bytes → TemplateString → Heap
unfolding add_section_dictionary set_value
set_value_and_show_section h d variable [] section = h
set_value_and_show_section h d variable (c ∷ value) section =
    let added = add_section_dictionary h d section in set_value added.0 added.1 variable (c ∷ value)

unfoldable pub add_include_dictionary : Heap → ℕ → TemplateString → Heap × ℕ
unfolding create_subdict_name create_template_subdict
add_include_dictionary h d include_name =
    let n = h.dict d in
    let dicts = vector_at n.include_dict include_name.id in
    let name = create_subdict_name n.name include_name.text (length dicts + 1) in
    let made = create_template_subdict h name none n.template_global_dict_owner in
    (write made.0 d (push_include n include_name.id (dicts ++ made.1 ∷ [])), made.1)

unfoldable pub set_filename : Heap → ℕ → Bytes → Heap
set_filename h d filename = write h d (record (h.dict d) { filename = some filename })

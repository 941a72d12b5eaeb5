-- ===== src/Template/Expand/Yields.antt =====
-- Calls of Expand that end with a result.
use ctemplate.Common.{
  ℕ, suc, ◌+◌, ◌<◌, List, [], ◌∷◌, ◌++◌, Bool, true, false, ◌&&◌, some, Bytes, ◌≡◌, refl, sym,
  subst, inl, inr, Bool-cases, All, arith, length,
}
use ctemplate.Dictionary.{TemplateString}
use ctemplate.Template.{TemplateToken, any_might_modify}
use ctemplate.Template.Nodes.{Strip, TemplateDictionaryInterface, PerExpandData}
use ctemplate.Template.Expand.{
  c_string, Expanded, and_then, emitting, around, for_each, for_iterator, expand_variable, included,
  expand_once, expand_include_once, expand_named, expand_children,
}

-- A result, whose flag is as asked.
abbrev pub Yields : (Bool → Type 0) → Expanded → Type 0
Yields R x = (out : Bytes) × ((error_free : Bool) × ((x ≡ some (out, error_free)) × R error_free))

module _ (R : Bool → Type 0) (R_true : R true) (R_and : (a b : Bool) → R a → R b → R (a && b)) where
  pub emitting-Yields : (s : Bytes) → Yields R (emitting s)
  emitting-Yields s = (s, (true, (refl, R_true)))

  pub and_then-Yields : (x y : Expanded) → Yields R x → Yields R y → Yields R (and_then x y)
  and_then-Yields x y (out, (a, (e, r))) (rest, (b, (f, s))) =
      (out ++ rest, (a && b, (rw (e, f) refl, R_and a b r s)))

  pub around-Yields :
      (before after : Bytes) (x : Expanded) → Yields R x → Yields R (around before after x)
  around-Yields before after x (out, (a, (e, r))) = (before ++ (out ++ after), (a, (rw e refl, r)))

  module _ {D : Type 0} (Q : D → Type 0) (body : D → Bool → Expanded)
      (body_yields : (d : D) (is_last : Bool) → Q d → Yields R (body d is_last)) where
    for_each-Yields : (children : List D) → All Q children → Yields R (for_each body children)
    unfolding for_each
    for_each-Yields [] all = emitting-Yields []
    for_each-Yields (c ∷ []) all = body_yields c true all.0
    for_each-Yields (c ∷ d ∷ children) all =
        and_then-Yields _ _ (body_yields c false all.0) (for_each-Yields (d ∷ children) all.1)

    pub for_iterator-Yields :
        (children : List D) (main : Expanded)
        → All Q children
        → Yields R main
        → Yields R (for_iterator (some children) main body)
    unfolding for_iterator
    for_iterator-Yields [] main all m = m
    for_iterator-Yields (c ∷ children) main all m = for_each-Yields (c ∷ children) all

  module _ {D : Type 0} (I : TemplateDictionaryInterface D) (per_expand_data : PerExpandData) where
    pub expand_variable-Yields :
        (token : TemplateToken) (variable : TemplateString) (d : D)
        → Yields R (expand_variable I per_expand_data token variable d)
    unfolding expand_variable
    expand_variable-Yields token variable d = (_, (_, (refl, R_true)))

    pub expand_once-Yields :
        (token : TemplateToken) (body : Expanded)
        → Yields R body
        → Yields R (expand_once I per_expand_data token body)
    unfolding expand_once
    expand_once-Yields token body b = around-Yields _ _ body b

    included-flag :
        (token : TemplateToken) (filename out : Bytes) (a : Bool)
        → (included I per_expand_data token filename (out, a)).1 ≡ a
    unfolding included
    included-flag token filename out true =
        elim (Bool-cases (any_might_modify per_expand_data.modifiers token.modvals)) [
          | inl e ↦ rw (e, included) refl
          | inr e ↦ rw (e, included) refl
        ]
    included-flag token filename out false =
        elim (Bool-cases (any_might_modify per_expand_data.modifiers token.modvals)) [
          | inl e ↦ rw (e, included) refl
          | inr e ↦ rw (e, included) refl
        ]

    -- Includes of dictionaries of `Q`, in files that are asked for with names of `N` only.
    module _ (expand_file : Bytes → Strip → D → Expanded) (N : Bytes → Type 0) (Q : D → Type 0)
        (file_yields : (c : ℕ) (name : Bytes) (strip : Strip) (d : D)
          → N (c ∷ name)
          → Q d
          → Yields R (expand_file (c ∷ name) strip d)) where
      expand_include_once-Yields :
          (token : TemplateToken) (strip : Strip) (c : ℕ) (name : Bytes) (d : D)
          → N (c ∷ name)
          → Q d
          → Yields R (expand_include_once I per_expand_data expand_file token strip (c ∷ name) d)
      unfolding expand_include_once
      expand_include_once-Yields token strip c name d n q =
          let (out, (a, (e, r))) = file_yields c name strip d n q in
          rw (e, expand_include_once)
            (_, (_, (refl, subst R (sym (included-flag token (c ∷ name) out a)) r)))

      named-Yields :
          (token : TemplateToken) (strip : Strip) (filename name : Bytes) (d : D)
          → c_string filename ≡ name
          → N name
          → Q d
          → Yields R (expand_named I per_expand_data expand_file token strip (some filename) d)
      unfolding expand_named
      named-Yields token strip filename [] d e n q = rw (e, expand_named) (emitting-Yields [])
      named-Yields token strip filename (c ∷ name) d e n q =
          rw (e, expand_named) (expand_include_once-Yields token strip c name d n q)

      -- What the names of an include's children are to be, from a number on.
      module _ (variable : TemplateString) (d : D) where
        abbrev NameYields : ℕ → Type 0
        NameYields i =
            (filename : Bytes) × ((I.get_include_template_name d variable i ≡ some filename)
              × N (c_string filename))

        pub named_child-Yields :
            (token : TemplateToken) (strip : Strip) (i : ℕ) (child : D)
            → NameYields i
            → Q child
            → Yields R (
                expand_named I per_expand_data expand_file token strip
                  (I.get_include_template_name d variable i)
                  child)
        named_child-Yields token strip i child (filename, (e, n)) q =
            rw e (named-Yields token strip filename (c_string filename) child refl n q)

        pub children-Yields :
            (token : TemplateToken) (strip : Strip) (i : ℕ) (children : List D)
            → ((j : ℕ) → j < i + length children → NameYields j)
            → All Q children
            → Yields R
                (expand_children I per_expand_data expand_file token variable strip d i children)
        unfolding expand_children
        children-Yields token strip i [] names all = emitting-Yields []
        children-Yields token strip i (c ∷ children) names all =
            and_then-Yields _ _ (named_child-Yields token strip i c (names i (omega arith)) all.0) (
              children-Yields token strip (suc i) children
                (λ j below. names j (omega (arith, below))) all.1)

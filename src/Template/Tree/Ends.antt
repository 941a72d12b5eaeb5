-- ===== src/Template/Tree/Ends.antt =====
-- The loop of AddSubnode and BuildTree end.
use ctemplate.Common.{
  ℕ, zero, suc, ◌*◌, ◌<◌, ◌≤◌, [], ◌∷◌, Bool, Option, some, Bytes, length, ◌≡◌, refl, sym, subst,
  inl, inr, Bool-cases, Option-cases, arith, equal, if◌then◌else◌,
}
use ctemplate.Modifiers.Registry.{Registry}
use ctemplate.Template.Nodes.{Strip, Template}
use ctemplate.Template.Tokens.{Token, ParseState, get_next_token}
use ctemplate.Template.Tree.{
  Section, new_section, main_section_name, on_token, add_section_node, started, add_next,
  add_subnode, add_subnodes, start_state, template_of, build_tree, set_error,
}
use ctemplate.Template.Tree.Progress.{left, get_next_token-left, on_token-left}

module _ (pragma_ok : Bytes → Bool) (strip : Strip) (hash : Bytes → ℕ) where
  abbrev Reads : ParseState → Option (Section × ParseState) → Type 0
  Reads ps result =
      (b : Section) × ((after : ParseState) × ((result ≡ some (b, after)) × (left after ≤ left ps)))

  no_less :
      (ps before : ParseState) (result : Option (Section × ParseState))
      → left ps ≤ left before
      → Reads ps result
      → Reads before result
  no_less ps before result less (b, (after, (e, l))) = (b, (after, (e, omega (arith, l, less))))

  end_read :
      (name : Bytes) (b : Section) (ps : ParseState)
      → Reads ps (some (b, if equal name main_section_name then ps else set_error ps))
  end_read name b ps = elim (Bool-cases (equal name main_section_name)) [
    | inl e ↦ (b, (ps, (rw e refl, omega arith)))
    | inr e ↦ (b, (set_error ps, (rw e refl, omega arith)))
  ]

  -- A loop that ends with a result where less is left than `n`.
  module _ (again : Bytes → Section → ParseState → Option (Section × ParseState)) (n : ℕ)
      (reads : (name : Bytes) (b : Section) (ps : ParseState)
        → left ps < n
        → Reads ps (again name b ps)) where
    add_next-Reads :
        (name : Bytes) (b : Section) (token : Token × ParseState)
        → left token.1 < n
        → Reads token.1 (add_next hash strip pragma_ok again name b token)
    unfolding add_next
    add_next-Reads name b (token, ps) less = elim (Option-cases (started token)) [
      | inl e ↦
          let same = on_token-left pragma_ok strip hash name b token ps in
          elim (Bool-cases (on_token hash strip name b token ps).1.1) [
            | inl f ↦
                rw (e, add_next)
                  (rw f (
                    no_less (on_token hash strip name b token ps).1.0 ps _ (omega (arith, same)) (
                      reads name (on_token hash strip name b token ps).0
                        (on_token hash strip name b token ps).1.0 (omega (arith, same, less)))))
            | inr f ↦
                rw (e, add_next)
                  (rw f (
                    (on_token hash strip name b token ps).0,
                    ((on_token hash strip name b token ps).1.0, (refl, omega (arith, same))),
                  ))
          ]
      | inr (start, e) ↦
          let (inner, (after, (f, l))) = reads start.text new_section ps less in
          rw (e, add_next)
            (rw f (
              no_less after ps _ l (
                reads name (add_section_node hash strip name b start inner) after
                  (omega (arith, l, less)))))
    ]

    add_subnode-Reads :
        (name : Bytes) (b : Section) (ps : ParseState)
        → left ps ≤ n
        → (r : Bytes) → ps.rest ≡ r
        → Reads ps (add_subnode hash strip pragma_ok again name b ps r)
    unfolding add_subnode
    add_subnode-Reads name b ps less [] e = end_read name b ps
    add_subnode-Reads name b ps less (c ∷ s) e =
        let smaller = get_next_token-left pragma_ok strip ps c s e in
        no_less (get_next_token pragma_ok strip ps).1 ps _ (omega (arith, smaller))
          (add_next-Reads name b (get_next_token pragma_ok strip ps) (omega (arith, smaller, less)))

  pub add_subnodes-Reads :
      (fuel : ℕ) (name : Bytes) (b : Section) (ps : ParseState)
      → left ps < fuel
      → Reads ps (add_subnodes hash strip pragma_ok fuel name b ps)
  unfolding add_subnodes
  add_subnodes-Reads zero name b ps enough = absurd (omega arith)
  add_subnodes-Reads (suc fuel) name b ps enough = elim (Bool-cases ps.failed) [
    | inl e ↦ (b, (ps, (rw (e, add_subnodes) refl, omega arith)))
    | inr e ↦
        subst
          (λ x. Reads ps (
            if x
            then some (b, ps)
            else add_subnode hash strip pragma_ok (add_subnodes hash strip pragma_ok fuel) name b ps
                ps.rest))
          (sym e)
          (add_subnode-Reads (add_subnodes hash strip pragma_ok fuel) fuel
            (λ m c p less. add_subnodes-Reads fuel m c p less) name b ps (omega (arith, enough))
            ps.rest refl)
  ]

  -- BuildTree ends with a template on any fuel above twice the number of the template's bytes,
  -- whatever the text: no token is read without a byte of the text or the name of a marker being
  -- passed.
  pub build_tree-ends :
      (registry : Registry) (file text : Bytes) (fuel : ℕ)
      → 2 * length text < fuel
      → (template : Template) × (build_tree hash strip pragma_ok fuel registry file text
          ≡ some template)
  unfolding build_tree
  build_tree-ends registry file text fuel enough =
      let (b, (after, (e, l))) =
        add_subnodes-Reads fuel main_section_name new_section
          (start_state hash strip pragma_ok registry text) (omega (arith, enough)) in
      (template_of hash strip pragma_ok file (b, after), rw (e, build_tree) refl)

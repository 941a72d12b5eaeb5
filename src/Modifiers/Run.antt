-- ===== src/Modifiers/Run.antt =====
-- src/template_modifiers.cc: EmitRun, and the loop that HtmlEscape, PreEscape, XmlEscape and
-- JsonEscape share. The pointers `start` and `pos` are the pending run, that is the bytes between
-- them, and the bytes from `pos` on; an emitter is the bytes it has been given.
use ctemplate.Common.{
  ℕ, [], ◌∷◌, ◌++◌, append-nil, append_assoc, flat_map, Option, none, some, ◌≡◌, refl, sym, ◌∙◌,
  inl, inr, Bytes, Option-cases,
}

-- `if (start < limit) out->Emit(start, limit - start)`
unfoldable pub emit_run : Bytes → Bytes → Bytes
emit_run [] out = out
emit_run (c ∷ run) out = out ++ (c ∷ run)

pub emit_run_lem : (run out : Bytes) → emit_run run out ≡ out ++ run
unfolding emit_run
emit_run_lem [] out = sym (append-nil out)
emit_run_lem (c ∷ run) out = refl

-- The loop over `pos`: a byte that the switch has no case for joins the run; for any other the run
-- and then the replacement are emitted.
unfoldable pub escape_loop : (ℕ → Option Bytes) → Bytes → Bytes → Bytes → Bytes
unfolding emit_run
escape_loop entity run [] out = emit_run run out
escape_loop entity run (c ∷ rest) out = elim (entity c) [
  | none ↦ escape_loop entity (run ++ c ∷ []) rest out
  | some replacement ↦ escape_loop entity [] rest (emit_run run out ++ replacement)
]

-- What one byte is replaced by, itself if the switch has no case for it.
unfoldable pub image : (ℕ → Option Bytes) → ℕ → Bytes
image entity c = elim (entity c) [ none ↦ c ∷ [] | some replacement ↦ replacement ]

image-none : (entity : ℕ → Option Bytes) (c : ℕ) → entity c ≡ none → image entity c ≡ c ∷ []
unfolding image
image-none entity c e = rw (e, image)

image-some :
    (entity : ℕ → Option Bytes) (c : ℕ) {r : Bytes} → entity c ≡ some r → image entity c ≡ r
unfolding image
image-some entity c e = rw (e, image)

-- The loop emits the image of each byte in order, whatever the runs it gathers.
pub escape_loop-flat_map :
    (entity : ℕ → Option Bytes) (run rest out : Bytes)
    → escape_loop entity run rest out ≡ out ++ (run ++ flat_map (image entity) rest)
unfolding flat_map escape_loop
escape_loop-flat_map entity run [] out = rw append-nil (emit_run_lem run out)
escape_loop-flat_map entity run (c ∷ rest) out = elim (Option-cases (entity c)) [
  | inl e ↦
      rw (e, escape_loop)
        (escape_loop-flat_map entity (run ++ c ∷ []) rest out
          ∙ rw (image-none entity c e) (rw append_assoc))
  | inr (r, e) ↦
      rw (e, escape_loop)
        (escape_loop-flat_map entity [] rest (emit_run run out ++ r)
          ∙ rw (image-some entity c e, emit_run_lem) (simp append_assoc))
]

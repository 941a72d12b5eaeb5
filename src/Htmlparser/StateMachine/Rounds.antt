-- ===== src/Htmlparser/StateMachine/Rounds.antt =====
-- A round of the loop of statemachine_parse, with a transition error and without one.
use ctemplate.Common.{ℕ, ◌∷◌, ◌≡◌, true, false, Bytes}
use ctemplate.Htmlparser.StateMachine.{Context, Definition, statemachine_error, step, parse_bytes}

module _ {U : Type 0} (def : Definition U) where
  pub on_error :
      (ctx : Context U) (c : ℕ) (s : Bytes)
      → (step def ctx c).1 ≡ false
      → parse_bytes def ctx (c ∷ s) ≡ ((step def ctx c).0, statemachine_error)
  unfolding parse_bytes
  on_error ctx c s e = rw e

  pub on_step :
      (ctx : Context U) (c : ℕ) (s : Bytes)
      → (step def ctx c).1 ≡ true
      → parse_bytes def ctx (c ∷ s) ≡ parse_bytes def (step def ctx c).0 s
  unfolding parse_bytes
  on_step ctx c s e = rw e

-- ===== src/Modifiers/Javascript.antt =====
-- src/template_modifiers.cc: kCodeLengths, UTF8CodeUnit and JavascriptEscape.
pub mod Safety
pub mod Units
use ctemplate.Common.{
  ℕ, zero, suc, ◌+◌, ◌-◌, ◌*◌, ◌/◌, ◌%◌, ◌^◌, ◌<◌, ◌≤◌, [], ◌∷◌, ◌++◌, ◌≡◌, ◌≢◌, ◌⊎◌, inl, inr,
  refl, sym, ap, ◌∙◌, Bool, true, false, not, ◌&&◌, ◌||◌, Option, none, some, arith, Bytes, codes,
  leb, ltb, within, ◌==◌, if◌then◌else◌, All, length, take, drop, append-nil, append_assoc,
  Bool-cases, Option-cases,
}
use ctemplate.Modifiers.Run.{emit_run, emit_run_lem}

-- kCodeLengths, row by row.
unfoldable pub code_length : ℕ → ℕ
code_length c = if within 0xc0 0xdf c then 2 else if within 0xe0 0xef c then 3 else 1

-- The loop over the tail bytes; none at a malformed one.
unfoldable pub tail_bytes : ℕ → ℕ → Bytes → Option ℕ
tail_bytes zero unit s = some unit
tail_bytes (suc n) unit [] = none
tail_bytes (suc n) unit (t ∷ s) = if t / 64 == 2 then tail_bytes n (unit * 64 + t % 64) s else none

-- UTF8CodeUnit: the code unit at the start of a text, and by how much `*start` moves.
unfoldable pub utf8_code_unit : ℕ → Bytes → ℕ × ℕ
utf8_code_unit c s =
    let n = code_length c in
    if n == 1
    then (c, 1)
    else if ltb (length (c ∷ s)) n
    then (0xfffd, 1)
    else elim (tail_bytes (n - 1) (c % 2 ^ (8 - n)) s) [
      | none ↦ (0xfffd, 1)
      | some unit ↦ (unit, n)
    ]

unfoldable pub javascript_entity : ℕ → Option Bytes
javascript_entity unit =
    if not ((unit / 256) % 256 == 0)
    then if unit == 0x2028
      then some (codes "\\u2028")
      else if unit == 0x2029
      then some (codes "\\u2029")
      else none
    else if unit == 0
    then some (codes "\\x00")
    else if unit == b'"'
    then some (codes "\\x22")
    else if unit == b'\''
    then some (codes "\\x27")
    else if unit == b'\\'
    then some (codes "\\\\")
    else if unit == 9
    then some (codes "\\t")
    else if unit == 13
    then some (codes "\\r")
    else if unit == 10
    then some (codes "\\n")
    else if unit == 8
    then some (codes "\\b")
    else if unit == 12
    then some (codes "\\f")
    else if unit == b'&'
    then some (codes "\\x26")
    else if unit == b'<'
    then some (codes "\\x3c")
    else if unit == b'>'
    then some (codes "\\x3e")
    else if unit == b'='
    then some (codes "\\x3d")
    else if unit == 11
    then some (codes "\\x0b")
    else none

-- The loop, on fuel.
unfoldable pub javascript_loop : ℕ → Bytes → Bytes → Bytes → Bytes
unfolding emit_run
javascript_loop fuel run [] out = emit_run run out
javascript_loop zero run (c ∷ s) out = out
javascript_loop (suc fuel) run (c ∷ s) out =
    let n = (utf8_code_unit c s).1 in
    elim (javascript_entity (utf8_code_unit c s).0) [
      | none ↦ javascript_loop fuel (run ++ take n (c ∷ s)) (drop n (c ∷ s)) out
      | some replacement ↦
          javascript_loop fuel [] (drop n (c ∷ s)) (emit_run run out ++ replacement)
    ]

-- A round takes a byte at least, so the length of the text is fuel enough.
unfoldable pub javascript_escape : Bytes → Bytes
unfolding javascript_loop utf8_code_unit code_length tail_bytes javascript_entity
javascript_escape s = javascript_loop (length s) [] s []

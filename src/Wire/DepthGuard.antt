-- ===== src/Wire/DepthGuard.antt =====
-- The pre-scan for nesting that is too deep (crates/cq-protocol/src/depth_guard.rs). Bytes are
-- numbers.
use cqserver.Prelude.{
  ℕ, ◌+◌, ◌-◌, Bool, true, false, ◌||◌, Option, none, some, List, [], ◌∷◌, ltb, nat_eq,
  if◌then◌else◌,
}

abbrev pub max_wire_json_depth : ℕ
max_wire_json_depth = 128

-- The bytes `"`, `\`, and the four braces and brackets.
abbrev pub is_quote : ℕ → Bool
is_quote b = nat_eq b 34

abbrev pub is_backslash : ℕ → Bool
is_backslash b = nat_eq b 92

abbrev pub is_opening : ℕ → Bool
is_opening b = nat_eq b 123 || nat_eq b 91

abbrev pub is_closing : ℕ → Bool
is_closing b = nat_eq b 125 || nat_eq b 93

-- The local variables of the loop.
pub record Scan : Type 0 where
  pub depth : ℕ
  pub max_depth : ℕ
  pub in_string : Bool
  pub escaped : Bool

-- One byte; `none` is the early return of `true`.
unfoldable pub step : ℕ → ℕ → Scan → Option Scan
step limit b s =
    if s.in_string
    then (if s.escaped
        then some (record s { escaped = false })
        else (if is_backslash b
            then some (record s { escaped = true })
            else (if is_quote b then some (record s { in_string = false }) else some s)))
    else (if is_quote b
        then some (record s { in_string = true })
        else (if is_opening b
            then (let depth = s.depth + 1 in
                if ltb s.max_depth depth
                then (if ltb limit depth
                    then none
                    else some (record s { depth = depth; max_depth = depth }))
                else some (record s { depth = depth }))
            else (if is_closing b then some (record s { depth = s.depth - 1 }) else some s)))

unfoldable pub scan : ℕ → List ℕ → Scan → Bool
scan limit [] s = ltb limit s.max_depth
scan limit (b ∷ bytes) s = elim (step limit b s) [ none ↦ true | some s' ↦ scan limit bytes s' ]

unfoldable pub json_depth_exceeds : List ℕ → ℕ → Bool
json_depth_exceeds bytes limit =
    scan limit bytes (record { depth = 0; max_depth = 0; in_string = false; escaped = false })

unfoldable pub json_depth_exceeds_default : List ℕ → Bool
json_depth_exceeds_default bytes = json_depth_exceeds bytes max_wire_json_depth

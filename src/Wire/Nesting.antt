-- ===== src/Wire/Nesting.antt =====
-- The pre-scan decides the greatest depth of the text outside strings, by a definition in two passes
-- (crates/cq-protocol/src/depth_guard.rs).
use cqserver.Prelude.{
  ℕ, ◌+◌, ◌-◌, ◌≡◌, ◌≤◌, Bool, true, false, List, [], ◌∷◌, arith, inl, inr, Bool-cases, ltb, max,
  if◌then◌else◌,
}
use cqserver.Wire.DepthGuard.{
  is_quote, is_backslash, is_opening, is_closing, Scan, step, scan, json_depth_exceeds,
}

-- The text with its strings taken out, begun outside a string, inside of one, or inside of one
-- behind a backslash.
unfoldable mutual
  pub outside : List ℕ → List ℕ
  outside [] = []
  outside (b ∷ bytes) = if is_quote b then inside bytes else b ∷ outside bytes

  pub inside : List ℕ → List ℕ
  inside [] = []
  inside (b ∷ bytes) =
      if is_backslash b then behind bytes else (if is_quote b then outside bytes else inside bytes)

  pub behind : List ℕ → List ℕ
  behind [] = []
  behind (b ∷ bytes) = inside bytes

-- The greatest depth that the braces and brackets reach, from a depth; it does not go below zero.
unfoldable pub peak : ℕ → List ℕ → ℕ
peak depth [] = depth
peak depth (b ∷ bytes) =
    max depth
      (peak (if is_opening b then depth + 1 else (if is_closing b then depth - 1 else depth)) bytes)

peak_ge : (d : ℕ) (bytes : List ℕ) → d ≤ peak d bytes
unfolding peak
peak_ge d [] = omega arith
peak_ge d (b ∷ bytes) = ground arith

module _ (limit : ℕ) where
  abbrev at : ℕ → ℕ → Bool → Bool → Scan
  at depth max_depth in_string escaped = record {
    depth = depth;
    max_depth = max_depth;
    in_string = in_string;
    escaped = escaped;
  }

  -- From each of the three modes of the loop.
  scan_lem :
      (bytes : List ℕ) (d m : ℕ)
      → d ≤ m
      → m ≤ limit
      → (scan limit bytes (at d m false false) ≡ ltb limit (max m (peak d (outside bytes))))
        × (scan limit bytes (at d m true false) ≡ ltb limit (max m (peak d (inside bytes))))
        × (scan limit bytes (at d m true true) ≡ ltb limit (max m (peak d (behind bytes))))
  unfolding scan step peak outside inside behind
  scan_lem [] d m low ok = ground (arith, low, ok)
  scan_lem (b ∷ bytes) d m low ok =
      let (o, i, e) = scan_lem bytes d m low ok in
      (
        elim (Bool-cases (is_quote b)) [
          | inl quote ↦ ground (arith, quote, i)
          | inr plain ↦ elim (Bool-cases (is_opening b)) [
            | inl opens ↦ elim (Bool-cases (ltb m (d + 1))) [
              | inl deeper ↦ elim (Bool-cases (ltb limit (d + 1))) [
                | inl over ↦
                    ground (arith, plain, opens, deeper, over, peak_ge (d + 1) (outside bytes))
                | inr fits ↦
                    let (o', _, _) =
                      scan_lem bytes (d + 1) (d + 1) (omega arith) (ground (arith, fits)) in
                    ground
                      (arith, plain, opens, deeper, fits, o', low, peak_ge (d + 1) (outside bytes))
              ]
              | inr known ↦
                  let (o', _, _) = scan_lem bytes (d + 1) m (ground (arith, known)) ok in
                  ground (arith, plain, opens, known, o', low)
            ]
            | inr level ↦ elim (Bool-cases (is_closing b)) [
              | inl closes ↦
                  let (o', _, _) = scan_lem bytes (d - 1) m (omega (arith, low)) ok in
                  ground (arith, plain, level, closes, o', low)
              | inr other ↦ ground (arith, plain, level, other, o, low)
            ]
          ]
        ],
        ground (arith, i, o, e, ok, low),
        ground (arith, i),
      )

-- The pre-scan, which stops at the first byte that goes too deep, says whether the braces and brackets
-- outside strings nest deeper than the limit anywhere.
pub json_depth_exceeds_lem :
    (bytes : List ℕ) (limit : ℕ)
    → json_depth_exceeds bytes limit ≡ ltb limit (peak 0 (outside bytes))
unfolding json_depth_exceeds
json_depth_exceeds_lem bytes limit =
    let (o, _, _) = scan_lem limit bytes 0 0 (omega arith) (omega arith) in ground (arith, o)

-- ===== src/Wire/Tests.antt =====
-- Runs of the wire protocol's negotiation and guards, and the theorems about them at these.
use cqserver.Prelude.{ℕ, ◌≡◌, refl, true, false, List, [], ◌∷◌, ltb}
use cqserver.Wire.Version.{
  negotiate, negotiated, best_of, supported_versions, IsHighest, negotiate-IsHighest,
}
use cqserver.Wire.DepthGuard.{json_depth_exceeds, scan, step}
use cqserver.Wire.Nesting.{peak, outside, json_depth_exceeds_lem}

negotiate-IsHighest_example :
    IsHighest (3 ∷ 2 ∷ 1 ∷ []) supported_versions (negotiate (3 ∷ 2 ∷ 1 ∷ []) supported_versions)
negotiate-IsHighest_example = negotiate-IsHighest 3 (2 ∷ 1 ∷ []) supported_versions

negotiate_runs : negotiate (3 ∷ 2 ∷ 1 ∷ []) supported_versions ≡ negotiated 2
unfolding negotiate best_of
negotiate_runs = refl

-- `[{"[":[]}]`, whose depth is three.
abbrev nested : List ℕ
nested = 91 ∷ 123 ∷ 34 ∷ 91 ∷ 34 ∷ 58 ∷ 91 ∷ 93 ∷ 125 ∷ 93 ∷ []

json_depth_exceeds_example : json_depth_exceeds nested 2 ≡ ltb 2 (peak 0 (outside nested))
json_depth_exceeds_example = json_depth_exceeds_lem nested 2

exceeds_runs : json_depth_exceeds nested 2 ≡ true
unfolding json_depth_exceeds scan step
exceeds_runs = refl

not_exceeds_runs : json_depth_exceeds nested 3 ≡ false
unfolding json_depth_exceeds scan step
not_exceeds_runs = refl

-- ===== src/Predicate/Kleene.antt =====
-- The combinators obey three-valued logic: a result is known exactly when it is the same however the
-- unknown parts turn out (crates/cq-core/src/predicate.rs).
use cqserver.Prelude.{◌≡◌, arith, Bool, true, false, not, ◌&&◌, ◌||◌}
use cqserver.Predicate.Values.{Ops, Row}
use cqserver.Predicate.Compiled.{CompiledPredicate, and, or, negate}
use cqserver.Predicate.Evaluation.{matches_3vl}
use cqserver.Predicate.Leaf.{Tri, yes, no, unknown, tri, and_3vl, or_3vl, not_3vl}

-- A truth value that a result leaves open.
abbrev pub admits : Tri → Bool → Bool
admits yes b = b
admits no b = not b
admits unknown b = true

-- The result is `v` exactly if the connective gives `v` for all truth values that the parts leave open.
abbrev pub IsKnown : Tri → (Bool → Bool → Bool) → Tri → Tri → Bool → Type 0
IsKnown result connective a b v =
    (result ≡ tri v → (x y : Bool) → admits a x ≡ true → admits b y ≡ true → connective x y ≡ v)
    × (((x y : Bool) → admits a x ≡ true → admits b y ≡ true → connective x y ≡ v) → result ≡ tri v)

and_IsKnown : (a b : Tri) (v : Bool) → IsKnown (and_3vl a b) (λ x y. x && y) a b v
and_IsKnown a b v = (
  λ h x y left right. ground (arith, h, left, right),
  λ h. ground (arith, h true true, h true false, h false true, h false false),
)

or_IsKnown : (a b : Tri) (v : Bool) → IsKnown (or_3vl a b) (λ x y. x || y) a b v
or_IsKnown a b v = (
  λ h x y left right. ground (arith, h, left, right),
  λ h. ground (arith, h true true, h true false, h false true, h false false),
)

not-IsKnown : (a : Tri) (v : Bool) → IsKnown (not_3vl a) (λ x y. not x) a a v
not-IsKnown a v =
    (λ h x y left right. ground (arith, h, left), λ h. ground (arith, h true true, h false false))

-- On every row a conjunction, a disjunction or a negation is known to be true (or to be false)
-- exactly if it is so for all truth values that the results of its parts leave open, where an unknown
-- part leaves both open. So a false part settles a conjunction and a true one a disjunction,
-- whatever the other; and all else with an unknown part is unknown.
pub matches-IsKnown :
    {F R : Type 0} (ops : Ops F R) (row : Row F) (p q : CompiledPredicate F R) (v : Bool)
    → IsKnown
        (matches_3vl ops row (and p q))
        (λ x y. x && y)
        (matches_3vl ops row p)
        (matches_3vl ops row q)
        v
      × IsKnown
          (matches_3vl ops row (or p q))
          (λ x y. x || y)
          (matches_3vl ops row p)
          (matches_3vl ops row q)
          v
      × IsKnown
          (matches_3vl ops row (negate p))
          (λ x y. not x)
          (matches_3vl ops row p)
          (matches_3vl ops row p)
          v
unfolding matches_3vl
matches-IsKnown ops row p q v = (
  and_IsKnown (matches_3vl ops row p) (matches_3vl ops row q) v,
  or_IsKnown (matches_3vl ops row p) (matches_3vl ops row q) v,
  not-IsKnown (matches_3vl ops row p) v,
)

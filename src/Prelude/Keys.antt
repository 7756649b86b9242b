-- ===== src/Prelude/Keys.antt =====
-- Association lists in which no key stands twice.
use mathlib.Core.Path.{◌≡◌, refl}
use mathlib.Core.Logic.{inl, inr}
use mathlib.Core.List.{[], ◌∷◌}
use mathlib.Core.Option.{none}
use native.Mathlib.Omega.{arith}
use cqserver.Prelude.Tests.{Bool-cases}
use cqserver.Prelude.Equality.{Eq, ◌==◌, ==_iff}
use cqserver.Prelude.Maps.{Assoc, lookup, insert, remove, lookup-insert, lookup-remove}

module _ {ℓ κ} {K : Type ℓ} {V : Type κ} ⦃e : Eq K⦄ where
  abbrev pub Distinct : Assoc K V → Type κ
  Distinct [] = Unit
  Distinct ((k, v) ∷ m) = (lookup k m ≡ none) × Distinct m

  pub insert-Distinct : (k : K) (v : V) (m : Assoc K V) → Distinct m → Distinct (insert k v m)
  unfolding insert lookup
  insert-Distinct k v [] d = (refl, tt)
  insert-Distinct k v ((j, w) ∷ m) d = elim (Bool-cases (j == k)) [
    | inl same ↦
        let e : j ≡ k = (==_iff j k).0 same in
        let gone : lookup k m ≡ none = cc (d.0, e) in rw same (gone, d.1)
    | inr other ↦
        let gone : lookup j (insert k v m) ≡ none =
          ground (arith, lookup-insert k j v m, d.0, other, ==_iff j k, ==_iff k j) in
        rw other (gone, insert-Distinct k v m d.1)
  ]

  pub remove-Distinct : (k : K) (m : Assoc K V) → Distinct m → Distinct (remove k m)
  unfolding remove
  remove-Distinct k [] d = tt
  remove-Distinct k ((j, w) ∷ m) d = elim (Bool-cases (j == k)) [
    | inl same ↦ rw same (remove-Distinct k m d.1)
    | inr other ↦
        let gone : lookup j (remove k m) ≡ none = ground (arith, lookup-remove k j m, d.0) in
        rw other (gone, remove-Distinct k m d.1)
  ]

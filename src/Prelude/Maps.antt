-- ===== src/Prelude/Maps.antt =====
-- A map as an association list: what the program keeps in `HashMap`, `BTreeMap` and `DashMap`.
use mathlib.Core.Path.{◌≡◌, refl, subst₂}
use mathlib.Core.Logic.{◌≢◌, inl, inr}
use mathlib.Core.List.{List, [], ◌∷◌}
use mathlib.Core.Option.{Option, none, some}
use Prim.Native.Nat.{◌≤◌, ◌+◌}
use native.Mathlib.Omega.{arith}
use mathlib.Core.Bool.{Bool}
use cqserver.Prelude.Tests.{if◌then◌else◌, Bool-cases}
use cqserver.Prelude.Equality.{Eq, ◌==◌, ==_iff, ==_refl}
use cqserver.Prelude.Lists.{length, All, count_by}

abbrev pub Assoc {ℓ κ} : Type ℓ → Type κ → Type (ℓ ⊔ κ)
Assoc K V = List (K × V)

module _ {ℓ κ} {K : Type ℓ} {V : Type κ} ⦃e : Eq K⦄ where
  unfoldable pub lookup : K → Assoc K V → Option V
  lookup k [] = none
  lookup k ((j, value) ∷ entries) = if j == k then some value else lookup k entries

  unfoldable pub insert : K → V → Assoc K V → Assoc K V
  insert k value [] = (k, value) ∷ []
  insert k value ((j, old) ∷ entries) =
      if j == k then (k, value) ∷ entries else (j, old) ∷ insert k value entries

  unfoldable pub remove : K → Assoc K V → Assoc K V
  remove k [] = []
  remove k ((j, old) ∷ entries) = if j == k then remove k entries else (j, old) ∷ remove k entries

  pub lookup-insert :
      (k j : K) (value : V) (entries : Assoc K V)
      → lookup j (insert k value entries) ≡ (if k == j then some value else lookup j entries)
  unfolding lookup insert
  lookup-insert k j value [] = refl
  lookup-insert k j value ((i, old) ∷ entries) =
      ground (arith, ==_iff k j, ==_iff i k, ==_iff i j, lookup-insert k j value entries)

  pub lookup-remove :
      (k j : K) (entries : Assoc K V)
      → lookup j (remove k entries) ≡ (if k == j then none else lookup j entries)
  unfolding lookup remove
  lookup-remove k j [] = ground arith
  lookup-remove k j ((i, old) ∷ entries) =
      ground (arith, ==_iff k j, ==_iff i k, ==_iff i j, lookup-remove k j entries)

  pub lookup-insert_self :
      (k : K) (value : V) (entries : Assoc K V) → lookup k (insert k value entries) ≡ some value
  lookup-insert_self k value entries = simp (lookup-insert, ==_refl)

  pub lookup-remove_self : (k : K) (entries : Assoc K V) → lookup k (remove k entries) ≡ none
  lookup-remove_self k entries = simp (lookup-remove, ==_refl)

  pub length-remove-le : (k : K) (entries : Assoc K V) → length (remove k entries) ≤ length entries
  unfolding remove
  length-remove-le k [] = omega arith
  length-remove-le k ((i, old) ∷ entries) = ground (arith, length-remove-le k entries)

  module _ {ι} (P : K × V → Type ι) where
    pub All-insert :
        (k : K) (value : V) (entries : Assoc K V)
        → P (k, value)
        → All P entries
        → All P (insert k value entries)
    unfolding insert
    All-insert k value [] p a = (p, tt)
    All-insert k value ((j, old) ∷ entries) p a = elim (Bool-cases (j == k)) [
      | inl same ↦ rw same (p, a.1)
      | inr other ↦ rw other (a.0, All-insert k value entries p a.1)
    ]

    pub All-remove : (k : K) (entries : Assoc K V) → All P entries → All P (remove k entries)
    unfolding remove
    All-remove k [] a = tt
    All-remove k ((j, old) ∷ entries) a = elim (Bool-cases (j == k)) [
      | inl same ↦ rw same (All-remove k entries a.1)
      | inr other ↦ rw other (a.0, All-remove k entries a.1)
    ]

    pub All-lookup :
        (k : K) {value : V} (entries : Assoc K V)
        → All P entries
        → lookup k entries ≡ some value
        → P (k, value)
    unfolding lookup
    All-lookup k [] a e = cc
    All-lookup k {value} ((j, old) ∷ entries) a e = elim (Bool-cases (j == k)) [
      | inl same ↦
          let value : old ≡ value = ground (arith, e, same) in
          subst₂ (λ (x : K) (y : V). P (x, y)) ((==_iff j k).0 same) value a.0
      | inr other ↦ All-lookup k entries a.1 (ground (arith, e, other))
    ]

  pub count_by-insert_new :
      (p : K × V → Bool) (k : K) (value : V) (entries : Assoc K V)
      → lookup k entries ≡ none
      → count_by p (insert k value entries) ≡ (if p (k, value) then 1 else 0) + count_by p entries
  unfolding insert lookup
  count_by-insert_new p k value [] e = refl
  count_by-insert_new p k value ((j, old) ∷ entries) e = elim (Bool-cases (j == k)) [
    | inl same ↦ absurd (ground (arith, e, same))
    | inr other ↦
        let e' : lookup k entries ≡ none = ground (arith, e, other) in
        rw other (omega (arith, count_by-insert_new p k value entries e'))
  ]

  pub lookup-none_of_All :
      (k : K) (entries : Assoc K V) → All (λ e. e.0 ≢ k) entries → lookup k entries ≡ none
  unfolding lookup
  lookup-none_of_All k [] a = refl
  lookup-none_of_All k ((j, old) ∷ entries) a = elim (Bool-cases (j == k)) [
    | inl same ↦ absurd (a.0 ((==_iff j k).0 same))
    | inr other ↦ rw other (lookup-none_of_All k entries a.1)
  ]

-- ===== src/Conflation/View.antt =====
-- What a consumer sees: the rows that the deltas it was sent leave it with. A delta of type Add or
-- Update puts the row's payload there, a whole row, and one of type Remove or Oof evicts the row. The
-- consumer of a sparse subscription, which merges the changed columns of an Update into what it holds, is
-- not one of these.
use cqserver.Prelude.{
  ℕ, true, false, ◌≡◌, refl, Option, none, some, List, [], ◌∷◌, ◌++◌, map, arith, number_eq, ◌==◌,
  ==_iff, if◌then◌else◌, Assoc, lookup, Bool-cases, inl, inr, All, Distinct, Option-cases,
}
use cqserver.Conflation.Conflator.{Delta, added, updated, removed, out_of_focus}

abbrev pub View : Type 0 → Type 0
View D = ℕ → Option D

module _ {D : Type 0} where
  abbrev pub effect : Delta D → Option D
  effect d = elim d.delta_type [
    | added ↦ some d.row_data
    | updated ↦ some d.row_data
    | removed ↦ none
    | out_of_focus ↦ none
  ]

  abbrev pub apply : View D → Delta D → View D
  apply v d r = if d.row == r then effect d else v r

  unfoldable pub apply_all : View D → List (Delta D) → View D
  apply_all v [] = v
  apply_all v (d ∷ ds) = apply_all (apply v d) ds

  pub apply_all-append :
      (v : View D) (xs ys : List (Delta D)) → apply_all v (xs ++ ys) ≡ apply_all (apply_all v xs) ys
  unfolding apply_all
  apply_all-append v [] ys = refl
  apply_all-append v (d ∷ xs) ys = apply_all-append (apply v d) xs ys

  abbrev pub RowIsKey : ℕ × Delta D → Type 0
  RowIsKey e = e.1.row ≡ e.0

  -- The deltas of distinct rows, in whatever order: each shows at its own row.
  pub apply_all-Distinct :
      (v : View D) (m : Assoc ℕ (Delta D)) (r : ℕ)
      → All RowIsKey m
      → Distinct m
      → apply_all v (map (λ e. e.1) m) r ≡ elim (lookup r m) [ some d ↦ effect d | none ↦ v r ]
  unfolding apply_all lookup
  apply_all-Distinct v [] r a d = refl
  apply_all-Distinct v ((k, x) ∷ m) r a d =
      let ih = apply_all-Distinct (apply v x) m r a.1 d.1 in
      elim (Bool-cases (k == r)) [
        | inl same ↦
            let e : k ≡ r = (==_iff k r).0 same in
            let gone : lookup r m ≡ none = cc (d.0, e) in
            let here : (x.row == r) ≡ true = ground (arith, a.0, e) in
            rw same (rw (ih, gone, here) refl)
        | inr other ↦
            let away : (x.row == r) ≡ false = ground (arith, a.0, other) in
            rw other (elim (Option-cases (lookup r m)) [
              | inl gone ↦ rw (ih, gone, away) refl
              | inr (y, found) ↦ rw (ih, found) refl
            ])
      ]

-- ===== src/Predicate/Columns.antt =====
-- The list of the columns that a predicate reads: sorted, without repetitions, and complete
-- (crates/cq-core/src/predicate.rs).
use cqserver.Prelude.{
  ℕ, ◌≡◌, refl, sym, subst, List, [], ◌∷◌, inl, inr, Bool-cases, leb, nat_eq, nat_eq_iff, All,
}
use cqserver.Predicate.Compiled.{
  CompiledPredicate, collect_referenced, insert_sorted, sort, dedup_after, dedup,
  referenced_columns,
}

module _ (P : ℕ → Type 0) where
  insert_sorted-All : (n : ℕ) (ns : List ℕ) → All P (insert_sorted n ns) → P n × All P ns
  unfolding insert_sorted
  insert_sorted-All n [] a = a
  insert_sorted-All n (m ∷ ms) a = elim (Bool-cases (leb n m)) [
    | inl here ↦ let e : insert_sorted n (m ∷ ms) ≡ n ∷ m ∷ ms = rw here refl in subst (All P) e a
    | inr later ↦
        let e : insert_sorted n (m ∷ ms) ≡ m ∷ insert_sorted n ms = rw later refl in
        let b : All P (m ∷ insert_sorted n ms) = subst (All P) e a in
        let (x, c) = insert_sorted-All n ms b.1 in (x, (b.0, c))
  ]

  sort-All : (ns : List ℕ) → All P (sort ns) → All P ns
  unfolding sort
  sort-All [] a = tt
  sort-All (n ∷ ns) a = let (x, b) = insert_sorted-All n (sort ns) a in (x, sort-All ns b)

  dedup_after-All : (p : ℕ) (ns : List ℕ) → P p → All P (dedup_after p ns) → All P ns
  unfolding dedup_after
  dedup_after-All p [] x a = tt
  dedup_after-All p (n ∷ ns) x a = elim (Bool-cases (nat_eq n p)) [
    | inl again ↦
        let e : dedup_after p (n ∷ ns) ≡ dedup_after n ns = rw again refl in
        let b : All P (dedup_after n ns) = subst (All P) e a in
        let same : p ≡ n = sym ((nat_eq_iff n p).0 again) in
        let y : P n = subst P same x in (y, dedup_after-All n ns y b)
    | inr new ↦
        let e : dedup_after p (n ∷ ns) ≡ n ∷ dedup_after n ns = rw new refl in
        let b : All P (n ∷ dedup_after n ns) = subst (All P) e a in
        (b.0, dedup_after-All n ns b.0 b.1)
  ]

  dedup-All : (ns : List ℕ) → All P (dedup ns) → All P ns
  unfolding dedup
  dedup-All [] a = tt
  dedup-All (n ∷ ns) a = (a.0, dedup_after-All n ns a.0 a.1)

  pub All-referenced :
      {F R : Type 0} (p : CompiledPredicate F R)
      → All P (referenced_columns p)
      → All P (collect_referenced p)
  unfolding referenced_columns
  All-referenced p a = sort-All (collect_referenced p) (dedup-All (sort (collect_referenced p)) a)

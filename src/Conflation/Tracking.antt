-- ===== src/Conflation/Tracking.antt =====
-- The conflator keeps the consumer's view: what it holds back, sent, shows what all the deltas that it
-- was given would have shown (crates/cq-core/src/conflation.rs).
use cqserver.Prelude.{
  ℕ, true, false, ◌≡◌, ◌≢◌, refl, ◌∙◌, sym, ap, subst, none, some, List, map, arith, number_eq,
  ◌==◌, ==_iff, lookup, insert, remove, lookup-insert, lookup-remove, All-insert, All-remove,
  Bool-cases, inl, inr, All, Distinct, insert-Distinct, remove-Distinct,
}
use cqserver.Conflation.Conflator.{Delta, Conflator, added, out_of_focus, drain, empty_conflator}
use cqserver.Conflation.View.{
  View, effect, apply, apply_all, apply_all-append, RowIsKey, apply_all-Distinct,
}

module _ {D : Type 0} where
  -- A consumer that has seen `base` will see `now` when it gets what the conflator holds.
  pub record Tracks (base now : View D) (c : Conflator D) : Type 0 where
    pub rows : All RowIsKey c.pending
    pub distinct : Distinct c.pending
    pub shows :
        (r : ℕ)
        → now r ≡ elim (lookup r c.pending) [ some d ↦ effect d | none ↦ apply_all base c.ready r ]
    pub fresh :
        (r : ℕ) (d : Delta D)
        → lookup r c.pending ≡ some d
        → d.delta_type ≡ added
        → apply_all base c.ready r ≡ none

  -- A delta as the evaluator sends it: an Add only for a row that is not shown, and not over an Oof
  -- that is still held back.
  pub record Admissible (now : View D) (c : Conflator D) (d : Delta D) : Type 0 where
    pub absent : d.delta_type ≡ added → now d.row ≡ none
    pub not_evicted :
        d.delta_type ≡ added
        → (prev : Delta D) → lookup d.row c.pending ≡ some prev
        → prev.delta_type ≢ out_of_focus

  pub empty-Tracks : (v : View D) → Tracks v v empty_conflator
  unfolding apply_all lookup
  empty-Tracks v = record { rows = tt; distinct = tt; shows = λ r. refl; fresh = λ r d e. cc }

  pub drain-Tracks :
      (base now : View D) (c : Conflator D) (r : ℕ)
      → Tracks base now c
      → apply_all base (drain c).0 r ≡ now r
  unfolding drain
  drain-Tracks base now c r t =
      rw (apply_all-append base c.ready (map (λ e. e.1) c.pending)) (
        apply_all-Distinct (apply_all base c.ready) c.pending r t.rows t.distinct ∙ sym (t.shows r))

  module _ (base now : View D) (c : Conflator D) (d : Delta D) (t : Tracks base now c) where
    -- The pending delta of the row becomes `m`, which shows what `d` does.
    pub put-Tracks :
        (m : Delta D) (ready : List (Delta D))
        → m.row ≡ d.row
        → effect m ≡ effect d
        → (m.delta_type ≡ added → apply_all base ready d.row ≡ none)
        → ((r : ℕ) → (d.row == r) ≡ false → apply_all base ready r ≡ apply_all base c.ready r)
        → Tracks base
            (apply now d)
            (record { pending = insert m.row m (remove d.row c.pending); ready = ready })
    put-Tracks m ready same shown new elsewhere =
        let m' = insert m.row m (remove d.row c.pending) in
        let here : (r : ℕ) → (d.row == r) ≡ true → lookup r m' ≡ some m =
          λ r at. ground (arith, at, same, lookup-insert m.row r m (remove d.row c.pending)) in
        let away : (r : ℕ) → (d.row == r) ≡ false → lookup r m' ≡ lookup r c.pending = λ r off.
          ground (
            arith,
            off,
            same,
            lookup-insert m.row r m (remove d.row c.pending),
            lookup-remove d.row r c.pending,
          ) in
        record {
          rows = All-insert RowIsKey m.row m _ refl (All-remove RowIsKey d.row c.pending t.rows);
          distinct = insert-Distinct m.row m _ (remove-Distinct d.row c.pending t.distinct);
          shows = λ r. elim (Bool-cases (d.row == r)) [
            | inl at ↦ rw (here r at, at) (sym shown)
            | inr off ↦ ground (arith, away r off, off, elsewhere r off, t.shows r)
          ];
          fresh = λ r x e a. elim (Bool-cases (d.row == r)) [
            | inl at ↦
                let x_is_m : x ≡ m = cc (e, here r at) in
                let at_row : d.row ≡ r = (==_iff d.row r).0 at in
                subst (λ k. apply_all base ready k ≡ none) at_row
                  (new (ap (λ y. y.delta_type) (sym x_is_m) ∙ a))
            | inr off ↦ elsewhere r off ∙ t.fresh r x (sym (away r off) ∙ e) a
          ];
        }

    pub cut-Tracks :
        effect d ≡ none
        → apply_all base c.ready d.row ≡ none
        → Tracks base (apply now d) (record c { pending = remove d.row c.pending })
    cut-Tracks gone clear =
        let m' = remove d.row c.pending in
        let here : (r : ℕ) → (d.row == r) ≡ true → lookup r m' ≡ none =
          λ r at. ground (arith, at, lookup-remove d.row r c.pending) in
        let away : (r : ℕ) → (d.row == r) ≡ false → lookup r m' ≡ lookup r c.pending =
          λ r off. ground (arith, off, lookup-remove d.row r c.pending) in
        record {
          rows = All-remove RowIsKey d.row c.pending t.rows;
          distinct = remove-Distinct d.row c.pending t.distinct;
          shows = λ r. elim (Bool-cases (d.row == r)) [
            | inl at ↦
                let at_row : d.row ≡ r = (==_iff d.row r).0 at in
                rw (here r at, at)
                  (gone ∙ sym (subst (λ k. apply_all base c.ready k ≡ none) at_row clear))
            | inr off ↦ rw (away r off, off) (t.shows r)
          ];
          fresh = λ r x e a. elim (Bool-cases (d.row == r)) [
            | inl at ↦ absurd (cc (e, here r at))
            | inr off ↦ t.fresh r x (sym (away r off) ∙ e) a
          ];
        }

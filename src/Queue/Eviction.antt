-- ===== src/Queue/Eviction.antt =====
-- What one eviction takes out of a queue's backlog.
use cqserver.Prelude.{
  ℕ, zero, suc, ◌≡◌, refl, ap, true, false, some, List, [], ◌∷◌, ◌++◌, arith, back, filter_by,
  position, remove_at, get_elem?, All, Bool-cases, inl, inr, ℤ, ◌≤ℤ◌, ltb_ℤ, int_eq,
}
use cqserver.Queue.State.{Message}
use cqserver.Queue.Buffer.{evict_one_for_cap}
use cqserver.Queue.Order.{IsSorted, back-le}

module _ {V : Type 0} where
  -- The messages above a priority.
  abbrev pub above : ℤ → List (Message V) → List (Message V)
  above p = filter_by (λ m. ltb_ℤ p m.priority)

  above-nil : (p : ℤ) (ms : List (Message V)) → All (λ m. m.priority ≤ℤ p) ms → above p ms ≡ []
  above-nil p [] a = refl
  above-nil p (m ∷ ms) a = ground (arith, above-nil p ms a.1)

  level :
      (p : ℤ) (ms : List (Message V))
      → All (λ m. m.priority ≤ℤ p) ms
      → All (λ m. p ≤ℤ m.priority) ms
      → All (λ m. m.priority ≡ p) ms
  level p [] a b = tt
  level p (m ∷ ms) a b = (ground (arith, a.0, b.0), level p ms a.1 b.1)

  -- A buffer cut before its first message of the lowest priority.
  pub record Cut (p : ℤ) (buf : List (Message V)) : Type 0 where
    pub victim : Message V
    pub tail : List (Message V)
    pub splits : buf ≡ above p buf ++ victim ∷ tail
    pub lowest : victim.priority ≡ p
    pub tail_level : All (λ m. m.priority ≡ p) tail

  weaken :
      (q p : ℤ) (ms : List (Message V))
      → q ≤ℤ p
      → All (λ n. n.priority ≤ℤ q) ms
      → All (λ n. n.priority ≤ℤ p) ms
  weaken q p [] h a = tt
  weaken q p (m ∷ ms) h a = (omega arith, weaken q p ms h a.1)

  kept_splits :
      {p : ℤ} (m : Message V) (ms : List (Message V)) (c : Cut p ms)
      → above p (m ∷ ms) ≡ m ∷ above p ms
      → m ∷ ms ≡ above p (m ∷ ms) ++ c.victim ∷ c.tail
  kept_splits m ms c kept = rw kept (ap (◌∷◌ m) c.splits)

  Cut-at :
      (p : ℤ) (buf : List (Message V)) (i : ℕ)
      → IsSorted buf
      → All (λ m. p ≤ℤ m.priority) buf
      → position (λ m. int_eq m.priority p) buf ≡ some i
      → (c : Cut p buf) × (remove_at i buf ≡ above p buf ++ c.tail)
        × (get_elem? buf i ≡ some c.victim)
  Cut-at p [] i s a e = cc
  Cut-at p (m ∷ ms) zero s a e =
      let h : int_eq m.priority p ≡ true = ground (arith, e) in
      let flat : All (λ n. n.priority ≤ℤ p) ms = weaken m.priority p ms (ground arith) s.0 in
      let none_above : above p (m ∷ ms) ≡ [] = above-nil p (m ∷ ms) (ground arith, flat) in
      (
        record {
          victim = m;
          tail = ms;
          splits = rw none_above;
          lowest = ground arith;
          tail_level = level p ms flat a.1;
        },
        rw none_above,
        refl,
      )
  Cut-at p (m ∷ ms) (suc j) s a e =
      let h : int_eq m.priority p ≡ false = ground (arith, e) in
      let e' : position (λ n. int_eq n.priority p) ms ≡ some j = ground (arith, e) in
      let (c, removed, found) = Cut-at p ms j s.1 a.1 e' in
      let kept : above p (m ∷ ms) ≡ m ∷ above p ms = ground (arith, a.0) in
      (
        record {
          victim = c.victim;
          tail = c.tail;
          splits = kept_splits m ms c kept;
          lowest = c.lowest;
          tail_level = c.tail_level;
        },
        rw kept (ap (◌∷◌ m) removed),
        found,
      )

  position_of_back :
      (buf : List (Message V)) (t : Message V)
      → back buf ≡ some t
      → (i : ℕ) × (position (λ m. int_eq m.priority t.priority) buf ≡ some i)
  position_of_back [] t e = cc
  position_of_back (m ∷ []) t e = (0, ground arith)
  position_of_back (m ∷ n ∷ ms) t e =
      let (i, found) = position_of_back (n ∷ ms) t e in
      elim (Bool-cases (int_eq m.priority t.priority)) [
        | inl h ↦ (0, rw h)
        | inr h ↦ (suc i, rw (h, found))
      ]

  -- On a sorted buffer that is not empty the oldest message of the lowest priority goes, and the
  -- rest keeps its order.
  pub evict_one_for_cap_lem :
      (buf : List (Message V)) (t : Message V)
      → IsSorted buf
      → back buf ≡ some t
      → (c : Cut t.priority buf) × (evict_one_for_cap buf
          ≡ (above t.priority buf ++ c.tail, some c.victim))
  unfolding evict_one_for_cap
  evict_one_for_cap_lem buf t s e =
      let (i, found) = position_of_back buf t e in
      let (c, removed, victim) = Cut-at t.priority buf i s (back-le buf t s e) found in
      (c, rw (e, evict_one_for_cap, found) (rw (removed, victim)))

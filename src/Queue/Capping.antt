-- ===== src/Queue/Capping.antt =====
-- The loop of evictions makes room below the cap.
use cqserver.Prelude.{
  ℕ, zero, suc, ◌+◌, ◌≡◌, ◌≤◌, ◌<◌, refl, ap, subst, ◌∙◌, sym, none, some, List, [], ◌∷◌, ◌++◌,
  arith, length, back, All, Bool-cases, Option-cases, leb, inl, inr, ℤ, ◌≤ℤ◌, length-append,
  All-append, append-All,
}
use cqserver.Queue.State.{Message, Event, overflow_dropped}
use cqserver.Queue.Buffer.{evict_one_for_cap, evict_to_cap}
use cqserver.Queue.Order.{IsSorted, back-le}
use cqserver.Queue.Eviction.{above, Cut, evict_one_for_cap_lem}

module _ {V : Type 0} where
  length-evict_one :
      (buf : List (Message V)) (t : Message V)
      → IsSorted buf
      → back buf ≡ some t
      → suc (length (evict_one_for_cap buf).0) ≡ length buf
  length-evict_one buf t s e =
      let (c, evicted) = evict_one_for_cap_lem buf t s e in
      omega (
        arith,
        ap (λ r. length r.0) evicted,
        ap length c.splits,
        length-append (above t.priority buf) c.tail,
        length-append (above t.priority buf) (c.victim ∷ c.tail),
      )

  IsSorted-without :
      (xs ys : List (Message V)) (v : Message V) → IsSorted (xs ++ v ∷ ys) → IsSorted (xs ++ ys)
  IsSorted-without [] ys v s = s.1
  IsSorted-without (x ∷ xs) ys v s =
      let P = λ (n : Message V). n.priority ≤ℤ x.priority in
      let (l, r) = All-append P xs (v ∷ ys) s.0 in
      (append-All P xs ys l r.1, IsSorted-without xs ys v s.1)

  -- Every eviction drops a message whose priority is at most that of each message kept.
  abbrev pub IsLowest : List (Message V) → Event V → Type 0
  IsLowest kept (overflow_dropped m) = All (λ n. m.priority ≤ℤ n.priority) kept
  IsLowest kept _ = ⊥

  pub record Fits (cap : ℕ) (buf kept : List (Message V)) (events : List (Event V)) : Type 0 where
    pub room : length kept < cap
    pub sorted : IsSorted kept
    pub dropped : All (IsLowest kept) events
    pub counted : length kept + length events ≡ length buf

  All-rest :
      (P : Message V → Type 0) {p : ℤ} {buf : List (Message V)} (c : Cut p buf)
      → All P buf
      → All P (above p buf ++ c.tail)
  All-rest P {p} {buf} c a =
      let (l, r) = All-append P (above p buf) (c.victim ∷ c.tail) (subst (All P) c.splits a) in
      append-All P (above p buf) c.tail l r.1

  IsSorted-rest :
      {p : ℤ} {buf : List (Message V)} (c : Cut p buf)
      → IsSorted buf
      → IsSorted (above p buf ++ c.tail)
  IsSorted-rest {p} {buf} c s =
      IsSorted-without (above p buf) c.tail c.victim (subst IsSorted c.splits s)

  evict_none : (buf : List (Message V)) → back buf ≡ none → evict_one_for_cap buf ≡ (buf, none)
  unfolding evict_one_for_cap
  evict_none buf e = rw (e, evict_one_for_cap)

  back-some : (buf : List (Message V)) → 0 < length buf → (t : Message V) × (back buf ≡ some t)
  back-some [] h = absurd (omega arith)
  back-some (m ∷ []) h = (m, refl)
  back-some (m ∷ n ∷ ms) h = back-some (n ∷ ms) (omega arith)

  victim-le :
      {p : ℤ} {buf : List (Message V)} (c : Cut p buf)
      → All (λ m. p ≤ℤ m.priority) buf
      → All (λ m. c.victim.priority ≤ℤ m.priority) buf
  victim-le c a = rw c.lowest a

  All-evict_to_cap :
      (P : Message V → Type 0) (fuel cap : ℕ) (buf : List (Message V))
      → IsSorted buf
      → All P buf
      → All P (evict_to_cap fuel cap buf).0
  unfolding evict_to_cap
  All-evict_to_cap P zero cap buf s a = a
  All-evict_to_cap P (suc fuel) cap buf s a = elim (Bool-cases (leb cap (length buf))) [
    | inl full ↦ rw full (elim (Option-cases (back buf)) [
      | inl e ↦ rw (evict_none buf e) (All-evict_to_cap P fuel cap buf s a)
      | inr (t, e) ↦
          let (c, evicted) = evict_one_for_cap_lem buf t s e in
          rw evicted (All-evict_to_cap P fuel cap _ (IsSorted-rest c s) (All-rest P c a))
    ])
    | inr below ↦ rw below a
  ]

  -- With fuel for each message of a sorted buffer and a cap that is not zero, the loop leaves room for
  -- one more below the cap, sorted; it drops as many messages as are then missing, none of a higher
  -- priority than any that stays.
  pub evict_to_cap-Fits :
      (fuel cap : ℕ) (buf : List (Message V))
      → 0 < cap
      → length buf ≤ fuel
      → IsSorted buf
      → Fits cap buf (evict_to_cap fuel cap buf).0 (evict_to_cap fuel cap buf).1
  unfolding evict_to_cap
  evict_to_cap-Fits zero cap [] pos h s = record {
    room = pos;
    sorted = tt;
    dropped = tt;
    counted = omega arith;
  }
  evict_to_cap-Fits zero cap (m ∷ ms) pos h s = absurd (omega arith)
  evict_to_cap-Fits (suc fuel) cap buf pos h s = elim (Bool-cases (leb cap (length buf))) [
    | inl full ↦
        let (t, e) = back-some buf (ground arith) in
        let (c, evicted) = evict_one_for_cap_lem buf t s e in
        let rest = above t.priority buf ++ c.tail in
        let shorter : suc (length rest) ≡ length buf =
          ap (λ r. suc (length r.0)) (sym evicted) ∙ length-evict_one buf t s e in
        let ih = evict_to_cap-Fits fuel cap rest pos (omega arith) (IsSorted-rest c s) in
        rw (full, evicted)
          (record {
            room = ih.room;
            sorted = ih.sorted;
            dropped = (
              All-evict_to_cap (λ m. c.victim.priority ≤ℤ m.priority) fuel cap rest
                  (IsSorted-rest c s)
                  (All-rest (λ m. c.victim.priority ≤ℤ m.priority) c
                    (victim-le c (back-le buf t s e))),
              ih.dropped,
            );
            counted = omega (arith, ih.counted, shorter);
          })
    | inr below ↦
        rw below (record { room = ground arith; sorted = s; dropped = tt; counted = omega arith })
  ]

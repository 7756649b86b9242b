-- ===== src/Queue/Order.antt =====
-- The order of a queue's backlog: what insertion by priority does to a sorted buffer.
use mathlib.Core.Option
use cqserver.Prelude.{
  ◌≡◌, refl, ◌∙◌, sym, true, none, some, List, [], ◌∷◌, ◌++◌, arith, if◌then◌else◌, length, back,
  filter_by, position, insert_at, All, Bool-cases, Option-cases, inl, inr, ℤ, ◌≤ℤ◌, ltb_ℤ, leb_ℤ,
}
use cqserver.Queue.State.{Message}
use cqserver.Queue.Buffer.{insert_by_priority}

module _ {V : Type 0} where
  -- Highest priority first.
  abbrev pub IsSorted : List (Message V) → Type 0
  IsSorted [] = Unit
  IsSorted (m ∷ ms) = All (λ n. n.priority ≤ℤ m.priority) ms × IsSorted ms

  abbrev pub at_least : ℤ → List (Message V) → List (Message V)
  at_least p = filter_by (λ m. leb_ℤ p m.priority)

  abbrev pub below : ℤ → List (Message V) → List (Message V)
  below p = filter_by (λ m. ltb_ℤ m.priority p)

  -- Insertion before the first message of a lower priority.
  place : Message V → List (Message V) → List (Message V)
  place msg [] = msg ∷ []
  place msg (m ∷ ms) = if ltb_ℤ m.priority msg.priority then msg ∷ m ∷ ms else m ∷ place msg ms

  insert_at-eq-place :
      (msg : Message V) (buf : List (Message V))
      → insert_at
          (Option.get_or (position (λ m. ltb_ℤ m.priority msg.priority) buf) (length buf))
          msg
          buf
        ≡ place msg buf
  unfolding place
  insert_at-eq-place msg [] = refl
  insert_at-eq-place msg (m ∷ ms) = ground (arith, insert_at-eq-place msg ms)

  All-mono :
      (p q : ℤ) (ms : List (Message V))
      → p ≤ℤ q
      → All (λ m. q ≤ℤ m.priority) ms
      → All (λ m. p ≤ℤ m.priority) ms
  All-mono p q [] h a = tt
  All-mono p q (m ∷ ms) h a = (omega arith, All-mono p q ms h a.1)

  back-ne-none : (m : Message V) (ms : List (Message V)) → back (m ∷ ms) ≡ none → ⊥
  back-ne-none m [] e = cc
  back-ne-none m (n ∷ ms) e = back-ne-none n ms e

  pub back-le :
      (buf : List (Message V)) (t : Message V)
      → IsSorted buf
      → back buf ≡ some t
      → All (λ m. t.priority ≤ℤ m.priority) buf
  back-le [] t s e = cc
  back-le (m ∷ []) t s e = (ground arith, tt)
  back-le (m ∷ n ∷ ms) t s e =
      let rest = back-le (n ∷ ms) t s.1 e in (ground (arith, rest.0, s.0.0), rest)

  All-of_none : (p : ℤ) (buf : List (Message V)) → back buf ≡ none → All (λ m. p ≤ℤ m.priority) buf
  All-of_none p [] e = tt
  All-of_none p (m ∷ []) e = cc
  All-of_none p (m ∷ n ∷ ms) e = absurd (back-ne-none n ms e)

  All-below :
      (q p : ℤ) (ms : List (Message V))
      → ltb_ℤ q p ≡ true
      → All (λ m. m.priority ≤ℤ q) ms
      → All (λ m. m.priority ≤ℤ p) ms
  All-below q p [] h a = tt
  All-below q p (m ∷ ms) h a = (ground (arith, a.0), All-below q p ms h a.1)

  place_append :
      (msg : Message V) (buf : List (Message V))
      → All (λ m. msg.priority ≤ℤ m.priority) buf
      → place msg buf ≡ buf ++ msg ∷ []
  unfolding place
  place_append msg [] a = refl
  place_append msg (m ∷ ms) a = ground (arith, place_append msg ms a.1)

  -- On a sorted buffer the test of the tail and the search for a place agree.
  insert_by_priority-eq-place :
      (msg : Message V) (buf : List (Message V))
      → IsSorted buf
      → insert_by_priority msg buf ≡ place msg buf
  unfolding insert_by_priority
  insert_by_priority-eq-place msg buf s = elim (Option-cases (back buf)) [
    | inl e ↦
        rw (e, insert_by_priority) (sym (place_append msg buf (All-of_none msg.priority buf e)))
    | inr (t, e) ↦ elim (Bool-cases (leb_ℤ msg.priority t.priority)) [
      | inl h ↦
          rw (e, insert_by_priority, h)
            (sym (
              place_append msg buf
                (All-mono msg.priority t.priority buf (ground arith) (back-le buf t s e))))
      | inr h ↦ rw (e, insert_by_priority, h) (insert_at-eq-place msg buf)
    ]
  ]

  at_least-nil :
      (p q : ℤ) (ms : List (Message V))
      → ltb_ℤ q p ≡ true
      → All (λ m. m.priority ≤ℤ q) ms
      → at_least p ms ≡ []
  at_least-nil p q [] h a = refl
  at_least-nil p q (m ∷ ms) h a = ground (arith, at_least-nil p q ms h a.1)

  below_self :
      (p q : ℤ) (ms : List (Message V))
      → ltb_ℤ q p ≡ true
      → All (λ m. m.priority ≤ℤ q) ms
      → below p ms ≡ ms
  below_self p q [] h a = refl
  below_self p q (m ∷ ms) h a = ground (arith, below_self p q ms h a.1)

  place_lem :
      (msg : Message V) (buf : List (Message V))
      → IsSorted buf
      → place msg buf ≡ at_least msg.priority buf ++ msg ∷ below msg.priority buf
  unfolding place
  place_lem msg [] s = refl
  place_lem msg (m ∷ ms) s = elim (Bool-cases (ltb_ℤ m.priority msg.priority)) [
    | inl h ↦ ground (
      arith,
      at_least-nil msg.priority m.priority ms h s.0,
      below_self msg.priority m.priority ms h s.0,
    )
    | inr h ↦ ground (arith, place_lem msg ms s.1)
  ]

  -- On a sorted buffer the new message stands behind every message of at least its priority and
  -- before every message of a lower one, and neither group changes its order.
  pub insert_by_priority_lem :
      (msg : Message V) (buf : List (Message V))
      → IsSorted buf
      → insert_by_priority msg buf ≡ at_least msg.priority buf ++ msg ∷ below msg.priority buf
  insert_by_priority_lem msg buf s = insert_by_priority-eq-place msg buf s ∙ place_lem msg buf s

  All-place :
      (msg : Message V) (p : ℤ) (ms : List (Message V))
      → msg.priority ≤ℤ p
      → All (λ n. n.priority ≤ℤ p) ms
      → All (λ n. n.priority ≤ℤ p) (place msg ms)
  unfolding place
  All-place msg p [] h a = (h, tt)
  All-place msg p (m ∷ ms) h a = ground (arith, All-place msg p ms h a.1)

  place-IsSorted :
      (msg : Message V) (buf : List (Message V)) → IsSorted buf → IsSorted (place msg buf)
  unfolding place
  place-IsSorted msg [] s = (tt, tt)
  place-IsSorted msg (m ∷ ms) s = elim (Bool-cases (ltb_ℤ m.priority msg.priority)) [
    | inl h ↦ rw h ((ground arith, All-below m.priority msg.priority ms h s.0), s)
    | inr h ↦ rw h (All-place msg m.priority ms (ground arith) s.0, place-IsSorted msg ms s.1)
  ]

  -- Insertion keeps the buffer sorted.
  pub insert_by_priority-IsSorted :
      (msg : Message V) (buf : List (Message V))
      → IsSorted buf
      → IsSorted (insert_by_priority msg buf)
  insert_by_priority-IsSorted msg buf s =
      rw (insert_by_priority-eq-place msg buf s) (place-IsSorted msg buf s)

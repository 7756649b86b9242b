-- ===== src/Queue/Counting.antt =====
-- Counts of the messages that a queue holds and that its events give up, and what the parts of an
-- operation on the backlog and on the leases do to them.
use mathlib.Core.Option
use cqserver.Prelude.{
  ℕ, zero, suc, ◌+◌, ◌≤◌, ◌<◌, ◌≡◌, refl, Bool, false, List, [], ◌∷◌, arith, if◌then◌else◌,
  Bool-cases, Option-cases, inl, inr, All, length, leb, Assoc, number_eq, count_by, count_by-append,
  count_by-insert_at, count_by-remove_at, back, position, ltb_ℤ, int_eq,
}
use cqserver.Queue.State.{
  Message, Lease, Queue, Event, overflow_dropped, max_redelivery_dropped, u64_mod,
}
use cqserver.Queue.Buffer.{insert_by_priority, evict_one_for_cap, evict_to_cap, overflow}
use cqserver.Queue.Delivery.{take_expired}

module _ {V : Type 0} where
  -- The delivery ids in flight are ids that were given out, and `n` more do not wrap around.
  pub record HasRoom (n : ℕ) (q : Queue V) : Type 0 where
    pub ids : All (λ e. e.0 ≤ q.next_delivery_id) q.in_flight
    pub room : q.next_delivery_id + n < u64_mod

  pub HasRoom-le : (n m : ℕ) (q : Queue V) → n ≤ m → HasRoom m q → HasRoom n q
  HasRoom-le n m q le h = record { ids = h.ids; room = omega (arith, h.room) }

module _ {V : Type 0} (p : Message V → Bool) where
  -- A count of the messages that the test `p` selects: one of them, a group's, or all.
  abbrev pub one : Message V → ℕ
  one m = if p m then 1 else 0

  abbrev pub waiting : List (Message V) → ℕ
  waiting = count_by p

  abbrev pub leased : Assoc ℕ (Lease V) → ℕ
  leased = count_by (λ e. p e.1.msg)

  abbrev pub held : Queue V → ℕ
  held q = waiting q.buffer + leased q.in_flight

  abbrev pub gives_up : Event V → Bool
  gives_up (overflow_dropped m) = p m
  gives_up (max_redelivery_dropped l) = p l.msg
  gives_up _ = false

  abbrev pub given_up : List (Event V) → ℕ
  given_up = count_by gives_up

  pub waiting-insert :
      (m : Message V) (buf : List (Message V))
      → waiting (insert_by_priority m buf) ≡ one m + waiting buf
  unfolding insert_by_priority
  waiting-insert m buf = elim (Option-cases (back buf)) [
    | inl e ↦ rw (e, insert_by_priority) (omega (arith, count_by-append p buf (m ∷ [])))
    | inr (t, e) ↦
        rw (e, insert_by_priority)
          (ground (
            arith,
            count_by-append p buf (m ∷ []),
            count_by-insert_at p
                (Option.get_or (position (λ n. ltb_ℤ n.priority m.priority) buf) (length buf)) m
                buf,
          ))
  ]

  waiting-evict_one :
      (buf : List (Message V))
      → waiting buf
        ≡ given_up (overflow (evict_one_for_cap buf).1) + waiting (evict_one_for_cap buf).0
  unfolding evict_one_for_cap
  waiting-evict_one buf = elim (Option-cases (back buf)) [
    | inl e ↦ rw (e, evict_one_for_cap) (omega arith)
    | inr (t, e) ↦
        rw (e, evict_one_for_cap)
          (ground (
            arith,
            count_by-remove_at p
                (Option.get_or (position (λ n. int_eq n.priority t.priority) buf) 0) buf,
          ))
  ]

  pub waiting-evict_to_cap :
      (fuel cap : ℕ) (buf : List (Message V))
      → waiting buf ≡ given_up (evict_to_cap fuel cap buf).1 + waiting (evict_to_cap fuel cap buf).0
  unfolding evict_to_cap
  waiting-evict_to_cap zero limit buf = omega arith
  waiting-evict_to_cap (suc fuel) limit buf = elim (Bool-cases (leb limit (length buf))) [
    | inl full ↦ rw full (
        omega (
          arith,
          waiting-evict_one buf,
          waiting-evict_to_cap fuel limit (evict_one_for_cap buf).0,
          count_by-append gives_up (overflow (evict_one_for_cap buf).1)
              (evict_to_cap fuel limit (evict_one_for_cap buf).0).1,
        ))
    | inr below ↦ rw below (omega arith)
  ]

  pub leased-take_expired :
      (now : ℕ) (m : Assoc ℕ (Lease V))
      → leased m ≡ count_by (λ l. p l.msg) (take_expired now m).0 + leased (take_expired now m).1
  unfolding take_expired
  leased-take_expired now [] = refl
  leased-take_expired now ((did, l) ∷ m) = ground (arith, leased-take_expired now m)

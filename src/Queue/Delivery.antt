-- ===== src/Queue/Delivery.antt =====
-- Frames, leases and the round of a sweep (`deliver`, `deliver_with_lease` and the loop body of
-- `sweep_expired_with_queues` in crates/cq-transport/src/queue.rs).
use cqserver.Prelude.{
  ℕ, ◌+◌, ◌%◌, String, Bool, Option, none, some, List, [], ◌∷◌, ltb, leb, if◌then◌else◌, Assoc,
  insert, number_eq,
}
use cqserver.Queue.State.{Message, Lease, Queue, Frame, Event, Registry, delivery, u32_mod, u64_mod}
use cqserver.Queue.Buffer.{insert_by_priority}
use cqserver.Queue.Routing.{pick_next_consumer_excluding}

module _ {V : Type 0} where
  unfoldable pub frame_of : String → Message V → String → Option ℕ → Frame V
  frame_of sub msg queue did = record {
    to = sub;
    topic = queue;
    number = msg.sequence;
    content = msg.body;
    delivery_id = did;
  }

  module _ (reg : Registry V) (now : ℕ) where
    unfoldable pub deliver : String → Message V → String → Option ℕ → Event V
    unfolding frame_of
    deliver sub msg queue did = let frame = frame_of sub msg queue did in delivery frame (reg frame)

    unfoldable pub deliver_with_lease : String → Message V → ℕ → Queue V → Queue V × List (Event V)
    unfolding deliver
    deliver_with_lease sub msg count q = elim q.lease_ms [
      | none ↦ (q, deliver sub msg q.name none ∷ [])
      | some ms ↦
          let did = (q.next_delivery_id + 1) % u64_mod in
          let lease : Lease V = record {
            msg = msg;
            sub_id = sub;
            expires_at = now + ms;
            redelivery_count = count;
          } in
          (
            record q {
              inner = record q.inner {
                next_delivery_id = did;
                in_flight = insert did lease q.in_flight;
              };
            },
            deliver sub msg q.name (some did) ∷ [],
          )
    ]

    -- The last part of a sweep's round: the lease goes to the next consumer, or to the buffer.
    unfoldable pub redeliver : Lease V → Queue V → Queue V × List (Event V)
    unfolding pick_next_consumer_excluding insert_by_priority deliver_with_lease
    redeliver lease q =
        let (next, g) = pick_next_consumer_excluding lease.sub_id q.inner in
        elim next [
          | some sid ↦
              deliver_with_lease sid lease.msg ((lease.redelivery_count + 1) % u32_mod)
                (record q { inner = g })
          | none ↦
              (record q { inner = record g { buffer = insert_by_priority lease.msg g.buffer } }, [])
        ]

  -- `redelivery_count + 1 > max_delivery_count`
  unfoldable pub is_exhausted : Lease V → Queue V → Bool
  is_exhausted lease q = ltb q.max_delivery_count ((lease.redelivery_count + 1) % u32_mod)

  abbrev pub is_expired : ℕ → ℕ × Lease V → Bool
  is_expired now (did, lease) = leb lease.expires_at now

  -- The leases that have run out, and those that stay in flight.
  unfoldable pub take_expired : ℕ → Assoc ℕ (Lease V) → List (Lease V) × Assoc ℕ (Lease V)
  take_expired now [] = ([], [])
  take_expired now ((did, lease) ∷ m) =
      let (out, kept) = take_expired now m in
      if leb lease.expires_at now then (lease ∷ out, kept) else (out, (did, lease) ∷ kept)

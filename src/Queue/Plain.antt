-- ===== src/Queue/Plain.antt =====
-- The events of a delivery and of an eviction, and the settings that no operation changes.
use cqserver.Prelude.{
  ℕ, zero, suc, ◌+◌, ◌%◌, ◌≡◌, refl, ◌∙◌, String, Bool, true, false, Option, none, some, List,
  arith, Bool-cases, Option-cases, inl, inr, All, append-All, All-weaken, length, string_eq, leb,
}
use cqserver.Queue.State.{
  Message, Lease, Queue, Event, Registry, max_redelivery_dropped, dlq_routed, u32_mod,
}
use cqserver.Queue.Buffer.{evict_to_cap, evict_one_for_cap, overflow}
use cqserver.Queue.Routing.{pick_consumer_for, pick_next_consumer_excluding}
use cqserver.Queue.Delivery.{deliver_with_lease, deliver, redeliver}
use cqserver.Queue.Operations.{buffer_message, dispatch}

module _ {V : Type 0} where
  -- A message given up for having been redelivered too often, and one handed to another queue.
  abbrev pub is_max_drop : Event V → Bool
  is_max_drop (max_redelivery_dropped _) = true
  is_max_drop _ = false

  abbrev pub is_routed : Event V → Bool
  is_routed (dlq_routed _ _) = true
  is_routed _ = false

  abbrev pub NotRouted : Event V → Type 0
  NotRouted e = is_routed e ≡ false

  abbrev pub NotDropped : Event V → Type 0
  NotDropped e = is_max_drop e ≡ false

  -- Both kinds are kept out of the events of a delivery and of an eviction.
  abbrev pub IsPlain : Event V → Type 0
  IsPlain e = NotRouted e × NotDropped e

  IsPlain-overflow : (o : Option (Message V)) → All IsPlain (overflow o)
  IsPlain-overflow none = tt
  IsPlain-overflow (some m) = ((refl, refl), tt)

  IsPlain-evict :
      (fuel limit : ℕ) (buf : List (Message V)) → All IsPlain (evict_to_cap fuel limit buf).1
  unfolding evict_to_cap
  IsPlain-evict zero limit buf = tt
  IsPlain-evict (suc fuel) limit buf = elim (Bool-cases (leb limit (length buf))) [
    | inl full ↦ rw full (
        append-All IsPlain (overflow (evict_one_for_cap buf).1) _
          (IsPlain-overflow (evict_one_for_cap buf).1)
          (IsPlain-evict fuel limit (evict_one_for_cap buf).0))
    | inr below ↦ rw below tt
  ]

  pub unrouted : (es : List (Event V)) → All IsPlain es → All NotRouted es
  unrouted es = All-weaken IsPlain NotRouted (λ e h. h.0) es

  pub undropped : (es : List (Event V)) → All IsPlain es → All NotDropped es
  undropped es = All-weaken IsPlain NotDropped (λ e h. h.1) es

  -- What a queue is configured with, which no operation changes.
  pub record SameConfig (q q' : Queue V) : Type 0 where
    pub lease_ms : q'.lease_ms ≡ q.lease_ms
    pub dlq_name : q'.dlq_name ≡ q.dlq_name
    pub limit : q'.max_delivery_count ≡ q.max_delivery_count
    pub name : q'.name ≡ q.name

  same_config :
      (q q' q'' : Queue V)
      → q'.lease_ms ≡ q.lease_ms
      → q'.dlq_name ≡ q.dlq_name
      → q'.max_delivery_count ≡ q.max_delivery_count
      → q'.name ≡ q.name
      → SameConfig q' q''
      → SameConfig q q''
  same_config q q' q'' a b l n c = record {
    lease_ms = c.lease_ms ∙ a;
    dlq_name = c.dlq_name ∙ b;
    limit = c.limit ∙ l;
    name = c.name ∙ n;
  }

  module _ (reg : Registry V) (now : ℕ) where
    deliver_events :
        (sub : String) (m : Message V) (count : ℕ) (q : Queue V)
        → All IsPlain (deliver_with_lease reg now sub m count q).1
    unfolding deliver_with_lease deliver
    deliver_events sub m count q = elim (Option-cases q.lease_ms) [
      | inl e ↦ rw (e, deliver_with_lease) ((refl, refl), tt)
      | inr (ms, e) ↦ rw (e, deliver_with_lease) ((refl, refl), tt)
    ]

    deliver_config :
        (sub : String) (m : Message V) (count : ℕ) (q : Queue V)
        → SameConfig q (deliver_with_lease reg now sub m count q).0
    unfolding deliver_with_lease
    deliver_config sub m count q = record {
      lease_ms = ground arith;
      dlq_name = ground arith;
      limit = ground arith;
      name = ground arith;
    }

    pub redeliver-IsPlain :
        (l : Lease V) (q : Queue V)
        → All IsPlain (redeliver reg now l q).1 × SameConfig q (redeliver reg now l q).0
    unfolding redeliver
    redeliver-IsPlain l q = elim (Option-cases (pick_next_consumer_excluding l.sub_id q.inner).0) [
      | inl e ↦
          rw (e, redeliver)
            (tt, record { lease_ms = refl; dlq_name = refl; limit = refl; name = refl })
      | inr (sid, e) ↦
          rw (e, redeliver)
            (
              deliver_events sid l.msg ((l.redelivery_count + 1) % u32_mod) _,
              same_config q (record q { inner = (pick_next_consumer_excluding l.sub_id q.inner).1 })
                  _ refl refl refl refl
                  (deliver_config sid l.msg ((l.redelivery_count + 1) % u32_mod) _),
            )
    ]

    pub dispatch-IsPlain :
        (m : Message V) (q : Queue V)
        → All IsPlain (dispatch reg now m q).1 × SameConfig q (dispatch reg now m q).0
    unfolding dispatch buffer_message
    dispatch-IsPlain m q = elim (Option-cases (pick_consumer_for m.group q.inner).0) [
      | inl e ↦
          rw (e, dispatch)
            (
              IsPlain-evict _ _ _,
              record { lease_ms = refl; dlq_name = refl; limit = refl; name = refl },
            )
      | inr (sid, e) ↦
          rw (e, dispatch)
            (
              deliver_events sid m 0 _,
              same_config q (record q { inner = (pick_consumer_for m.group q.inner).1 }) _ refl refl
                  refl refl (deliver_config sid m 0 _),
            )
    ]

-- ===== src/Queue/Reachable.antt =====
-- A queue as it is used: any sequence of its operations, at any times and under any answers of the
-- session registry.
use cqserver.Prelude.{
  lookup, string_eq, number_eq, [], refl, arith, ==_iff, ℕ, ◌≡◌, subst, String, Option, some, List,
}
use cqserver.Queue.State.{Queue, Event, Registry, PublishOpts}
use cqserver.Queue.Operations.{
  sweep_expired_with_queues, add_consumer, sweep_expired, publish_with_opts,
}
use cqserver.Queue.Swept.{swept-IsValid}
use cqserver.Queue.Settings.{
  Json, Queues, with_max_buffer, with_max_delivery_count, with_dlq, with_lease, ack, extend_lease,
  remove_consumer,
}
use cqserver.Queue.Valid.{IsValid}
use cqserver.Queue.Draining.{add_consumer_lem}
use cqserver.Queue.Invariant.{
  with_lease-IsValid, ack-IsValid, extend_lease-IsValid, remove_consumer-IsValid,
  sweep_expired-IsValid, publish_with_opts-IsValid,
}

module _ {V : Type 0} where
  pub data Step : Queue V → Queue V → Type 0 where
    published :
        (reg : Registry V) (now : ℕ) (v : V) (opts : PublishOpts) (q : Queue V)
        → Step q (publish_with_opts reg now v opts q).0
    swept : (reg : Registry V) (now : ℕ) (q : Queue V) → Step q (sweep_expired reg now q).0
    acked : (did : ℕ) (q : Queue V) → Step q (ack did q).0
    extended : (now did extra_ms : ℕ) (q : Queue V) → Step q (extend_lease now did extra_ms q).0
    added :
        (reg : Registry V) (now : ℕ) (sub : String) (q : Queue V) (r : Queue V × List (Event V))
        → add_consumer reg now sub q ≡ some r
        → Step q r.0
    removed : (sub : String) (q : Queue V) → Step q (remove_consumer sub q).0
    -- The sweep of the background task over the queue `name`, as the queue `other` of the registry sees
    -- it: the one that is swept, its dead-letter queue, or one that is neither.
    routed :
        (reg : Registry V) (now : ℕ) (json : Json V) (name other : String) (qs : Queues V)
        (q r : Queue V)
        → lookup other qs ≡ some q
        → lookup other (sweep_expired_with_queues reg now json name qs).0 ≡ some r
        → Step q r

  -- A queue as it is made: by with_lease, and then the builders.
  pub data Made : Queue V → Type 0 where
    leased : (name : String) (ms : Option ℕ) → Made (with_lease name ms)
    capped : (cap : ℕ) {q : Queue V} → Made q → Made (with_max_buffer cap q)
    limited : (n : ℕ) {q : Queue V} → Made q → Made (with_max_delivery_count n q)
    lettered : (dlq : String) {q : Queue V} → Made q → Made (with_dlq dlq q)

  -- The queues that come out of `q` when its operations are called one after the other.
  pub data Reach (q : Queue V) : Queue V → Type 0 where
    fresh : Reach q q
    called : {before after : Queue V} → Step before after → Reach q before → Reach q after

  added-IsValid :
      (reg : Registry V) (now : ℕ) (sub : String) (q : Queue V) (r : Queue V × List (Event V))
      → add_consumer reg now sub q ≡ some r
      → IsValid q
      → IsValid r.0
  added-IsValid reg now sub q r e v =
      let (r', e', v', _, _) = add_consumer_lem reg now sub q v in
      let same : r' ≡ r = cc (e, e') in subst (λ x. IsValid x.0) same v'

  -- A made queue has no leases yet, so that a lower limit breaks nothing.
  Made-IsValid : {q : Queue V} → Made q → IsValid q × (q.in_flight ≡ [])
  unfolding with_lease with_max_buffer with_max_delivery_count with_dlq
  Made-IsValid (leased name ms) = (with_lease-IsValid name ms, refl)
  Made-IsValid (capped cap {q} m) =
      let (h, idle) = Made-IsValid m in
      (
        record { inside = h.inside; cap_pos = ground (arith, ==_iff cap 0); counts = h.counts },
        idle,
      )
  Made-IsValid (limited n {q} m) =
      let (h, idle) = Made-IsValid m in
      (record { inside = h.inside; cap_pos = h.cap_pos; counts = rw idle tt }, idle)
  Made-IsValid (lettered dlq {q} m) =
      let (h, idle) = Made-IsValid m in
      (record { inside = h.inside; cap_pos = h.cap_pos; counts = h.counts }, idle)

  Step-IsValid : {q r : Queue V} → Step q r → IsValid q → IsValid r
  Step-IsValid (published reg now v opts q) h = publish_with_opts-IsValid reg now v opts q h
  Step-IsValid (swept reg now q) h = sweep_expired-IsValid reg now q h
  Step-IsValid (acked did q) h = ack-IsValid did q h
  Step-IsValid (extended now did extra_ms q) h = extend_lease-IsValid now did extra_ms q h
  Step-IsValid (added reg now sub q r e) h = added-IsValid reg now sub q r e h
  Step-IsValid (removed sub q) h = remove_consumer-IsValid sub q h
  Step-IsValid (routed reg now json name other qs q r before after) h =
      swept-IsValid reg now json name other qs
        (λ x found. let same : q ≡ x = cc (before, found) in subst IsValid same h) r after

  -- A queue is made by with_lease and any of the builders, and any operations follow, its publications,
  -- sweeps of its own and those of the background task over a registry that has it, under any name and
  -- as any queue's dead-letter queue: its backlog is sorted by priority and holds a message only while no consumer is
  -- connected, every group is pinned to a connected consumer, its cap is positive, and no lease counts
  -- more redeliveries than are allowed.
  pub Reach-IsValid : {start q : Queue V} → Made start → Reach start q → IsValid q
  Reach-IsValid made fresh = (Made-IsValid made).0
  Reach-IsValid made (called s r) = Step-IsValid s (Reach-IsValid made r)

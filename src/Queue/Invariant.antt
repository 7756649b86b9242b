-- ===== src/Queue/Invariant.antt =====
-- Every operation of a queue keeps its invariant.
use cqserver.Prelude.{
  ℕ, ◌+◌, ◌≡◌, refl, ap, ◌∙◌, String, true, false, not, Option, List, [], ◌∷◌, arith, Bool-cases,
  Option-cases, ◌==◌, ==_iff, string_eq, number_eq, Assoc, lookup, remove, All-remove, All-insert,
  All-lookup, inl, inr, All, length, leb, filter_by,
}
use cqserver.Queue.State.{Message, Lease, Queue, Registry, PublishOpts}
use cqserver.Queue.Routing.{pick_consumer_for}
use cqserver.Queue.Delivery.{is_exhausted, take_expired}
use cqserver.Queue.Operations.{
  settle, settle_all, sweep_expired, buffer_message, dispatch, publish_with_opts,
}
use cqserver.Queue.Settings.{with_lease, ack, extend_lease, remove_consumer}
use cqserver.Queue.Order.{insert_by_priority-IsSorted}
use cqserver.Queue.Capping.{evict_to_cap-Fits}
use cqserver.Queue.Rotation.{connected}
use cqserver.Queue.Valid.{
  IsValid, CountIsBounded, deliver_with_lease-IsValid, pick-InnerIsValid, pick-none, pick-keeps,
}
use cqserver.Queue.Redelivery.{redeliver-IsValid}

connected-filter :
    (c sub : String) (cs : List String)
    → (c == sub) ≡ false
    → connected c (filter_by (λ s. not (s == sub)) cs) ≡ connected c cs
connected-filter c sub [] other = refl
connected-filter c sub (x ∷ cs) other =
    ground (arith, ==_iff x sub, ==_iff x c, ==_iff c sub, connected-filter c sub cs other)

-- The routes that a departure leaves lead to consumers that are still connected.
live_routes :
    (sub : String) (cs : List String) (routes : Assoc String String)
    → All (λ r. connected r.1 cs ≡ true) routes
    → All
        (λ r. connected r.1 (filter_by (λ s. not (s == sub)) cs) ≡ true)
        (filter_by (λ r. not (r.1 == sub)) routes)
live_routes sub cs [] a = tt
live_routes sub cs (r ∷ routes) a = elim (Bool-cases (r.1 == sub)) [
  | inl gone ↦ rw gone (live_routes sub cs routes a.1)
  | inr stays ↦ rw stays (connected-filter r.1 sub cs stays ∙ a.0, live_routes sub cs routes a.1)
]

module _ {V : Type 0} where
  pub with_lease-IsValid : (name : String) (ms : Option ℕ) → IsValid (with_lease {V = V} name ms)
  unfolding with_lease
  with_lease-IsValid name ms = record {
    inside = record { sorted = tt; idle = inl refl; routes = tt };
    cap_pos = omega arith;
    counts = tt;
  }

  pub All-kept :
      (P : ℕ × Lease V → Type 0) (now : ℕ) (m : Assoc ℕ (Lease V))
      → All P m
      → All P (take_expired now m).1
  unfolding take_expired
  All-kept P now [] a = tt
  All-kept P now ((did, l) ∷ m) a = elim (Bool-cases (leb l.expires_at now)) [
    | inl out ↦ rw out (All-kept P now m a.1)
    | inr stays ↦ rw stays (a.0, All-kept P now m a.1)
  ]

  buffer_message-IsValid :
      (msg : Message V) (q : Queue V)
      → IsValid q
      → q.consumers ≡ []
      → IsValid (buffer_message msg q).0
  unfolding buffer_message
  buffer_message-IsValid msg q v alone =
      let fits =
        evict_to_cap-Fits (length q.buffer) q.max_buffer q.buffer v.cap_pos (omega arith)
          v.inside.sorted in
      record {
        inside = record {
          sorted = insert_by_priority-IsSorted msg _ fits.sorted;
          idle = inr alone;
          routes = v.inside.routes;
        };
        cap_pos = v.cap_pos;
        counts = v.counts;
      }

  module _ (reg : Registry V) (now : ℕ) where
    settle-IsValid :
        (lease : Lease V) (q : Queue V) → IsValid q → IsValid (settle reg now lease q).0
    unfolding settle
    settle-IsValid lease q v = elim (Bool-cases (is_exhausted lease q)) [
      | inl gone ↦ rw gone v
      | inr fresh ↦ rw fresh (redeliver-IsValid reg now lease q fresh v)
    ]

    settle_all-IsValid :
        (ls : List (Lease V)) (q : Queue V) → IsValid q → IsValid (settle_all reg now ls q).0
    unfolding settle_all
    settle_all-IsValid [] q v = v
    settle_all-IsValid (l ∷ ls) q v =
        settle_all-IsValid ls (settle reg now l q).0 (settle-IsValid l q v)

    pub sweep_expired-IsValid : (q : Queue V) → IsValid q → IsValid (sweep_expired reg now q).0
    unfolding sweep_expired
    sweep_expired-IsValid q v = elim (Option-cases q.lease_ms) [
      | inl e ↦ rw (e, sweep_expired) v
      | inr (ms, e) ↦
          rw (e, sweep_expired)
            (settle_all-IsValid _ _ (record {
              inside = record {
                sorted = v.inside.sorted;
                idle = v.inside.idle;
                routes = v.inside.routes;
              };
              cap_pos = v.cap_pos;
              counts = All-kept (CountIsBounded q.max_delivery_count) now q.in_flight v.counts;
            }))
    ]

    picked-IsValid :
        (group : Option String) (q : Queue V)
        → IsValid q
        → IsValid (record q { inner = (pick_consumer_for group q.inner).1 })
    picked-IsValid group q v = record {
      inside = pick-InnerIsValid group q.inner v.inside;
      cap_pos = v.cap_pos;
      counts = rw (pick-keeps group q.inner) v.counts;
    }

    dispatch-IsValid :
        (msg : Message V) (q : Queue V) → IsValid q → IsValid (dispatch reg now msg q).0
    unfolding dispatch
    dispatch-IsValid msg q v =
        let v' = picked-IsValid msg.group q v in
        elim (Option-cases (pick_consumer_for msg.group q.inner).0) [
          | inl e ↦
              rw (e, dispatch) (buffer_message-IsValid msg _ v' (pick-none msg.group q.inner e))
          | inr (sid, e) ↦
              rw (e, dispatch) (deliver_with_lease-IsValid reg now sid msg 0 _ (omega arith) v')
        ]

    pub publish_with_opts-IsValid :
        (v : V) (opts : PublishOpts) (q : Queue V)
        → IsValid q
        → IsValid (publish_with_opts reg now v opts q).0
    unfolding publish_with_opts
    publish_with_opts-IsValid v opts q h = dispatch-IsValid _ _ (
        sweep_expired-IsValid _ (record {
          inside = record {
            sorted = h.inside.sorted;
            idle = h.inside.idle;
            routes = h.inside.routes;
          };
          cap_pos = h.cap_pos;
          counts = h.counts;
        }))

  with_leases-IsValid :
      (q : Queue V) (m : Assoc ℕ (Lease V))
      → IsValid q
      → All (CountIsBounded q.max_delivery_count) m
      → IsValid (record q { inner = record q.inner { in_flight = m } })
  with_leases-IsValid q m v a = record {
    inside = record { sorted = v.inside.sorted; idle = v.inside.idle; routes = v.inside.routes };
    cap_pos = v.cap_pos;
    counts = a;
  }

  pub ack-IsValid : (did : ℕ) (q : Queue V) → IsValid q → IsValid (ack did q).0
  unfolding ack
  ack-IsValid did q v = elim (Option-cases q.lease_ms) [
    | inl e ↦ rw (e, ack) v
    | inr (ms, e) ↦ elim (Option-cases (lookup did q.in_flight)) [
      | inl miss ↦ rw (e, ack) (rw (miss, ack) v)
      | inr (l, hit) ↦
          rw (e, ack)
            (rw (hit, ack)
              (with_leases-IsValid q (remove did q.in_flight) v
                (All-remove (CountIsBounded q.max_delivery_count) did q.in_flight v.counts)))
    ]
  ]

  pub extend_lease-IsValid :
      (now did extra_ms : ℕ) (q : Queue V) → IsValid q → IsValid (extend_lease now did extra_ms q).0
  unfolding extend_lease
  extend_lease-IsValid now did extra q v = elim (Option-cases q.lease_ms) [
    | inl e ↦ rw (e, extend_lease) v
    | inr (ms, e) ↦ elim (Option-cases (lookup did q.in_flight)) [
      | inl miss ↦ rw (e, extend_lease) (rw (miss, extend_lease) v)
      | inr (l, hit) ↦
          let P = CountIsBounded q.max_delivery_count in
          rw (e, extend_lease)
            (rw (hit, extend_lease)
              (with_leases-IsValid q _ v (
                All-insert P did (record l { expires_at = now + extra }) q.in_flight
                  (All-lookup P did q.in_flight v.counts hit) v.counts)))
    ]
  ]

  pub remove_consumer-IsValid :
      (sub : String) (q : Queue V) → IsValid q → IsValid (remove_consumer sub q).0
  unfolding remove_consumer
  remove_consumer-IsValid sub q v = record {
    inside = record {
      sorted = v.inside.sorted;
      idle = elim v.inside.idle [
        | inl e ↦ inl e
        | inr e ↦ inr (ap (filter_by (λ s. not (s == sub))) e)
      ];
      routes = live_routes sub q.consumers q.group_routes v.inside.routes;
    };
    cap_pos = v.cap_pos;
    counts = v.counts;
  }

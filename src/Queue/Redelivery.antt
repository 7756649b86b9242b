-- ===== src/Queue/Redelivery.antt =====
-- The round of a sweep: what a redelivery keeps, and where the message ends up.
use cqserver.Prelude.{
  ℕ, ◌+◌, ◌%◌, ◌≡◌, ◌∙◌, String, false, none, [], arith, Option-cases, List-cases, string_eq,
  number_eq, inl, inr, All-weaken,
}
use cqserver.Queue.State.{Lease, Inner, Queue, Registry, u32_mod}
use cqserver.Queue.Routing.{rotate_to_other, pick_next_consumer_excluding}
use cqserver.Queue.Delivery.{redeliver, is_exhausted}
use cqserver.Queue.Order.{insert_by_priority-IsSorted}
use cqserver.Queue.Rotation.{connected-pick_next, pick_next_consumer_excluding_lem}
use cqserver.Queue.Valid.{InnerIsValid, IsValid, RouteIsLive, deliver_with_lease-IsValid}

module _ {V : Type 0} where
  pub pick_next-keeps :
      (original : String) (g : Inner V)
      → ((pick_next_consumer_excluding original g).1.buffer ≡ g.buffer)
        × ((pick_next_consumer_excluding original g).1.group_routes ≡ g.group_routes)
        × ((pick_next_consumer_excluding original g).1.in_flight ≡ g.in_flight)
        × ((pick_next_consumer_excluding original g).1.next_delivery_id ≡ g.next_delivery_id)
  unfolding pick_next_consumer_excluding
  pick_next-keeps o g = ground arith

  pub pick_next-nil :
      (original : String) (g : Inner V)
      → g.consumers ≡ []
      → pick_next_consumer_excluding original g ≡ (none, g)
  unfolding pick_next_consumer_excluding rotate_to_other
  pick_next-nil o g line = ground arith

  -- Nobody is picked only if nobody is connected.
  pub pick_next-none :
      (original : String) (g : Inner V)
      → (pick_next_consumer_excluding original g).0 ≡ none
      → g.consumers ≡ []
  pick_next-none o g e = elim (List-cases g.consumers) [
    | inl line ↦ line
    | inr (x, cs, line) ↦ absurd (ground (arith, pick_next_consumer_excluding_lem o g, line, e))
  ]

  pub pick_next-InnerIsValid :
      (original : String) (g : Inner V)
      → InnerIsValid g
      → InnerIsValid (pick_next_consumer_excluding original g).1
  pick_next-InnerIsValid o g v =
      let (same_buffer, same_routes, _, _) = pick_next-keeps o g in
      record {
        sorted = rw same_buffer v.sorted;
        idle = elim v.idle [
          | inl e ↦ inl (same_buffer ∙ e)
          | inr e ↦ inr (rw (pick_next-nil o g e) e)
        ];
        routes = rw same_routes (
            All-weaken (RouteIsLive g) _ (λ r live. connected-pick_next r.1 o g ∙ live)
              g.group_routes v.routes);
      }

  counts_pick_next :
      (original : String) (q : Queue V)
      → IsValid q
      → IsValid (record q { inner = (pick_next_consumer_excluding original q.inner).1 })
  counts_pick_next o q v =
      let (_, _, same_leases, _) = pick_next-keeps o q.inner in
      record {
        inside = pick_next-InnerIsValid o q.inner v.inside;
        cap_pos = v.cap_pos;
        counts = rw same_leases v.counts;
      }

  -- A redelivery below the cap keeps the invariant.
  pub redeliver-IsValid :
      (reg : Registry V) (now : ℕ) (lease : Lease V) (q : Queue V)
      → is_exhausted lease q ≡ false
      → IsValid q
      → IsValid (redeliver reg now lease q).0
  unfolding redeliver is_exhausted
  redeliver-IsValid reg now lease q fresh v =
      let o = lease.sub_id in
      let g = (pick_next_consumer_excluding o q.inner).1 in
      let v' = counts_pick_next o q v in
      elim (Option-cases (pick_next_consumer_excluding o q.inner).0) [
        | inl e ↦
            rw (e, redeliver)
              (record {
                inside = record {
                  sorted = insert_by_priority-IsSorted lease.msg g.buffer v'.inside.sorted;
                  idle = inr (
                      rw (pick_next-nil o q.inner (pick_next-none o q.inner e))
                        (pick_next-none o q.inner e));
                  routes = v'.inside.routes;
                };
                cap_pos = v.cap_pos;
                counts = v'.counts;
              })
        | inr (sid, e) ↦
            rw (e, redeliver)
              (deliver_with_lease-IsValid reg now sid lease.msg
                ((lease.redelivery_count + 1) % u32_mod) (record q { inner = g }) (ground arith) v')
      ]

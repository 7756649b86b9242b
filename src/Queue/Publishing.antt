-- ===== src/Queue/Publishing.antt =====
-- Where a published message goes: to the consumer of its group, or into a backlog that stays below
-- its cap.
use cqserver.Prelude.{
  ℤ, ℕ, ◌+◌, ◌%◌, ◌≡◌, refl, ap, ◌∙◌, String, none, some, List, [], ◌∷◌, ◌++◌, arith, Bool-cases,
  Option-cases, inl, inr, string_eq,
}
use cqserver.Queue.State.{Message, Lease, Queue, Event, Registry, Frame, delivery, u32_mod, u64_mod}
use cqserver.Queue.Routing.{pick_consumer_for, pick_next_consumer_excluding}
use cqserver.Queue.Delivery.{
  deliver_with_lease, deliver, frame_of, redeliver, is_exhausted, take_expired,
}
use cqserver.Queue.Operations.{
  settle, settle_all, sweep_expired, dispatch, message_of, publish_with_opts,
}
use cqserver.Queue.Rotation.{connected-pick_next}
use cqserver.Queue.Pins.{IsPinned, pick-pinned}
use cqserver.Queue.Redelivery.{pick_next-keeps}

module _ {V : Type 0} where
  module _ (reg : Registry V) (now : ℕ) where
    deliver-consumers :
        (sub : String) (m : Message V) (count : ℕ) (q : Queue V)
        → ((deliver_with_lease reg now sub m count q).0.consumers ≡ q.consumers)
          × ((deliver_with_lease reg now sub m count q).0.group_routes ≡ q.group_routes)
          × ((deliver_with_lease reg now sub m count q).0.name ≡ q.name)
    unfolding deliver_with_lease
    deliver-consumers sub m count q = ground arith

    redeliver-IsPinned :
        (group c : String) (lease : Lease V) (q : Queue V)
        → IsPinned group c q.inner
        → IsPinned group c (redeliver reg now lease q).0.inner
    unfolding redeliver
    redeliver-IsPinned group c lease q h =
        let o = lease.sub_id in
        let (_, routes, _, _) = pick_next-keeps o q.inner in
        let g = (pick_next_consumer_excluding o q.inner).1 in
        let h' : IsPinned group c g = record {
          route = rw routes h.route;
          live = connected-pick_next c o q.inner ∙ h.live;
        } in
        elim (Option-cases (pick_next_consumer_excluding o q.inner).0) [
          | inl e ↦ rw (e, redeliver) (record { route = h'.route; live = h'.live })
          | inr (sid, e) ↦
              let (same, routes', _) =
                deliver-consumers sid lease.msg ((lease.redelivery_count + 1) % u32_mod)
                  (record q { inner = g }) in
              rw (e, redeliver) (record { route = rw routes' h'.route; live = rw same h'.live })
        ]

    settle_all-IsPinned :
        (group c : String) (ls : List (Lease V)) (q : Queue V)
        → IsPinned group c q.inner
        → IsPinned group c (settle_all reg now ls q).0.inner
    unfolding settle_all settle
    settle_all-IsPinned group c [] q h = h
    settle_all-IsPinned group c (l ∷ ls) q h = elim (Bool-cases (is_exhausted l q)) [
      | inl gone ↦ rw (gone, settle) (settle_all-IsPinned group c ls q h)
      | inr fresh ↦
          rw (fresh, settle)
            (settle_all-IsPinned group c ls (redeliver reg now l q).0
              (redeliver-IsPinned group c l q h))
    ]

    sweep-IsPinned :
        (group c : String) (q : Queue V)
        → IsPinned group c q.inner
        → IsPinned group c (sweep_expired reg now q).0.inner
    unfolding sweep_expired
    sweep-IsPinned group c q h = elim (Option-cases q.lease_ms) [
      | inl e ↦ rw (e, sweep_expired) h
      | inr (ms, e) ↦
          rw (e, sweep_expired)
            (settle_all-IsPinned group c (take_expired now q.in_flight).0 _
              (record { route = h.route; live = h.live }))
    ]

    deliver-frame :
        (sub : String) (m : Message V) (count : ℕ) (q : Queue V)
        → (f : Frame V) × ((deliver_with_lease reg now sub m count q).1 ≡ delivery f (reg f) ∷ [])
          × (f.to ≡ sub)
          × (f.topic ≡ q.name)
          × (f.number ≡ m.sequence)
          × (f.content ≡ m.body)
    unfolding deliver_with_lease deliver frame_of
    deliver-frame sub m count q = elim (Option-cases q.lease_ms) [
      | inl e ↦ (frame_of sub m q.name none, rw (e, deliver_with_lease), refl, refl, refl, refl)
      | inr (ms, e) ↦ (
        frame_of sub m q.name (some ((q.next_delivery_id + 1) % u64_mod)),
        rw (e, deliver_with_lease),
        refl,
        refl,
        refl,
        refl,
      )
    ]

    dispatch-pinned :
        (group c : String) (m : Message V) (q : Queue V)
        → m.group ≡ some group
        → IsPinned group c q.inner
        → dispatch reg now m q ≡ deliver_with_lease reg now c m 0 q
    unfolding dispatch
    dispatch-pinned group c m q e h =
        let picked : pick_consumer_for m.group q.inner ≡ (some c, q.inner) =
          rw e (pick-pinned group c q.inner h) in
        rw (picked, dispatch) (rw picked)

    -- A message of a group that is pinned to a connected consumer goes to that consumer alone, after
    -- the frames of the sweep, and the group stays pinned to it.
    pub publish-IsPinned :
        (v : V) (priority : ℤ) (group c : String) (q : Queue V)
        → IsPinned group c q.inner
        → (f : Frame V) × ((publish_with_opts reg now v
              (record { priority = priority; group = some group })
              q).1
            ≡ (sweep_expired reg now
                (record q { next_sequence = (q.next_sequence + 1) % u64_mod })).1
              ++ delivery f (reg f) ∷ [])
          × (f.to ≡ c)
          × (f.number ≡ (q.next_sequence + 1) % u64_mod)
          × (f.content ≡ v)
          × IsPinned group c
              (publish_with_opts reg now v
                (record { priority = priority; group = some group })
                q).0.inner
    unfolding publish_with_opts dispatch
    publish-IsPinned v priority group c q h =
        let seq = (q.next_sequence + 1) % u64_mod in
        let m = message_of seq v (record { priority = priority; group = some group }) in
        let q0 = record q { next_sequence = seq } in
        let q' = (sweep_expired reg now q0).0 in
        let h' = sweep-IsPinned group c q0 h in
        let (f, sent, to, _, number, content) = deliver-frame c m 0 q' in
        let step = dispatch-pinned group c m q' refl h' in
        let (same, routes, _) = deliver-consumers c m 0 q' in
        (
          f,
          ap (λ (r : Queue V × List (Event V)). (sweep_expired reg now q0).1 ++ r.1) step
              ∙ ap (λ es. (sweep_expired reg now q0).1 ++ es) sent,
          to,
          number,
          content,
          rw step (record { route = rw routes h'.route; live = rw same h'.live }),
        )

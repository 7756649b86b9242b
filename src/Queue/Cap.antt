-- ===== src/Queue/Cap.antt =====
-- The cap on a queue's backlog: what a publication with nobody connected leaves behind.
use cqserver.Prelude.{
  false, ℕ, suc, ◌+◌, ◌%◌, ◌≤◌, ◌<◌, ◌≡◌, refl, ◌∙◌, true, List, [], ◌∷◌, arith, Bool-cases,
  Option-cases, inl, inr, length, count_by-true,
}
use cqserver.Queue.State.{Message, Lease, Queue, Registry, PublishOpts, u64_mod}
use cqserver.Queue.Buffer.{insert_by_priority, evict_to_cap}
use cqserver.Queue.Delivery.{redeliver, is_exhausted, take_expired}
use cqserver.Queue.Operations.{
  settle, settle_all, sweep_expired, buffer_message, dispatch, message_of, publish_with_opts,
}
use cqserver.Queue.Capping.{evict_to_cap-Fits}
use cqserver.Queue.Counting.{waiting-insert}
use cqserver.Queue.Valid.{IsValid, pick-nil}
use cqserver.Queue.Redelivery.{pick_next-nil}
use cqserver.Queue.Invariant.{sweep_expired-IsValid}

module _ {V : Type 0} where
  length-insert_by_priority :
      (m : Message V) (buf : List (Message V))
      → length (insert_by_priority m buf) ≡ suc (length buf)
  length-insert_by_priority m buf = omega (
    arith,
    waiting-insert (λ _. true) m buf,
    count_by-true (insert_by_priority m buf),
    count_by-true buf,
  )

  module _ (reg : Registry V) (now : ℕ) where
    -- With nobody connected a sweep connects nobody, and the cap stays.
    abbrev Alone : Queue V → Queue V → Type 0
    Alone q q' = (q'.consumers ≡ []) × (q'.max_buffer ≡ q.max_buffer)

    settle-Alone : (l : Lease V) (q : Queue V) → q.consumers ≡ [] → Alone q (settle reg now l q).0
    unfolding settle redeliver
    settle-Alone l q alone = elim (Bool-cases (is_exhausted l q)) [
      | inl gone ↦ rw gone (alone, refl)
      | inr fresh ↦ rw fresh (
          rw (pick_next-nil l.sub_id q.inner alone, redeliver)
            (rw (pick_next-nil l.sub_id q.inner alone) alone, refl))
    ]

    settle_all-Alone :
        (ls : List (Lease V)) (q : Queue V) → q.consumers ≡ [] → Alone q (settle_all reg now ls q).0
    unfolding settle_all
    settle_all-Alone [] q alone = (alone, refl)
    settle_all-Alone (l ∷ ls) q alone =
        let (a, b) = settle-Alone l q alone in
        let (a', b') = settle_all-Alone ls (settle reg now l q).0 a in (a', b' ∙ b)

    sweep-Alone : (q : Queue V) → q.consumers ≡ [] → Alone q (sweep_expired reg now q).0
    unfolding sweep_expired
    sweep-Alone q alone = elim (Option-cases q.lease_ms) [
      | inl e ↦ rw (e, sweep_expired) (alone, refl)
      | inr (ms, e) ↦
          rw (e, sweep_expired) (settle_all-Alone (take_expired now q.in_flight).0 _ alone)
    ]

    dispatch-nil :
        (m : Message V) (q : Queue V) → q.consumers ≡ [] → dispatch reg now m q ≡ buffer_message m q
    unfolding dispatch
    dispatch-nil m q alone =
        rw (pick-nil m.group q.inner alone, dispatch) (rw (pick-nil m.group q.inner alone))

    buffered :
        (m : Message V) (q : Queue V) (limit : ℕ)
        → q.max_buffer ≡ limit
        → length (evict_to_cap (length q.buffer) q.max_buffer q.buffer).0 < q.max_buffer
        → length (buffer_message m q).0.buffer ≤ limit
    unfolding buffer_message
    buffered m q limit same room = omega (
      arith,
      length-insert_by_priority m (evict_to_cap (length q.buffer) q.max_buffer q.buffer).0,
    )

    -- A publication on a valid queue with nobody connected leaves a backlog of at most `max_buffer`
    -- messages, whatever its sweep added to it.
    pub publish-le-max_buffer :
        (v : V) (opts : PublishOpts) (q : Queue V)
        → IsValid q
        → q.consumers ≡ []
        → length (publish_with_opts reg now v opts q).0.buffer ≤ q.max_buffer
    unfolding publish_with_opts
    publish-le-max_buffer v opts q h alone =
        let seq = (q.next_sequence + 1) % u64_mod in
        let m = message_of seq v opts in
        let q0 = record q { next_sequence = seq } in
        let q' = (sweep_expired reg now q0).0 in
        let (alone', same_cap) = sweep-Alone q0 alone in
        let valid = sweep_expired-IsValid reg now q0 (record {
          inside = record {
            sorted = h.inside.sorted;
            idle = h.inside.idle;
            routes = h.inside.routes;
          };
          cap_pos = h.cap_pos;
          counts = h.counts;
        }) in
        let fits =
          evict_to_cap-Fits (length q'.buffer) q'.max_buffer q'.buffer valid.cap_pos (omega arith)
            valid.inside.sorted in
        rw (dispatch-nil m q' alone') (buffered m q' _ same_cap fits.room)

    -- The cap is not enforced on redelivery: with nobody connected, a lease that has run out and is
    -- not used up puts its message back, which takes a backlog that is full already above the cap.
    pub settle_over_cap :
        (l : Lease V) (q : Queue V)
        → q.consumers ≡ []
        → is_exhausted l q ≡ false
        → q.max_buffer ≤ length q.buffer
        → q.max_buffer < length (settle reg now l q).0.buffer
    unfolding settle redeliver
    settle_over_cap l q alone fresh full =
        rw (fresh, pick_next-nil l.sub_id q.inner alone, redeliver)
          (rw (pick_next-nil l.sub_id q.inner alone)
            (omega (arith, length-insert_by_priority l.msg q.buffer)))

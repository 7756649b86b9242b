-- ===== src/Queue/Operations.antt =====
-- The operations of a queue that deliver, and the sweep over the registry of queues
-- (crates/cq-transport/src/queue.rs).
use mathlib.Core.Option
use cqserver.Prelude.{
  ℕ, ◌+◌, ◌%◌, String, Option, none, some, List, [], ◌∷◌, ◌++◌, if◌then◌else◌, length, lookup,
  insert, string_eq, number_eq,
}
use cqserver.Queue.State.{
  Message, Lease, Inner, Queue, Event, PublishOpts, Registry, max_redelivery_dropped, dlq_routed,
  u32_mod, u64_mod,
}
use cqserver.Queue.Buffer.{insert_by_priority, evict_to_cap}
use cqserver.Queue.Routing.{pick_consumer_for}
use cqserver.Queue.Delivery.{deliver_with_lease, redeliver, is_exhausted, take_expired}
use cqserver.Queue.Settings.{Json, default_opts, Queues}

module _ {V : Type 0} where
  -- The drain of `add_consumer`; `none` is its panic, for want of a consumer.
  unfoldable pub drain : List (Message V) → Inner V → Option (List (String × Message V) × Inner V)
  drain [] g = some ([], g)
  drain (m ∷ ms) g =
      let (sub, g') = pick_consumer_for m.group g in
      elim sub [ none ↦ none | some sid ↦ Option.map (λ r. ((sid, m) ∷ r.0, r.1)) (drain ms g') ]

  -- A dead letter, as the source builds it.
  unfoldable pub dead_letter : Json V → String → Lease V → V
  dead_letter json name lease = json.object (
      ("original_queue", json.from_string name)
      ∷ ("original_sequence", json.from_number lease.msg.sequence)
      ∷ ("redelivery_count", json.from_number ((lease.redelivery_count + 1) % u32_mod))
      ∷ ("payload", lease.msg.body)
      ∷ [])

  -- A dead-letter queue is looked up by its name when it is needed.
  unfoldable pub resolve_dlq : Option String → Queues V → Option (String × Queue V)
  resolve_dlq none qs = none
  resolve_dlq (some dlq) qs = Option.map (λ q. (dlq, q)) (lookup dlq qs)

  -- A message that no consumer can take, after the evictions that make room for it.
  unfoldable pub buffer_message : Message V → Queue V → Queue V × List (Event V)
  buffer_message msg q =
      let (kept, es) = evict_to_cap (length q.buffer) q.max_buffer q.buffer in
      (record q { inner = record q.inner { buffer = insert_by_priority msg kept } }, es)

  unfoldable pub message_of : ℕ → V → PublishOpts → Message V
  message_of seq v opts = record {
    sequence = seq;
    body = v;
    priority = opts.priority;
    group = opts.group;
  }

  module _ (reg : Registry V) (now : ℕ) where
    unfoldable pub deliver_all : List (String × Message V) → Queue V → Queue V × List (Event V)
    deliver_all [] q = (q, [])
    deliver_all ((sid, m) ∷ ds) q =
        let (q', e) = deliver_with_lease reg now sid m 0 q in
        let (q'', es) = deliver_all ds q' in (q'', e ++ es)

    unfoldable pub add_consumer : String → Queue V → Option (Queue V × List (Event V))
    add_consumer sub q =
        let g = record q.inner { buffer = []; consumers = q.consumers ++ sub ∷ [] } in
        elim (drain q.buffer g) [
          | none ↦ none
          | some (deliveries, g') ↦ some (deliver_all deliveries (record q { inner = g' }))
        ]

    -- One expired lease, where no registry of queues is at hand.
    unfoldable pub settle : Lease V → Queue V → Queue V × List (Event V)
    settle lease q =
        if is_exhausted lease q
        then (q, max_redelivery_dropped lease ∷ [])
        else redeliver reg now lease q

    unfoldable pub settle_all : List (Lease V) → Queue V → Queue V × List (Event V)
    settle_all [] q = (q, [])
    settle_all (l ∷ ls) q =
        let (q', e) = settle l q in let (q'', es) = settle_all ls q' in (q'', e ++ es)

    -- With the number of leases that were acted on.
    unfoldable pub sweep_expired : Queue V → Queue V × List (Event V) × ℕ
    sweep_expired q = elim q.lease_ms [
      | none ↦ (q, [], 0)
      | some _ ↦
          let (out, kept) = take_expired now q.in_flight in
          let (q', es) =
            settle_all out (record q { inner = record q.inner { in_flight = kept } }) in
          (q', es, length out)
    ]

    unfoldable pub dispatch : Message V → Queue V → Queue V × List (Event V)
    unfolding buffer_message
    dispatch msg q =
        let (target, g) = pick_consumer_for msg.group q.inner in
        let q' = record q { inner = g } in
        elim target [
          | some sid ↦ deliver_with_lease reg now sid msg 0 q'
          | none ↦ buffer_message msg q'
        ]

    -- The sweep does nothing where leases are off, so the source's test of `lease_ms` is its own.
    unfoldable pub publish_with_opts : V → PublishOpts → Queue V → Queue V × List (Event V) × ℕ
    unfolding message_of
    publish_with_opts v opts q =
        let seq = (q.next_sequence + 1) % u64_mod in
        let (q', swept, _) = sweep_expired (record q { next_sequence = seq }) in
        let (q'', es) = dispatch (message_of seq v opts) q' in (q'', swept ++ es, seq)

    unfoldable pub publish : V → Queue V → Queue V × List (Event V) × ℕ
    publish v q = publish_with_opts v default_opts q

    -- One expired lease of the queue `name`, where the registry of queues is at hand.
    unfoldable pub settle_routed : Json V → String → Lease V → Queues V → Queues V × List (Event V)
    settle_routed json name lease qs = elim (lookup name qs) [
      | none ↦ (qs, [])
      | some q ↦
          if is_exhausted lease q
          then (elim (resolve_dlq q.dlq_name qs) [
            | some (dlq_name, dlq) ↦
                let letter = dead_letter json q.name lease in
                let (dlq', es, _) = publish letter dlq in
                (insert dlq_name dlq' qs, es ++ dlq_routed dlq_name letter ∷ [])
            | none ↦ (qs, max_redelivery_dropped lease ∷ [])
          ])
          else (let (q', es) = redeliver reg now lease q in (insert name q' qs, es))
    ]

    unfoldable pub settle_all_routed :
        Json V → String → List (Lease V) → Queues V → Queues V × List (Event V)
    settle_all_routed json name [] qs = (qs, [])
    settle_all_routed json name (l ∷ ls) qs =
        let (qs', e) = settle_routed json name l qs in
        let (qs'', es) = settle_all_routed json name ls qs' in (qs'', e ++ es)

    -- The sweep that the background task makes, over the queue registered as `name`.
    unfoldable pub sweep_expired_with_queues :
        Json V → String → Queues V → Queues V × List (Event V) × ℕ
    sweep_expired_with_queues json name qs = elim (lookup name qs) [
      | none ↦ (qs, [], 0)
      | some q ↦ elim q.lease_ms [
        | none ↦ (qs, [], 0)
        | some _ ↦
            let (out, kept) = take_expired now q.in_flight in
            let q' = record q { inner = record q.inner { in_flight = kept } } in
            let (qs', es) = settle_all_routed json name out (insert name q' qs) in
            (qs', es, length out)
      ]
    ]

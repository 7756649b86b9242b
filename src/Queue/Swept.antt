-- ===== src/Queue/Swept.antt =====
-- The sweep of the background task keeps the invariant of every queue of the registry
-- (crates/cq-transport/src/queue.rs).
use cqserver.Prelude.{
  ℕ, ◌≡◌, subst, String, Option, none, some, List, [], ◌∷◌, arith, Bool-cases, Option-cases, inl,
  inr, lookup, insert, lookup-insert, ◌==◌, string_eq, ==_iff,
}
use cqserver.Queue.State.{Lease, Queue, Registry}
use cqserver.Queue.Delivery.{is_exhausted, take_expired}
use cqserver.Queue.Operations.{
  publish, resolve_dlq, settle_routed, settle_all_routed, sweep_expired_with_queues,
}
use cqserver.Queue.Settings.{Json, Queues, default_opts}
use cqserver.Queue.Valid.{IsValid, CountIsBounded}
use cqserver.Queue.Redelivery.{redeliver-IsValid}
use cqserver.Queue.Invariant.{All-kept, publish_with_opts-IsValid}

module _ {V : Type 0} where
  -- If there is a queue of that name, it is valid.
  abbrev pub IsValidAt : String → Queues V → Type 0
  IsValidAt other qs = (q : Queue V) → lookup other qs ≡ some q → IsValid q

  insert-IsValidAt :
      (name other : String) (x q : Queue V) (qs : Queues V)
      → lookup name qs ≡ some q
      → (IsValid q → IsValid x)
      → IsValidAt other qs
      → IsValidAt other (insert name x qs)
  insert-IsValidAt name other x q qs found keeps h r at = elim (Bool-cases (name == other)) [
    | inl same ↦
        let e : name ≡ other = (==_iff name other).0 same in
        let found' : lookup other qs ≡ some q = subst (λ n. lookup n qs ≡ some q) e found in
        let here : x ≡ r = ground (arith, lookup-insert name other x qs, same, at) in
        subst IsValid here (keeps (h q found'))
    | inr away ↦ h r (ground (arith, lookup-insert name other x qs, away, at))
  ]

  resolve_dlq-lookup :
      (dlq : Option String) (qs : Queues V) (d : String × Queue V)
      → resolve_dlq dlq qs ≡ some d
      → lookup d.0 qs ≡ some d.1
  unfolding resolve_dlq
  resolve_dlq-lookup none qs d e = cc
  resolve_dlq-lookup (some name) qs d e = ground (arith, e)

  module _ (reg : Registry V) (now : ℕ) (json : Json V) (name other : String) where
    publish-IsValid : (v : V) (q : Queue V) → IsValid q → IsValid (publish reg now v q).0
    unfolding publish
    publish-IsValid v q h = publish_with_opts-IsValid reg now v default_opts q h

    settle_routed-IsValidAt :
        (l : Lease V) (qs : Queues V)
        → IsValidAt other qs
        → IsValidAt other (settle_routed reg now json name l qs).0
    unfolding settle_routed
    settle_routed-IsValidAt l qs h = elim (Option-cases (lookup name qs)) [
      | inl gone ↦ rw (gone, settle_routed) h
      | inr (q, found) ↦ elim (Bool-cases (is_exhausted l q)) [
        | inr fresh ↦
            rw (found, settle_routed, fresh)
              (insert-IsValidAt name other _ q qs found (redeliver-IsValid reg now l q fresh) h)
        | inl spent ↦ elim (Option-cases (resolve_dlq q.dlq_name qs)) [
          | inl nowhere ↦ rw (found, settle_routed, spent, nowhere) h
          | inr (d, to) ↦
              rw (found, settle_routed, spent, to)
                (insert-IsValidAt d.0 other _ d.1 qs (resolve_dlq-lookup q.dlq_name qs d to)
                  (publish-IsValid _ d.1) h)
        ]
      ]
    ]

    settle_all_routed-IsValidAt :
        (ls : List (Lease V)) (qs : Queues V)
        → IsValidAt other qs
        → IsValidAt other (settle_all_routed reg now json name ls qs).0
    unfolding settle_all_routed
    settle_all_routed-IsValidAt [] qs h = h
    settle_all_routed-IsValidAt (l ∷ ls) qs h =
        settle_all_routed-IsValidAt ls (settle_routed reg now json name l qs).0
          (settle_routed-IsValidAt l qs h)

    freed-IsValid :
        (q : Queue V)
        → IsValid q
        → IsValid
            (record q { inner = record q.inner { in_flight = (take_expired now q.in_flight).1 } })
    freed-IsValid q v = record {
      inside = record { sorted = v.inside.sorted; idle = v.inside.idle; routes = v.inside.routes };
      cap_pos = v.cap_pos;
      counts = All-kept (CountIsBounded q.max_delivery_count) now q.in_flight v.counts;
    }

    pub swept-IsValid :
        (qs : Queues V)
        → IsValidAt other qs
        → IsValidAt other (sweep_expired_with_queues reg now json name qs).0
    unfolding sweep_expired_with_queues
    swept-IsValid qs h = elim (Option-cases (lookup name qs)) [
      | inl gone ↦ rw (gone, sweep_expired_with_queues) h
      | inr (q, found) ↦ elim (Option-cases q.lease_ms) [
        | inl off ↦ rw (found, sweep_expired_with_queues, off) h
        | inr (ms, on) ↦
            rw (found, sweep_expired_with_queues, on)
              (settle_all_routed-IsValidAt (take_expired now q.in_flight).0 _
                (insert-IsValidAt name other _ q qs found (freed-IsValid q) h))
      ]
    ]

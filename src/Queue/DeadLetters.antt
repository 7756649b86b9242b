-- ===== src/Queue/DeadLetters.antt =====
-- Dead letters: what becomes of a message that was redelivered too often, in the sweep of the
-- background task (crates/cq-transport/src/queue.rs).
use cqserver.Prelude.{
  ℕ, ◌+◌, ◌%◌, ◌≡◌, refl, ◌∙◌, sym, ap, subst, String, true, false, none, some, List, [], ◌∷◌, ◌++◌,
  map, filter_by, arith, Bool-cases, inl, inr, All, append-All, lookup, insert, lookup-insert, ◌==◌,
  string_eq, ==_iff, lookup-insert_self,
}
use cqserver.Queue.State.{Lease, Queue, Event, Registry, dlq_routed, u64_mod}
use cqserver.Queue.Delivery.{is_exhausted, take_expired, redeliver}
use cqserver.Queue.Plain.{
  NotDropped, is_routed, unrouted, undropped, dispatch-IsPlain, redeliver-IsPlain,
}
use cqserver.Queue.Operations.{
  sweep_expired, message_of, publish_with_opts, publish, dead_letter, resolve_dlq, settle_routed,
  settle_all_routed, sweep_expired_with_queues,
}
use cqserver.Queue.Settings.{Json, Queues, default_opts}
use cqserver.Queue.Spent.{
  filter_by-append, filter_by-none, spent, exhausted, unexhausted, redeliver_each,
}

module _ {V : Type 0} where
  -- `name` is the queue `source`, which sends its dead letters to the registered queue `dlq`, which has no leases.
  pub record Inspected (name dlq_name : String) (source dlq : Queue V) (qs : Queues V)
      : Type 0 where
    pub at_name : lookup name qs ≡ some source
    pub target : source.dlq_name ≡ some dlq_name
    pub at_dlq : lookup dlq_name qs ≡ some dlq
    pub leaseless : dlq.lease_ms ≡ none

  module _ (reg : Registry V) (now : ℕ) where
    -- The queue after the publication of each message in turn.
    abbrev pub publish_each : List V → Queue V → Queue V
    publish_each [] q = q
    publish_each (v ∷ vs) q = publish_each vs (publish reg now v q).0

    leaseless_sweep : (q : Queue V) → q.lease_ms ≡ none → sweep_expired reg now q ≡ (q, [], 0)
    unfolding sweep_expired
    leaseless_sweep q e = ground (arith, e)

    -- A queue without leases, as a dead-letter queue for inspection is, drops nothing for redeliveries.
    publish_leaseless :
        (v : V) (q : Queue V)
        → q.lease_ms ≡ none
        → All NotDropped (publish reg now v q).1
          × (filter_by is_routed (publish reg now v q).1 ≡ [])
          × ((publish reg now v q).0.lease_ms ≡ none)
    unfolding publish publish_with_opts
    publish_leaseless v q e =
        let q0 = record q { next_sequence = (q.next_sequence + 1) % u64_mod } in
        let m = message_of ((q.next_sequence + 1) % u64_mod) v default_opts in
        let (plain, config) = dispatch-IsPlain reg now m q0 in
        rw (leaseless_sweep q0 e)
          (undropped _ plain, filter_by-none is_routed _ (unrouted _ plain), config.lease_ms ∙ e)

    module _ (json : Json V) (name dlq_name : String) (apart : (dlq_name == name) ≡ false) where
      other : (name == dlq_name) ≡ false
      other = ground (arith, apart, ==_iff name dlq_name, ==_iff dlq_name name)

      abbrev pub letters : ℕ → String → List (Lease V) → List V
      letters limit queue ls = map (dead_letter json queue) (exhausted limit ls)

      -- What came of leases: the events and the registry.
      pub record Settled (ls : List (Lease V)) (source dlq : Queue V)
          (r : Queues V × List (Event V)) : Type 0 where
        pub kept : All NotDropped r.1
        pub routed :
            filter_by is_routed r.1
            ≡ map (dlq_routed dlq_name) (letters source.max_delivery_count source.name ls)
        pub inspected :
            Inspected name dlq_name
              (redeliver_each reg now (unexhausted source.max_delivery_count ls) source)
              (publish_each (letters source.max_delivery_count source.name ls) dlq)
              r.0

      with_dlq-Inspected :
          (source dlq q : Queue V) (qs : Queues V)
          → q.lease_ms ≡ none
          → Inspected name dlq_name source dlq qs
          → Inspected name dlq_name source q (insert dlq_name q qs)
      with_dlq-Inspected source dlq q qs leaseless h = record {
        at_name = rw (lookup-insert, apart) h.at_name;
        target = h.target;
        at_dlq = lookup-insert_self dlq_name q qs;
        leaseless = leaseless;
      }

      with_source-Inspected :
          (source dlq q : Queue V) (qs : Queues V)
          → q.dlq_name ≡ some dlq_name
          → Inspected name dlq_name source dlq qs
          → Inspected name dlq_name q dlq (insert name q qs)
      with_source-Inspected source dlq q qs target h = record {
        at_name = lookup-insert_self name q qs;
        target = target;
        at_dlq = rw (lookup-insert, other) h.at_dlq;
        leaseless = h.leaseless;
      }

      settle_letter :
          (l : Lease V) (source dlq : Queue V) (qs : Queues V)
          → Inspected name dlq_name source dlq qs
          → spent source.max_delivery_count l ≡ true
          → let letter = dead_letter json source.name l in
            settle_routed reg now json name l qs ≡ (
              insert dlq_name (publish reg now letter dlq).0 qs,
              (publish reg now letter dlq).1 ++ dlq_routed dlq_name letter ∷ [],
            )
      unfolding settle_routed resolve_dlq is_exhausted
      settle_letter l source dlq qs h gone =
          rw (h.at_name, settle_routed, gone, h.target, resolve_dlq, h.at_dlq) refl

      settle_fresh :
          (l : Lease V) (source dlq : Queue V) (qs : Queues V)
          → Inspected name dlq_name source dlq qs
          → spent source.max_delivery_count l ≡ false
          → settle_routed reg now json name l qs
            ≡ (insert name (redeliver reg now l source).0 qs, (redeliver reg now l source).1)
      unfolding settle_routed is_exhausted
      settle_fresh l source dlq qs h fresh = rw (h.at_name, settle_routed, fresh) refl

      abbrev settle_after : List (Lease V) → Queues V × List (Event V) → Queues V × List (Event V)
      settle_after ls p = let r = settle_all_routed reg now json name ls p.0 in (r.0, p.1 ++ r.1)

      letter-Settled :
          (l : Lease V) (ls : List (Lease V)) (source dlq : Queue V) (qs : Queues V)
          → Inspected name dlq_name source dlq qs
          → spent source.max_delivery_count l ≡ true
          → ((d : Queue V) (rs : Queues V)
              → Inspected name dlq_name source d rs
              → Settled ls source d (settle_all_routed reg now json name ls rs))
          → Settled (l ∷ ls) source dlq (settle_after ls (settle_routed reg now json name l qs))
      letter-Settled l ls source dlq qs h gone later =
          let letter = dead_letter json source.name l in
          let (clean, silent, leaseless) = publish_leaseless letter dlq h.leaseless in
          let p = publish reg now letter dlq in
          let d : Queue V = p.0 in
          let s = later d (insert dlq_name d qs) (with_dlq-Inspected source dlq d qs leaseless h) in
          let rest = (settle_all_routed reg now json name ls (insert dlq_name d qs)).1 in
          subst (λ r. Settled (l ∷ ls) source dlq (settle_after ls r))
            (sym (settle_letter l source dlq qs h gone))
            (record {
              kept =
                  append-All NotDropped (p.1 ++ dlq_routed dlq_name letter ∷ []) rest
                    (append-All NotDropped p.1 _ clean (refl, tt)) s.kept;
              routed = rw gone (
                  filter_by-append is_routed (p.1 ++ dlq_routed dlq_name letter ∷ []) rest
                  ∙ ap (λ es. es ++ filter_by is_routed rest)
                      (filter_by-append is_routed p.1 (dlq_routed dlq_name letter ∷ [])
                        ∙ ap (λ es. es ++ dlq_routed dlq_name letter ∷ []) silent)
                  ∙ ap (λ es. dlq_routed dlq_name letter ∷ es) s.routed);
              inspected = rw gone s.inspected;
            })

      fresh-Settled :
          (l : Lease V) (ls : List (Lease V)) (source dlq : Queue V) (qs : Queues V)
          → Inspected name dlq_name source dlq qs
          → spent source.max_delivery_count l ≡ false
          → ((q : Queue V) (rs : Queues V)
              → Inspected name dlq_name q dlq rs
              → Settled ls q dlq (settle_all_routed reg now json name ls rs))
          → Settled (l ∷ ls) source dlq (settle_after ls (settle_routed reg now json name l qs))
      fresh-Settled l ls source dlq qs h fresh later =
          let (plain, config) = redeliver-IsPlain reg now l source in
          let p = redeliver reg now l source in
          let q : Queue V = p.0 in
          let s =
            later q (insert name q qs)
              (with_source-Inspected source dlq q qs (config.dlq_name ∙ h.target) h) in
          let rest = settle_all_routed reg now json name ls (insert name q qs) in
          let same : letters q.max_delivery_count q.name ls
              ≡ letters source.max_delivery_count source.name ls =
            ap (λ n. letters n q.name ls) config.limit
            ∙ ap (λ n. letters source.max_delivery_count n ls) config.name in
          subst (λ r. Settled (l ∷ ls) source dlq (settle_after ls r))
            (sym (settle_fresh l source dlq qs h fresh))
            (record {
              kept = append-All NotDropped p.1 rest.1 (undropped _ plain) s.kept;
              routed = rw fresh (
                  filter_by-append is_routed p.1 rest.1
                  ∙ ap (λ es. es ++ filter_by is_routed rest.1)
                      (filter_by-none is_routed p.1 (unrouted _ plain))
                  ∙ s.routed
                  ∙ ap (map (dlq_routed dlq_name)) same);
              inspected = rw fresh (
                  subst
                    (λ n.
                      Inspected name dlq_name (redeliver_each reg now (unexhausted n ls) q)
                        (publish_each (letters source.max_delivery_count source.name ls) dlq)
                        rest.0)
                    config.limit
                    (subst
                      (λ vs.
                        Inspected name dlq_name
                          (redeliver_each reg now (unexhausted q.max_delivery_count ls) q)
                          (publish_each vs dlq) rest.0)
                      same s.inspected));
            })

      settle_all_routed-Settled :
          (ls : List (Lease V)) (source dlq : Queue V) (qs : Queues V)
          → Inspected name dlq_name source dlq qs
          → Settled ls source dlq (settle_all_routed reg now json name ls qs)
      unfolding settle_all_routed
      settle_all_routed-Settled [] source dlq qs h = record {
        kept = tt;
        routed = refl;
        inspected = h;
      }
      settle_all_routed-Settled (l ∷ ls) source dlq qs h =
          elim (Bool-cases (spent source.max_delivery_count l)) [
            | inl gone ↦
                letter-Settled l ls source dlq qs h gone
                  (λ d rs h'. settle_all_routed-Settled ls source d rs h')
            | inr fresh ↦
                fresh-Settled l ls source dlq qs h fresh
                  (λ q rs h'. settle_all_routed-Settled ls q dlq rs h')
          ]

      abbrev freed_by : Queue V → Queue V
      freed_by q = record q {
        inner = record q.inner { in_flight = (take_expired now q.in_flight).1 };
      }

      sweep_lem :
          (source dlq : Queue V) (qs : Queues V) (ms : ℕ)
          → Inspected name dlq_name source dlq qs
          → source.lease_ms ≡ some ms
          → let r = sweep_expired_with_queues reg now json name qs in
            let s =
              settle_all_routed reg now json name
                (take_expired now source.in_flight).0
                (insert name (freed_by source) qs) in
            (r.0 ≡ s.0) × (r.1 ≡ s.1)
      unfolding sweep_expired_with_queues
      sweep_lem source dlq qs ms h leases =
          (ground (arith, h.at_name, leases), ground (arith, h.at_name, leases))

      -- The sweep of the background task, of a queue with leases whose dead-letter queue is another
      -- registered queue without leases. It gives up no message for having been redelivered too often: of
      -- the leases that have run out, each that was is published to the dead-letter queue as a dead letter, with
      -- an event for it, and with no other such event, in their order; the others are redelivered, in
      -- theirs. In the registry the dead-letter queue is as those publications leave it, and
      -- the queue as those redeliveries do, with the same dead-letter queue.
      pub sweep_with_dlq_lem :
          (source dlq : Queue V) (qs : Queues V) (ms : ℕ)
          → Inspected name dlq_name source dlq qs
          → source.lease_ms ≡ some ms
          → let (out, kept) = take_expired now source.in_flight in
            Settled out
              (record source { inner = record source.inner { in_flight = kept } })
              dlq
              (
                (sweep_expired_with_queues reg now json name qs).0,
                (sweep_expired_with_queues reg now json name qs).1,
              )
      sweep_with_dlq_lem source dlq qs ms h leases =
          let (state, events) = sweep_lem source dlq qs ms h leases in
          let freed : Queue V = freed_by source in
          rw (state, events)
            (settle_all_routed-Settled (take_expired now source.in_flight).0 freed dlq _
              (with_source-Inspected source dlq freed qs h.target h))

-- ===== src/Queue/Spent.antt =====
-- The expired leases that were redelivered too often, and those that go on: what a sweep without a
-- registry of queues does with either (crates/cq-transport/src/queue.rs).
use mathlib.Core.List.{append-nil}
use cqserver.Prelude.{
  ℕ, ◌+◌, ◌%◌, ◌≡◌, refl, ◌∙◌, ap, Bool, false, not, List, [], ◌∷◌, ◌++◌, map, filter_by, arith,
  Bool-cases, inl, inr, All, append-All, some, ltb,
}
use cqserver.Queue.State.{
  Lease, Queue, Registry, PublishOpts, max_redelivery_dropped, u32_mod, u64_mod,
}
use cqserver.Queue.Delivery.{is_exhausted, redeliver, take_expired}
use cqserver.Queue.Plain.{
  NotRouted, is_max_drop, unrouted, undropped, redeliver-IsPlain, dispatch-IsPlain,
}
use cqserver.Queue.Operations.{
  settle, settle_all, sweep_expired, message_of, dispatch, publish_with_opts,
}

module _ {ℓ} {A : Type ℓ} where
  pub filter_by-append :
      (p : A → Bool) (xs ys : List A) → filter_by p (xs ++ ys) ≡ filter_by p xs ++ filter_by p ys
  filter_by-append p [] ys = refl
  filter_by-append p (x ∷ xs) ys = elim (Bool-cases (p x)) [
    | inl here ↦ rw (here) (ap (λ zs. x ∷ zs) (filter_by-append p xs ys))
    | inr away ↦ rw (away) (filter_by-append p xs ys)
  ]

  pub filter_by-none :
      (p : A → Bool) (xs : List A) → All (λ x. p x ≡ false) xs → filter_by p xs ≡ []
  filter_by-none p [] a = refl
  filter_by-none p (x ∷ xs) a = rw (a.0) (filter_by-none p xs a.1)

module _ {V : Type 0} where
  -- One redelivery more is more than `limit`.
  abbrev pub spent : ℕ → Lease V → Bool
  spent limit l = ltb limit ((l.redelivery_count + 1) % u32_mod)

  abbrev pub exhausted : ℕ → List (Lease V) → List (Lease V)
  exhausted limit ls = filter_by (spent limit) ls

  abbrev pub unexhausted : ℕ → List (Lease V) → List (Lease V)
  unexhausted limit ls = filter_by (λ l. not (spent limit l)) ls

  pub is_exhausted-eq :
      (l : Lease V) (q : Queue V) → is_exhausted l q ≡ spent q.max_delivery_count l
  unfolding is_exhausted
  is_exhausted-eq l q = refl

  module _ (reg : Registry V) (now : ℕ) where
    -- The queue after the redelivery of each lease in turn.
    abbrev pub redeliver_each : List (Lease V) → Queue V → Queue V
    redeliver_each [] q = q
    redeliver_each (l ∷ ls) q = redeliver_each ls (redeliver reg now l q).0

    pub redeliver-drops :
        (l : Lease V) (q : Queue V) → filter_by is_max_drop (redeliver reg now l q).1 ≡ []
    redeliver-drops l q =
        filter_by-none is_max_drop _ (undropped _ (redeliver-IsPlain reg now l q).0)

    settle_all-drops :
        (limit : ℕ) (ls : List (Lease V)) (q : Queue V)
        → q.max_delivery_count ≡ limit
        → (filter_by is_max_drop (settle_all reg now ls q).1
            ≡ map max_redelivery_dropped (exhausted limit ls))
          × ((settle_all reg now ls q).0 ≡ redeliver_each (unexhausted limit ls) q)
    unfolding settle_all settle
    settle_all-drops limit [] q same = (refl, refl)
    settle_all-drops limit (l ∷ ls) q same =
        let here : is_exhausted l q ≡ spent limit l =
          is_exhausted-eq l q ∙ ap (λ n. spent n l) same in
        elim (Bool-cases (spent limit l)) [
          | inl gone ↦
              let (drops, state) = settle_all-drops limit ls q same in
              rw (here ∙ gone, gone) (ap (λ es. max_redelivery_dropped l ∷ es) drops, state)
          | inr fresh ↦
              let (drops, state) =
                settle_all-drops limit ls (redeliver reg now l q).0
                  ((redeliver-IsPlain reg now l q).1.limit ∙ same) in
              rw (here ∙ fresh, fresh)
                (
                  filter_by-append is_max_drop (redeliver reg now l q).1 _
                      ∙ ap
                          (λ es.
                            es
                            ++ filter_by is_max_drop
                                (settle_all reg now ls (redeliver reg now l q).0).1)
                          (redeliver-drops l q)
                      ∙ drops,
                  state,
                )
        ]

    settle_events : (l : Lease V) (q : Queue V) → All NotRouted (settle reg now l q).1
    unfolding settle
    settle_events l q = elim (Bool-cases (is_exhausted l q)) [
      | inl gone ↦ rw gone (refl, tt)
      | inr fresh ↦ rw fresh (unrouted _ (redeliver-IsPlain reg now l q).0)
    ]

    settle_all_events :
        (ls : List (Lease V)) (q : Queue V) → All NotRouted (settle_all reg now ls q).1
    unfolding settle_all
    settle_all_events [] q = tt
    settle_all_events (l ∷ ls) q =
        append-All NotRouted (settle reg now l q).1 _ (settle_events l q)
          (settle_all_events ls (settle reg now l q).0)

    abbrev freed_by : Queue V → Queue V
    freed_by q = record q {
      inner = record q.inner { in_flight = (take_expired now q.in_flight).1 };
    }

    sweep_lem :
        (q : Queue V) (ms : ℕ)
        → q.lease_ms ≡ some ms
        → ((sweep_expired reg now q).0
            ≡ (settle_all reg now (take_expired now q.in_flight).0 (freed_by q)).0)
          × ((sweep_expired reg now q).1
              ≡ (settle_all reg now (take_expired now q.in_flight).0 (freed_by q)).1)
    unfolding sweep_expired
    sweep_lem q ms e = (ground (arith, e), ground (arith, e))

    -- Where leases are on, of the leases that have run out when a message is published, each that was
    -- redelivered too often is given up, with an event for it, in their order, and with no other such
    -- event; none is handed to a dead-letter queue, configured or not. The queue is then as if
    -- only the others had been redelivered, in their order, and the message dispatched.
    pub publish_routes_nothing :
        (v : V) (opts : PublishOpts) (q : Queue V) (ms : ℕ)
        → q.lease_ms ≡ some ms
        → let seq = (q.next_sequence + 1) % u64_mod in
          let (out, kept) = take_expired now q.in_flight in
          let freed : Queue V = record q {
            next_sequence = seq;
            inner = record q.inner { in_flight = kept };
          } in
          let (q', events, n) = publish_with_opts reg now v opts q in
          All NotRouted events
          × (filter_by is_max_drop events
              ≡ map max_redelivery_dropped (exhausted q.max_delivery_count out))
          × (q'
              ≡ (dispatch reg now
                  (message_of seq v opts)
                  (redeliver_each (unexhausted q.max_delivery_count out) freed)).0)
    unfolding publish_with_opts
    publish_routes_nothing v opts q ms leases =
        let seq = (q.next_sequence + 1) % u64_mod in
        let out = (take_expired now q.in_flight).0 in
        let freed : Queue V = record q {
          next_sequence = seq;
          inner = record q.inner { in_flight = (take_expired now q.in_flight).1 };
        } in
        let (drops, state) = settle_all-drops q.max_delivery_count out freed refl in
        let swept = settle_all reg now out freed in
        let plain = (dispatch-IsPlain reg now (message_of seq v opts) swept.0).0 in
        let (swept_state, swept_events) = sweep_lem (record q { next_sequence = seq }) ms leases in
        rw (swept_state, swept_events)
          (
            append-All NotRouted swept.1 _ (settle_all_events out freed) (unrouted _ plain),
            filter_by-append is_max_drop swept.1 _
                ∙ ap (λ es. filter_by is_max_drop swept.1 ++ es)
                    (filter_by-none is_max_drop _ (undropped _ plain))
                ∙ ap (λ es. es ++ []) drops
                ∙ append-nil _,
            ap (λ q1. (dispatch reg now (message_of seq v opts) q1).0) state,
          )

-- ===== src/Queue/AtLeastOnce.antt =====
-- At-least-once delivery: the sweep and the publication lose no message of a queue with leases.
use cqserver.Prelude.{
  ℕ, suc, ◌+◌, ◌%◌, ◌≤◌, ◌≡◌, refl, ap, ◌∙◌, String, Bool, Option, some, [], ◌∷◌, arith,
  Option-cases, inl, inr, length, Assoc, number_eq, count_by-append,
}
use cqserver.Queue.State.{Message, Lease, Inner, Queue, Registry, PublishOpts, u64_mod}
use cqserver.Queue.Buffer.{evict_to_cap}
use cqserver.Queue.Routing.{pick_consumer_for, next_round_robin}
use cqserver.Queue.Delivery.{take_expired}
use cqserver.Queue.Operations.{
  sweep_expired, buffer_message, dispatch, message_of, publish_with_opts,
}
use cqserver.Queue.Invariant.{All-kept}
use cqserver.Queue.Conservation.{Balances, deliver-Balances, settle_all-Balances}
use cqserver.Queue.Counting.{
  one, waiting, leased, gives_up, HasRoom, waiting-insert, waiting-evict_to_cap,
  leased-take_expired, HasRoom-le,
}

module _ {V : Type 0} where
  length-expired : (now : ℕ) (m : Assoc ℕ (Lease V)) → length (take_expired now m).0 ≤ length m
  unfolding take_expired
  length-expired now [] = omega arith
  length-expired now ((did, l) ∷ m) = ground (arith, length-expired now m)

  pick-same :
      (group : Option String) (g : Inner V)
      → ((pick_consumer_for group g).1.buffer ≡ g.buffer)
        × ((pick_consumer_for group g).1.in_flight ≡ g.in_flight)
        × ((pick_consumer_for group g).1.next_delivery_id ≡ g.next_delivery_id)
  unfolding pick_consumer_for next_round_robin
  pick-same group g = ground arith

module _ {V : Type 0} (p : Message V → Bool) (reg : Registry V) (now : ℕ) where
  -- A sweep accounts for every message: it stays, or it is reported as given up.
  pub sweep_expired-Balances :
      (n : ℕ) (q : Queue V) {ms : ℕ}
      → q.lease_ms ≡ some ms
      → HasRoom (length q.in_flight + n) q
      → Balances p n 0 q ((sweep_expired reg now q).0, (sweep_expired reg now q).1)
  unfolding sweep_expired
  sweep_expired-Balances n q e h =
      let m = q.in_flight in
      let out = (take_expired now m).0 in
      let q' = record q { inner = record q.inner { in_flight = (take_expired now m).1 } } in
      let b = settle_all-Balances p reg now n out q' e (record {
        ids = All-kept (λ e. e.0 ≤ q.next_delivery_id) now m h.ids;
        room = omega (arith, h.room, length-expired now m);
      }) in
      rw (e, sweep_expired)
        (record {
          balance = omega (arith, b.balance, leased-take_expired p now m);
          room = b.room;
          leases = b.leases ∙ e;
        })

  buffer_message-Balances :
      (n : ℕ) (m : Message V) (q : Queue V)
      → HasRoom n q
      → Balances p n (one p m) q (buffer_message m q)
  unfolding buffer_message
  buffer_message-Balances n m q h = record {
    balance = omega (
      arith,
      waiting-evict_to_cap p (length q.buffer) q.max_buffer q.buffer,
      waiting-insert p m (evict_to_cap (length q.buffer) q.max_buffer q.buffer).0,
    );
    room = record { ids = h.ids; room = h.room };
    leases = refl;
  }

  dispatch-Balances :
      (n : ℕ) (m : Message V) (q : Queue V) {ms : ℕ}
      → q.lease_ms ≡ some ms
      → HasRoom (suc n) q
      → Balances p n (one p m) q (dispatch reg now m q)
  unfolding dispatch
  dispatch-Balances n m q e h =
      let (buf, leases, next) = pick-same m.group q.inner in
      let q' = record q { inner = (pick_consumer_for m.group q.inner).1 } in
      let h' : HasRoom (suc n) q' = record {
        ids = rw (leases, next) h.ids;
        room = rw next h.room;
      } in
      elim (Option-cases (pick_consumer_for m.group q.inner).0) [
        | inl nobody ↦
            rw (nobody, dispatch)
              (let b = buffer_message-Balances n m q' (HasRoom-le n (suc n) q' (omega arith) h') in
                record {
                  balance = omega (arith, b.balance, ap (waiting p) buf, ap (leased p) leases);
                  room = b.room;
                  leases = b.leases;
                })
        | inr (sid, somebody) ↦
            rw (somebody, dispatch)
              (let b = deliver-Balances p reg now n sid m 0 q' e h' in
                record {
                  balance = omega (arith, b.balance, ap (waiting p) buf, ap (leased p) leases);
                  room = b.room;
                  leases = b.leases;
                })
      ]

  -- Where leases are on and the delivery ids have room for the leases out and one more, publishing
  -- loses no message in silence: of any kind of messages, the new one and those that waited or were
  -- leased are those that wait or are leased after it and those that its events give up. The next
  -- publication has room again, and leases stay on.
  pub publish_with_opts-Balances :
      (n : ℕ) (v : V) (opts : PublishOpts) (q : Queue V) {ms : ℕ}
      → q.lease_ms ≡ some ms
      → HasRoom (length q.in_flight + suc n) q
      → Balances p n
          (one p (message_of ((q.next_sequence + 1) % u64_mod) v opts))
          q
          ((publish_with_opts reg now v opts q).0, (publish_with_opts reg now v opts q).1)
  unfolding publish_with_opts
  publish_with_opts-Balances n v opts q e h =
      let seq = (q.next_sequence + 1) % u64_mod in
      let q0 = record q { next_sequence = seq } in
      let swept = sweep_expired reg now q0 in
      let b = sweep_expired-Balances (suc n) q0 e (record { ids = h.ids; room = h.room }) in
      let m = message_of seq v opts in
      let d = dispatch-Balances n m swept.0 (b.leases ∙ e) b.room in
      record {
        balance = omega (
          arith,
          b.balance,
          d.balance,
          count_by-append (gives_up p) swept.1 (dispatch reg now m swept.0).1,
        );
        room = d.room;
        leases = d.leases ∙ b.leases;
      }

-- ===== src/Queue/Conservation.antt =====
-- What one operation on a lease does to the count of the messages of a queue: nothing is lost in
-- silence.
use cqserver.Prelude.{
  ℕ, suc, ◌+◌, ◌%◌, ◌≤◌, ◌<◌, ◌≡◌, ◌≢◌, refl, ap, ◌∙◌, String, Bool, none, some, List, [], ◌∷◌,
  arith, Bool-cases, Option-cases, inl, inr, All-weaken, All-insert, length, lookup, number_eq,
  count_by, count_by-append, count_by-insert_new, lookup-none_of_All,
}
use cqserver.Queue.State.{Message, Lease, Queue, Event, Registry, u32_mod, u64_mod}
use cqserver.Queue.Routing.{pick_next_consumer_excluding}
use cqserver.Queue.Delivery.{deliver_with_lease, deliver, redeliver, is_exhausted}
use cqserver.Queue.Operations.{settle, settle_all}
use cqserver.Queue.Redelivery.{pick_next-keeps}
use cqserver.Queue.Counting.{
  HasRoom, HasRoom-le, one, waiting, leased, held, gives_up, given_up, waiting-insert,
}

module _ {V : Type 0} (p : Message V → Bool) where
  -- What came in beside what was held is what is held now beside what was given up.
  pub record Balances (n came : ℕ) (q : Queue V) (r : Queue V × List (Event V)) : Type 0 where
    pub balance : came + held p q ≡ given_up p r.1 + held p r.0
    pub room : HasRoom n r.0
    pub leases : r.0.lease_ms ≡ q.lease_ms

  module _ (reg : Registry V) (now : ℕ) where
    id_ne :
        (n : ℕ) (q : Queue V) (id : ℕ)
        → q.next_delivery_id + suc n < u64_mod
        → id ≤ q.next_delivery_id
        → id ≢ (q.next_delivery_id + 1) % u64_mod
    id_ne n q id room le = omega arith

    id_le :
        (n : ℕ) (q : Queue V) (id : ℕ)
        → q.next_delivery_id + suc n < u64_mod
        → id ≤ q.next_delivery_id
        → id ≤ (q.next_delivery_id + 1) % u64_mod
    id_le n q id room le = omega arith

    fresh_id :
        (n : ℕ) (q : Queue V)
        → HasRoom (suc n) q
        → lookup ((q.next_delivery_id + 1) % u64_mod) q.in_flight ≡ none
    fresh_id n q h = lookup-none_of_All _ q.in_flight (
        All-weaken (λ e. e.0 ≤ q.next_delivery_id) _ (λ e le. id_ne n q e.0 h.room le) q.in_flight
          h.ids)

    pub deliver-Balances :
        (n : ℕ) (sub : String) (m : Message V) (count : ℕ) (q : Queue V) {ms : ℕ}
        → q.lease_ms ≡ some ms
        → HasRoom (suc n) q
        → Balances n (one p m) q (deliver_with_lease reg now sub m count q)
    unfolding deliver_with_lease deliver
    deliver-Balances n sub m count q {ms} e h =
        rw (e, deliver_with_lease)
          (record {
            balance = omega (
              arith,
              count_by-insert_new (λ e. p e.1.msg) ((q.next_delivery_id + 1) % u64_mod) _
                  q.in_flight (fresh_id n q h),
            );
            room = record {
              ids =
                  All-insert (λ e. e.0 ≤ (q.next_delivery_id + 1) % u64_mod)
                    ((q.next_delivery_id + 1) % u64_mod) _ q.in_flight (omega arith)
                    (All-weaken (λ e. e.0 ≤ q.next_delivery_id) _ (λ e le. id_le n q e.0 h.room le)
                      q.in_flight h.ids);
              room = omega (arith, h.room);
            };
            leases = e;
          })

    HasRoom-pick_next :
        (n : ℕ) (original : String) (q : Queue V)
        → HasRoom n q
        → HasRoom n (record q { inner = (pick_next_consumer_excluding original q.inner).1 })
    HasRoom-pick_next n o q h =
        let (_, _, leases, next) = pick_next-keeps o q.inner in
        record { ids = rw (leases, next) h.ids; room = rw next h.room }

    redeliver-Balances :
        (n : ℕ) (lease : Lease V) (q : Queue V) {ms : ℕ}
        → q.lease_ms ≡ some ms
        → HasRoom (suc n) q
        → Balances n (one p lease.msg) q (redeliver reg now lease q)
    unfolding redeliver
    redeliver-Balances n lease q e h =
        let o = lease.sub_id in
        let (buf, _, leases, _) = pick_next-keeps o q.inner in
        let g = (pick_next_consumer_excluding o q.inner).1 in
        let h' = HasRoom-pick_next (suc n) o q h in
        elim (Option-cases (pick_next_consumer_excluding o q.inner).0) [
          | inl nobody ↦
              rw (nobody, redeliver)
                (record {
                  balance = omega (
                    arith,
                    waiting-insert p lease.msg g.buffer,
                    ap (waiting p) buf,
                    ap (leased p) leases,
                  );
                  room = record { ids = h'.ids; room = omega (arith, h'.room) };
                  leases = refl;
                })
          | inr (sid, somebody) ↦
              let b =
                deliver-Balances n sid lease.msg ((lease.redelivery_count + 1) % u32_mod)
                  (record q { inner = g }) e h' in
              rw (somebody, redeliver)
                (record {
                  balance = omega (arith, b.balance, ap (waiting p) buf, ap (leased p) leases);
                  room = b.room;
                  leases = b.leases;
                })
        ]

    settle-Balances :
        (n : ℕ) (lease : Lease V) (q : Queue V) {ms : ℕ}
        → q.lease_ms ≡ some ms
        → HasRoom (suc n) q
        → Balances n (one p lease.msg) q (settle reg now lease q)
    unfolding settle
    settle-Balances n lease q e h = elim (Bool-cases (is_exhausted lease q)) [
      | inl gone ↦ rw gone (record {
        balance = omega arith;
        room = HasRoom-le n (suc n) q (omega arith) h;
        leases = refl;
      })
      | inr fresh ↦ rw fresh (redeliver-Balances n lease q e h)
    ]

    pub settle_all-Balances :
        (n : ℕ) (ls : List (Lease V)) (q : Queue V) {ms : ℕ}
        → q.lease_ms ≡ some ms
        → HasRoom (length ls + n) q
        → Balances n (count_by (λ l. p l.msg) ls) q (settle_all reg now ls q)
    unfolding settle_all
    settle_all-Balances n [] q e h = record {
      balance = omega arith;
      room = HasRoom-le n (0 + n) q (omega arith) h;
      leases = refl;
    }
    settle_all-Balances n (l ∷ ls) q e h =
        let b = settle-Balances (length ls + n) l q e (HasRoom-le _ _ q (omega arith) h) in
        let q' = (settle reg now l q).0 in
        let rest = settle_all-Balances n ls q' (b.leases ∙ e) b.room in
        record {
          balance = omega (
            arith,
            b.balance,
            rest.balance,
            count_by-append (gives_up p) (settle reg now l q).1 (settle_all reg now ls q').1,
          );
          room = rest.room;
          leases = rest.leases ∙ b.leases;
        }

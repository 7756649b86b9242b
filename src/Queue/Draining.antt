-- ===== src/Queue/Draining.antt =====
-- What a new consumer of a queue gets: the whole backlog, in order.
use mathlib.Core.Path.{ap₂}
use mathlib.Core.List.{map-append, map-map}
use cqserver.Prelude.{
  ℕ, ◌≡◌, refl, ap, sym, ◌∙◌, String, true, Option, none, some, List, [], ◌∷◌, ◌++◌, map, arith,
  Option-cases, List-cases, inl, inr, All-weaken, string_eq,
}
use cqserver.Queue.State.{Message, Inner, Queue, Event, Registry, delivery}
use cqserver.Queue.Routing.{pick_consumer_for, next_round_robin}
use cqserver.Queue.Delivery.{deliver_with_lease, deliver, frame_of}
use cqserver.Queue.Operations.{drain, deliver_all, add_consumer}
use cqserver.Queue.Rotation.{connected, connected-append}
use cqserver.Queue.Pins.{connected-pick}
use cqserver.Queue.Valid.{
  connected_last, InnerIsValid, IsValid, RouteIsLive, deliver_with_lease-IsValid, pick-InnerIsValid,
  pick-some, pick-keeps,
}

module _ {V : Type 0} where
  -- The sequence number of the message that an event sends.
  abbrev pub sent_number : Event V → Option ℕ
  sent_number (delivery frame result) = some frame.number
  sent_number _ = none

  pick-buffer :
      (group : Option String) (g : Inner V) → (pick_consumer_for group g).1.buffer ≡ g.buffer
  unfolding pick_consumer_for next_round_robin
  pick-buffer group g = ground arith

  picks :
      (c : String) (group : Option String) (g : Inner V)
      → connected c g.consumers ≡ true
      → (d : String) × ((pick_consumer_for group g).0 ≡ some d)
  picks c group g live = elim (List-cases g.consumers) [
    | inl line ↦ absurd (cc (live, ap (connected c) line))
    | inr (x, cs, line) ↦ pick-some group g line
  ]

  record Drained (ms : List (Message V)) (g : Inner V) (r : List (String × Message V) × Inner V)
      : Type 0 where
    runs : drain ms g ≡ some r
    order : map (λ d. d.1) r.0 ≡ ms
    valid : InnerIsValid r.1
    same_buffer : r.1.buffer ≡ g.buffer
    same_leases : r.1.in_flight ≡ g.in_flight

  drain_lem :
      (c : String) (ms : List (Message V)) (g : Inner V)
      → connected c g.consumers ≡ true
      → InnerIsValid g
      → (r : List (String × Message V) × Inner V) × Drained ms g r
  unfolding drain
  drain_lem c [] g live v = (
    ([], g),
    record { runs = refl; order = refl; valid = v; same_buffer = refl; same_leases = refl },
  )
  drain_lem c (m ∷ ms) g live v =
      let (d, found) = picks c m.group g live in
      let g' = (pick_consumer_for m.group g).1 in
      let (r, ih) =
        drain_lem c ms g' (connected-pick c m.group g ∙ live) (pick-InnerIsValid m.group g v) in
      (
        ((d, m) ∷ r.0, r.1),
        record {
          runs = rw (found, drain) (rw ih.runs);
          order = ap (◌∷◌ m) ih.order;
          valid = ih.valid;
          same_buffer = ih.same_buffer ∙ pick-buffer m.group g;
          same_leases = ih.same_leases ∙ pick-keeps m.group g;
        },
      )

  numbers_of :
      (ds : List (String × Message V)) (ms : List (Message V))
      → map (λ d. d.1) ds ≡ ms
      → map (λ d. some d.1.sequence) ds ≡ map (λ m. some m.sequence) ms
  numbers_of ds ms order =
      sym (map-map (λ m. some m.sequence) (λ d. d.1) ds) ∙ ap (map (λ m. some m.sequence)) order

  module _ (reg : Registry V) (now : ℕ) where
    deliver-event :
        (sub : String) (m : Message V) (count : ℕ) (q : Queue V)
        → map sent_number (deliver_with_lease reg now sub m count q).1 ≡ some m.sequence ∷ []
    unfolding deliver_with_lease deliver frame_of
    deliver-event sub m count q = elim (Option-cases q.lease_ms) [
      | inl e ↦ rw (e, deliver_with_lease)
      | inr (ms, e) ↦ rw (e, deliver_with_lease)
    ]

    deliver-buffer :
        (sub : String) (m : Message V) (count : ℕ) (q : Queue V)
        → (deliver_with_lease reg now sub m count q).0.buffer ≡ q.buffer
    unfolding deliver_with_lease
    deliver-buffer sub m count q = ground arith

    record Delivered (ds : List (String × Message V)) (q : Queue V) : Type 0 where
      valid : IsValid (deliver_all reg now ds q).0
      same_buffer : (deliver_all reg now ds q).0.buffer ≡ q.buffer
      numbers : map sent_number (deliver_all reg now ds q).1 ≡ map (λ d. some d.1.sequence) ds

    deliver_all_lem : (ds : List (String × Message V)) (q : Queue V) → IsValid q → Delivered ds q
    unfolding deliver_all
    deliver_all_lem [] q v = record { valid = v; same_buffer = refl; numbers = refl }
    deliver_all_lem ((sid, m) ∷ ds) q v =
        let q' = (deliver_with_lease reg now sid m 0 q).0 in
        let ih =
          deliver_all_lem ds q' (deliver_with_lease-IsValid reg now sid m 0 q (omega arith) v) in
        record {
          valid = ih.valid;
          same_buffer = ih.same_buffer ∙ deliver-buffer sid m 0 q;
          numbers =
              map-append sent_number (deliver_with_lease reg now sid m 0 q).1 _
              ∙ ap₂ (◌++◌) (deliver-event sid m 0 q) ih.numbers;
        }

    -- Connecting a consumer to a valid queue never panics; it leaves a valid queue whose backlog is
    -- empty, and every message that waited is sent, in the order of the backlog.
    pub add_consumer_lem :
        (sub : String) (q : Queue V)
        → IsValid q
        → (r : Queue V × List (Event V)) × (add_consumer reg now sub q ≡ some r)
          × IsValid r.0
          × (r.0.buffer ≡ [])
          × (map sent_number r.1 ≡ map (λ m. some m.sequence) q.buffer)
    unfolding add_consumer
    add_consumer_lem sub q v =
        let cs = q.consumers ++ sub ∷ [] in
        let (r, d) =
          drain_lem sub q.buffer (record q.inner { buffer = []; consumers = cs })
            (connected_last sub q.consumers)
            (record {
              sorted = tt;
              idle = inl refl;
              routes =
                  All-weaken (RouteIsLive q.inner) _ (λ r live. rw (connected-append, live))
                    q.group_routes v.inside.routes;
            }) in
        let q' = record q { inner = r.1 } in
        let sent =
          deliver_all_lem r.0 q' (record {
            inside = d.valid;
            cap_pos = v.cap_pos;
            counts = rw d.same_leases v.counts;
          }) in
        (
          deliver_all reg now r.0 q',
          rw (d.runs, add_consumer),
          sent.valid,
          sent.same_buffer ∙ d.same_buffer,
          sent.numbers ∙ numbers_of r.0 q.buffer d.order,
        )

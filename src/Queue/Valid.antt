-- ===== src/Queue/Valid.antt =====
-- The invariant of a queue, kept by the parts that the operations are made of.
use cqserver.Prelude.{
  ℕ, ◌+◌, ◌%◌, ◌≤◌, ◌<◌, ◌≡◌, ◌⊎◌, refl, ap, ◌||◌, ◌∙◌, String, true, Option, none, some, List, [],
  ◌∷◌, ◌++◌, arith, Option-cases, List-cases, ==_refl, string_eq, number_eq, Assoc, inl, inr, All,
  All-weaken, All-insert,
}
use cqserver.Queue.State.{Message, Lease, Inner, Queue, Registry, u64_mod}
use cqserver.Queue.Routing.{pin, next_round_robin, pinned_consumer, pick_consumer_for}
use cqserver.Queue.Delivery.{deliver_with_lease}
use cqserver.Queue.Order.{IsSorted}
use cqserver.Queue.Rotation.{connected, connected-rotate}
use cqserver.Queue.Pins.{next_round_robin-nil, next_round_robin-cons}

routes-pin :
    (c : String) (cs : List String) (group : Option String) (routes : Assoc String String)
    → connected c cs ≡ true
    → All (λ r. connected r.1 cs ≡ true) routes
    → All (λ r. connected r.1 cs ≡ true) (pin group c routes)
unfolding pin
routes-pin c cs none routes live a = a
routes-pin c cs (some g) routes live a = All-insert (λ r. connected r.1 cs ≡ true) g c routes live a

pub connected_last : (x : String) (cs : List String) → connected x (cs ++ x ∷ []) ≡ true
connected_last x cs = connected-rotate x x cs ∙ ap (λ b. b || connected x cs) (==_refl x)

module _ {V : Type 0} where
  abbrev pub RouteIsLive : Inner V → String × String → Type 0
  RouteIsLive g route = connected route.1 g.consumers ≡ true

  pub record InnerIsValid (g : Inner V) : Type 0 where
    pub sorted : IsSorted g.buffer
    -- No message waits while a consumer is connected.
    pub idle : (g.buffer ≡ []) ⊎ (g.consumers ≡ [])
    pub routes : All (RouteIsLive g) g.group_routes

  abbrev pub CountIsBounded : ℕ → ℕ × Lease V → Type 0
  CountIsBounded cap entry = entry.1.redelivery_count ≤ cap

  pub record IsValid (q : Queue V) : Type 0 where
    pub inside : InnerIsValid q.inner
    pub cap_pos : 0 < q.max_buffer
    pub counts : All (CountIsBounded q.max_delivery_count) q.in_flight

  pinned-nil :
      (group : Option String) (g : Inner V) → g.consumers ≡ [] → pinned_consumer group g ≡ none
  unfolding pinned_consumer
  pinned-nil none g e = refl
  pinned-nil (some d) g e = ground (arith, e)

  -- With nobody connected nobody is picked, and nothing changes.
  pub pick-nil :
      (group : Option String) (g : Inner V)
      → g.consumers ≡ []
      → pick_consumer_for group g ≡ (none, g)
  unfolding pick_consumer_for
  pick-nil group g e = rw (pinned-nil group g e, pick_consumer_for) (next_round_robin-nil group g e)

  -- With somebody connected somebody is picked.
  pub pick-some :
      (group : Option String) (g : Inner V) {x : String} {cs : List String}
      → g.consumers ≡ x ∷ cs
      → (c : String) × ((pick_consumer_for group g).0 ≡ some c)
  unfolding pick_consumer_for
  pick-some group g {x} line = elim (Option-cases (pinned_consumer group g)) [
    | inl free ↦
        (x, rw (free, pick_consumer_for) (ap (λ r. r.0) (next_round_robin-cons group g line)))
    | inr (d, at) ↦ (d, rw (at, pick_consumer_for))
  ]

  next-InnerIsValid :
      (group : Option String) (g : Inner V)
      → InnerIsValid g
      → InnerIsValid (next_round_robin group g).1
  next-InnerIsValid group g v = elim (List-cases g.consumers) [
    | inl line ↦ rw (next_round_robin-nil group g line) v
    | inr (x, cs, line) ↦ rw (next_round_robin-cons group g line) (record {
      sorted = v.sorted;
      idle = elim v.idle [ inl e ↦ inl e | inr e ↦ inl (absurd (cc (line, e))) ];
      routes = routes-pin x (cs ++ x ∷ []) group g.group_routes (connected_last x cs) (
          All-weaken (RouteIsLive g) _ (λ r live. rw connected-rotate (rw line at live))
            g.group_routes v.routes);
    })
  ]

  -- Nobody is picked only if nobody is connected, and then nobody is connected afterwards.
  pub pick-none :
      (group : Option String) (g : Inner V)
      → (pick_consumer_for group g).0 ≡ none
      → (pick_consumer_for group g).1.consumers ≡ []
  pick-none group g e = elim (List-cases g.consumers) [
    | inl line ↦ rw (pick-nil group g line) line
    | inr (x, cs, line) ↦ let (c, found) = pick-some group g line in absurd (cc (e, found))
  ]

  pub pick-keeps :
      (group : Option String) (g : Inner V) → (pick_consumer_for group g).1.in_flight ≡ g.in_flight
  unfolding pick_consumer_for next_round_robin
  pick-keeps group g = ground arith

  -- Picking a consumer keeps the invariant.
  pub pick-InnerIsValid :
      (group : Option String) (g : Inner V)
      → InnerIsValid g
      → InnerIsValid (pick_consumer_for group g).1
  unfolding pick_consumer_for
  pick-InnerIsValid group g v = elim (Option-cases (pinned_consumer group g)) [
    | inl free ↦ rw (free, pick_consumer_for) (next-InnerIsValid group g v)
    | inr (d, at) ↦ rw (at, pick_consumer_for) v
  ]

  -- So does a delivery, of a message that was not redelivered too often.
  pub deliver_with_lease-IsValid :
      (reg : Registry V) (now : ℕ) (sub : String) (msg : Message V) (count : ℕ) (q : Queue V)
      → count ≤ q.max_delivery_count
      → IsValid q
      → IsValid (deliver_with_lease reg now sub msg count q).0
  unfolding deliver_with_lease
  deliver_with_lease-IsValid reg now sub msg count q bound v = elim (Option-cases q.lease_ms) [
    | inl e ↦ rw (e, deliver_with_lease) v
    | inr (ms, e) ↦
        rw (e, deliver_with_lease)
          (record {
            inside = record {
              sorted = v.inside.sorted;
              idle = v.inside.idle;
              routes = v.inside.routes;
            };
            cap_pos = v.cap_pos;
            counts =
                All-insert (CountIsBounded q.max_delivery_count)
                  ((q.next_delivery_id + 1) % u64_mod) _ q.in_flight bound v.counts;
          })
  ]

-- ===== src/Queue/Pins.antt =====
-- Message groups: a group that is pinned to a connected consumer stays with it.
use cqserver.Prelude.{
  List-cases, lookup-insert_self, ◌||◌, ◌≡◌, ◌≢◌, ap, sym, ◌∙◌, String, true, Option, none, some,
  List, [], ◌∷◌, ◌++◌, arith, Bool-cases, Option-cases, lookup, lookup-insert, ◌==◌, ==_iff,
  ==_refl, string_eq, inl, inr,
}
use cqserver.Queue.State.{Inner}
use cqserver.Queue.Routing.{rotate, pin, next_round_robin, pinned_consumer, pick_consumer_for}
use cqserver.Queue.Rotation.{connected, connected-rotate}

module _ {V : Type 0} where
  pub record IsPinned (group c : String) (g : Inner V) : Type 0 where
    pub route : lookup group g.group_routes ≡ some c
    pub live : connected c g.consumers ≡ true

  pinned_lem :
      {group c : String} {g : Inner V}
      → IsPinned group c g
      → pinned_consumer (some group) g ≡ some c
  unfolding pinned_consumer
  pinned_lem {group} {c} {g} p = rw (p.route, pinned_consumer, p.live)

  -- A message of a pinned group goes to the group's consumer, and the rotation does not move.
  pub pick-pinned :
      (group c : String) (g : Inner V)
      → IsPinned group c g
      → pick_consumer_for (some group) g ≡ (some c, g)
  unfolding pick_consumer_for
  pick-pinned group c g p = rw (pinned_lem p, pick_consumer_for)

  pub next_round_robin-nil :
      (group : Option String) (g : Inner V)
      → g.consumers ≡ []
      → next_round_robin group g ≡ (none, g)
  unfolding next_round_robin
  next_round_robin-nil group g line = rw (line, next_round_robin) (rw (line, rotate))

  pub next_round_robin-cons :
      (group : Option String) (g : Inner V) {x : String} {cs : List String}
      → g.consumers ≡ x ∷ cs
      → next_round_robin group g
        ≡ (some x, record g { consumers = cs ++ x ∷ []; group_routes = pin group x g.group_routes })
  unfolding next_round_robin
  next_round_robin-cons group g line = rw (line, next_round_robin) (rw (line, rotate))

  connected-next :
      (c : String) (group : Option String) (g : Inner V)
      → connected c (next_round_robin group g).1.consumers ≡ connected c g.consumers
  connected-next c group g = elim (List-cases g.consumers) [
    | inl line ↦ rw (next_round_robin-nil group g line)
    | inr (x, cs, line) ↦
        rw (next_round_robin-cons group g line)
          (connected-rotate c x cs ∙ sym (ap (connected c) line))
  ]

  -- Picking connects and disconnects nobody.
  pub connected-pick :
      (c : String) (group : Option String) (g : Inner V)
      → connected c (pick_consumer_for group g).1.consumers ≡ connected c g.consumers
  unfolding pick_consumer_for
  connected-pick c group g = elim (Option-cases (pinned_consumer group g)) [
    | inl free ↦ rw (free, pick_consumer_for) (connected-next c group g)
    | inr (d, at) ↦ rw (at, pick_consumer_for)
  ]

  pinned_not_free :
      (group c d : String) (g : Inner V)
      → IsPinned group c g
      → (d == group) ≡ true
      → pinned_consumer (some d) g ≢ none
  pinned_not_free group c d g p same free = cc (pinned_lem p, (==_iff d group).0 same, free)

  pinned_elsewhere :
      (group c x : String) (other : Option String) (g : Inner V)
      → IsPinned group c g
      → pinned_consumer other g ≡ none
      → lookup group (pin other x g.group_routes) ≡ some c
  unfolding pin
  pinned_elsewhere group c x none g p free = p.route
  pinned_elsewhere group c x (some d) g p free = elim (Bool-cases (d == group)) [
    | inl same ↦ absurd (pinned_not_free group c d g p same free)
    | inr other ↦ rw (lookup-insert, other) p.route
  ]

  route-next :
      (group c : String) (other : Option String) (g : Inner V)
      → IsPinned group c g
      → pinned_consumer other g ≡ none
      → lookup group (next_round_robin other g).1.group_routes ≡ some c
  route-next group c other g p free = elim (List-cases g.consumers) [
    | inl line ↦ rw (next_round_robin-nil other g line) p.route
    | inr (x, cs, line) ↦
        rw (next_round_robin-cons other g line) (pinned_elsewhere group c x other g p free)
  ]

  -- Serving any group, this one too, leaves a pin as it is.
  pub pick-IsPinned :
      (group c : String) (other : Option String) (g : Inner V)
      → IsPinned group c g
      → IsPinned group c (pick_consumer_for other g).1
  unfolding pick_consumer_for
  pick-IsPinned group c other g p = elim (Option-cases (pinned_consumer other g)) [
    | inl free ↦
        rw (free, pick_consumer_for)
          (record {
            route = route-next group c other g p free;
            live = connected-next c other g ∙ p.live;
          })
    | inr (d, e) ↦ rw (e, pick_consumer_for) p
  ]

  next-pins :
      (group c : String) (g : Inner V)
      → (next_round_robin (some group) g).0 ≡ some c
      → IsPinned group c (next_round_robin (some group) g).1
  unfolding pin
  next-pins group c g e = elim (List-cases g.consumers) [
    | inl line ↦ absurd (cc (next_round_robin-nil (some group) g line, e))
    | inr (x, cs, line) ↦
        let e' = next_round_robin-cons (some group) g line in
        let same : x ≡ c = cc (ap (λ r. r.0) e', e) in
        rw e' (record {
          route = lookup-insert_self group x g.group_routes ∙ ap some same;
          live = connected-rotate c x cs ∙ rw same (ap (λ b. b || connected c cs) (==_refl c));
        })
  ]

  IsPinned-of_IsPinned :
      (group c : String) (g : Inner V)
      → pinned_consumer (some group) g ≡ some c
      → IsPinned group c g
  unfolding pinned_consumer
  IsPinned-of_IsPinned group c g e = ground arith

  -- The consumer that a message of a group is given to, whether by a pin that holds or by the
  -- rotation, is connected and has the group pinned to it from then on.
  pub pick-pins :
      (group c : String) (g : Inner V)
      → (pick_consumer_for (some group) g).0 ≡ some c
      → IsPinned group c (pick_consumer_for (some group) g).1
  unfolding pick_consumer_for
  pick-pins group c g e = elim (Option-cases (pinned_consumer (some group) g)) [
    | inl free ↦ rw (free, pick_consumer_for) (next-pins group c g (ground (arith, free)))
    | inr (d, at) ↦ rw (at, pick_consumer_for) (IsPinned-of_IsPinned group c g (ground (arith, at)))
  ]

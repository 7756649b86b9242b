-- ===== src/Queue/Routing.antt =====
-- Who gets a message: round robin, group pins, and the choice of another consumer on redelivery
-- (`pick_consumer_for` and `pick_next_consumer_excluding` in crates/cq-transport/src/queue.rs).
use mathlib.Core.List.{head?}
use cqserver.Prelude.{
  ℕ, zero, suc, String, Option, none, some, List, [], ◌∷◌, ◌++◌, if◌then◌else◌, length, any, Assoc,
  lookup, insert, ◌==◌, string_eq,
}
use cqserver.Queue.State.{Inner}

-- `pop_front` and `push_back` of the same consumer.
unfoldable pub rotate : List String → Option String × List String
rotate [] = (none, [])
rotate (c ∷ cs) = (some c, cs ++ c ∷ [])

unfoldable pub pin : Option String → String → Assoc String String → Assoc String String
pin none sub routes = routes
pin (some g) sub routes = insert g sub routes

-- The first pass of `pick_next_consumer_excluding`: at most `rounds` rotations.
unfoldable pub rotate_to_other : ℕ → String → List String → Option String × List String
unfolding rotate
rotate_to_other zero original cs = (none, cs)
rotate_to_other (suc rounds) original [] = (none, [])
rotate_to_other (suc rounds) original (c ∷ cs) =
    let later = rotate_to_other rounds original (cs ++ c ∷ []) in
    if c == original then later else (some c, cs ++ c ∷ [])

module _ {V : Type 0} where
  -- Round robin; a group that has no connected consumer is pinned to the one it gets.
  unfoldable pub next_round_robin : Option String → Inner V → Option String × Inner V
  unfolding rotate pin
  next_round_robin group g =
      let (sub, consumers') = rotate g.consumers in
      elim sub [
        | none ↦ (none, g)
        | some c ↦
            (some c, record g { consumers = consumers'; group_routes = pin group c g.group_routes })
      ]

  -- The consumer that a group is pinned to, if it is connected.
  unfoldable pub pinned_consumer : Option String → Inner V → Option String
  pinned_consumer none g = none
  pinned_consumer (some group) g = elim (lookup group g.group_routes) [
    | none ↦ none
    | some c ↦ if any (λ s. s == c) g.consumers then some c else none
  ]

  unfoldable pub pick_consumer_for : Option String → Inner V → Option String × Inner V
  unfolding next_round_robin pinned_consumer
  pick_consumer_for group g = elim (pinned_consumer group g) [
    | some c ↦ (some c, g)
    | none ↦ next_round_robin group g
  ]

  unfoldable pub pick_next_consumer_excluding : String → Inner V → Option String × Inner V
  unfolding rotate_to_other
  pick_next_consumer_excluding original g =
      let (other, cs) = rotate_to_other (length g.consumers) original g.consumers in
      let g' = record g { consumers = cs } in
      elim other [ some c ↦ (some c, g') | none ↦ (head? cs, g') ]

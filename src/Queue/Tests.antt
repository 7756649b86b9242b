-- ===== src/Queue/Tests.antt =====
-- Small queues on which the theorems about the queue are applied, and runs of the code.
use mathlib.Core.List.{head?}
use cqserver.Prelude.{
  filter_by, ℕ, ◌≡◌, ◌<◌, ◌≤◌, refl, true, none, some, List, [], ◌∷◌, ◌++◌, map, arith, pos, inr,
  length, lookup, All,
}
use cqserver.Queue.State.{
  max_redelivery_dropped, Message, Lease, Queue, Event, Registry, Frame, PublishOpts, sent,
  delivery,
}
use cqserver.Queue.Buffer.{insert_by_priority, evict_one_for_cap, evict_to_cap}
use cqserver.Queue.Routing.{pick_consumer_for, pick_next_consumer_excluding}
use cqserver.Queue.Delivery.{take_expired, is_exhausted}
use cqserver.Queue.Operations.{
  dispatch, publish_with_opts, add_consumer, message_of, settle, sweep_expired,
  sweep_expired_with_queues,
}
use cqserver.Queue.Settings.{with_max_buffer, Json, Queues, with_lease}
use cqserver.Queue.Order.{IsSorted, at_least, below, insert_by_priority_lem}
use cqserver.Queue.Eviction.{above, Cut, evict_one_for_cap_lem}
use cqserver.Queue.Capping.{Fits, evict_to_cap-Fits}
use cqserver.Queue.Rotation.{first_other, pick_next_consumer_excluding_lem}
use cqserver.Queue.Pins.{IsPinned, pick-pins}
use cqserver.Queue.Valid.{IsValid}
use cqserver.Queue.Reachable.{Step, Made, Reach, Reach-IsValid}
use cqserver.Queue.Draining.{sent_number, add_consumer_lem}
use cqserver.Queue.Conservation.{Balances}
use cqserver.Queue.AtLeastOnce.{publish_with_opts-Balances}
use cqserver.Queue.Publishing.{publish-IsPinned}
use cqserver.Queue.Cap.{publish-le-max_buffer, settle_over_cap}
use cqserver.Queue.Plain.{NotRouted, is_max_drop}
use cqserver.Queue.Spent.{exhausted, unexhausted, redeliver_each, publish_routes_nothing}
use cqserver.Queue.DeadLetters.{Inspected, Settled, sweep_with_dlq_lem}

abbrev all_sent : Registry ℕ
all_sent = λ f. sent

abbrev msg : ℕ → ℕ → Message ℕ
msg seq p = record { sequence = seq; body = 0; priority = pos p; group = none }

abbrev backlog : List (Message ℕ)
backlog = msg 1 5 ∷ msg 2 3 ∷ msg 3 3 ∷ []

backlog-IsSorted : IsSorted backlog
backlog-IsSorted = omega arith

insert_by_priority_example :
    insert_by_priority (msg 4 3) backlog
    ≡ at_least (pos 3) backlog ++ msg 4 3 ∷ below (pos 3) backlog
insert_by_priority_example = insert_by_priority_lem (msg 4 3) backlog backlog-IsSorted

insert_runs : insert_by_priority (msg 4 4) backlog ≡ msg 1 5 ∷ msg 4 4 ∷ msg 2 3 ∷ msg 3 3 ∷ []
unfolding insert_by_priority
insert_runs = refl

evict_runs : evict_one_for_cap backlog ≡ (msg 1 5 ∷ msg 3 3 ∷ [], some (msg 2 3))
unfolding evict_one_for_cap
evict_runs = refl

abbrev lost : Lease ℕ
lost = record { msg = msg 9 1; sub_id = "a"; expires_at = 10; redelivery_count = 0 }

-- A full backlog, nobody connected, and a lease that has run out at time 10.
abbrev idle_queue : Queue ℕ
idle_queue = record {
  name = "orders";
  next_sequence = 9;
  inner = record {
    buffer = backlog;
    consumers = [];
    in_flight = (1, lost) ∷ [];
    next_delivery_id = 1;
    group_routes = [];
  };
  lease_ms = some 100;
  max_delivery_count = 8;
  dlq_name = some "dead";
  max_buffer = 3;
}

idle_queue-IsValid : IsValid idle_queue
idle_queue-IsValid = record {
  inside = record { sorted = backlog-IsSorted; idle = inr refl; routes = tt };
  cap_pos = omega arith;
  counts = omega arith;
}

-- The same queue with two consumers, to the second of which the group "g" is pinned.
abbrev busy_queue : Queue ℕ
busy_queue = record idle_queue {
  inner = record idle_queue.inner {
    buffer = [];
    consumers = "a" ∷ "b" ∷ [];
    group_routes = ("g", "b") ∷ [];
  };
}

busy_queue-IsPinned : IsPinned "g" "b" busy_queue.inner
unfolding lookup
busy_queue-IsPinned = record { route = refl; live = refl }

abbrev to_group : PublishOpts
to_group = record { priority = pos 0; group = some "g" }

evict_one_for_cap_example :
    (c : Cut (pos 3) backlog) × (evict_one_for_cap backlog
      ≡ (above (pos 3) backlog ++ c.tail, some c.victim))
evict_one_for_cap_example = evict_one_for_cap_lem backlog (msg 3 3) backlog-IsSorted refl

evict_to_cap-Fits_example : Fits 2 backlog (evict_to_cap 3 2 backlog).0 (evict_to_cap 3 2 backlog).1
evict_to_cap-Fits_example =
    evict_to_cap-Fits 3 2 backlog (omega arith) (omega arith) backlog-IsSorted

pick_next_example :
    (pick_next_consumer_excluding "a" busy_queue.inner).0
    ≡ elim (first_other "a" busy_queue.inner.consumers) [
      | some c ↦ some c
      | none ↦ head? busy_queue.inner.consumers
    ]
pick_next_example = pick_next_consumer_excluding_lem "a" busy_queue.inner

pick_next_runs : (pick_next_consumer_excluding "a" busy_queue.inner).0 ≡ some "b"
unfolding pick_next_consumer_excluding
pick_next_runs = refl

pick_runs : (pick_consumer_for (some "h") busy_queue.inner).0 ≡ some "a"
unfolding pick_consumer_for lookup
pick_runs = refl

pick-pins_example : IsPinned "h" "a" (pick_consumer_for (some "h") busy_queue.inner).1
pick-pins_example = pick-pins "h" "a" busy_queue.inner pick_runs

abbrev start : Queue ℕ
start = with_max_buffer 2 (with_lease "orders" (some 100))

Reach-IsValid_example : IsValid (publish_with_opts all_sent 5 7 to_group start).0
Reach-IsValid_example =
    Reach-IsValid (Made.capped 2 (Made.leased "orders" (some 100)))
      (Reach.called (Step.published all_sent 5 7 to_group start) Reach.fresh)

add_consumer_example :
    (r : Queue ℕ × List (Event ℕ)) × (add_consumer all_sent 5 "a" idle_queue ≡ some r)
    × IsValid r.0
    × (r.0.buffer ≡ [])
    × (map sent_number r.1 ≡ some 1 ∷ some 2 ∷ some 3 ∷ [])
add_consumer_example = add_consumer_lem all_sent 5 "a" idle_queue idle_queue-IsValid

publish_with_opts-Balances_example :
    Balances
      (λ _. true)
      0
      1
      idle_queue
      (
        (publish_with_opts all_sent 10 7 to_group idle_queue).0,
        (publish_with_opts all_sent 10 7 to_group idle_queue).1,
      )
unfolding message_of
publish_with_opts-Balances_example =
    publish_with_opts-Balances (λ _. true) all_sent 10 0 7 to_group idle_queue {ms = 100} refl
      (record { ids = omega arith; room = omega arith })

publish-IsPinned_example :
    (f : Frame ℕ) × ((publish_with_opts all_sent 5 7 to_group busy_queue).1
      ≡ (sweep_expired all_sent 5 (record busy_queue { next_sequence = 10 })).1
        ++ delivery f (all_sent f) ∷ [])
    × (f.to ≡ "b")
    × (f.number ≡ 10)
    × (f.content ≡ 7)
    × IsPinned "g" "b" (publish_with_opts all_sent 5 7 to_group busy_queue).0.inner
publish-IsPinned_example =
    publish-IsPinned all_sent 5 7 (pos 0) "g" "b" busy_queue busy_queue-IsPinned

publish-le-max_buffer_example :
    length (publish_with_opts all_sent 10 7 to_group idle_queue).0.buffer ≤ 3
publish-le-max_buffer_example =
    publish-le-max_buffer all_sent 10 7 to_group idle_queue idle_queue-IsValid refl

settle_over_cap_example : 3 < length (settle all_sent 10 lost idle_queue).0.buffer
unfolding is_exhausted
settle_over_cap_example = settle_over_cap all_sent 10 lost idle_queue refl refl (omega arith)

-- A lease that has used up its redeliveries, in a queue that has a dead-letter queue.
abbrev used_up : Queue ℕ
used_up = record idle_queue {
  inner = record idle_queue.inner { in_flight = (1, record lost { redelivery_count = 8 }) ∷ [] };
}

publish_routes_nothing_example :
    let (out, kept) = take_expired 10 used_up.in_flight in
    let freed : Queue ℕ = record used_up {
      next_sequence = 10;
      inner = record used_up.inner { in_flight = kept };
    } in
    let (q', events, n) = publish_with_opts all_sent 10 7 to_group used_up in
    All NotRouted events
    × (filter_by is_max_drop events ≡ map max_redelivery_dropped (exhausted 8 out))
    × (q'
        ≡ (dispatch all_sent 10
            (message_of 10 7 to_group)
            (redeliver_each all_sent 10 (unexhausted 8 out) freed)).0)
publish_routes_nothing_example = publish_routes_nothing all_sent 10 7 to_group used_up 100 refl

-- The used-up lease is one of them.
exhausted_runs :
    map (λ (l : Lease ℕ). l.msg.sequence) (exhausted 8 (take_expired 10 used_up.in_flight).0)
    ≡ lost.msg.sequence ∷ []
unfolding take_expired
exhausted_runs = refl

abbrev numbers : Json ℕ
numbers = record { from_string = λ s. 0; from_number = λ n. n; object = λ fields. 1 }

abbrev dead_queue : Queue ℕ
dead_queue = with_lease "dead" none

abbrev queues : Queues ℕ
queues = ("orders", used_up) ∷ ("dead", dead_queue) ∷ []

queues-Inspected : Inspected "orders" "dead" used_up dead_queue queues
unfolding lookup with_lease
queues-Inspected = record { at_name = refl; target = refl; at_dlq = refl; leaseless = refl }

sweep_with_dlq_example :
    let (out, kept) = take_expired 10 used_up.in_flight in
    Settled all_sent 10 numbers "orders" "dead" refl out
      (record used_up { inner = record used_up.inner { in_flight = kept } })
      dead_queue
      (
        (sweep_expired_with_queues all_sent 10 numbers "orders" queues).0,
        (sweep_expired_with_queues all_sent 10 numbers "orders" queues).1,
      )
sweep_with_dlq_example =
    sweep_with_dlq_lem all_sent 10 numbers "orders" "dead" refl used_up dead_queue queues 100
      queues-Inspected refl

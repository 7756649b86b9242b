-- ===== src/Queue/Settings.antt =====
-- The operations that make a queue and that work on one of its parts: builders, statistics, leases
-- and consumers that leave (crates/cq-transport/src/queue.rs).
use cqserver.Prelude.{
  ℕ, ◌+◌, String, Bool, true, false, not, Option, none, some, List, [], if◌then◌else◌, length, any,
  filter_by, Assoc, lookup, insert, remove, ◌==◌, string_eq, number_eq, pos,
}
use cqserver.Queue.State.{Queue, PublishOpts, default_max_queue_buffer}

-- What the dead-letter path uses of serde_json.
pub record Json (V : Type 0) : Type 0 where
  pub from_string : String → V
  pub from_number : ℕ → V
  pub object : List (String × V) → V

pub record Stats : Type 0 where
  pub kind : String
  pub name : String
  pub buffered : ℕ
  pub consumers : ℕ
  pub sequence : ℕ

abbrev pub default_opts : PublishOpts
default_opts = record { priority = pos 0; group = none }

abbrev pub Queues : Type 0 → Type 0
Queues V = Assoc String (Queue V)

module _ {V : Type 0} where
  unfoldable pub with_lease : String → Option ℕ → Queue V
  with_lease name lease_ms = record {
    name = name;
    next_sequence = 0;
    inner = record {
      buffer = [];
      consumers = [];
      in_flight = [];
      next_delivery_id = 0;
      group_routes = [];
    };
    lease_ms = lease_ms;
    max_delivery_count = 8;
    dlq_name = none;
    max_buffer = default_max_queue_buffer;
  }

  unfoldable pub with_max_buffer : ℕ → Queue V → Queue V
  with_max_buffer cap q = record q { max_buffer = if cap == 0 then 1 else cap }

  unfoldable pub with_max_delivery_count : ℕ → Queue V → Queue V
  with_max_delivery_count n q = record q { max_delivery_count = n }

  unfoldable pub with_dlq : String → Queue V → Queue V
  with_dlq dlq q = record q { dlq_name = some dlq }

  unfoldable pub stats : Queue V → Stats
  stats q = record {
    kind = "queue";
    name = q.name;
    buffered = length q.buffer;
    consumers = length q.consumers;
    sequence = q.next_sequence;
  }

  unfoldable pub ack : ℕ → Queue V → Queue V × Bool
  ack did q = elim q.lease_ms [
    | none ↦ (q, false)
    | some _ ↦ elim (lookup did q.in_flight) [
      | none ↦ (q, false)
      | some _ ↦ (record q { inner = record q.inner { in_flight = remove did q.in_flight } }, true)
    ]
  ]

  unfoldable pub extend_lease : ℕ → ℕ → ℕ → Queue V → Queue V × Bool
  extend_lease now did extra_ms q = elim q.lease_ms [
    | none ↦ (q, false)
    | some _ ↦ elim (lookup did q.in_flight) [
      | none ↦ (q, false)
      | some lease ↦
          let lease' = record lease { expires_at = now + extra_ms } in
          (record q { inner = record q.inner { in_flight = insert did lease' q.in_flight } }, true)
    ]
  ]

  unfoldable pub remove_consumer : String → Queue V → Queue V × Bool
  remove_consumer sub q = (
    record q {
      inner = record q.inner {
        consumers = filter_by (λ s. not (s == sub)) q.consumers;
        group_routes = filter_by (λ r. not (r.1 == sub)) q.group_routes;
      };
    },
    any (λ s. s == sub) q.consumers,
  )

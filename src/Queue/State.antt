-- ===== src/Queue/State.antt =====
-- The data of the queue (crates/cq-transport/src/queue.rs), over any type of JSON payloads.
use cqserver.Prelude.{ℕ, ◌^◌, String, Option, List, Assoc, ℤ}

module _ (V : Type 0) where
  pub record Message : Type 0 where
    pub sequence : ℕ
    pub body : V
    pub priority : ℤ
    pub group : Option String

  pub record Lease : Type 0 where
    pub msg : Message
    pub sub_id : String
    pub expires_at : ℕ
    pub redelivery_count : ℕ

  pub record Inner : Type 0 where
    pub buffer : List Message
    pub consumers : List String
    pub in_flight : Assoc ℕ Lease
    pub next_delivery_id : ℕ
    pub group_routes : Assoc String String

  pub record Queue : Type 0 where
    pub name : String
    pub next_sequence : ℕ
    pub inner : Inner
    pub open inner use *
    pub lease_ms : Option ℕ
    pub max_delivery_count : ℕ
    pub dlq_name : Option String
    pub max_buffer : ℕ

  -- The outbound frame that `deliver` builds.
  pub record Frame : Type 0 where
    pub to : String
    pub topic : String
    pub number : ℕ
    pub content : V
    pub delivery_id : Option ℕ

-- How an attempt to send a frame ends.
pub data SendResult : Type 0 where
  consumer_gone unencodable sent outbound_full : SendResult

pub data Event (V : Type 0) : Type 0 where
  delivery : Frame V → SendResult → Event V
  overflow_dropped : Message V → Event V
  max_redelivery_dropped : Lease V → Event V
  dlq_routed : String → V → Event V

pub record PublishOpts : Type 0 where
  pub priority : ℤ
  pub group : Option String

abbrev pub u32_mod : ℕ
u32_mod = 2 ^ 32

abbrev pub u64_mod : ℕ
u64_mod = 2 ^ 64

abbrev pub default_max_queue_buffer : ℕ
default_max_queue_buffer = 1_000_000

abbrev pub Registry : Type 0 → Type 0
Registry V = Frame V → SendResult

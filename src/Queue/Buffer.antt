-- ===== src/Queue/Buffer.antt =====
-- The undelivered backlog of a queue: insertion by priority and eviction at the cap
-- (`insert_by_priority`, `evict_one_for_cap` and the loop of `publish_with_opts` in
-- crates/cq-transport/src/queue.rs).
use mathlib.Core.Option
use cqserver.Prelude.{
  ℕ, zero, suc, Option, none, some, List, [], ◌∷◌, ◌++◌, leb, if◌then◌else◌, length, back, position,
  insert_at, remove_at, get_elem?, ltb_ℤ, leb_ℤ, int_eq,
}
use cqserver.Queue.State.{Message, Event, overflow_dropped}

module _ {V : Type 0} where
  -- The buffer, highest priority first and in order of arrival within a priority.
  unfoldable pub insert_by_priority : Message V → List (Message V) → List (Message V)
  insert_by_priority msg buf = elim (back buf) [
    | none ↦ buf ++ msg ∷ []
    | some tail ↦
        if leb_ℤ msg.priority tail.priority
        then buf ++ msg ∷ []
        else insert_at
            (Option.get_or (position (λ m. ltb_ℤ m.priority msg.priority) buf) (length buf)) msg buf
  ]

  -- The source returns whether a message was removed; here the message stands in place of `true`.
  unfoldable pub evict_one_for_cap : List (Message V) → List (Message V) × Option (Message V)
  evict_one_for_cap buf = elim (back buf) [
    | none ↦ (buf, none)
    | some tail ↦
        let at = Option.get_or (position (λ m. int_eq m.priority tail.priority) buf) 0 in
        (remove_at at buf, get_elem? buf at)
  ]

  abbrev pub overflow : Option (Message V) → List (Event V)
  overflow none = []
  overflow (some m) = overflow_dropped m ∷ []

  -- `while g.buffer.len() >= self.max_buffer { evict }`; a round on a non-empty buffer shortens it,
  -- so its length is fuel enough.
  unfoldable pub evict_to_cap : ℕ → ℕ → List (Message V) → List (Message V) × List (Event V)
  evict_to_cap zero cap buf = (buf, [])
  evict_to_cap (suc fuel) cap buf =
      let (buf', gone) = evict_one_for_cap buf in
      let (kept, events) = evict_to_cap fuel cap buf' in
      if leb cap (length buf) then (kept, overflow gone ++ events) else (buf, [])

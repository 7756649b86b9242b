-- ===== src/Queue.antt =====
-- The competing-consumer queue (crates/cq-transport/src/queue.rs). An operation takes the state and
-- returns the new one, beside its events: the frames that it tried to send and the messages that it
-- gave up. `now` is the reading of the clock, in milliseconds, that the operation works with, and
-- `reg` answers for the session registry, the codec and the outbound channels.
pub mod State
pub mod Buffer
pub mod Routing
pub mod Delivery
pub mod Settings
pub mod Operations
pub mod Order
pub mod Eviction
pub mod Capping
pub mod Rotation
pub mod Pins
pub mod Valid
pub mod Redelivery
pub mod Invariant
pub mod Draining
pub mod Counting
pub mod Conservation
pub mod AtLeastOnce
pub mod Publishing
pub mod Cap
pub mod Plain
pub mod Spent
pub mod DeadLetters
pub mod Swept
pub mod Reachable
mod Tests

-- ===== src/ComputeRequest.antt =====
-- The compute request's contract (lib/abc/compute-request/mod.ts): its state and phases, the
-- latch that ends a flow, the events that a bidder publishes about a guest, and the address and
-- host keys under which the guest is reached.
pub mod State
pub mod Events
pub mod Guest
pub mod Latch
pub mod Parse

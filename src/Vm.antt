-- ===== src/Vm.antt =====
-- The bidder of virtual machines (lib/market-bidder-compute/mod.ts): why a guest ended, the state that
-- the callbacks share, and the callbacks: deletion, guests that are gone, accepts, host keys.
pub mod Reason
pub mod State
pub mod Delete
pub mod Guests
pub mod Accept
pub mod Machine
pub mod HostKeys

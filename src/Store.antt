-- ===== src/Store.antt =====
-- The contracts and tombstones of a bidder in files (lib/market-bidder-contract-store-fs/mod.ts): a
-- directory for each, from file names to texts. A stored contract is read with the properties that
-- its type has.
pub mod Parse
pub mod Files
pub mod Trips
pub mod Trust
pub mod Complete

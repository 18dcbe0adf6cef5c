-- ===== src/Bidder.antt =====
-- What a bidder sets up around its callbacks (lib/market-bidder/mod.ts).
pub mod Load
pub mod Accepts
pub mod Operator

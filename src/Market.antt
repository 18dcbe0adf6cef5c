-- ===== src/Market.antt =====
-- The receiving end of the market's procedures (lib/market-atproto).
pub mod Auth
pub mod Attest
pub mod Signing
pub mod Keys
pub mod Server
pub mod Contract
pub mod Verify
pub mod HostKeys

-- ===== src/Tests.antt =====
-- Concrete runs of the modelled code, to which the theorems are applied.
mod Contracts
mod Hosts
mod Scopes
mod Bidding
mod Directory
mod Remembered
mod Tokens
mod Files
mod Submits
mod Attested
mod Stored
mod Reports

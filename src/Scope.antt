-- ===== src/Scope.antt =====
-- The refresh of scope verdicts: the entries in use (lib/abc/scope-refresh/mod.ts) and the timers
-- that refresh them (lib/scope-refresh-timers/mod.ts).
pub mod State
pub mod Refresher

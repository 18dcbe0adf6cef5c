-- ===== src/Lib.antt =====
-- The market of publicdomainrelay/atproto-market: requesters publish requests for compute (RFPs),
-- bidders answer with bids, and the records of an accepted bid, a receipt and the events of the
-- guest stand in the repositories of the AT Protocol.
--
-- A requester runs a flow whose state is a contract state: ComputeRequest (lib/abc/compute-request
-- and lib/compute-request-xrpc) models that state and its phases with the `advance` of the flow (State),
-- the waits for the network, the end and the host keys and the release behind it (State/Later), the
-- events by which a bidder reports on a guest (Events), the address and host keys of the guest
-- (Guest), the latch by which handlers end a flow (Latch), and the reading of a stored state (Parse).
-- Records (lib/abc/market/resolve.ts) has the references and uris that all of them use. Bids
-- (lib/abc/requester) models the cost of bids and the winner, and the collector that takes bids
-- from several sources at once. Scope (lib/abc/scope-refresh and lib/scope-refresh-timers) models
-- the refreshing of policy verdicts about counterparties: entries with generations and an index by
-- did (State), and the timers and evaluations that race with uses and invalidations (Refresher).
-- Plc (lib/hono-factory-did-plc-directory) models the directory of dids that runs beside the market:
-- operations and their checks (Operation), the logs (Store), the handlers (Directory), and the
-- document that a log resolves to (Document).
-- Market (lib/market-atproto) models the receiving end of the market's procedures: the check of the
-- token that a request bears (Auth), the attestations of a record and what they sign (Attest), which
-- signature counts (Signing) and the caches of keys, each lookup cut where it awaits (Keys), the submit handlers up to the callback
-- that each hands over to (Server), the records behind an accept (Contract), and the endpoint that
-- verifies a record for others (Verify); and the check of the host keys that a guest reports
-- (HostKeys, lib/common/market-common).
-- Vm (lib/market-bidder-compute) models the callbacks of a bidder of virtual machines: why a guest
-- ended (Reason), the state that they share (State), deletion on request (Delete), guests that end by
-- themselves and restored contracts (Guests), accepts (Accept), the interleavings of deletions and
-- ends (Machine), and reports of host keys (HostKeys).
-- Store (lib/market-bidder-contract-store-fs) models the files that keep its contracts, and Bidder (lib/market-bidder) how they are loaded at the start (Load), which accepts
-- reach the callback (Accepts), and whom a did names as its operator (Operator).
-- Secrets (lib/common/secrets-common) models the reading of the secrets that a guest is given.
-- Receipts (lib/abc/market-bidder) models the terminated receipts that a bidder remembers.
-- Common holds what the parts share, and Tests applies the theorems to concrete runs.
--
-- Functions keep the names of the source in snake case. Code that may return early is a `do` block
-- of Checked, with the source's reason of each refusal. A class is a record and its methods are
-- functions from the record to the record. What is asynchronous is cut where the code awaits: the
-- collector, the refresher and the VM machine hold what is under way, and their `step` takes one
-- event, so that a list of events is one interleaving. A handler goes on with a value, returns a
-- response or throws (Outcome). No definition uses fuel: every loop runs over a list.
--
-- Outside the repository, and so parameters: `JSON.parse`, `toLowerCase`, `atob`, the CBOR, SHA-256
-- and base32 libraries, the check of a signature and of a token, the resolver of records, the
-- documents of dids, the file system (as maps from names to texts), the floating-point numbers
-- (with the laws of `<`), the policy evaluator, the clock and the timers (as events). Log lines are
-- left out. Not modelled: the network calls of the flows, the servers' wiring, text templates and
-- generated code.
pub mod Common
pub mod Records
pub mod ComputeRequest
pub mod Scope
pub mod Bids
pub mod Plc
pub mod Receipts
pub mod Market
pub mod Secrets
pub mod Vm
pub mod Store
pub mod Bidder
pub mod Tests

-- ===== src/Plc.antt =====
-- The PLC directory (lib/hono-factory-did-plc-directory): operations and their checks, the store
-- of their logs, the handlers, and the document that a log resolves to.
pub mod Operation
pub mod Store
pub mod Directory
pub mod Document

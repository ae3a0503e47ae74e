-- ===== src/Workers.antt =====
-- core/gateway_workers.c: the commands that reach the gateway.
pub mod Text
pub mod Remote
pub mod Commands
pub mod Pipeline

-- ===== src/Hub.antt =====
-- The WebSocket hub of client/data/ws-client.ts: class HubClient, the browser's sockets and timers
-- that it drives, the frames that leave over each socket and the events that come in. State and
-- Operations hold the model, Messages the routing of an event; the others are the proofs.
pub mod State
pub mod Operations
pub mod Messages
pub mod Registry
pub mod Transport
pub mod Steps
pub mod Unsent
pub mod Synced
pub mod Backoff
pub mod Delivery
pub mod Leaks

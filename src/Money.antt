-- ===== src/Money.antt =====
-- The AI Money page: its state, its handlers and what they need of the preset's module
-- (client/app/(dashboard)/ai-money/client.tsx and client/data/ai-goal-preset.mjs).
pub mod State
pub mod Provider
pub mod Plan
pub mod Handoff
pub mod Preview
pub mod Client
pub mod Scans
pub mod Actions
pub mod Logic
pub mod Runs
pub mod Sound
pub mod Kept
pub mod Resting
pub mod Acting
pub mod Commands
pub mod Returned
pub mod Auto
pub mod Batch
pub mod Order
pub mod Handles

-- ===== src/Tests.antt =====
-- Runs of the model at small inputs, and the theorems at inputs that meet their hypotheses.
mod Gateway
mod Hub
mod Api
mod Auth
mod Recent
mod Palette
mod Streams
mod Activity
mod Preset
mod Validation
mod Decision
mod Goal
mod Money

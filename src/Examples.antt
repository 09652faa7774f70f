-- ===== src/Examples.antt =====
-- The theorems at concrete inputs, and small tests of the definitions.
mod Data
mod StateMachine
mod Envelopes
mod Pipelines
mod Snapshots
mod Caches
mod Compressing
mod Aggregates
mod Publications
mod Intake
mod Registry
mod Storing
mod Tracking
mod Listed
mod Monitored

-- ===== src/Examples.antt =====
-- Concrete runs, gates, freezes and maps, and the theorems applied to them.
mod Runs
mod Transactions
mod Releases
mod Reuses
mod Stores
mod Verdicts
mod Freezes
mod Identities
mod Rankings
mod Keys
mod Health
mod Audits

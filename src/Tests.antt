-- ===== src/Tests.antt =====
-- Concrete runs of the models, and each theorem at a concrete input.
mod Jobs
mod Ledger
mod Catalog
mod Scheduler
mod Auth
mod Orchestrator
mod Manifest
mod Filenames
mod Artifacts
mod Download
mod Api
mod Archiver
mod Monitor
mod Aptoide
mod Collectors

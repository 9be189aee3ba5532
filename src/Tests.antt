-- ===== src/Tests.antt =====
-- Runs of the modelled code, and the theorems at concrete data.
mod Texts
mod Chunks
mod Hierarchies
mod Rebuilds
mod Versions
mod Diagnostics
mod Assertions

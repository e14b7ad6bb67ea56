-- ===== src/Tests.antt =====
-- The theorems at concrete inputs.
mod Data
mod Readers
mod Directory
mod Database
mod Bridge
mod Hardware
mod Protocol
mod Routes
mod Pools

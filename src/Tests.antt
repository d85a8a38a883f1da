-- ===== src/Tests.antt =====
-- The theorems at concrete inputs, and runs of the definitions.
mod Queue
mod Security
mod Optimizations
mod UseCases
mod Applications
mod Metrics
mod Config
mod Connectors
mod Auth
mod Api
mod Contracts

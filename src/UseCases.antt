-- ===== src/UseCases.antt =====
-- internal/usecases/
pub mod Clock
pub mod Publishing
pub mod Maintenance
pub mod Scheduler
pub mod Applications
pub mod Metrics
pub mod Optimizations

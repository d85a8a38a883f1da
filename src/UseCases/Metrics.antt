-- ===== src/UseCases/Metrics.antt =====
-- internal/usecases/metrics.py
pub mod Defs
pub mod Collection

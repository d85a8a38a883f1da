-- ===== src/UseCases/Applications.antt =====
-- internal/usecases/applications.py
pub mod Defs
pub mod Sync
pub mod Slots
pub mod Chosen
pub mod Projection

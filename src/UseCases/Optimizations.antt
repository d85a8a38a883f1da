-- ===== src/UseCases/Optimizations.antt =====
-- internal/usecases/optimizations.py
-- Floats are those of the parameter `FloatOps`. What the calculation raises,
-- a failed `assert` or a target that is not finite, is `none`.
pub mod Defs
pub mod Matches
pub mod Snapshot
pub mod Bounds
pub mod Decisions
pub mod Aggregate
pub mod Refresh
unfoldable pub use Snapshot.*
unfoldable pub use Matches.*
unfoldable pub use Defs.*

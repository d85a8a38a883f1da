-- ===== src/UseCases/Optimizations/Defs.antt =====
-- internal/usecases/optimizations.py, function by function
pub mod Visible
pub mod Evaluation
pub mod Totals
unfoldable pub use Visible.*
unfoldable pub use Evaluation.*
unfoldable pub use Totals.*

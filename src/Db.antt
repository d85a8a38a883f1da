-- ===== src/Db.antt =====
-- internal/infra/db/models.py
-- The rows of the application's tables, and the tables as one value: what a committed transaction
-- leaves. Surrogate keys are kept where the program reads them; `created_at` and `updated_at`,
-- which SQLAlchemy fills, are left out. Moments are in microseconds, days are ordinals.
pub mod Rows
pub mod Lookup
unfoldable pub use Rows.*
unfoldable pub use Lookup.*

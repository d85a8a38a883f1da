-- ===== src/Api/Providers.antt =====
-- app/api/routes/machines/providers.py and mock_providers.py
-- A handler returns the row that its read model shows, with the tables that its commit leaves.
pub mod Guards
pub mod Create
pub mod Change
unfoldable pub use Guards.*
unfoldable pub use Create.*
unfoldable pub use Change.*

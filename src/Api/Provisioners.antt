-- ===== src/Api/Provisioners.antt =====
-- app/api/routes/machines/provisioners.py and mock_provisioners.py
-- A handler returns the row that its read model shows, with the tables that its commit leaves.
pub mod Create
pub mod Change
unfoldable pub use Create.*
unfoldable pub use Change.*

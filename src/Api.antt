-- ===== src/Api.antt =====
-- app/api/: what stands before the routes (Gate), and the routes that change platforms, provisioners
-- and providers (Store, Providers, Provisioners, Platforms, Requests).
pub mod Gate
pub mod Store
pub mod Providers
pub mod Provisioners
pub mod Platforms
pub mod Runs
pub mod Views
pub mod Pages
pub mod Requests
pub mod Consistency

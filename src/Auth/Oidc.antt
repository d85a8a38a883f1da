-- ===== src/Auth/Oidc.antt =====
-- internal/infra/auth/oidc.py: `Documents` loads what the provider publishes, `Requests` authorizes
-- a request with it, `Cached` and `Admitted` state what that comes to.
pub mod Documents
pub mod Requests
mod Chains
pub mod Cached
pub mod Admitted
unfoldable pub use Documents.*
unfoldable pub use Requests.*

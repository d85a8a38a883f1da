-- ===== src/Auth.antt =====
-- internal/infra/auth/: who may use the API. `Claims` reads roles from the claims of a token, `Oidc`
-- decodes a token with the documents of the provider, `Swagger` writes the OpenAPI scheme.
pub mod Settings
pub mod Claims
pub mod Oidc
pub mod Swagger

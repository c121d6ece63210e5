-- ===== src/Controller.antt =====
-- internal/controller: the certificate controller and the binding controller.
pub mod Issuer
pub mod Secrets
pub mod World
pub mod Certificate
pub mod Binding
pub mod Factories
pub mod Indexes

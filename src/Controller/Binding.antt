-- ===== src/Controller/Binding.antt =====
-- The binding controller: internal/controller/binding_*.go and
-- aliyuncertificatebinding_controller.go.
pub mod World
pub mod Conflict
pub mod Material
pub mod Identity
pub mod Status
pub mod Observe
pub mod Apply
pub mod Client
pub mod Look
pub mod Deletion
pub mod Reconcile

-- ===== src/Controller/Certificate.antt =====
-- The certificate controller: internal/controller/aliyuncertificate_controller.go and its helpers.
pub mod Status
pub mod Upload
pub mod Retention
pub mod Deletion
pub mod Material
pub mod Probe
pub mod Reconcile

-- ===== src/Provider.antt =====
-- pkg/provider: the interface of a kind of target, its errors, and the two providers.
pub mod Types
pub mod Interface
pub mod Errors
pub mod Fc3
pub mod Oss

-- ===== src/Aliyun.antt =====
-- pkg/aliyun: errors, clients and their helpers, and the clouds in memory.
pub mod Errors
pub mod Clients
pub mod Fake
pub mod Listing
pub mod Cache
pub mod Credentials
pub mod Sdk

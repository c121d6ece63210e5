-- ===== src/Pki.antt =====
-- pkg/pki: host names that a certificate covers, and the certificate material.
pub mod Sans
pub mod Crypto
pub mod Bundle

-- ===== src/Api.antt =====
-- api/v1alpha1: the two custom resources, and the conditions that their statuses carry.
pub mod Conditions
pub mod Certificate
pub mod Binding

-- ===== src/Address.antt =====
-- internal/address: the assigners of the clouds, and the choice between them (assigner.go).
pub mod Interface
pub mod Aws
pub mod Gcp
pub mod Oci

-- ===== src/Cloud.antt =====
-- internal/cloud: the interfaces of the three clouds, and their implementations over the clients.
pub mod Aws
pub mod Gcp
pub mod Oci

-- ===== src/Tests.antt =====
-- Runs of the modelled functions on concrete data, and the theorems at concrete inputs.
mod Node
mod Agent
mod Lease
mod Aws
mod Gcp
mod Oci
mod Cluster
mod Cli
mod Wiring

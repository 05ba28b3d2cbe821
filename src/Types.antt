-- ===== src/Types.antt =====
-- internal/types: the node record (node.go) and the OCI filters (filters.go, in the child).
pub mod Filters
use kubeip.Base.{String, List}

-- The type is a Go string with four constants; `other` stands for every other string.
pub data CloudProvider : Type 0 where
  gcp aws oci azure : CloudProvider
  other : String → CloudProvider

-- Addresses are values of `net.IP`, a type that is left open.
pub record Node (Ip : Type 0) : Type 0 where
  pub name : String
  pub instance_id : String
  pub cloud : CloudProvider
  pub pool : String
  pub region : String
  pub zone : String
  pub external_ips : List Ip
  pub internal_ips : List Ip

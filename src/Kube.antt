-- ===== src/Kube.antt =====
-- The Kubernetes API as the program calls it: packages outside the repository, so parameters.
use kubeip.Base.{String, ℕ, Bool, Option, List, Error, Result, Action}
use kubeip.Base.Dict.{Dict}

pub record Taint : Type 0 where
  pub key : String
  pub value : String
  pub effect : String
  pub time_added : Option ℕ

-- Only the two types that the program tells apart are named.
pub data AddressType : Type 0 where
  external_ip internal_ip : AddressType
  other_type : String → AddressType

pub record NodeAddress : Type 0 where
  pub kind : AddressType
  pub address : String

-- The fields of a `v1.Node` that are read. A nil map answers as an empty one.
pub record KubeNode : Type 0 where
  pub labels : Dict String
  pub annotations : Dict String
  pub provider_id : String
  pub taints : List Taint
  pub addresses : List NodeAddress

-- `CoreV1().Nodes()`, with `json.Marshal` on taints. `patch` is a merge patch of a node by name.
pub record NodeApi (W : Type 0) : Type 0 where
  pub get : String → Action W KubeNode
  pub patch : String → String → Action W KubeNode
  pub marshal : List Taint → Result String

-- `LeaseSpec`, times in microseconds, with the resource version of the lease's metadata; zero is none.
pub record LeaseSpec : Type 0 where
  pub resource_version : ℕ
  pub holder_identity : Option String
  pub lease_duration_seconds : ℕ
  pub acquire_time : Option ℕ
  pub renew_time : Option ℕ

-- `CoordinationV1().Leases(namespace)` on leases by name, and the test for "already exists".
pub record LeaseApi (W : Type 0) : Type 0 where
  pub create : String → LeaseSpec → Action W (Unit {0})
  pub get : String → Action W LeaseSpec
  pub update : String → LeaseSpec → Action W (Unit {0})
  pub delete : String → Action W (Unit {0})
  pub is_already_exists : Error → Bool

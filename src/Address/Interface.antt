-- ===== src/Address/Interface.antt =====
-- internal/address/assigner.go and azure.go: the interface of an assigner.
use kubeip.Base.{
  String, Option, none, List, Error, sentinel, unknown_cloud_provider, Action, return, fail,
}
use kubeip.Types.{CloudProvider, gcp, aws, oci, azure, other}

-- An error of `assign` stands for an empty address beside it. An address that comes with an error
-- is a value `(address, some error)`.
pub record Assigner (W : Type 0) : Type 0 where
  pub assign : String → String → List String → String → Action W (String × Option Error)
  pub unassign : String → String → Action W (Unit {0})

abbrev pub azure_assigner : {W : Type 0} → Assigner W
azure_assigner = record {
  assign = λ id zone filter order_by. return ("", none);
  unassign = λ id zone. return tt;
}

-- `NewAssigner`, over the three constructors that make clients.
module _ {W : Type 0} (new_aws new_gcp new_oci : Action W (Assigner W)) where
  unfoldable pub new_assigner : CloudProvider → Action W (Assigner W)
  new_assigner aws = new_aws
  new_assigner azure = return azure_assigner
  new_assigner gcp = new_gcp
  new_assigner oci = new_oci
  new_assigner (other provider) = fail (sentinel unknown_cloud_provider)

-- ===== src/Agent/Wiring.antt =====
-- cmd/main.go and internal/address/assigner.go: the agent over the repository's own explorer, tainter,
-- lease lock and assigners. What lies outside the repository stays a parameter.
pub mod Served
pub mod Given
pub mod Clouds
use kubeip.Base.{ℕ, String, Bool, Option, some, Error, Result, Action, return, ◌>>=◌, Context}
use kubeip.Types.{CloudProvider}
use kubeip.Kube.{NodeApi, LeaseApi}
use kubeip.Config.{Config}
use kubeip.Lease.{Backoff, LockWorld, LeaseLock, LeaseEnv, on_outside, new_kube_lease_lock}
use kubeip.Node.Explorer.{new_explorer}
use kubeip.Node.Tainter.{remove_taint_key}
use kubeip.Cloud.Aws.{Ec2Client}
use kubeip.Cloud.Gcp as Gcp
use kubeip.Cloud.Oci as Oci
use kubeip.Address.Interface.{Assigner, new_assigner}
use kubeip.Address.Aws.{new_aws_assigner}
use kubeip.Address.Gcp.{new_gcp_assigner}
use kubeip.Address.Oci.{new_oci_assigner}
use kubeip.Agent.{AgentEnv}

-- What is used of a `kubernetes.Interface`: nodes, and leases by namespace.
pub record Clientset (W : Type 0) : Type 0 where
  pub nodes : NodeApi W
  pub leases : String → LeaseApi W

-- Everything that is used of the outside. `fuel` bounds the pages and the polls of Google Cloud.
pub record Outside (W Ip RestConfig AwsConfig : Type 0) : Type 0 where
  pub read_file : String → Action W String
  pub parse_kube_config : String → Result RestConfig
  pub in_cluster_config : Action W RestConfig
  pub new_for_config : RestConfig → Action W (Clientset W)
  pub now : Action W ℕ
  pub exponential_backoff : Backoff → Action (LockWorld W) Bool → Action (LockWorld W) (Unit {0})
  pub parse_ip : String → Option Ip
  pub ip_text : Ip → String
  pub wait_tick : Action W (Option Error)
  pub wait_done : Action W (Unit {0})
  pub load_default_config : String → Action W AwsConfig
  pub new_from_config : AwsConfig → Ec2Client W
  pub new_service : Action W (Gcp.ComputeClient W)
  pub project_id : Action W String
  pub instance_attribute : String → Action W String
  pub context : Context W
  pub fuel : ℕ
  pub new_compute_client : Action W (Oci.ComputeClient W)
  pub new_network_client : Action W (Oci.NetworkClient W)

-- The assigner beside the state that the lock keeps.
abbrev pub assigner_outside : {W : Type 0} → Assigner W → Assigner (LockWorld W)
assigner_outside assigner = record {
  assign = λ id zone filter order_by. on_outside (assigner.assign id zone filter order_by);
  unassign = λ id zone. on_outside (assigner.unassign id zone);
}

module _ {W Ip RestConfig AwsConfig : Type 0} (o : Outside W Ip RestConfig AwsConfig) where
  -- `NewAssigner` with the fields of the configuration that it passes on.
  unfoldable pub cloud_assigner : CloudProvider → Config → Action W (Assigner W)
  cloud_assigner provider cfg =
      new_assigner (new_aws_assigner o.load_default_config o.new_from_config cfg.region)
        (new_gcp_assigner o.new_service o.project_id o.instance_attribute o.context o.fuel
          cfg.project cfg.region cfg.ipv6)
        (new_oci_assigner o.new_compute_client o.new_network_client cfg.project cfg.filter) provider

  abbrev pub lease_env : LeaseApi W → LeaseEnv W
  lease_env api = record { api = api; now = o.now; exponential_backoff = o.exponential_backoff }

  abbrev pub lease_lock : String → String → ℕ → LeaseLock
  lease_lock name holder duration = record {
    lease_name = name;
    holder_identity = holder;
    lease_duration = duration;
  }

  -- The agent's parts, as `run` and what it calls make them.
  abbrev pub wired : AgentEnv (LockWorld W) Ip RestConfig (Clientset W)
  wired = record {
    read_file = λ path. on_outside (o.read_file path);
    parse_kube_config = o.parse_kube_config;
    in_cluster_config = on_outside o.in_cluster_config;
    new_for_config = λ rest_config. on_outside (o.new_for_config rest_config);
    explorer = λ client. record {
      get_node = λ name.
          on_outside ((new_explorer o.read_file o.parse_ip (some client.nodes)).get_node name);
    };
    new_assigner = λ provider cfg. do
      assigner ← on_outside (cloud_assigner provider cfg)
      return (assigner_outside assigner);
    new_lock = λ client name namespace holder duration.
        new_kube_lease_lock (lease_env (client.leases namespace)) (lease_lock name holder duration);
    remove_taint_key = λ client node key. on_outside (remove_taint_key client.nodes node key);
    ip_text = o.ip_text;
    wait_tick = on_outside o.wait_tick;
    wait_done = on_outside o.wait_done;
  }

-- ===== src/Config.antt =====
-- internal/config/config.go: the configuration that is read off the command line.
use kubeip.Base.{ℕ, String, Bool, List}

-- A count or a duration is not negative; durations are in nanoseconds.
pub record Config : Type 0 where
  pub kube_config_path : String
  pub node_name : String
  pub project : String
  pub region : String
  pub ipv6 : Bool
  pub develop_mode : Bool
  pub filter : List String
  pub order_by : String
  pub retry_interval : ℕ
  pub retry_attempts : ℕ
  pub release_on_exit : Bool
  pub lease_duration : ℕ
  pub lease_namespace : String
  pub taint_key : String

-- The reads of a `cli.Context`, by flag name.
pub record CliContext : Type 0 where
  pub string : String → String
  pub bool : String → Bool
  pub duration : String → ℕ
  pub int : String → ℕ
  pub string_slice : String → List String

unfoldable pub new_config : CliContext → Config
new_config c = record {
  kube_config_path = c.string "kubeconfig";
  node_name = c.string "node-name";
  project = c.string "project";
  region = c.string "region";
  ipv6 = c.bool "ipv6";
  develop_mode = c.bool "develop-mode";
  filter = c.string_slice "filter";
  order_by = c.string "order-by";
  retry_interval = c.duration "retry-interval";
  retry_attempts = c.int "retry-attempts";
  release_on_exit = c.bool "release-on-exit";
  lease_duration = c.int "lease-duration";
  lease_namespace = c.string "lease-namespace";
  taint_key = c.string "taint-key";
}

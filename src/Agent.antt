-- ===== src/Agent.antt =====
-- cmd/main.go: the agent's run, from discovery to release. Logging and the command line's
-- declaration are left out.
pub mod Retry
pub mod Taint
pub mod Failures
pub mod Stages
pub mod Guarded
pub mod Wiring
use kubeip.Base.{
  ℕ, zero, suc, ◌+◌, String, Bool, true, false, not, Option, none, some, List, [], ◌∷◌, ◌<>◌, ◌==◌,
  any, nat_eq, Error, sentinel, static_ip_already_assigned, empty_path, errors_is, message, wrap,
  Result, ok, err, panic, unfinished, Action, return, fail, crash, no_fuel, lift, wrapped, attempt,
  fail_if, ◌>>=◌, ◌>>◌, if◌then◌else◌,
}
use kubeip.Types.{CloudProvider, Node}
use kubeip.Config.{Config}
use kubeip.Lease.{KubeLock}
use kubeip.Node.Explorer.{Explorer}
use kubeip.Address.Interface.{Assigner}

abbrev pub kubeip_lock_name : String
kubeip_lock_name = "kubeip-lock"

abbrev pub default_lease_duration : ℕ
default_lease_duration = 5

abbrev pub default_retry_attempts : ℕ
default_retry_attempts = 60

-- What the agent uses of the outside and of its own packages. `wait_tick` is the `select` between the
-- ticker and the context: an error is the context's; `wait_done` waits for the context.
pub record AgentEnv (W Ip RestConfig Client : Type 0) : Type 0 where
  pub read_file : String → Action W String
  pub parse_kube_config : String → Result RestConfig
  pub in_cluster_config : Action W RestConfig
  pub new_for_config : RestConfig → Action W Client
  pub explorer : Client → Explorer W Ip
  pub new_assigner : CloudProvider → Config → Action W (Assigner W)
  pub new_lock : Client → String → String → String → ℕ → KubeLock W
  pub remove_taint_key : Client → Node Ip → String → Action W Bool
  pub ip_text : Ip → String
  pub wait_tick : Action W (Option Error)
  pub wait_done : Action W (Unit {0})

-- `time.NewTicker` panics on a period that is not positive.
abbrev pub new_ticker : {W : Type 0} → ℕ → Action W (Unit {0})
new_ticker interval = if nat_eq interval 0 then crash else return tt

-- What the closure returns from the assigner's answer: an address beside an error is dropped.
abbrev pub assigned_value : Result (String × Option Error) → Result String
assigned_value (ok (address, none)) = ok address
assigned_value (ok (address, some e)) = err e
assigned_value (err e) = err e
assigned_value panic = panic
assigned_value unfinished = unfinished

-- After a deferred call whose error is dropped.
abbrev pub deferred : {A : Type 0} → Result A → Result (Unit {0}) → Result A
deferred r (ok t) = r
deferred r (err e) = r
deferred r panic = panic
deferred r unfinished = unfinished

module _ {W Ip : Type 0} (lock : KubeLock W) (assigner : Assigner W) (node : Node Ip)
    (cfg : Config) where
  -- The part behind the lock: whatever the assigner does, the lock is given back.
  unfoldable pub assign_and_unlock : Action W String
  assign_and_unlock w =
      let (r, w') = assigner.assign node.instance_id node.zone cfg.filter cfg.order_by w in
      let (u, w'') = lock.unlock w' in (deferred (assigned_value r) u, w'')

  -- The closure of `assignAddress`.
  unfoldable pub locked_assign : Action W String
  unfolding assign_and_unlock
  locked_assign = do wrapped "failed to acquire lock" lock.lock; assign_and_unlock

module _ {W Ip RestConfig Client : Type 0} (env : AgentEnv W Ip RestConfig Client) (cfg : Config)
    (node : Node Ip) where
  -- The rounds of the retry loop that are left; an attempt is an action.
  unfoldable pub assign_from : Action W String → ℕ → Action W String
  assign_from try_once zero = fail (message "reached maximum number of retries")
  assign_from try_once (suc rounds) = do
    tried ← attempt try_once
    elim tried [
      | ok address ↦ return address
      | err e ↦ if errors_is e static_ip_already_assigned then return "" else do
        over ← env.wait_tick
        elim over [
          | none ↦ assign_from try_once rounds
          | some cause ↦ fail (wrap cause "context cancelled while assigning addresses")
        ]
      | panic ↦ crash
      | unfinished ↦ no_fuel
    ]

  unfoldable pub assign_address : Client → Assigner W → Action W String
  assign_address client assigner = do
    new_ticker cfg.retry_interval
    let lock =
        env.new_lock client kubeip_lock_name cfg.lease_namespace node.instance_id cfg.lease_duration
    assign_from (locked_assign lock assigner node cfg) (cfg.retry_attempts + 1)

  -- `ip.String() == assignedAddress` for one of the external addresses.
  abbrev pub reports : String → Result (Node Ip) → Bool
  reports address (ok info) = any (λ ip. env.ip_text ip == address) info.external_ips
  reports address (err e) = false
  reports address panic = false
  reports address unfinished = false

  unfoldable pub wait_reported_from : Explorer W Ip → String → ℕ → Action W (Unit {0})
  wait_reported_from explorer address zero = fail (message "reached maximum number of retries")
  wait_reported_from explorer address (suc rounds) = do
    info ← attempt (explorer.get_node node.name)
    if reports address info then return tt else (do
      over ← env.wait_tick
      elim over [
        | none ↦ wait_reported_from explorer address rounds
        | some cause ↦
            fail (wrap cause "context cancelled while waiting for node to report assigned address")
      ])

  unfoldable pub wait_for_address_to_be_reported : Explorer W Ip → String → Action W (Unit {0})
  wait_for_address_to_be_reported explorer address = do
    new_ticker cfg.retry_interval
    wait_reported_from explorer address (cfg.retry_attempts + 1)

  -- The context of the call is a fresh one with a timeout of five minutes.
  unfoldable pub release_ip : Assigner W → Action W (Unit {0})
  release_ip assigner =
      wrapped "failed to release static public IP address"
        (assigner.unassign node.instance_id node.zone)

  -- The removal of the taint; when it fails the address is released, and that error is dropped.
  unfoldable pub remove_taint_or_release : Client → Assigner W → Action W (Unit {0})
  unfolding release_ip
  remove_taint_or_release client assigner = do
    removed ← attempt (env.remove_taint_key client node cfg.taint_key)
    elim removed [
      | ok did ↦ return tt
      | err e ↦ do
        released ← attempt (release_ip assigner)
        elim released [
          | ok t ↦ fail (wrap e "removing node taint key")
          | err e' ↦ fail (wrap e "removing node taint key")
          | panic ↦ crash
          | unfinished ↦ no_fuel
        ]
      | panic ↦ crash
      | unfinished ↦ no_fuel
    ]

  -- `if cfg.TaintKey != ""`.
  unfoldable pub untaint : Client → Assigner W → String → Action W (Unit {0})
  untaint client assigner address = if cfg.taint_key == "" then return tt else do
    wrapped "waiting for node to report assigned address"
        (wait_for_address_to_be_reported (env.explorer client) address)
    remove_taint_or_release client assigner

  -- The wait for the signal, and what is done behind it.
  unfoldable pub shut_down : Assigner W → Action W (Unit {0})
  shut_down assigner = do
    env.wait_done
    if cfg.release_on_exit then release_ip assigner else return tt

  -- `run` from the node on.
  unfoldable pub run_node : Client → Action W (Unit {0})
  run_node client = do
    assigner ← wrapped "initializing assigner" (env.new_assigner node.cloud cfg)
    address ← wrapped "assigning static public IP address" (assign_address client assigner)
    untaint client assigner address
    shut_down assigner

module _ {W Ip RestConfig Client : Type 0} (env : AgentEnv W Ip RestConfig Client) where
  unfoldable pub kube_config_from_path : String → Action W RestConfig
  kube_config_from_path kube_path = if kube_path == "" then fail (sentinel empty_path) else do
    text ← wrapped ("reading kubeconfig at " <> kube_path) (env.read_file kube_path)
    wrapped ("building rest config from kubeconfig at " <> kube_path)
        (lift (env.parse_kube_config text))

  unfoldable pub retrieve_kube_config : Config → Action W RestConfig
  retrieve_kube_config cfg = do
    from_path ← attempt (kube_config_from_path cfg.kube_config_path)
    elim from_path [
      | ok config ↦ return config
      | err e ↦
          if errors_is e empty_path
          then wrapped "retrieving in node kube config" env.in_cluster_config
          else fail (wrap e "retrieving kube config from path")
      | panic ↦ crash
      | unfinished ↦ no_fuel
    ]

  unfoldable pub run : Config → Action W (Unit {0})
  run cfg = do
    rest_config ← wrapped "retrieving kube config" (retrieve_kube_config cfg)
    client ← wrapped "initializing kubernetes client" (env.new_for_config rest_config)
    let explorer = env.explorer client
    node ← wrapped "getting node" (explorer.get_node cfg.node_name)
    run_node env cfg node client

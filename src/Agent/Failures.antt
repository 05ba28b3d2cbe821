-- ===== src/Agent/Failures.antt =====
-- Why what is behind the assignment fails: the wait, or the removal of the taint.
use kubeip.Base.{String, ◌≡◌, Error, wrap, Result, err, Ran}
use kubeip.Types.{Node}
use kubeip.Config.{Config}
use kubeip.Address.Interface.{Assigner}
use kubeip.Agent.{AgentEnv, wait_for_address_to_be_reported}
use kubeip.Agent.Taint.{Reported}

module _ {W Ip RestConfig Client : Type 0} (env : AgentEnv W Ip RestConfig Client) (cfg : Config)
    (node : Node Ip) where
  module _ (client : Client) (assigner : Assigner W) (address : String) (w : W) where
    -- Why `untaint` fails: the wait failed, and nothing more was done; or the node showed the address,
    -- the removal of the taint failed, and the address was released as the next call, however that
    -- ended. The error is that of the wait, or that of the removal.
    abbrev pub Untouched : Error → W → Type 0
    Untouched e w' =
        (x : Error) × (wait_for_address_to_be_reported env cfg node (env.explorer client) address w
          ≡ (err x, w'))
        × (e ≡ wrap x "waiting for node to report assigned address")

    abbrev pub GivenUp : Error → W → Type 0
    GivenUp e w' =
        (v v' : W) × (x : Error) × (released : Result (Unit {0})) × Ran
          (wait_for_address_to_be_reported env cfg node (env.explorer client) address) w tt v
        × Reported env cfg node (env.explorer client) address v
        × (env.remove_taint_key client node cfg.taint_key v ≡ (err x, v'))
        × (assigner.unassign node.instance_id node.zone v' ≡ (released, w'))
        × (e ≡ wrap x "removing node taint key")

-- ===== src/Agent/Stages.antt =====
-- The order of what a successful run does.
use kubeip.Base.{
  String, false, ◌≡◌, refl, arith, wrap, Result, ok, err, panic, unfinished, Ran, >>=-Ran,
  wrapped>>=-Ran, attempt, fail, crash, no_fuel, ◌==◌, Bool, ◌∙◌, ap,
}
use kubeip.Types.{Node}
use kubeip.Config.{Config}
use kubeip.Address.Interface.{Assigner}
use kubeip.Agent.{
  AgentEnv, wait_for_address_to_be_reported, assign_address, release_ip, remove_taint_or_release,
  untaint, shut_down, run_node,
}
use kubeip.Agent.Taint.{Reported, wait_for_address_to_be_reported-Reported}

module _ {W Ip RestConfig Client : Type 0} (env : AgentEnv W Ip RestConfig Client) (cfg : Config)
    (node : Node Ip) where
  module _ (client : Client) (assigner : Assigner W) where
    removed_by :
        (r : Result Bool) (w v w' : W)
        → env.remove_taint_key client node cfg.taint_key w ≡ (r, v)
        → Ran (remove_taint_or_release env cfg node client assigner) w tt w'
        → (did : Bool) × Ran (env.remove_taint_key client node cfg.taint_key) w did w'
    unfolding remove_taint_or_release
    removed_by (ok did) w v w' got h =
        let same : v ≡ w' = ground (arith, rw got at h) in (did, got ∙ ap (λ u. (ok did, u)) same)
    removed_by (err e) w v w' got h =
        let (r, v1, released, rest) =
          >>=-Ran (attempt (release_ip env cfg node assigner)) _ v (rw got at h) in
        absurd (never r v1 rest)
      where
        never :
            (r : Result (Unit {0})) (v1 : W)
            → ¬ Ran
                (elim r [
                  | ok t ↦ fail (wrap e "removing node taint key")
                  | err e' ↦ fail (wrap e "removing node taint key")
                  | panic ↦ crash
                  | unfinished ↦ no_fuel
                ])
                v1
                tt
                w'
        never (ok t) v1 h = ground arith
        never (err e') v1 h = ground arith
        never panic v1 h = ground arith
        never unfinished v1 h = ground arith
    removed_by panic w v w' got h = absurd (ground (arith, rw got at h))
    removed_by unfinished w v w' got h = absurd (ground (arith, rw got at h))

    -- The wait for the report came to its end with a read of the node that showed the address, and the
    -- removal of the taint was the next call.
    abbrev pub Untainted : String → W → W → Type 0
    Untainted address w w' =
        (v : W) × (did : Bool) × Ran
          (wait_for_address_to_be_reported env cfg node (env.explorer client) address) w tt v
        × Reported env cfg node (env.explorer client) address v
        × Ran (env.remove_taint_key client node cfg.taint_key) v did w'

    untaint-Untainted :
        (address : String) (w w' : W)
        → (cfg.taint_key == "") ≡ false
        → Ran (untaint env cfg node client assigner address) w tt w'
        → Untainted address w w'
    unfolding untaint
    untaint-Untainted address w w' key h =
        let (t, v, waited, rest) =
          wrapped>>=-Ran _
            (wait_for_address_to_be_reported env cfg node (env.explorer client) address) _ w
            (rw key at h) in
        let (did, removed) =
          removed_by (env.remove_taint_key client node cfg.taint_key v).0 v
            (env.remove_taint_key client node cfg.taint_key v).1 w' refl rest in
        (
          v,
          did,
          waited,
          wait_for_address_to_be_reported-Reported env cfg node (env.explorer client) address w v
              waited,
          removed,
        )

  -- A successful run with a taint key: the assigner was made, the attempts gave an address, a read of
  -- the node showed that address, the taint was removed in the call right behind that read, and only
  -- then the agent waited for its end.
  pub run_node-Stages :
      (client : Client) (w w' : W)
      → (cfg.taint_key == "") ≡ false
      → Ran (run_node env cfg node client) w tt w'
      → (assigner : Assigner W) × (address : String) × (w1 w2 w3 : W) × Ran
          (env.new_assigner node.cloud cfg)
          w
          assigner
          w1
        × Ran (assign_address env cfg node client assigner) w1 address w2
        × Untainted client assigner address w2 w3
        × Ran (shut_down env cfg node assigner) w3 tt w'
  unfolding run_node
  run_node-Stages client w w' key h =
      let (assigner, w1, made, h1) = wrapped>>=-Ran _ (env.new_assigner node.cloud cfg) _ w h in
      let (address, w2, assigned, h2) =
        wrapped>>=-Ran _ (assign_address env cfg node client assigner) _ w1 h1 in
      let (t, w3, untainted, h3) = >>=-Ran (untaint env cfg node client assigner address) _ w2 h2 in
      (
        assigner,
        address,
        w1,
        w2,
        w3,
        made,
        assigned,
        untaint-Untainted client assigner address w2 w3 key untainted,
        h3,
      )

-- ===== src/Agent/Wiring/Clouds.antt =====
-- A whole successful run: the lease lock, the assigner of the node's cloud, the explorer and the tainter.
use kubeip.Base.{String, false, ◌≡◌, sym, arith, Ran, >>=-Ran, ◌==◌, subst}
use kubeip.Types.{Node}
use kubeip.Config.{Config}
use kubeip.Lease.{LockWorld, on_outside}
use kubeip.Lease.Laws.{IsBackoff, on_outside_lem}
use kubeip.Address.Interface.{Assigner}
use kubeip.Agent.{assign_address, shut_down, run_node}
use kubeip.Agent.Taint.{Reported-has_text}
use kubeip.Agent.Stages.{Untainted, run_node-Stages}
use kubeip.Agent.Wiring.{Clientset, Outside, assigner_outside, cloud_assigner, lease_env, wired}
use kubeip.Agent.Wiring.Served.{Secured, assign_address-Secured}
use kubeip.Agent.Wiring.Given.{GivenBy, assign-GivenBy}

module _ {W Ip RestConfig AwsConfig : Type 0} (o : Outside W Ip RestConfig AwsConfig) (cfg : Config)
    (node : Node Ip) where
  -- A run that went through: the assigner of the node's cloud was made; an attempt had the lease, gave
  -- the address in that cloud's way and called `Unlock`; the node showed the address, the taint was
  -- removed, and the agent waited for its end.
  abbrev pub Completed : Clientset W → LockWorld W → LockWorld W → Type 0
  Completed client w w' =
      (assigner : Assigner W) × (address : String) × (w1 w2 w3 : LockWorld W) × Ran
        (cloud_assigner o node.cloud cfg) w.outside assigner w1.outside
      × Secured o cfg node client assigner
          (GivenBy o cfg node node.cloud w.outside w1.outside address) w1 w2
      × Untainted (wired o) cfg node client (assigner_outside assigner) address w2 w3
      × Ran (shut_down (wired o) cfg node (assigner_outside assigner)) w3 tt w'

  -- A successful run with a taint key, over the lock and the assigners of this repository, when the
  -- backoff ends in success only on a try that answered true and no address is printed as the empty
  -- text: the node's cloud is one of AWS, Google Cloud and Oracle Cloud. Its assigner was made; then,
  -- after fewer failed attempts than are allowed, one had the lock, with a lease of this holder made or
  -- one found that is neither expired nor another's, gave the address in that cloud's way as the next
  -- call, and called `Unlock` right behind it. The wait behind it ended with a read of the node that
  -- showed the address, the taint was removed right behind that read, and only then the agent waited
  -- for its end.
  pub run_node-Secured :
      (client : Clientset W)
      → IsBackoff (lease_env o (client.leases cfg.lease_namespace))
      → ((ip : Ip) → (o.ip_text ip == "") ≡ false)
      → (w w' : LockWorld W) → (cfg.taint_key == "") ≡ false
      → Ran (run_node (wired o) cfg node client) w tt w'
      → Completed client w w'
  run_node-Secured client backoff texts w w' key h =
      let (outer, address, w1, w2, w3, made, assigned, untainted, over) =
        run_node-Stages (wired o) cfg node client w w' key h in
      let (v, did, waited, reported, removed) = untainted in
      let some_text =
        Reported-has_text (wired o) cfg node texts ((wired o).explorer client) address v reported in
      let (assigner, v1, built, rest) =
        >>=-Ran (on_outside (cloud_assigner o node.cloud cfg)) _ w made in
      let same : assigner_outside assigner ≡ outer = ground arith in
      let end : v1 ≡ w1 = ground arith in
      let (made_outside, unchanged) =
        on_outside_lem (cloud_assigner o node.cloud cfg) w
          (subst (Ran (on_outside (cloud_assigner o node.cloud cfg)) w assigner) end built) in
      let (n, u, few, failed, (lease_from, locked, out, had, lease, gave, freed)) =
        assign_address-Secured o cfg node client assigner backoff address w1 w2 some_text (
          subst (λ b. Ran (assign_address (wired o) cfg node client b) w1 address w2) (sym same)
            assigned) in
      (
        assigner,
        address,
        w1,
        w2,
        w3,
        made_outside,
        (
          n,
          u,
          few,
          failed,
          (
            lease_from,
            locked,
            out,
            had,
            lease,
            assign-GivenBy o cfg node assigner w.outside w1.outside locked.outside out address gave
                node.cloud some_text made_outside,
            freed,
          ),
        ),
        subst (λ b. Untainted (wired o) cfg node client b address w2 w3) (sym same) untainted,
        subst (λ b. Ran (shut_down (wired o) cfg node b) w3 tt w') (sym same) over,
      )

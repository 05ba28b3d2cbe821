-- ===== src/Agent/Taint.antt =====
-- `waitForAddressToBeReported`, and the removal of the taint behind it.
use kubeip.Base.{
  ℕ, zero, suc, ◌+◌, String, Bool, true, false, Option, none, List, [], ◌∷◌, ◌≡◌, ◌≢◌, refl, ◌∙◌,
  inl, inr, arith, Bool-cases, Error, wrap, Result, ok, err, panic, unfinished, Action, Ran,
  >>=-Ran, wrapped>>=-Ran, wrapped-Ran, any, nat_eq, ◌==◌, if◌then◌else◌,
}
use kubeip.Types.{Node}
use kubeip.Config.{Config}
use kubeip.Node.Explorer.{Explorer}
use kubeip.Address.Interface.{Assigner}
use kubeip.Agent.{
  AgentEnv, reports, wait_reported_from, wait_for_address_to_be_reported, assign_address,
  release_ip, untaint, shut_down, run_node,
}

module _ {W Ip RestConfig Client : Type 0} (env : AgentEnv W Ip RestConfig Client) (cfg : Config)
    (node : Node Ip) where
  -- One of the node's external addresses has the text.
  abbrev pub HasAddress : String → Node Ip → Type 0
  HasAddress address info = any (λ ip. env.ip_text ip == address) info.external_ips ≡ true

  -- A read of the node that showed the address, as the last thing that was done.
  abbrev pub Reported : Explorer W Ip → String → W → Type 0
  Reported explorer address w' =
      (v : W) × (info : Node Ip) × Ran (explorer.get_node node.name) v info w'
      × HasAddress address info

  module _ (explorer : Explorer W Ip) (address : String) where
    Reported-now :
        (n : ℕ) (w w1 w' : W) (r : Result (Node Ip))
        → explorer.get_node node.name w ≡ (r, w1)
        → reports env cfg node address r ≡ true
        → wait_reported_from env cfg node explorer address (suc n) w ≡ (ok tt, w')
        → Reported explorer address w'
    unfolding wait_reported_from
    Reported-now n w w1 w' (ok info) t e h =
        let same : w1 ≡ w' = ground (arith, rw (t, e) at h) in (w, info, t ∙ rw same, e)
    Reported-now n w w1 w' (err x) t e h = absurd (ground arith)
    Reported-now n w w1 w' panic t e h = absurd (ground arith)
    Reported-now n w w1 w' unfinished t e h = absurd (ground arith)

    -- A success without a report means that the ticker came and the rest succeeded.
    reported_later :
        (n : ℕ) (w w1 w2 w' : W) (r : Result (Node Ip)) (o : Result (Option Error))
        → explorer.get_node node.name w ≡ (r, w1)
        → reports env cfg node address r ≡ false
        → env.wait_tick w1 ≡ (o, w2)
        → wait_reported_from env cfg node explorer address (suc n) w ≡ (ok tt, w')
        → wait_reported_from env cfg node explorer address n w2 ≡ (ok tt, w')
    unfolding wait_reported_from
    reported_later n w w1 w2 w' (ok info) (ok none) t e k h = rw (t, e, k) at h
    reported_later n w w1 w2 w' (err x) (ok none) t e k h = rw (t, k) at h
    reported_later n w w1 w2 w' r o t e k h = ground arith

  -- The wait succeeds only right after a read of the node that shows the address.
  reported :
      (explorer : Explorer W Ip) (address : String) (n : ℕ) (w w' : W)
      → wait_reported_from env cfg node explorer address n w ≡ (ok tt, w')
      → Reported explorer address w'
  unfolding wait_reported_from
  reported explorer address zero w w' h = absurd (ground arith)
  reported explorer address (suc n) w w' h =
      let w1 = (explorer.get_node node.name w).1 in
      let r = (explorer.get_node node.name w).0 in
      elim (Bool-cases (reports env cfg node address r)) [
        | inl e ↦ Reported-now explorer address n w w1 w' r refl e h
        | inr e ↦ reported explorer address n (env.wait_tick w1).1 w' (
            reported_later explorer address n w w1 (env.wait_tick w1).1 w' r (env.wait_tick w1).0
              refl e refl h)
      ]

  -- The wait for the node to report an address ends in success only right after a read of the node
  -- that shows the address among the external ones.
  pub wait_for_address_to_be_reported-Reported :
      (explorer : Explorer W Ip) (address : String) (w w' : W)
      → Ran (wait_for_address_to_be_reported env cfg node explorer address) w tt w'
      → Reported explorer address w'
  unfolding wait_for_address_to_be_reported
  wait_for_address_to_be_reported-Reported explorer address w w' h =
      elim (Bool-cases (nat_eq cfg.retry_interval 0)) [
        | inl z ↦ absurd (ground (arith, rw z at h))
        | inr nz ↦ reported explorer address (cfg.retry_attempts + 1) w w' (rw nz at h)
      ]

  module _ (texts : (ip : Ip) → (env.ip_text ip == "") ≡ false) where
    no_empty_address : (ips : List Ip) → any (λ ip. env.ip_text ip == "") ips ≡ false
    no_empty_address [] = refl
    no_empty_address (ip ∷ ips) = rw (texts ip) (no_empty_address ips)

    -- What a node shows is a text.
    pub Reported-has_text :
        (explorer : Explorer W Ip) (address : String) (w : W)
        → Reported explorer address w
        → address ≢ ""
    Reported-has_text explorer address w (v, info, got, has) empty =
        cc (rw empty at has, no_empty_address info.external_ips)

    -- No address is printed as the empty text, so a wait for the empty address never succeeds.
    never_reported_empty :
        (explorer : Explorer W Ip) (w w' : W)
        → ¬ Ran (wait_for_address_to_be_reported env cfg node explorer "") w tt w'
    never_reported_empty explorer w w' h =
        let (v, info, got, has) = wait_for_address_to_be_reported-Reported explorer "" w w' h in
        cc (has, no_empty_address info.external_ips)

    untaint_empty :
        (client : Client) (assigner : Assigner W) (w w' : W)
        → (cfg.taint_key == "") ≡ false
        → ¬ Ran (untaint env cfg node client assigner "") w tt w'
    unfolding untaint
    untaint_empty client assigner w w' key h =
        let (t, v, waited, rest) =
          wrapped>>=-Ran _ (wait_for_address_to_be_reported env cfg node (env.explorer client) "") _
            w (rw key at h) in
        never_reported_empty (env.explorer client) w v waited

    -- With a taint key, a run in which the assignment gives the empty address never succeeds.
    pub run_node_without_address :
        (client : Client) (assigner : Assigner W) (w w1 w2 w' : W)
        → (cfg.taint_key == "") ≡ false
        → Ran (env.new_assigner node.cloud cfg) w assigner w1
        → Ran (assign_address env cfg node client assigner) w1 "" w2
        → ¬ Ran (run_node env cfg node client) w tt w'
    unfolding run_node
    run_node_without_address client assigner w w1 w2 w' key made served h =
        let (t, v, ran, rest) =
          >>=-Ran (untaint env cfg node client assigner "") _ w2 (rw (made, served) at h) in
        untaint_empty client assigner w2 v key ran

  module _ (client : Client) (assigner : Assigner W) (address : String) (w : W) where
    -- With a taint key, when the node does not report the address, the taint is not touched.
    untaint_unreported :
        (e : Error) (v : W)
        → (cfg.taint_key == "") ≡ false
        → wait_for_address_to_be_reported env cfg node (env.explorer client) address w ≡ (err e, v)
        → untaint env cfg node client assigner address w
          ≡ (err (wrap e "waiting for node to report assigned address"), v)
    unfolding untaint
    untaint_unreported e v key failed = rw (key, failed)

  when_true :
      {A : Type 0} (b : Bool) (x y : Action W A) (v w' : W) (a : A)
      → b ≡ true
      → Ran (if b then x else y) v a w'
      → Ran x v a w'
  when_true true x y v w' a e h = h
  when_true false x y v w' a e h = absurd (cc (e))

  shut_down_releases :
      (assigner : Assigner W) (w w' : W)
      → cfg.release_on_exit ≡ true
      → Ran (shut_down env cfg node assigner) w tt w'
      → (v : W) × Ran env.wait_done w tt v
        × Ran (assigner.unassign node.instance_id node.zone) v tt w'
  unfolding shut_down release_ip
  shut_down_releases assigner w w' on h =
      let (t, v, over, rest) = >>=-Ran env.wait_done _ w h in
      (
        v,
        over,
        wrapped-Ran _ (assigner.unassign node.instance_id node.zone) v
            (when_true cfg.release_on_exit _ _ v w' tt on rest),
      )

  -- A run that succeeds with release on exit has made the assigner of the node's cloud, got an address
  -- with it, waited for its end, and then, as the last call, released the address of this node through
  -- that same assigner.
  pub run_node_releases :
      (client : Client) (w w' : W)
      → cfg.release_on_exit ≡ true
      → Ran (run_node env cfg node client) w tt w'
      → (assigner : Assigner W) × (address : String) × (w1 w2 w3 v : W) × Ran
          (env.new_assigner node.cloud cfg)
          w
          assigner
          w1
        × Ran (assign_address env cfg node client assigner) w1 address w2
        × Ran (untaint env cfg node client assigner address) w2 tt w3
        × Ran env.wait_done w3 tt v
        × Ran (assigner.unassign node.instance_id node.zone) v tt w'
  unfolding run_node
  run_node_releases client w w' on h =
      let (assigner, w1, made, h1) = wrapped>>=-Ran _ (env.new_assigner node.cloud cfg) _ w h in
      let (address, w2, assigned, h2) =
        wrapped>>=-Ran _ (assign_address env cfg node client assigner) _ w1 h1 in
      let (t, w3, untainted, h3) = >>=-Ran (untaint env cfg node client assigner address) _ w2 h2 in
      let (v, over, last) = shut_down_releases assigner w3 w' on h3 in
      (assigner, address, w1, w2, w3, v, made, assigned, untainted, over, last)

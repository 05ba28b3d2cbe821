-- ===== src/Agent/Retry.antt =====
-- The retry loop of `assignAddress` and the lock around each attempt.
use kubeip.Base.{
  ℕ, zero, suc, ◌+◌, String, true, false, Option, none, some, ◌≡◌, ◌≢◌, refl, sym, ◌∙◌, ◌<◌, ◌≤◌,
  ◌-◌, ap, ◌⊎◌, inl, inr, arith, Bool-cases, Error, static_ip_already_assigned, errors_is, message,
  wrap, Result, ok, err, panic, unfinished, Action, Ran, nat_eq,
}
use kubeip.Types.{Node}
use kubeip.Config.{Config}
use kubeip.Lease.{KubeLock}
use kubeip.Address.Interface.{Assigner}
use kubeip.Agent.{AgentEnv, kubeip_lock_name, locked_assign, assign_from, assign_address}

module _ {W Ip : Type 0} (lock : KubeLock W) (assigner : Assigner W) (node : Node Ip)
    (cfg : Config) where
  -- The assigner's call.
  abbrev pub assign_call : Action W (String × Option Error)
  assign_call = assigner.assign node.instance_id node.zone cfg.filter cfg.order_by

  -- When the lock was taken, it is given back behind the assigner's call, also when that fails or
  -- panics, and no call comes between; the assigner's error is the attempt's.
  pub locked_assign_gives_back :
      (w w1 : W)
      → Ran lock.lock w tt w1
      → ((locked_assign lock assigner node cfg w).1 ≡ (lock.unlock (assign_call w1).1).1)
        × ((e : Error)
            → (lock.unlock (assign_call w1).1).0 ≡ ok tt
            → ((assign_call w1).0 ≡ err e) ⊎ ((s : String) × ((assign_call w1).0 ≡ ok (s, some e)))
            → (locked_assign lock assigner node cfg w).0 ≡ err e)
  unfolding locked_assign
  locked_assign_gives_back w w1 h = (ground arith, λ e u c. ground arith)

  -- When the lock cannot be taken, neither the assigner nor the release is called.
  pub locked_assign_unlocked :
      (w w1 : W) (e : Error)
      → lock.lock w ≡ (err e, w1)
      → locked_assign lock assigner node cfg w ≡ (err (wrap e "failed to acquire lock"), w1)
  unfolding locked_assign
  locked_assign_unlocked w w1 e h = rw h

module _ {W Ip RestConfig Client : Type 0} (env : AgentEnv W Ip RestConfig Client) (cfg : Config)
    (node : Node Ip) (try_once : Action W String) where
  -- Rounds that failed, each with another error than "already assigned", with a tick after each.
  abbrev pub Fails : ℕ → W → W → Type 0
  Fails zero w v = w ≡ v
  Fails (suc n) w v =
      (e : Error) × (w1 : W) × (w2 : W) × (try_once w ≡ (err e, w1))
      × (errors_is e static_ip_already_assigned ≡ false)
      × (env.wait_tick w1 ≡ (ok none, w2))
      × Fails n w2 v

  step_again :
      (m : ℕ) (w w1 w2 : W) (e : Error)
      → try_once w ≡ (err e, w1)
      → errors_is e static_ip_already_assigned ≡ false
      → env.wait_tick w1 ≡ (ok none, w2)
      → assign_from env cfg node try_once (suc m) w ≡ assign_from env cfg node try_once m w2
  unfolding assign_from
  step_again m w w1 w2 e failed other ticked = rw (failed, other, ticked)

  Fails-then :
      (n m : ℕ) (w v : W)
      → Fails n w v
      → assign_from env cfg node try_once (n + m) w ≡ assign_from env cfg node try_once m v
  Fails-then zero m w v h = let z : 0 + m ≡ m = omega arith in rw (z, h)
  Fails-then (suc n) m w v (e, w1, w2, failed, other, ticked, rest) =
      let s : suc n + m ≡ suc (n + m) = omega arith in
      rw s (step_again (n + m) w w1 w2 e failed other ticked ∙ Fails-then n m w2 v rest)

  out_of_rounds :
      (v : W)
      → assign_from env cfg node try_once zero v
        ≡ (err (message "reached maximum number of retries"), v)
  unfolding assign_from
  out_of_rounds v = refl

  first_success :
      (m : ℕ) (v v' : W) (a : String)
      → try_once v ≡ (ok a, v')
      → assign_from env cfg node try_once (suc m) v ≡ (ok a, v')
  unfolding assign_from
  first_success m v v' a h = rw h

  -- How a run of the loop that returned an address went: fewer failed rounds than allowed, and then
  -- an attempt that gave the address, or one that found the instance served and gives none.
  abbrev pub Served : ℕ → W → String → W → Type 0
  Served n w a w' =
      (k : ℕ) × (v : W) × (k < n)
      × Fails k w v
      × ((try_once v ≡ (ok a, w'))
          ⊎ ((e : Error) × (try_once v ≡ (err e, w'))
              × (errors_is e static_ip_already_assigned ≡ true)
              × (a ≡ "")))

  served_already :
      (m : ℕ) (w w1 : W) (e : Error)
      → try_once w ≡ (err e, w1)
      → errors_is e static_ip_already_assigned ≡ true
      → assign_from env cfg node try_once (suc m) w ≡ (ok "", w1)
  unfolding assign_from
  served_already m w w1 e failed already = rw (failed, already)

  -- A value after a failed attempt with another error means that the ticker came.
  ticked_between :
      (n : ℕ) (w w1 w2 w' : W) (e : Error) (r : Result (Option Error)) (a : String)
      → try_once w ≡ (err e, w1)
      → errors_is e static_ip_already_assigned ≡ false
      → env.wait_tick w1 ≡ (r, w2)
      → assign_from env cfg node try_once (suc n) w ≡ (ok a, w')
      → r ≡ ok none
  unfolding assign_from
  ticked_between n w w1 w2 w' e (ok none) a t o k h = refl
  ticked_between n w w1 w2 w' e (ok (some c)) a t o k h = absurd (ground (arith, rw (t, o, k) at h))
  ticked_between n w w1 w2 w' e (err c) a t o k h = absurd (ground (arith, rw (t, o, k) at h))
  ticked_between n w w1 w2 w' e panic a t o k h = absurd (ground (arith, rw (t, o, k) at h))
  ticked_between n w w1 w2 w' e unfinished a t o k h = absurd (ground (arith, rw (t, o, k) at h))

  no_value :
      (n : ℕ) (w w1 w' : W) (a : String)
      → (try_once w ≡ (panic, w1)) ⊎ (try_once w ≡ (unfinished, w1))
      → assign_from env cfg node try_once (suc n) w ≢ (ok a, w')
  unfolding assign_from
  no_value n w w1 w' a (inl t) h = ground (arith, rw t at h)
  no_value n w w1 w' a (inr t) h = ground (arith, rw t at h)

  module _ (n : ℕ) (w w1 w' : W) (a : String)
      (again : (v : W) → assign_from env cfg node try_once n v ≡ (ok a, w') → Served n v a w')
      (h : assign_from env cfg node try_once (suc n) w ≡ (ok a, w')) where
    Served-next :
        (e : Error)
        → try_once w ≡ (err e, w1)
        → errors_is e static_ip_already_assigned ≡ false
        → Served (suc n) w a w'
    Served-next e t other =
        let k : env.wait_tick w1 ≡ (ok none, (env.wait_tick w1).1) = ground (
          arith,
          ticked_between n w w1 (env.wait_tick w1).1 w' e (env.wait_tick w1).0 a t other refl h,
        ) in
        let w2 = (env.wait_tick w1).1 in
        let (m, v, lt, fails, last) = again w2 (sym (step_again n w w1 w2 e t other k) ∙ h) in
        (suc m, v, omega arith, (e, w1, w2, t, other, k, fails), last)

    -- The loop taken apart by how an attempt and the wait ended.
    Served-step : (r : Result String) → try_once w ≡ (r, w1) → Served (suc n) w a w'
    Served-step (ok b) t =
        (zero, w, omega arith, refl, inl (t ∙ (sym (first_success n w w1 b t) ∙ h)))
    Served-step (err e) t = elim (Bool-cases (errors_is e static_ip_already_assigned)) [
      | inl already ↦
          let same = sym (served_already n w w1 e t already) ∙ h in
          (zero, w, omega arith, refl, inr (e, ground arith, already, ground arith))
      | inr other ↦ Served-next e t other
    ]
    Served-step panic t = absurd (no_value n w w1 w' a (inl t) h)
    Served-step unfinished t = absurd (no_value n w w1 w' a (inr t) h)

  served :
      (n : ℕ) (w w' : W) (a : String)
      → assign_from env cfg node try_once n w ≡ (ok a, w')
      → Served n w a w'
  served zero w w' a h = absurd (ground (arith, out_of_rounds w))
  served (suc n) w w' a h =
      Served-step n w (try_once w).1 w' a (λ v k. served n v w' a k) h (try_once w).0 refl

module _ {W Ip RestConfig Client : Type 0} (env : AgentEnv W Ip RestConfig Client) (cfg : Config)
    (node : Node Ip) (client : Client) (assigner : Assigner W) where
  -- One attempt of `assignAddress`.
  abbrev pub attempt_once : Action W String
  attempt_once =
      locked_assign
        (env.new_lock client kubeip_lock_name cfg.lease_namespace node.instance_id
          cfg.lease_duration)
        assigner node cfg

  abbrev pub Failed : ℕ → W → W → Type 0
  Failed = Fails env cfg node attempt_once

  -- An address is returned only after an attempt: of at most `RetryAttempts + 1`, all before it
  -- failed, and this one gave the address, or found the instance served, and then the address is
  -- empty.
  pub assign_address-Served :
      (w w' : W) (a : String)
      → Ran (assign_address env cfg node client assigner) w a w'
      → Served env cfg node attempt_once (cfg.retry_attempts + 1) w a w'
  unfolding assign_address
  assign_address-Served w w' a h = elim (Bool-cases (nat_eq cfg.retry_interval 0)) [
    | inl z ↦ absurd (ground (arith, rw z at h))
    | inr nz ↦ served env cfg node attempt_once (cfg.retry_attempts + 1) w w' a (rw nz at h)
  ]

  started :
      (w : W)
      → cfg.retry_interval ≢ 0
      → assign_address env cfg node client assigner w
        ≡ assign_from env cfg node attempt_once (cfg.retry_attempts + 1) w
  unfolding assign_address
  started w h = ground arith

  -- `RetryAttempts + 1` failed attempts, none of them "already assigned", end in the error, and no
  -- further attempt is made.
  pub assign_address_gives_up :
      (w v : W)
      → cfg.retry_interval ≢ 0
      → Failed (cfg.retry_attempts + 1) w v
      → assign_address env cfg node client assigner w
        ≡ (err (message "reached maximum number of retries"), v)
  assign_address_gives_up w v i f =
      let n = cfg.retry_attempts + 1 in
      let z : n ≡ n + 0 = omega arith in
      started w i
      ∙ (ap (λ m. assign_from env cfg node attempt_once m w) z
          ∙ (Fails-then env cfg node attempt_once n 0 w v f
              ∙ out_of_rounds env cfg node attempt_once v))

  from_round :
      (k : ℕ) (w v : W)
      → cfg.retry_interval ≢ 0
      → k ≤ cfg.retry_attempts
      → Failed k w v
      → assign_address env cfg node client assigner w
        ≡ assign_from env cfg node attempt_once (suc (cfg.retry_attempts - k)) v
  from_round k w v i le f =
      let n = cfg.retry_attempts + 1 in
      let z : n ≡ k + suc (cfg.retry_attempts - k) = omega arith in
      started w i
      ∙ (ap (λ m. assign_from env cfg node attempt_once m w) z
          ∙ Fails-then env cfg node attempt_once k (suc (cfg.retry_attempts - k)) w v f)

  -- The attempt gave the address, or found the instance served, and then the address is empty.
  abbrev pub Settles : Result String → String → Type 0
  Settles r a =
      (r ≡ ok a)
      ⊎ ((e : Error) × (r ≡ err e) × (errors_is e static_ip_already_assigned ≡ true) × (a ≡ ""))

  -- The first attempt that does not fail, within the allowed number, ends the loop: with its address,
  -- or, when it found the instance served, with no error and the empty address.
  pub assign_address_ends :
      (k : ℕ) (w v v' : W) (r : Result String) (a : String)
      → cfg.retry_interval ≢ 0
      → k ≤ cfg.retry_attempts
      → Failed k w v
      → attempt_once v ≡ (r, v')
      → Settles r a
      → assign_address env cfg node client assigner w ≡ (ok a, v')
  assign_address_ends k w v v' r a i le f t (inl given) =
      let m = cfg.retry_attempts - k in
      from_round k w v i le f
      ∙ first_success env cfg node attempt_once m v v' a (t ∙ ap (λ x. (x, v')) given)
  assign_address_ends k w v v' r a i le f t (inr (e, failed, already, empty)) =
      let m = cfg.retry_attempts - k in
      from_round k w v i le f
      ∙ (served_already env cfg node attempt_once m v v' e (t ∙ ap (λ x. (x, v')) failed) already
          ∙ ap (λ x. (ok x, v')) (sym empty))

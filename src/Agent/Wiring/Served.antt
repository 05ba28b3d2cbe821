-- ===== src/Agent/Wiring/Served.antt =====
-- The agent's run together with the lease lock and the clouds' assigners.
use kubeip.Base.{
  ℕ, ◌+◌, ◌<◌, String, Option, none, some, ◌≡◌, ◌≢◌, sym, ap, ◌⊎◌, inl, inr, arith, Error, Result,
  ok, err, panic, unfinished, Ran, wrapped>>=-Ran,
}
use kubeip.Types.{Node}
use kubeip.Config.{Config}
use kubeip.Lease.{LockWorld, lock, unlock}
use kubeip.Lease.Laws.{IsBackoff, CreatedLease, FoundLease}
use kubeip.Address.Interface.{Assigner}
use kubeip.Agent.{kubeip_lock_name, assigned_value, deferred, locked_assign, assign_address}
use kubeip.Agent.Retry.{attempt_once, Failed, assign_address-Served}
use kubeip.Agent.Guarded.{locked_assign-Guarded}
use kubeip.Agent.Wiring.{Clientset, Outside, assigner_outside, lease_env, lease_lock, wired}

deferred-ok :
    {A : Type 0} (x : Result A) (u : Result (Unit {0})) {a : A} → ok a ≡ deferred x u → x ≡ ok a
deferred-ok x (ok t) h = sym h
deferred-ok x (err e) h = sym h
deferred-ok x panic h = absurd (ground arith)
deferred-ok x unfinished h = absurd (ground arith)

-- An attempt that gave an address: the assigner gave it, without an error beside it.
assigned_value-ok :
    (r : Result (String × Option Error)) {a : String} → assigned_value r ≡ ok a → r ≡ ok (a, none)
assigned_value-ok (ok (b, none)) h = ground arith
assigned_value-ok (ok (b, some e)) h = absurd (ground arith)
assigned_value-ok (err e) h = absurd (ground arith)
assigned_value-ok panic h = absurd (ground arith)
assigned_value-ok unfinished h = absurd (ground arith)

module _ {W Ip RestConfig AwsConfig : Type 0} (o : Outside W Ip RestConfig AwsConfig) (cfg : Config)
    (node : Node Ip) (client : Clientset W) (assigner : Assigner W) where
  -- An attempt: the lock was had, with a lease of this holder made or one found that is neither expired
  -- nor another's; the assigner gave the address without an error as the next call, and `Unlock` came
  -- right behind it.
  abbrev pub UnderLease : (W → W → Type 0) → LockWorld W → LockWorld W → Type 0
  UnderLease Gave v w' =
      let env = lease_env o (client.leases cfg.lease_namespace) in
      let k = lease_lock o kubeip_lock_name node.instance_id cfg.lease_duration in
      (u : LockWorld W) × (v1 : LockWorld W) × (out : W) × Ran (lock env k) v tt v1
      × (CreatedLease env k u v1 ⊎ FoundLease env k u v1)
      × Gave v1.outside out
      × ((unlock env k (record v1 { outside = out })).1 ≡ w')

  abbrev pub Gives : String → W → W → Type 0
  Gives address u u' =
      Ran (assigner.assign node.instance_id node.zone cfg.filter cfg.order_by) u (address, none) u'

  -- After fewer failed attempts than are allowed, an attempt went that way.
  abbrev pub Secured : (W → W → Type 0) → LockWorld W → LockWorld W → Type 0
  Secured Gave w w' =
      (n : ℕ) × (v : LockWorld W) × (n < cfg.retry_attempts + 1)
      × Failed (wired o) cfg node client (assigner_outside assigner) n w v
      × UnderLease Gave v w'

  module _ (backoff : IsBackoff (lease_env o (client.leases cfg.lease_namespace))) where
    -- An attempt that gave an address went that way.
    attempt-UnderLease :
        (address : String) (v w' : LockWorld W)
        → Ran (attempt_once (wired o) cfg node client (assigner_outside assigner)) v address w'
        → UnderLease (Gives address) v w'
    unfolding locked_assign
    attempt-UnderLease address v w' h =
        let env = lease_env o (client.leases cfg.lease_namespace) in
        let k = lease_lock o kubeip_lock_name node.instance_id cfg.lease_duration in
        let (t, v0, had, rest) = wrapped>>=-Ran _ (lock env k) _ v h in
        elim (locked_assign-Guarded env k (assigner_outside assigner) node cfg backoff (ok address)
          v w' h) [
            | inl (free, same) ↦ absurd (free (ap (λ p. p.0) had))
            | inr (u, v1, locked, lease, last, answer) ↦
                let call =
                  assigner.assign node.instance_id node.zone cfg.filter cfg.order_by v1.outside in
                let gave : call.0 ≡ ok (address, none) =
                  assigned_value-ok call.0 (deferred-ok (assigned_value call.0) _ answer) in
                (u, v1, call.1, locked, lease, ap (λ r. (r, call.1)) gave, last)
          ]

    -- An address that is not empty was given so.
    pub assign_address-Secured :
        (address : String) (w w' : LockWorld W)
        → address ≢ ""
        → Ran (assign_address (wired o) cfg node client (assigner_outside assigner)) w address w'
        → Secured (Gives address) w w'
    assign_address-Secured address w w' some_text h =
        let (n, v, few, failed, last) =
          assign_address-Served (wired o) cfg node client (assigner_outside assigner) w w' address
            h in
        elim last [
          | inl given ↦ (n, v, few, failed, attempt-UnderLease address v w' given)
          | inr (e, tried, already, empty) ↦ absurd (some_text empty)
        ]

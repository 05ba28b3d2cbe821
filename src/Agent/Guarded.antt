-- ===== src/Agent/Guarded.antt =====
-- The assigner's call under the lease of internal/lease/lock.go.
use kubeip.Base.{
  String, ◌≡◌, refl, sym, ap, ◌⊎◌, inl, inr, arith, Result, ok, err, panic, unfinished, Ran,
}
use kubeip.Types.{Node}
use kubeip.Config.{Config}
use kubeip.Lease.{LeaseEnv, LeaseLock, LockWorld, lock, unlock, new_kube_lease_lock}
use kubeip.Lease.Laws.{IsBackoff, CreatedLease, FoundLease, lock_acquires}
use kubeip.Address.Interface.{Assigner}
use kubeip.Agent.{locked_assign, assigned_value, deferred}
use kubeip.Agent.Retry.{assign_call}

module _ {W Ip : Type 0} (env : LeaseEnv W) (k : LeaseLock) (assigner : Assigner (LockWorld W))
    (node : Node Ip) (cfg : Config) where
  -- The lock could not be had, and no call was made behind it.
  abbrev pub Unlocked : LockWorld W → LockWorld W → Type 0
  Unlocked w w' = ¬ ((lock env k w).0 ≡ ok tt) × ((lock env k w).1 ≡ w')

  -- A lease of this holder was made, or one found that is neither expired nor another's; the assigner
  -- was called next, and `Unlock` right behind it, whatever the assigner's call came to.
  abbrev pub Guarded : Result String → LockWorld W → LockWorld W → Type 0
  Guarded r w w' =
      (v : LockWorld W) × (w1 : LockWorld W) × Ran (lock env k) w tt w1
      × (CreatedLease env k v w1 ⊎ FoundLease env k v w1)
      × ((unlock env k (assign_call (new_kube_lease_lock env k) assigner node cfg w1).1).1 ≡ w')
      × (r
          ≡ deferred
              (assigned_value (assign_call (new_kube_lease_lock env k) assigner node cfg w1).0)
              (unlock env k (assign_call (new_kube_lease_lock env k) assigner node cfg w1).1).0)

  Guarded-by :
      IsBackoff env
      → (x : Result (Unit {0})) (r : Result String) (w w1 w' : LockWorld W) → lock env k w ≡ (x, w1)
      → locked_assign (new_kube_lease_lock env k) assigner node cfg w ≡ (r, w')
      → Unlocked w w' ⊎ Guarded r w w'
  unfolding locked_assign
  Guarded-by backoff (ok t) r w w1 w' locked h =
      let (v, acquired) = lock_acquires env k backoff w w1 locked in
      let h1 = rw locked at h in
      inr (v, w1, locked, acquired, ap (λ p. p.1) h1, sym (ap (λ p. p.0) h1))
  Guarded-by backoff (err e) r w w1 w' locked h =
      inl (λ bad. ground (arith, locked), ground (arith, locked, rw locked at h))
  Guarded-by backoff panic r w w1 w' locked h =
      inl (λ bad. ground (arith, locked), ground (arith, locked, rw locked at h))
  Guarded-by backoff unfinished r w w1 w' locked h =
      inl (λ bad. ground (arith, locked), ground (arith, locked, rw locked at h))

  -- An attempt to assign under the lease lock, whatever it comes to: either the lock could not be had
  -- and nothing was called behind it; or the lock's last try made a lease of this holder or found one
  -- that is neither expired nor another's, then the assigner was called, and then `Unlock`.
  pub locked_assign-Guarded :
      IsBackoff env
      → (r : Result String) (w w' : LockWorld W)
      → locked_assign (new_kube_lease_lock env k) assigner node cfg w ≡ (r, w')
      → Unlocked w w' ⊎ Guarded r w w'
  locked_assign-Guarded backoff r w w' h =
      Guarded-by backoff (lock env k w).0 r w (lock env k w).1 w' refl h

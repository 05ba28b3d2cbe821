-- ===== src/Lease/Progress.antt =====
-- When a try of `Lock` gets the lock, over a store whose calls do not fail.
use kubeip.Base.{ℕ, true, false, Option, none, some, ◌≡◌, refl, ap, ◌∙◌, arith, Ran, eq_refl}
use kubeip.Kube.{LeaseSpec}
use kubeip.Lease.{
  LeaseEnv, LeaseLock, LockWorld, is_expired, lease_expired, existing_lease, new_spec, tried,
  try_lock, unlock, start_renewal, cancel_renewal, cancelled,
}
use kubeip.Lease.Laws.{cancelled-outside}
use kubeip.Lease.Cluster.Race.{IsAnswering}

module _ {W : Type 0} (stored : W → Option LeaseSpec) (revision clock : W → ℕ) (env : LeaseEnv W)
    (k : LeaseLock) where
  -- The try answers true, and the lease names the lock's holder, as renewed now.
  abbrev pub Taken : LockWorld W → Type 0
  Taken v =
      (v' : LockWorld W) × (lease : LeaseSpec) × Ran (try_lock env k) v true v'
      × (stored v'.outside ≡ some lease)
      × (lease.holder_identity ≡ some k.holder_identity)
      × (lease.renew_time ≡ some (clock v'.outside))

  module _ (laws : IsAnswering stored revision clock env k.lease_name) where
    free_lease-Taken : (v : LockWorld W) → stored v.outside ≡ none → Taken v
    unfolding try_lock tried start_renewal
    free_lease-Taken v free =
        let spec = new_spec env k (clock v.outside) in
        let (w, made, has, still) = laws.create_ok spec v.outside free in
        (
          (start_renewal (record v { outside = w })).1,
          record spec { resource_version = revision w },
          rw (laws.now_ok v.outside, made) refl,
          has,
          refl,
          ap some (ground (arith, still)),
        )

    expired_lease_is_deleted :
        (v : LockWorld W) (lease : LeaseSpec) (renewed : ℕ)
        → stored v.outside ≡ some lease
        → lease.renew_time ≡ some renewed
        → is_expired k (clock v.outside) renewed ≡ true
        → (w : W) × Ran (try_lock env k) v false (record v { outside = w }) × (stored w ≡ none)
    unfolding try_lock tried existing_lease lease_expired
    expired_lease_is_deleted v lease renewed there dated old =
        let w = v.outside in
        let (e, refused, exists) = laws.create_refused (new_spec env k (clock w)) w lease there in
        let (w1, deleted, free, still) = laws.delete_ok w lease there in
        (
          w1,
          rw
              (
                laws.now_ok w,
                refused,
                exists,
                laws.get_ok w lease there,
                dated,
                laws.now_ok w,
                old,
                deleted,
              )
              refl,
          free,
        )

    own_lease_is_deleted :
        (v : LockWorld W) (lease : LeaseSpec)
        → stored v.outside ≡ some lease
        → lease.holder_identity ≡ some k.holder_identity
        → (v' : LockWorld W) × Ran (unlock env k) v tt v' × (stored v'.outside ≡ none)
    unfolding unlock cancel_renewal
    own_lease_is_deleted v lease there mine =
        let (w1, deleted, free, still) = laws.delete_ok v.outside lease there in
        (
          record (cancelled v) { outside = w1 },
          rw (cancelled-outside, laws.get_ok v.outside lease there, mine, eq_refl, deleted) refl,
          free,
        )

    -- Over a store whose calls do not fail: an expired lease, whoever holds it, does not keep the lock.
    -- The first try of `Lock` removes it and answers false, and the second one gets the lock.
    pub expired_lease_yields :
        (v : LockWorld W) (lease : LeaseSpec) (renewed : ℕ)
        → stored v.outside ≡ some lease
        → lease.renew_time ≡ some renewed
        → is_expired k (clock v.outside) renewed ≡ true
        → (v' : LockWorld W) × Ran (try_lock env k) v false v' × Taken v'
    expired_lease_yields v lease renewed there dated old =
        let (w, ran, free) = expired_lease_is_deleted v lease renewed there dated old in
        (record v { outside = w }, ran, free_lease-Taken (record v { outside = w }) free)

-- Over a store whose calls do not fail: behind an `Unlock` by the lease's holder, the next try of
-- `Lock` gets the lock, also when it is another's.
pub released_lease_yields :
    {W : Type 0} (stored : W → Option LeaseSpec) (revision clock : W → ℕ) (env : LeaseEnv W)
    (holder next : LeaseLock)
    → IsAnswering stored revision clock env holder.lease_name
    → IsAnswering stored revision clock env next.lease_name
    → (v : LockWorld W) (lease : LeaseSpec) → stored v.outside ≡ some lease
    → lease.holder_identity ≡ some holder.holder_identity
    → (v' : LockWorld W) × Ran (unlock env holder) v tt v'
      × ((u : LockWorld W) → u.outside ≡ v'.outside → Taken stored revision clock env next u)
released_lease_yields stored revision clock env holder next laws laws' v lease there mine =
    let (v', ran, free) =
      own_lease_is_deleted stored revision clock env holder laws v lease there mine in
    (
      v',
      ran,
      λ u same. free_lease-Taken stored revision clock env next laws' u (ap stored same ∙ free),
    )

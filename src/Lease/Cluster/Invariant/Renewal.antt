-- ===== src/Lease/Cluster/Invariant/Renewal.antt =====
-- The next call of a renewal: what it changes, and what is known where the goroutine stands then.
use kubeip.Base.{
  ℕ, String, Option, some, ◌≡◌, refl, sym, subst, ◌∙◌, inl, inr, arith, Result, ok, err, panic,
  unfinished, Bool-cases,
}
use kubeip.Kube.{LeaseSpec}
use kubeip.Lease.{LeaseEnv, LeaseLock, is_foreign}
use kubeip.Lease.Steps.{
  RenewPhase, resting, read, dated, ticked, renewable, dated_at, updated, renew_step,
}
use kubeip.Lease.Cluster.{Same, IsLeaseStore}
use kubeip.Lease.Cluster.Change.{Renewed, IsSound, Kept, one_lease, own_holder}

module _ {W : Type 0} (stored : W → Option LeaseSpec) (revision : W → ℕ) where
  -- What is known where a renewal of the holder stands.
  abbrev pub RenewSound : String → RenewPhase → W → Type 0
  RenewSound h resting w = Unit
  RenewSound h (read lease) w = Kept stored revision h lease w
  RenewSound h (dated lease) w = Kept stored revision h lease w
  RenewSound h (ticked r) w = Unit

  pub RenewSound-mono :
      (h : String) (p : RenewPhase) (w w' : W)
      → ((lease : LeaseSpec) → Kept stored revision h lease w → Kept stored revision h lease w')
      → RenewSound h p w
      → RenewSound h p w'
  RenewSound-mono h resting w w' f s = tt
  RenewSound-mono h (read lease) w w' f s = f lease s
  RenewSound-mono h (dated lease) w w' f s = f lease s
  RenewSound-mono h (ticked r) w w' f s = tt

  module _ (env : LeaseEnv W) (name : String) (laws : IsLeaseStore stored revision env name)
      (h : String) (d : ℕ) where
    abbrev k : LeaseLock
    k = record { lease_name = name; holder_identity = h; lease_duration = d }

    read_own :
        (lease : LeaseSpec) (w w' : W)
        → IsSound stored revision w
        → Same stored revision w w'
        → stored w ≡ some lease
        → RenewSound h (renewable env k (ok lease)) w'
    read_own lease w w' sound (kept, grows) there = elim (Bool-cases (is_foreign k lease)) [
      | inl foreign ↦ rw foreign tt
      | inr mine ↦
          let own = own_holder k lease mine in
          let old = (sound lease there).1 in
          rw mine (
            own,
            omega arith,
            λ l found version.
                subst (λ x. x.holder_identity ≡ some h)
                  (one_lease stored revision w lease l there (sym kept ∙ found)) own,
          )
    ]

    renewable_lem :
        (r : Result LeaseSpec) (w w' : W)
        → IsSound stored revision w
        → Same stored revision w w'
        → ((lease : LeaseSpec) → r ≡ ok lease → stored w ≡ some lease)
        → RenewSound h (renewable env k r) w'
    renewable_lem (ok lease) w w' sound same reads =
        read_own lease w w' sound same (reads lease refl)
    renewable_lem (err e) w w' sound same reads = tt
    renewable_lem panic w w' sound same reads = tt
    renewable_lem unfinished w w' sound same reads = tt

    dated_lem :
        (lease : LeaseSpec) (r : Result ℕ) (w w' : W)
        → Same stored revision w w'
        → Kept stored revision h lease w
        → RenewSound h (dated_at env k lease r) w'
    dated_lem lease (ok time) w w' (kept, grows) (own, old, later) =
        (own, omega arith, λ l there version. later l (sym kept ∙ there) version)
    dated_lem lease (err e) w w' same s = tt
    dated_lem lease panic w w' same s = tt
    dated_lem lease unfinished w w' same s = tt

    updated_lem : (r : Result (Unit {0})) (w : W) → RenewSound h (updated env k r) w
    updated_lem (ok t) w = tt
    updated_lem (err e) w = tt
    updated_lem panic w = tt
    updated_lem unfinished w = tt

    update_change :
        (lease : LeaseSpec) (w : W)
        → Kept stored revision h lease w
        → Renewed stored revision h w (env.api.update name lease w).1
    update_change lease w (own, old, later) = elim (laws.update_lem lease w) [
      | inl same ↦ inl same
      | inr (before, there, version, now, grows) ↦ inr (
        (before, there, later before there version),
        (
          record lease { resource_version = revision (env.api.update name lease w).1 },
          now,
          own,
          refl,
          grows,
        ),
      )
    ]

    -- The next call of a renewal.
    pub renew_step-RenewSound :
        (p : RenewPhase) (w : W)
        → IsSound stored revision w
        → RenewSound h p w
        → Renewed stored revision h w (renew_step env k p w).1
          × RenewSound h (renew_step env k p w).0 (renew_step env k p w).1
    unfolding renew_step
    renew_step-RenewSound resting w sound s =
        let same = laws.get_keeps w in
        (
          inl same,
          renewable_lem (env.api.get name w).0 w (env.api.get name w).1 sound same
              (λ lease e. laws.get_reads w (env.api.get name w).1 lease (ground (arith, e))),
        )
    renew_step-RenewSound (read lease) w sound s =
        let same = laws.now_keeps w in
        (inl same, dated_lem lease (env.now w).0 w (env.now w).1 same s)
    renew_step-RenewSound (dated lease) w sound s =
        (update_change lease w s, updated_lem (env.api.update name lease w).0 _)
    renew_step-RenewSound (ticked r) w sound s = (inl (refl, omega arith), tt)

-- ===== src/Lease/Cluster/Invariant/Agent.antt =====
-- The next call of an agent: what it changes, and what is known where the agent stands then.
use kubeip.Base.{
  ℕ, String, Bool, true, false, Error, Option, none, some, ◌≡◌, refl, ◌∙◌, inl, inr, arith, Result,
  ok, err, panic, unfinished, eq_iff, Option-cases, Bool-cases, if◌then◌else◌,
}
use kubeip.Kube.{LeaseSpec}
use kubeip.Lease.{LeaseEnv, LeaseLock, is_foreign, is_held_by_other, lease_expired, new_spec}
use kubeip.Lease.Steps.{
  Phase, idle, wanting, refused, expired, leaving, releasing, stamped, found, answered, left, go_on,
  created, judged, looked, lock_step,
}
use kubeip.Lease.Cluster.{Same, IsLeaseStore, sees_expired}
use kubeip.Lease.Cluster.Change.{Owns, Change, IsSound, Owns-Same, own_holder}

module _ {W : Type 0} (stored : W → Option LeaseSpec) (revision : W → ℕ) where
  -- What is known of the lease where an agent with the identity stands.
  abbrev pub Sound : String → Phase → W → Type 0
  Sound h idle w = Unit
  Sound h wanting w = Unit
  Sound h refused w = Unit
  Sound h expired w = Unit
  Sound h leaving w = Unit
  Sound h releasing w = Owns stored revision h w
  Sound h (stamped time) w = Unit
  Sound h (found lease) w =
      ¬ (lease.holder_identity ≡ none) × (lease.holder_identity ≡ some h → Owns stored revision h w)
  Sound h (answered (ok true)) w = Owns stored revision h w
  Sound h (answered (ok false)) w = Unit
  Sound h (answered (err e)) w = Unit
  Sound h (answered panic) w = Unit
  Sound h (answered unfinished) w = Unit
  Sound h (left r) w = Unit

  -- What is known stays known when the holder's lease stays.
  pub Sound-mono :
      (h : String) (p : Phase) (w w' : W)
      → (Owns stored revision h w → Owns stored revision h w')
      → Sound h p w
      → Sound h p w'
  Sound-mono h idle w w' f s = tt
  Sound-mono h wanting w w' f s = tt
  Sound-mono h refused w w' f s = tt
  Sound-mono h expired w w' f s = tt
  Sound-mono h leaving w w' f s = tt
  Sound-mono h releasing w w' f s = f s
  Sound-mono h (stamped time) w w' f s = tt
  Sound-mono h (found lease) w w' f s = (s.0, λ own. f (s.1 own))
  Sound-mono h (answered (ok true)) w w' f s = f s
  Sound-mono h (answered (ok false)) w w' f s = tt
  Sound-mono h (answered (err e)) w w' f s = tt
  Sound-mono h (answered panic) w w' f s = tt
  Sound-mono h (answered unfinished) w w' f s = tt
  Sound-mono h (left r) w w' f s = tt

  module _ (env : LeaseEnv W) (name : String) (laws : IsLeaseStore stored revision env name)
      (h : String) (d : ℕ) where
    abbrev k : LeaseLock
    k = record { lease_name = name; holder_identity = h; lease_duration = d }

    Same-refl : (w : W) → Same stored revision w w
    Same-refl w = (refl, omega arith)

    stamped_lem : (r : Result ℕ) (w : W) → Sound h (go_on r stamped) w
    stamped_lem (ok time) w = tt
    stamped_lem (err e) w = tt
    stamped_lem panic w = tt
    stamped_lem unfinished w = tt

    created_refused :
        (b : Bool) (e : Error) (w : W) → Sound h (if b then refused else answered (err e)) w
    created_refused true e w = tt
    created_refused false e w = tt

    created_lem :
        (r : Result (Unit {0})) (w : W)
        → (r ≡ ok tt → Owns stored revision h w)
        → Sound h (created env k r) w
    created_lem (ok t) w own = own refl
    created_lem (err e) w own = created_refused (env.api.is_already_exists e) e w
    created_lem panic w own = tt
    created_lem unfinished w own = tt

    found_lem :
        (r : Result LeaseSpec) (w w' : W)
        → IsSound stored revision w
        → Same stored revision w w'
        → ((lease : LeaseSpec) → r ≡ ok lease → stored w ≡ some lease)
        → Sound h (go_on r found) w'
    found_lem (ok lease) w w' sound same reads =
        let there = reads lease refl in ((sound lease there).0, λ own. (lease, same.0 ∙ there, own))
    found_lem (err e) w w' sound same reads = tt
    found_lem panic w w' sound same reads = tt
    found_lem unfinished w w' sound same reads = tt

    lease_expired-Same :
        (lease : LeaseSpec) (w : W) → Same stored revision w (lease_expired env k lease w).1
    unfolding lease_expired
    lease_expired-Same lease w = elim (Option-cases lease.renew_time) [
      | inl never ↦ rw never (Same-refl w)
      | inr (time, at) ↦ ground (arith, at, laws.now_keeps w)
    ]

    -- Not another's, with a holder: this holder's.
    held_by_self :
        (lease : LeaseSpec)
        → ¬ (lease.holder_identity ≡ none)
        → is_held_by_other k lease ≡ false
        → lease.holder_identity ≡ some h
    held_by_self lease named mine = elim (Option-cases lease.holder_identity) [
      | inl bad ↦ absurd (named bad)
      | inr (g, at) ↦ ground (arith, at, rw at at mine, eq_iff g h)
    ]

    judged_lem :
        (lease : LeaseSpec) (old : Bool) (w : W)
        → Sound h (found lease) w
        → Sound h (judged env k lease old) w
    judged_lem lease true w s = tt
    judged_lem lease false w (named, own) = elim (Bool-cases (is_held_by_other k lease)) [
      | inl other ↦ rw other tt
      | inr mine ↦ rw mine (own (held_by_self lease named mine))
    ]

    found_judged :
        (lease : LeaseSpec) (r : Result Bool) (w : W)
        → Sound h (found lease) w
        → Sound h (go_on r (judged env k lease)) w
    found_judged lease (ok old) w s = judged_lem lease old w s
    found_judged lease (err e) w s = tt
    found_judged lease panic w s = tt
    found_judged lease unfinished w s = tt

    looked_own :
        (lease : LeaseSpec) (w w' : W)
        → Same stored revision w w'
        → stored w ≡ some lease
        → Sound h (looked env k (ok lease)) w'
    looked_own lease w w' same there = elim (Bool-cases (is_foreign k lease)) [
      | inl foreign ↦ rw foreign tt
      | inr mine ↦ rw mine (lease, same.0 ∙ there, own_holder k lease mine)
    ]

    looked_lem :
        (r : Result LeaseSpec) (w w' : W)
        → Same stored revision w w'
        → ((lease : LeaseSpec) → r ≡ ok lease → stored w ≡ some lease)
        → Sound h (looked env k r) w'
    looked_lem (ok lease) w w' same reads = looked_own lease w w' same (reads lease refl)
    looked_lem (err e) w w' same reads = tt
    looked_lem panic w w' same reads = tt
    looked_lem unfinished w w' same reads = tt

    get_reads_at :
        (w : W) (lease : LeaseSpec) → (env.api.get name w).0 ≡ ok lease → stored w ≡ some lease
    get_reads_at w lease e = laws.get_reads w (env.api.get name w).1 lease (ground (arith, e))

    created_step :
        (time : ℕ) (w : W)
        → Change stored revision h w (env.api.create name (new_spec env k time) w).1
          × Sound h
              (created env k (env.api.create name (new_spec env k time) w).0)
              (env.api.create name (new_spec env k time) w).1
    created_step time w =
        let (r, w') = env.api.create name (new_spec env k time) w in
        elim (laws.create_lem (new_spec env k time) w) [
          | inl (same, failed) ↦ (inl same, created_lem r w' (λ made. absurd (failed made)))
          | inr (free, made, grows) ↦
              let lease = record (new_spec env k time) { resource_version = revision w' } in
              (
                inr (inl (free, (lease, made, refl, refl, grows))),
                created_lem r w' (λ done. (lease, made, refl)),
              )
        ]

    -- The next call of an agent that has not found the lease expired.
    pub lock_step-Sound :
        (p : Phase) (w : W)
        → IsSound stored revision w
        → sees_expired p ≡ false
        → Sound h p w
        → Change stored revision h w (lock_step env k p w).1
          × Sound h (lock_step env k p w).0 (lock_step env k p w).1
    unfolding lock_step
    lock_step-Sound idle w sound timely s = (inl (Same-refl w), tt)
    lock_step-Sound wanting w sound timely s =
        (inl (laws.now_keeps w), stamped_lem (env.now w).0 (env.now w).1)
    lock_step-Sound (stamped time) w sound timely s = created_step time w
    lock_step-Sound refused w sound timely s =
        let same = laws.get_keeps w in
        (
          inl same,
          found_lem (env.api.get name w).0 w (env.api.get name w).1 sound same (get_reads_at w),
        )
    lock_step-Sound (found lease) w sound timely s =
        let same = lease_expired-Same lease w in
        (
          inl same,
          found_judged lease (lease_expired env k lease w).0 (lease_expired env k lease w).1
              (Sound-mono h (found lease) w _ (λ own. Owns-Same stored revision h w _ own same) s),
        )
    lock_step-Sound expired w sound timely s = absurd (ground arith)
    lock_step-Sound (answered r) w sound timely s = (inl (Same-refl w), s)
    lock_step-Sound leaving w sound timely s =
        let same = laws.get_keeps w in
        (inl same, looked_lem (env.api.get name w).0 w (env.api.get name w).1 same (get_reads_at w))
    lock_step-Sound releasing w sound timely s = elim (laws.delete_lem w) [
      | inl same ↦ (inl same, tt)
      | inr (gone, grows) ↦ (inr (inr (s, gone, grows)), tt)
    ]
    lock_step-Sound (left r) w sound timely s = (inl (Same-refl w), tt)

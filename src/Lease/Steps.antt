-- ===== src/Lease/Steps.antt =====
-- internal/lease/lock.go one call at a time: where an agent stands between two calls, so that the
-- calls of several agents can be interleaved.
pub mod Laws
use kubeip.Base.{
  ℕ, zero, suc, Bool, true, false, not, some, Result, ok, err, panic, unfinished, Action,
  if◌then◌else◌,
}
use kubeip.Kube.{LeaseSpec}
use kubeip.Lease.{LeaseEnv, LeaseLock, is_foreign, is_held_by_other, lease_expired, new_spec}

-- Where an agent stands: outside the lock; in a try of `Lock`, before the clock is read, before
-- `Create`, before `Get`, before the test of the lease that was read, before `Delete`, and with the
-- answer of the try; in `Unlock`, before `Get`, before `Delete`, and behind it.
pub data Phase : Type 0 where
  idle wanting refused expired leaving releasing : Phase
  stamped : ℕ → Phase
  found : LeaseSpec → Phase
  answered : Result Bool → Phase
  left : Result (Unit {0}) → Phase

-- Where a goroutine of the renewal stands: before `Get`, before the clock, before `Update`, behind
-- the tick.
pub data RenewPhase : Type 0 where
  resting : RenewPhase
  read dated : LeaseSpec → RenewPhase
  ticked : Result Bool → RenewPhase

-- Behind a call in a try: it goes on with the value, or the try ends with the error.
abbrev pub go_on : {A : Type 0} → Result A → (A → Phase) → Phase
go_on (ok a) f = f a
go_on (err e) f = answered (err e)
go_on panic f = answered panic
go_on unfinished f = answered unfinished

module _ {W : Type 0} (env : LeaseEnv W) (k : LeaseLock) where
  -- Behind `Create`.
  abbrev pub created : Result (Unit {0}) → Phase
  created (ok t) = answered (ok true)
  created (err e) = if env.api.is_already_exists e then refused else answered (err e)
  created panic = answered panic
  created unfinished = answered unfinished

  -- Behind the test whether the lease is expired.
  abbrev pub judged : LeaseSpec → Bool → Phase
  judged lease old = if old then expired else answered (ok (not (is_held_by_other k lease)))

  -- Behind the `Get` of `Unlock`.
  abbrev pub looked : Result LeaseSpec → Phase
  looked (ok lease) = if is_foreign k lease then left (ok tt) else releasing
  looked (err e) = left (err e)
  looked panic = left panic
  looked unfinished = left unfinished

  -- The next call of an agent; where it waits for its caller, nothing is done.
  unfoldable pub lock_step : Phase → W → Phase × W
  lock_step idle w = (idle, w)
  lock_step wanting w = let (r, w') = env.now w in (go_on r stamped, w')
  lock_step (stamped time) w =
      let (r, w') = env.api.create k.lease_name (new_spec env k time) w in (created r, w')
  lock_step refused w = let (r, w') = env.api.get k.lease_name w in (go_on r found, w')
  lock_step (found lease) w =
      let (r, w') = lease_expired env k lease w in (go_on r (judged lease), w')
  lock_step expired w =
      let (r, w') = env.api.delete k.lease_name w in (go_on r (λ t. answered (ok false)), w')
  lock_step (answered r) w = (answered r, w)
  lock_step leaving w = let (r, w') = env.api.get k.lease_name w in (looked r, w')
  lock_step releasing w = let (r, w') = env.api.delete k.lease_name w in (left r, w')
  lock_step (left r) w = (left r, w)

  -- Calls of one agent with no other's between.
  unfoldable pub lock_steps : ℕ → Phase → W → Phase × W
  lock_steps zero p w = (p, w)
  lock_steps (suc n) p w = let (p', w') = lock_step p w in lock_steps n p' w'

  -- Behind the `Get` of the renewal.
  abbrev pub renewable : Result LeaseSpec → RenewPhase
  renewable (ok lease) = if is_foreign k lease then ticked (ok false) else read lease
  renewable (err e) = ticked (ok false)
  renewable panic = ticked panic
  renewable unfinished = ticked unfinished

  -- Behind the clock.
  abbrev pub dated_at : LeaseSpec → Result ℕ → RenewPhase
  dated_at lease (ok time) = dated (record lease { renew_time = some time })
  dated_at lease (err e) = ticked (err e)
  dated_at lease panic = ticked panic
  dated_at lease unfinished = ticked unfinished

  -- Behind `Update`, whose error is dropped.
  abbrev pub updated : Result (Unit {0}) → RenewPhase
  updated (ok t) = ticked (ok true)
  updated (err e) = ticked (ok true)
  updated panic = ticked panic
  updated unfinished = ticked unfinished

  -- The next call of a goroutine of the renewal.
  unfoldable pub renew_step : RenewPhase → W → RenewPhase × W
  renew_step resting w = let (r, w') = env.api.get k.lease_name w in (renewable r, w')
  renew_step (read lease) w = let (r, w') = env.now w in (dated_at lease r, w')
  renew_step (dated lease) w = let (r, w') = env.api.update k.lease_name lease w in (updated r, w')
  renew_step (ticked r) w = (ticked r, w)

  unfoldable pub renew_steps : ℕ → RenewPhase → W → RenewPhase × W
  renew_steps zero p w = (p, w)
  renew_steps (suc n) p w = let (p', w') = renew_step p w in renew_steps n p' w'

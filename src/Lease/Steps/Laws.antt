-- ===== src/Lease/Steps/Laws.antt =====
-- The calls of an agent with no other's between them are what `Lock`, `Unlock` and the renewal do.
use kubeip.Base.{
  ℕ, zero, suc, Bool, true, false, not, ◌≡◌, refl, arith, Result, ok, err, panic, unfinished,
  Action, return, ◌>>◌, ◌>>=◌, and_then, caught, attempt, Bool-cases, inl, inr, if◌then◌else◌,
}
use kubeip.Kube.{LeaseSpec}
use kubeip.Lease.{
  LeaseEnv, LeaseLock, LockWorld, is_foreign, is_held_by_other, lease_expired, existing_lease,
  new_spec, tried, try_lock, unlock, cancel_renewal, cancelled, on_outside, renew_tick,
  start_renewal,
}
use kubeip.Lease.Laws.{cancelled-outside}
use kubeip.Lease.Steps.{
  Phase, wanting, stamped, refused, found, expired, answered, leaving, left, RenewPhase, resting,
  ticked, go_on, created, judged, looked, lock_step, lock_steps, renew_step, renew_steps,
}

-- The end of a try.
abbrev pub answer : {W : Type 0} → Result Bool × W → Phase × W
answer (r, w) = (answered r, w)

module _ {W : Type 0} (env : LeaseEnv W) (k : LeaseLock) where
  -- An agent whose try has ended does nothing more.
  steps-answered :
      (n : ℕ) (r : Result Bool) (w : W) → lock_steps env k n (answered r) w ≡ (answered r, w)
  unfolding lock_steps lock_step
  steps-answered zero r w = refl
  steps-answered (suc n) r w = steps-answered n r w

  -- Behind a call: the steps do the rest of the sequence, or end with the call's error.
  go_on_steps :
      {A : Type 0} (n : ℕ) (r : Result A) (f : A → Phase) (g : A → Action W Bool) (w : W)
      → ((a : A) → lock_steps env k n (f a) w ≡ answer (g a w))
      → lock_steps env k n (go_on r f) w ≡ answer (and_then r g w)
  go_on_steps n (ok a) f g w h = h a
  go_on_steps n (err e) f g w h = steps-answered n (err e) w
  go_on_steps n panic f g w h = steps-answered n panic w
  go_on_steps n unfinished f g w h = steps-answered n unfinished w

  expired_steps :
      (w : W)
      → lock_steps env k 1 expired w ≡ answer ((env.api.delete k.lease_name >> return false) w)
  unfolding lock_steps lock_step
  expired_steps w = ground arith

  judged_steps :
      (lease : LeaseSpec) (old : Bool) (w : W)
      → lock_steps env k 1 (judged env k lease old) w
        ≡ answer (
            (if old
                then (env.api.delete k.lease_name >> return false)
                else return (not (is_held_by_other k lease)))
              w)
  unfolding lock_steps lock_step
  judged_steps lease true w = expired_steps w
  judged_steps lease false w = refl

  found_steps :
      (lease : LeaseSpec) (w : W)
      → lock_steps env k 2 (found lease) w
        ≡ answer (
            (lease_expired env k lease >>= λ old.
            if old
            then (env.api.delete k.lease_name >> return false)
            else return (not (is_held_by_other k lease)))
              w)
  unfolding lock_steps lock_step
  found_steps lease w =
      go_on_steps 1 (lease_expired env k lease w).0 (judged env k lease) _
        (lease_expired env k lease w).1
        (λ old. judged_steps lease old (lease_expired env k lease w).1)

  refused_steps : (w : W) → lock_steps env k 3 refused w ≡ answer (existing_lease env k w)
  unfolding lock_steps lock_step existing_lease
  refused_steps w =
      go_on_steps 2 (env.api.get k.lease_name w).0 found _ (env.api.get k.lease_name w).1
        (λ lease. found_steps lease (env.api.get k.lease_name w).1)

  -- The answer of a try with what is kept of the outside.
  abbrev pub answer_outside : Result Bool × LockWorld W → Phase × W
  answer_outside (r, lw) = (answered r, lw.outside)

  created_steps :
      (r : Result (Unit {0})) (lw : LockWorld W)
      → lock_steps env k 3 (created env k r) lw.outside
        ≡ answer_outside (and_then (caught r) (tried env k) lw)
  unfolding tried start_renewal
  created_steps (ok t) lw = steps-answered 3 (ok true) lw.outside
  created_steps (err e) lw = elim (Bool-cases (env.api.is_already_exists e)) [
    | inl there ↦ rw there (refused_steps lw.outside)
    | inr other ↦ rw other (steps-answered 3 (err e) lw.outside)
  ]
  created_steps panic lw = steps-answered 3 panic lw.outside
  created_steps unfinished lw = steps-answered 3 unfinished lw.outside

  stamped_steps :
      (r : Result ℕ) (lw : LockWorld W)
      → lock_steps env k 4 (go_on r stamped) lw.outside
        ≡ answer_outside (
            and_then r
              (λ time.
                attempt (on_outside (env.api.create k.lease_name (new_spec env k time)))
                >>= tried env k)
              lw)
  unfolding lock_steps lock_step
  stamped_steps (ok time) lw =
      let (r, w') = env.api.create k.lease_name (new_spec env k time) lw.outside in
      created_steps r (record lw { outside = w' })
  stamped_steps (err e) lw = refl
  stamped_steps panic lw = refl
  stamped_steps unfinished lw = refl

  -- Five steps of an agent alone, from the wish for the lock, answer what a try of `Lock` answers and
  -- leave the outside as it does.
  lock_steps_lem :
      (lw : LockWorld W)
      → lock_steps env k 5 wanting lw.outside
        ≡ (answered (try_lock env k lw).0, (try_lock env k lw).1.outside)
  unfolding lock_steps lock_step try_lock
  lock_steps_lem lw =
      let (r, w') = env.now lw.outside in stamped_steps r (record lw { outside = w' })

  unlooked_steps :
      (r : Result LeaseSpec) (lw : LockWorld W)
      → lock_steps env k 1 (looked env k r) lw.outside ≡ (
          let (u, lw') =
            and_then r
              (λ lease.
                if is_foreign k lease then return tt else on_outside (env.api.delete k.lease_name))
              lw in
          (left u, lw'.outside))
  unfolding lock_steps lock_step
  unlooked_steps (ok lease) lw = ground arith
  unlooked_steps (err e) lw = refl
  unlooked_steps panic lw = refl
  unlooked_steps unfinished lw = refl

  -- Two steps of an agent alone, from the wish to leave, end as `Unlock` and leave the outside as it
  -- does.
  unlock_steps_lem :
      (lw : LockWorld W)
      → lock_steps env k 2 leaving lw.outside
        ≡ (left (unlock env k lw).0, (unlock env k lw).1.outside)
  unfolding lock_steps lock_step unlock cancel_renewal
  unlock_steps_lem lw =
      let (r, w') = env.api.get k.lease_name lw.outside in
      rw cancelled-outside (unlooked_steps r (record (cancelled lw) { outside = w' }))

  -- The end of a tick.
  abbrev pub tick_end : Result Bool × W → RenewPhase × W
  tick_end (r, w) = (ticked r, w)

  -- Three steps of a goroutine of the renewal alone do what a tick of it does.
  renew_steps_lem : (w : W) → renew_steps env k 3 resting w ≡ tick_end (renew_tick env k w)
  unfolding renew_steps renew_step renew_tick
  renew_steps_lem w = ground arith

  -- An agent whose calls no other interrupts: five steps from the wish for the lock answer what a try
  -- of `Lock` answers, two from the wish to leave end as `Unlock`, three of the renewal do a tick;
  -- each leaves the outside as the function does.
  steps_lem :
      (lw : LockWorld W)
      → (lock_steps env k 5 wanting lw.outside
          ≡ (answered (try_lock env k lw).0, (try_lock env k lw).1.outside))
        × (lock_steps env k 2 leaving lw.outside
            ≡ (left (unlock env k lw).0, (unlock env k lw).1.outside))
        × (renew_steps env k 3 resting lw.outside
            ≡ (ticked (renew_tick env k lw.outside).0, (renew_tick env k lw.outside).1))
  steps_lem lw = (lock_steps_lem lw, unlock_steps_lem lw, renew_steps_lem lw.outside)

-- ===== src/Lease/Laws.antt =====
-- What `Lock`, `Unlock` and the renewal of internal/lease/lock.go do to the lease.
use kubeip.Base.{
  ℕ, Bool, true, false, not, some, List, [], ◌∷◌, ◌≡◌, refl, ◌⊎◌, inl, inr, arith, Result, ok, err,
  panic, unfinished, Action, Ran, >>=-Ran, attempt-Ran, if-Ran, return, ◌>>◌, if◌then◌else◌, any,
  nat_eq, filter, attempt,
}
use kubeip.Kube.{LeaseSpec}
use kubeip.Lease.{
  LeaseEnv, tried, LeaseLock, LockWorld, Backoff, lock_backoff, is_held_by_other, lease_expired,
  existing_lease, new_spec, try_lock, lock, start_renewal, cancelled, on_outside,
}

-- What is relied on of `wait.ExponentialBackoff`: it succeeds only when the condition, run as the last
-- thing, answered true.
pub record IsBackoff {W : Type 0} (env : LeaseEnv W) : Type 0 where
  pub ends_on_true :
      (b : Backoff) (condition : Action (LockWorld W) Bool) (w w' : LockWorld W)
      → Ran (env.exponential_backoff b condition) w tt w'
      → (v : LockWorld W) × Ran condition v true w'

not-true : (b : Bool) → not b ≡ true → b ≡ false
not-true true h = ground arith
not-true false h = refl

-- A call on the outside changes nothing else.
pub on_outside_lem :
    {W A : Type 0} (act : Action W A) (lw : LockWorld W) {r : Result A} {lw' : LockWorld W}
    → on_outside act lw ≡ (r, lw')
    → (act lw.outside ≡ (r, lw'.outside)) × (lw' ≡ record lw { outside = lw'.outside })
on_outside_lem act lw h = ground arith

without : (n : ℕ) (ms : List ℕ) → any (λ m. nat_eq m n) (filter (λ m. not (nat_eq m n)) ms) ≡ false
without n [] = refl
without n (m ∷ ms) = ground (arith, without n ms)

pub cancelled-outside : {W : Type 0} (v : LockWorld W) → (cancelled v).outside ≡ v.outside
unfolding cancelled
cancelled-outside v = ground arith

pub cancelled-renewing :
    {W : Type 0} (v : LockWorld W) (n : ℕ)
    → v.cancel_func ≡ some n
    → any (λ m. nat_eq m n) (cancelled v).renewing ≡ false
unfolding cancelled
cancelled-renewing v n c = rw c (without n v.renewing)

module _ {W : Type 0} (env : LeaseEnv W) (k : LeaseLock) where
  -- A lease of this holder was created at the time of the clock, and a renewal of it was started that
  -- `Unlock` will stop.
  abbrev pub CreatedLease : LockWorld W → LockWorld W → Type 0
  CreatedLease v w' =
      (time : ℕ) × (o : W) × Ran env.now v.outside time o
      × Ran (env.api.create k.lease_name (new_spec env k time)) o tt w'.outside
      × (w'.renewing ≡ v.started ∷ v.renewing)
      × (w'.cancel_func ≡ some v.started)

  -- A lease was found that is not expired and not another's; the renewals are as they were.
  abbrev pub FoundLease : LockWorld W → LockWorld W → Type 0
  FoundLease v w' =
      (lease : LeaseSpec) × (o o' : W) × Ran (env.api.get k.lease_name) o lease o'
      × Ran (lease_expired env k lease) o' false w'.outside
      × (is_held_by_other k lease ≡ false)
      × (w'.renewing ≡ v.renewing)
      × (w'.cancel_func ≡ v.cancel_func)

  not_expired :
      (lease : LeaseSpec) (expired : Bool) (o o2 : W)
      → Ran
          (if expired
            then (env.api.delete k.lease_name >> return false)
            else return (not (is_held_by_other k lease)))
          o
          true
          o2
      → (expired ≡ false) × (is_held_by_other k lease ≡ false) × (o ≡ o2)
  not_expired lease true o o2 h =
      let (t, o', gone, rest) = >>=-Ran (env.api.delete k.lease_name) _ o h in absurd (ground arith)
  not_expired lease false o o2 h = (refl, not-true _ (ground arith), ground arith)

  existing_lease-true :
      (o o2 : W)
      → Ran (existing_lease env k) o true o2
      → (lease : LeaseSpec) × (o' : W) × Ran (env.api.get k.lease_name) o lease o'
        × Ran (lease_expired env k lease) o' false o2
        × (is_held_by_other k lease ≡ false)
  unfolding existing_lease
  existing_lease-true o o2 h =
      let (lease, o', got, h1) = >>=-Ran (env.api.get k.lease_name) _ o h in
      let (expired, o'', read, h2) = >>=-Ran (lease_expired env k lease) _ o' h1 in
      let (fresh, mine, same) = not_expired lease expired o'' o2 h2 in
      (lease, o', got, rw (fresh, same) at read, mine)

  created_or_found :
      (v u u2 w' : LockWorld W) (time : ℕ) (r : Result (Unit {0}))
      → Ran env.now v.outside time u.outside
      → u ≡ record v { outside = u.outside }
      → env.api.create k.lease_name (new_spec env k time) u.outside ≡ (r, u2.outside)
      → u2 ≡ record u { outside = u2.outside }
      → Ran (tried env k r) u2 true w'
      → CreatedLease v w' ⊎ FoundLease v w'
  unfolding tried start_renewal
  created_or_found v u u2 w' time (ok t) n e c e2 h =
      inl (time, u.outside, n, ground arith, ground arith, ground arith)
  created_or_found v u u2 w' time (err x) n e c e2 h =
      elim (if-Ran (env.api.is_already_exists x) _ _ u2 h) [
        | inl (there, ran) ↦
            let (out, same) = on_outside_lem (existing_lease env k) u2 ran in
            let (lease, o', got, read, mine) = existing_lease-true u2.outside w'.outside out in
            inr (lease, u2.outside, o', got, read, mine, ground arith, ground arith)
        | inr (other, ran) ↦ absurd (ground arith)
      ]
  created_or_found v u u2 w' time panic n e c e2 h = absurd (ground arith)
  created_or_found v u u2 w' time unfinished n e c e2 h = absurd (ground arith)

  try_lock-true :
      (v w' : LockWorld W) → Ran (try_lock env k) v true w' → CreatedLease v w' ⊎ FoundLease v w'
  unfolding try_lock
  try_lock-true v w' h =
      let (time, u, told, h1) = >>=-Ran (on_outside env.now) _ v h in
      let (r, u2, seen, h2) =
        >>=-Ran (attempt (on_outside (env.api.create k.lease_name (new_spec env k time)))) _ u h1 in
      let (told_out, told_same) = on_outside_lem env.now v told in
      let (create_out, create_same) =
        on_outside_lem (env.api.create k.lease_name (new_spec env k time)) u
          (attempt-Ran (on_outside (env.api.create k.lease_name (new_spec env k time))) u seen) in
      created_or_found v u u2 w' time r told_out told_same create_out create_same h2

  -- `Lock` succeeds only when its last try created the lease, or found one that is neither expired
  -- nor another's.
  pub lock_acquires :
      IsBackoff env
      → (w w' : LockWorld W) → Ran (lock env k) w tt w'
      → (v : LockWorld W) × (CreatedLease v w' ⊎ FoundLease v w')
  unfolding lock
  lock_acquires b w w' h =
      let (v, last) = b.ends_on_true lock_backoff (try_lock env k) w w' h in
      (v, try_lock-true v w' last)

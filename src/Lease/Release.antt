-- ===== src/Lease/Release.antt =====
-- What `Unlock` and a tick of the renewal of internal/lease/lock.go do to the lease.
use kubeip.Base.{
  ℕ, Bool, true, false, Option, none, some, sym, ◌≡◌, refl, ◌⊎◌, inl, inr, arith, Error, Result, ok,
  err, panic, unfinished, Ran, >>=-Ran, attempt-Ran, if-Ran, return, any, nat_eq, attempt, ◌∙◌, ap,
  subst, crash, no_fuel, Bool-cases,
}
use kubeip.Kube.{LeaseSpec}
use kubeip.Lease.{
  LeaseEnv, LeaseLock, LockWorld, is_foreign, unlock, cancel_renewal, cancelled, on_outside,
  renew_tick,
}
use kubeip.Lease.Laws.{on_outside_lem, cancelled-outside, cancelled-renewing}

module _ {W : Type 0} (env : LeaseEnv W) (k : LeaseLock) where
  unlock-renewing : (v : LockWorld W) → (unlock env k v).1.renewing ≡ (cancelled v).renewing
  unfolding unlock cancel_renewal
  unlock-renewing v = ground arith

  unlock_stops :
      (v : LockWorld W) (n : ℕ)
      → v.cancel_func ≡ some n
      → any (λ m. nat_eq m n) (unlock env k v).1.renewing ≡ false
  unlock_stops v n c = rw unlock-renewing (cancelled-renewing v n c)

  -- The lease that `Unlock` read was another's and stays, or was the holder's own and was deleted as the
  -- last call.
  abbrev pub Unlocks : LockWorld W → LockWorld W → Type 0
  Unlocks v v' =
      (lease : LeaseSpec) × (o : W) × Ran (env.api.get k.lease_name) v.outside lease o
      × (((is_foreign k lease ≡ true) × (o ≡ v'.outside))
          ⊎ ((is_foreign k lease ≡ false) × Ran (env.api.delete k.lease_name) o tt v'.outside))

  Unlocks-by : (v v' : LockWorld W) → Ran (unlock env k) v tt v' → Unlocks v v'
  unfolding unlock cancel_renewal
  Unlocks-by v v' h =
      let c = cancelled v in
      let (lease, u, got, h1) = >>=-Ran (on_outside (env.api.get k.lease_name)) _ c h in
      let (read, same) = on_outside_lem (env.api.get k.lease_name) c got in
      (
        lease,
        u.outside,
        rw⁻¹ (cancelled-outside v) read,
        elim (if-Ran (is_foreign k lease) _ _ u h1) [
          | inl (foreign, h2) ↦ inl (foreign, ground arith)
          | inr (own, h2) ↦ inr (own, (on_outside_lem (env.api.delete k.lease_name) u h2).0)
        ],
      )

  -- The renewal that the lock knows of runs no longer, or it knows of none and all go on.
  abbrev pub Stops : LockWorld W → LockWorld W → Type 0
  Stops v v' =
      ((n : ℕ) × (v.cancel_func ≡ some n) × (any (λ m. nat_eq m n) v'.renewing ≡ false))
      ⊎ ((v.cancel_func ≡ none) × (v'.renewing ≡ v.renewing))

  Stops-by :
      (v v' : LockWorld W) (c : Option ℕ) → v.cancel_func ≡ c → (unlock env k v).1 ≡ v' → Stops v v'
  unfolding cancelled
  Stops-by v v' none none_known e =
      inr (none_known, ap (λ u. u.renewing) (sym e) ∙ unlock-renewing v ∙ rw none_known refl)
  Stops-by v v' (some n) known e =
      inl
        (n, known, subst (λ u. any (λ m. nat_eq m n) u.renewing ≡ false) e (unlock_stops v n known))

  -- A successful `Unlock`, whether the lease was made by this lock or found, read the lease: another's
  -- stays as it is, and the holder's own is deleted as the last call. The renewal that the lock knows of
  -- runs no longer; when it knows of none, the renewals are as they were.
  pub unlock-Unlocks : (v v' : LockWorld W) → Ran (unlock env k) v tt v' → Unlocks v v' × Stops v v'
  unlock-Unlocks v v' h = (Unlocks-by v v' h, Stops-by v v' v.cancel_func refl (ap (λ p. p.1) h))

  -- The tick has ended the renewal without writing, as the lease could not be read or is another's; or
  -- has written to the holder's own lease the time of renewal and nothing else, and goes on, also when
  -- the write failed.
  abbrev pub Ticks : Bool → W → W → Type 0
  Ticks b w w' =
      ((b ≡ false)
        × (((e : Error) × (env.api.get k.lease_name w ≡ (err e, w')))
            ⊎ ((lease : LeaseSpec) × Ran (env.api.get k.lease_name) w lease w'
                × (is_foreign k lease ≡ true))))
      ⊎ ((b ≡ true)
          × ((lease : LeaseSpec) × (time : ℕ) × (w1 w2 : W) × Ran (env.api.get k.lease_name) w lease
                w1
              × (is_foreign k lease ≡ false)
              × Ran env.now w1 time w2
              × ((env.api.update k.lease_name (record lease { renew_time = some time }) w2).1
                  ≡ w')))

  update-Ticks :
      (u : Result (Unit {0})) (b : Bool) (w w' : W)
      → Ran
          (elim u [
            | ok t ↦ return true
            | err e ↦ return true
            | panic ↦ crash
            | unfinished ↦ no_fuel
          ])
          w
          b
          w'
      → (b ≡ true) × (w ≡ w')
  update-Ticks (ok t) b w w' h = (ground arith, ground arith)
  update-Ticks (err e) b w w' h = (ground arith, ground arith)
  update-Ticks panic b w w' h = absurd (ground arith)
  update-Ticks unfinished b w w' h = absurd (ground arith)

  own-Ticks :
      (lease : LeaseSpec) (b : Bool) (w w1 w' : W)
      → Ran (env.api.get k.lease_name) w lease w1
      → is_foreign k lease ≡ false
      → Ran (renew_tick env k) w b w'
      → Ticks b w w'
  unfolding renew_tick
  own-Ticks lease b w w1 w' got own h =
      let (time, w2, told, h1) = >>=-Ran env.now _ w1 (rw (got, own) at h) in
      let written = env.api.update k.lease_name (record lease { renew_time = some time }) in
      let (u, w3, wrote, h2) = >>=-Ran (attempt written) _ w2 h1 in
      let (goes_on, same) = update-Ticks u b w3 w' h2 in
      inr (
        goes_on,
        (lease, time, w1, w2, got, own, told, ap (λ p. p.1) (attempt-Ran written w2 wrote) ∙ same),
      )

  read-Ticks :
      (r : Result LeaseSpec) (b : Bool) (w w1 w' : W)
      → env.api.get k.lease_name w ≡ (r, w1)
      → Ran (renew_tick env k) w b w'
      → Ticks b w w'
  unfolding renew_tick
  read-Ticks (ok lease) b w w1 w' got h = elim (Bool-cases (is_foreign k lease)) [
    | inl foreign ↦
        let h1 = rw (got, foreign) at h in
        let same : w1 ≡ w' = ground (arith, h1) in
        inl (ground (arith, h1), inr (lease, got ∙ ap (λ u. (ok lease, u)) same, foreign))
    | inr own ↦ own-Ticks lease b w w1 w' got own h
  ]
  read-Ticks (err e) b w w1 w' got h =
      let h1 = rw got at h in
      let same : w1 ≡ w' = ground (arith, h1) in
      inl (ground (arith, h1), inl (e, got ∙ ap (λ u. (err e, u)) same))
  read-Ticks panic b w w1 w' got h = absurd (ground (arith, rw got at h))
  read-Ticks unfinished b w w1 w' got h = absurd (ground (arith, rw got at h))

  -- A tick of the renewal that comes to an answer has ended it without writing, when the lease cannot
  -- be read or is another's; or it has written to the lease that it read, still this holder's, the
  -- time of renewal and nothing else, and goes on, also when the write failed.
  pub renew_tick-Ticks : (b : Bool) (w w' : W) → Ran (renew_tick env k) w b w' → Ticks b w w'
  renew_tick-Ticks b w w' h =
      read-Ticks (env.api.get k.lease_name w).0 b w (env.api.get k.lease_name w).1 w' refl h

-- ===== src/Lease.antt =====
-- internal/lease/lock.go: a lock of the whole cluster, made of a Kubernetes lease.
pub mod Laws
pub mod Release
pub mod Steps
pub mod Cluster
pub mod Progress
use kubeip.Base.{
  ℕ, ◌+◌, ◌-◌, ◌*◌, String, Bool, true, false, not, Option, none, some, List, [], ◌∷◌, filter,
  nat_eq, ltb, ◌==◌, Error, Result, ok, err, panic, unfinished, Action, return, fail, crash,
  no_fuel, attempt, ◌>>=◌, ◌>>◌, if◌then◌else◌,
}
use Prim.Native.Nat.{◌%◌, ◌^◌}
use kubeip.Kube.{LeaseSpec, LeaseApi}

pub record KubeLock (W : Type 0) : Type 0 where
  pub lock : Action W (Unit {0})
  pub unlock : Action W (Unit {0})

-- `wait.Backoff`: the first wait and the cap in seconds, the factor and the jitter in tenths.
pub record Backoff : Type 0 where
  pub duration : ℕ
  pub factor : ℕ
  pub jitter : ℕ
  pub steps : ℕ
  pub cap : ℕ

abbrev pub lock_backoff : Backoff
lock_backoff = record { duration = 1; factor = 15; jitter = 5; steps = 100; cap = 3600 }

-- The outside world with what the lock object keeps: the goroutines that renew the lease and are not
-- cancelled, by number, and the one that `cancelFunc` would cancel.
pub record LockWorld (W : Type 0) : Type 0 where
  pub outside : W
  pub started : ℕ
  pub renewing : List ℕ
  pub cancel_func : Option ℕ

-- The fields of a `kubeLeaseLock`, less its client and namespace.
pub record LeaseLock : Type 0 where
  pub lease_name : String
  pub holder_identity : String
  pub lease_duration : ℕ

-- What the lock uses of the outside: the API, the clock in microseconds, and
-- `wait.ExponentialBackoff`, which repeats a condition.
pub record LeaseEnv (W : Type 0) : Type 0 where
  pub api : LeaseApi W
  pub now : Action W ℕ
  pub exponential_backoff : Backoff → Action (LockWorld W) Bool → Action (LockWorld W) (Unit {0})

abbrev pub microseconds : ℕ
microseconds = 1000000

-- `int32(n)`, as the 32 bits.
abbrev pub int32_bits : ℕ → ℕ
int32_bits n = n % 2 ^ 32

abbrev pub on_outside : {W A : Type 0} → Action W A → Action (LockWorld W) A
on_outside act lw = let (r, w) = act lw.outside in (r, record lw { outside = w })

-- `ctx, k.cancelFunc = context.WithCancel(ctx); go k.renewLeasePeriodically(ctx)`. The function that
-- stood there before is lost, and its goroutine goes on.
unfoldable pub start_renewal : {W : Type 0} → Action (LockWorld W) (Unit {0})
start_renewal lw = (
  ok tt,
  record lw {
    started = lw.started + 1;
    renewing = lw.started ∷ lw.renewing;
    cancel_func = some lw.started;
  },
)

-- `if k.cancelFunc != nil { k.cancelFunc() }`: a second call does nothing more.
unfoldable pub cancelled : {W : Type 0} → LockWorld W → LockWorld W
cancelled lw = elim lw.cancel_func [
  | none ↦ lw
  | some n ↦ record lw { renewing = filter (λ m. not (nat_eq m n)) lw.renewing }
]

unfoldable pub cancel_renewal : {W : Type 0} → Action (LockWorld W) (Unit {0})
cancel_renewal lw = (ok tt, cancelled lw)

-- `HolderIdentity == nil || *HolderIdentity != k.holderIdentity`.
abbrev pub is_foreign : LeaseLock → LeaseSpec → Bool
is_foreign k lease = elim lease.holder_identity [
  | none ↦ true
  | some h ↦ not (h == k.holder_identity)
]

-- `HolderIdentity != nil && *HolderIdentity != k.holderIdentity`.
abbrev pub is_held_by_other : LeaseLock → LeaseSpec → Bool
is_held_by_other k lease = elim lease.holder_identity [
  | none ↦ false
  | some h ↦ not (h == k.holder_identity)
]

-- `time.Since(renewed) > leaseDuration`; a time still to come is since zero.
abbrev pub is_expired : LeaseLock → ℕ → ℕ → Bool
is_expired k time renewed = ltb (k.lease_duration * microseconds) (time - renewed)

module _ {W : Type 0} (env : LeaseEnv W) (k : LeaseLock) where
  -- `RenewTime != nil && time.Since(...) > ...`: the clock is read in the second half only.
  unfoldable pub lease_expired : LeaseSpec → Action W Bool
  lease_expired lease = elim lease.renew_time [
    | none ↦ return false
    | some renewed ↦ do time ← env.now; return (is_expired k time renewed)
  ]

  -- The branch of a lease that is there.
  unfoldable pub existing_lease : Action W Bool
  existing_lease = do
    lease ← env.api.get k.lease_name
    expired ← lease_expired lease
    if expired
        then (do env.api.delete k.lease_name; return false)
        else return (not (is_held_by_other k lease))

  -- What is created.
  abbrev pub new_spec : ℕ → LeaseSpec
  new_spec time = record {
    resource_version = 0;
    holder_identity = some k.holder_identity;
    lease_duration_seconds = int32_bits k.lease_duration;
    acquire_time = some time;
    renew_time = some time;
  }

  -- What follows the attempt to create the lease.
  unfoldable pub tried : Result (Unit {0}) → Action (LockWorld W) Bool
  tried (ok t) = start_renewal >> return true
  tried (err e) = if env.api.is_already_exists e then on_outside existing_lease else fail e
  tried panic = crash
  tried unfinished = no_fuel

  -- The condition that `Lock` repeats.
  unfoldable pub try_lock : Action (LockWorld W) Bool
  try_lock = do
    time ← on_outside env.now
    created ← attempt (on_outside (env.api.create k.lease_name (new_spec time)))
    tried created

  unfoldable pub lock : Action (LockWorld W) (Unit {0})
  lock = env.exponential_backoff lock_backoff try_lock

  unfoldable pub unlock : Action (LockWorld W) (Unit {0})
  unlock = do
    cancel_renewal
    lease ← on_outside (env.api.get k.lease_name)
    if is_foreign k lease then return tt else on_outside (env.api.delete k.lease_name)

  -- One tick of the renewal: whether it goes on. The error of the update is dropped.
  unfoldable pub renew_tick : Action W Bool
  renew_tick = do
    got ← attempt (env.api.get k.lease_name)
    elim got [
      | ok lease ↦ if is_foreign k lease then return false else do
        time ← env.now
        updated ← attempt (env.api.update k.lease_name (record lease { renew_time = some time }))
        elim updated [
          | ok t ↦ return true
          | err e ↦ return true
          | panic ↦ crash
          | unfinished ↦ no_fuel
        ]
      | err e ↦ return false
      | panic ↦ crash
      | unfinished ↦ no_fuel
    ]

  abbrev pub new_kube_lease_lock : KubeLock (LockWorld W)
  new_kube_lease_lock = record { lock = lock; unlock = unlock }

-- What the goroutine's `select` chooses.
pub data RenewEvent : Type 0 where
  tick done : RenewEvent

module _ {W : Type 0} (env : LeaseEnv W) (k : LeaseLock) where
  -- The loop over the events that come; true when it has ended.
  unfoldable pub renew_from : List RenewEvent → Action W Bool
  renew_from [] = return false
  renew_from (done ∷ events) = return true
  renew_from (tick ∷ events) = do
    goes_on ← renew_tick env k
    let rest = renew_from events
    if goes_on then rest else return true

  -- `time.NewTicker` panics on a period that is not positive.
  unfoldable pub renew_lease_periodically : List RenewEvent → Action W Bool
  renew_lease_periodically events =
      if nat_eq (k.lease_duration * 500) 0 then crash else renew_from events

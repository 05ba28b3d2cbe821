-- ===== src/Tests/Lease.antt =====
-- The lock over one lease and a clock that stands at twenty seconds.
use kubeip.Base.{
  ℕ, String, Bool, true, false, Option, none, some, [], ◌∷◌, ◌≡◌, refl, ◌⊎◌, arith, Error, message,
  Result, ok, err, panic, unfinished, Action,
}
use kubeip.Kube.{LeaseSpec, LeaseApi}
use kubeip.Lease.{
  LeaseEnv, LeaseLock, LockWorld, lease_expired, existing_lease, tried, try_lock, lock, unlock,
  cancelled, cancel_renewal, new_kube_lease_lock, start_renewal, renew_tick,
}
use kubeip.Lease.Laws.{IsBackoff, CreatedLease, FoundLease, lock_acquires}
use kubeip.Lease.Release.{Unlocks, Stops, unlock-Unlocks, Ticks, renew_tick-Ticks}
use kubeip.Types.{Node, gcp}
use kubeip.Config.{Config}
use kubeip.Address.Interface.{Assigner}
use kubeip.Agent.{locked_assign}
use kubeip.Agent.Guarded.{Unlocked, Guarded, locked_assign-Guarded}

abbrev Cluster : Type 0
Cluster = Option LeaseSpec

abbrev gone : Error
gone = message "not found"

abbrev create_lease : LeaseSpec → Action Cluster (Unit {0})
create_lease spec none = (ok tt, some spec)
create_lease spec (some lease) = (err (message "already exists"), some lease)

abbrev get_lease : Action Cluster LeaseSpec
get_lease none = (err gone, none)
get_lease (some lease) = (ok lease, some lease)

abbrev api : LeaseApi Cluster
api = record {
  create = λ name spec. create_lease spec;
  get = λ name. get_lease;
  update = λ name spec w. (ok tt, some spec);
  delete = λ name w. (ok tt, none);
  is_already_exists = λ e. true;
}

-- A backoff of one try.
abbrev pub once : {W : Type 0} → Result Bool → LockWorld W → Result (Unit {0}) × LockWorld W
once (ok true) v = (ok tt, v)
once (ok false) v = (err (message "timed out waiting for the condition"), v)
once (err e) v = (err e, v)
once panic v = (panic, v)
once unfinished v = (unfinished, v)

abbrev env : LeaseEnv Cluster
env = record {
  api = api;
  now = λ w. (ok 20000000, w);
  exponential_backoff = λ b condition w. let (r, v) = condition w in once r v;
}

pub once-true :
    {W : Type 0} (r : Result Bool) (v w' : LockWorld W)
    → once r v ≡ (ok tt, w')
    → (r ≡ ok true) × (v ≡ w')
once-true (ok true) v w' h = (refl, ground arith)
once-true (ok false) v w' h = absurd (ground arith)
once-true (err e) v w' h = absurd (ground arith)
once-true panic v w' h = absurd (ground arith)
once-true unfinished v w' h = absurd (ground arith)

pub paired :
    {W : Type 0} (p : Result Bool × LockWorld W) (w' : LockWorld W)
    → (p.0 ≡ ok true) × (p.1 ≡ w')
    → p ≡ (ok true, w')
paired p w' h = ground arith

env-IsBackoff : IsBackoff env
env-IsBackoff = record {
  ends_on_true = λ b condition w w' h.
      (w, paired (condition w) w' (once-true (condition w).0 (condition w).1 w' h));
}

abbrev mine : LeaseLock
mine = record { lease_name = "kubeip-lock"; holder_identity = "vm-1"; lease_duration = 5 }

abbrev spec_of : String → ℕ → LeaseSpec
spec_of holder time = record {
  resource_version = 0;
  holder_identity = some holder;
  lease_duration_seconds = 5;
  acquire_time = some time;
  renew_time = some time;
}

abbrev renewed_lease : LeaseSpec
renewed_lease = record (spec_of "vm-1" 16000000) { renew_time = some 20000000 }

abbrev cfg : Config
cfg = record {
  kube_config_path = "";
  node_name = "n";
  project = "";
  region = "";
  ipv6 = false;
  develop_mode = false;
  filter = [];
  order_by = "";
  retry_interval = 1;
  retry_attempts = 1;
  release_on_exit = true;
  lease_duration = 5;
  lease_namespace = "default";
  taint_key = "";
}

abbrev world : Cluster → LockWorld Cluster
world lease = record { outside = lease; started = 0; renewing = []; cancel_func = none }

abbrev locked_world : LockWorld Cluster
locked_world = record {
  outside = some (spec_of "vm-1" 20000000);
  started = 1;
  renewing = 0 ∷ [];
  cancel_func = some 0;
}

lock_acquires_example :
    (v : LockWorld Cluster) × (CreatedLease env mine v locked_world
      ⊎ FoundLease env mine v locked_world)
unfolding lock try_lock tried start_renewal
lock_acquires_example = lock_acquires env mine env-IsBackoff (world none) locked_world refl

-- Another's lease that was not renewed for longer than its duration is deleted.
expired_lease_is_deleted :
    try_lock env mine (world (some (spec_of "vm-2" 14000000))) ≡ (ok false, world none)
unfolding try_lock tried existing_lease lease_expired
expired_lease_is_deleted = refl

live_lease_is_left :
    try_lock env mine (world (some (spec_of "vm-2" 15000000)))
    ≡ (ok false, world (some (spec_of "vm-2" 15000000)))
unfolding try_lock tried existing_lease lease_expired
live_lease_is_left = refl

own_lease_is_not_renewed :
    try_lock env mine (world (some (spec_of "vm-1" 16000000)))
    ≡ (ok true, world (some (spec_of "vm-1" 16000000)))
unfolding try_lock tried existing_lease lease_expired
own_lease_is_not_renewed = refl

unlock-Unlocks_example :
    Unlocks env mine locked_world (record locked_world { outside = none; renewing = [] })
    × Stops env mine locked_world (record locked_world { outside = none; renewing = [] })
unfolding unlock cancel_renewal cancelled
unlock-Unlocks_example =
    unlock-Unlocks env mine locked_world (record locked_world { outside = none; renewing = [] })
      refl

renew_tick-Ticks_example : Ticks env mine true (some (spec_of "vm-1" 16000000)) (some renewed_lease)
unfolding renew_tick
renew_tick-Ticks_example =
    renew_tick-Ticks env mine true (some (spec_of "vm-1" 16000000)) (some renewed_lease) refl

abbrev node : Node String
node = record {
  name = "n";
  instance_id = "vm-1";
  cloud = gcp;
  pool = "p";
  region = "r";
  zone = "z";
  external_ips = [];
  internal_ips = [];
}

-- It has nothing to give.
abbrev empty : Assigner (LockWorld Cluster)
empty = record {
  assign = λ id zone filter order_by lw. (err (message "no available addresses"), lw);
  unassign = λ id zone lw. (ok tt, lw);
}

abbrev attempt : Result String × LockWorld Cluster
attempt = locked_assign (new_kube_lease_lock env mine) empty node cfg (world none)

locked_assign-Guarded_example :
    Unlocked env mine empty node cfg (world none) attempt.1
    ⊎ Guarded env mine empty node cfg attempt.0 (world none) attempt.1
locked_assign-Guarded_example =
    locked_assign-Guarded env mine empty node cfg env-IsBackoff attempt.0 (world none) attempt.1
      refl

-- The lease is made and deleted again, and the error is the assigner's.
attempt_lem : attempt ≡ (
  err (message "no available addresses"),
  record (world none) { started = 1; cancel_func = some 0 },
)
unfolding locked_assign lock try_lock tried start_renewal unlock cancel_renewal cancelled
attempt_lem = refl

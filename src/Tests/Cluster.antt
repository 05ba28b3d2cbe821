-- ===== src/Tests/Cluster.antt =====
-- Many agents over a store that keeps one lease, the revision and the clock.
use kubeip.Base.{
  ℕ, zero, suc, ◌+◌, String, true, false, Option, none, some, ◌≡◌, refl, sym, ◌∙◌, [], ◌⊎◌,
  Bool-cases, inl, inr, ap, arith, message, ok, err, Action, nat_eq, ◌≤◌, ◌<◌, if◌then◌else◌, Ran,
}
use kubeip.Kube.{LeaseSpec, LeaseApi}
use kubeip.Lease.{LeaseEnv, LockWorld, LeaseLock, new_spec, try_lock, unlock}
use kubeip.Lease.Steps.{idle, wanting, stamped, answered, ticked, lock_step}
use kubeip.Lease.Cluster.{
  IsLeaseStore, put, lock_of, System, Runs, here, next, turns, asks, lock_steps_on, Timely, Fresh,
  has_lock,
}
use kubeip.Lease.Cluster.Change.{Owns}
use kubeip.Lease.Cluster.Exclusion.{mutual_exclusion}
use kubeip.Lease.Progress.{Taken, expired_lease_yields, released_lease_yields}
use kubeip.Lease.Cluster.Race.{IsAnswering, Paced, TimePasses, first_wait, OwnsNew, expired_race}

record Store : Type 0 where
  lease : Option LeaseSpec
  version : ℕ
  time : ℕ

abbrev stored : Store → Option LeaseSpec
stored w = w.lease

abbrev revision : Store → ℕ
revision w = w.version

abbrev clock : Store → ℕ
clock w = w.time

-- Writes a lease under a new version.
abbrev written : LeaseSpec → Store → Store
written spec w = record {
  lease = some (record spec { resource_version = w.version + 1 });
  version = w.version + 1;
  time = w.time;
}

abbrev create_at : LeaseSpec → Option LeaseSpec → Action Store (Unit {0})
create_at spec none w = (ok tt, written spec w)
create_at spec (some l) w = (err (message "already exists"), w)

abbrev get_at : Option LeaseSpec → Action Store LeaseSpec
get_at none w = (err (message "not found"), w)
get_at (some l) w = (ok l, w)

abbrev update_at : LeaseSpec → Option LeaseSpec → Action Store (Unit {0})
update_at lease none w = (err (message "not found"), w)
update_at lease (some l) w =
    if nat_eq l.resource_version lease.resource_version
    then (ok tt, written lease w)
    else (err (message "conflict"), w)

abbrev api : LeaseApi Store
api = record {
  create = λ name spec w. create_at spec w.lease w;
  get = λ name w. get_at w.lease w;
  update = λ name lease w. update_at lease w.lease w;
  delete = λ name w. (ok tt, record w { lease = none });
  is_already_exists = λ e. true;
}

abbrev env : LeaseEnv Store
env = record {
  api = api;
  now = λ w. (ok w.time, w);
  exponential_backoff = λ b condition w. (err (message "timed out"), w);
}

get_at_lem :
    (o : Option LeaseSpec) (w w' : Store) (l : LeaseSpec) → get_at o w ≡ (ok l, w') → o ≡ some l
get_at_lem none w w' l h = absurd (ground arith)
get_at_lem (some l') w w' l h = ground arith

create_at_lem :
    (spec : LeaseSpec) (o : Option LeaseSpec) (w : Store)
    → o ≡ w.lease
    → (((create_at spec o w).1.lease ≡ w.lease)
        × (w.version ≤ (create_at spec o w).1.version)
        × ¬ ((create_at spec o w).0 ≡ ok tt))
      ⊎ ((o ≡ none)
          × ((create_at spec o w).1.lease
              ≡ some (record spec { resource_version = (create_at spec o w).1.version }))
          × (w.version < (create_at spec o w).1.version))
create_at_lem spec none w e = inr (refl, refl, omega arith)
create_at_lem spec (some l) w e = inl (refl, omega arith, λ bad. ground arith)

update_at_lem :
    (lease : LeaseSpec) (o : Option LeaseSpec) (w : Store)
    → (((update_at lease o w).1.lease ≡ w.lease) × (w.version ≤ (update_at lease o w).1.version))
      ⊎ ((old : LeaseSpec) × (o ≡ some old)
          × (old.resource_version ≡ lease.resource_version)
          × ((update_at lease o w).1.lease
              ≡ some (record lease { resource_version = (update_at lease o w).1.version }))
          × (w.version < (update_at lease o w).1.version))
update_at_lem lease none w = inl (refl, omega arith)
update_at_lem lease (some l) w =
    elim (Bool-cases (nat_eq l.resource_version lease.resource_version)) [
      | inl same ↦ inr (l, refl, ground arith, rw same refl, rw same (omega arith))
      | inr other ↦ inl (rw other refl, rw other (omega arith))
    ]

store_laws : IsLeaseStore stored revision env "kubeip-lock"
store_laws = record {
  now_keeps = λ w. (refl, omega arith);
  get_keeps = λ w. get_keeps w.lease w;
  get_reads = λ w w' l h. get_at_lem w.lease w w' l h;
  create_lem = λ spec w. create_lem spec w;
  update_lem = λ lease w. update_at_lem lease w.lease w;
  delete_lem = λ w. inr (refl, omega arith);
}
  where
    get_keeps :
        (o : Option LeaseSpec) (w : Store)
        → ((get_at o w).1.lease ≡ w.lease) × (w.version ≤ (get_at o w).1.version)
    get_keeps none w = (refl, omega arith)
    get_keeps (some l) w = (refl, omega arith)

    create_lem :
        (spec : LeaseSpec) (w : Store)
        → ((((create_at spec w.lease w).1.lease ≡ w.lease)
              × (w.version ≤ (create_at spec w.lease w).1.version))
            × ¬ ((create_at spec w.lease w).0 ≡ ok tt))
          ⊎ ((w.lease ≡ none)
              × ((create_at spec w.lease w).1.lease
                  ≡ some (record spec { resource_version = (create_at spec w.lease w).1.version }))
              × (w.version < (create_at spec w.lease w).1.version))
    create_lem spec w = elim (create_at_lem spec w.lease w refl) [
      | inl (same, grows, failed) ↦ inl ((same, grows), failed)
      | inr made ↦ inr made
    ]

answering : IsAnswering stored revision clock env "kubeip-lock"
answering = record {
  now_ok = λ w. refl;
  get_ok = λ w l there. rw there refl;
  create_ok = λ spec w free. (written spec w, rw free refl, refl, refl);
  create_refused = λ spec w l there. (message "already exists", rw there refl, refl);
  delete_ok = λ w l there. (record w { lease = none }, refl, refl, refl);
}

-- Agent `n` has the name of `n` letters.
holder : ℕ → String
holder zero = String.[]
holder (suc n) = String.◌∷◌ "a" (holder n)

abbrev letters : String → ℕ
letters String.[] = 0
letters (String.◌∷◌ c t) = suc (letters t)

letters-holder : (n : ℕ) → letters (holder n) ≡ n
unfolding holder
letters-holder zero = refl
letters-holder (suc n) = ap suc (letters-holder n)

holder_distinct : (i j : ℕ) → holder i ≡ holder j → i ≡ j
holder_distinct i j h = sym (letters-holder i) ∙ ap letters h ∙ letters-holder j

abbrev five : ℕ → ℕ
five i = 5

abbrev same : ℕ → ℕ
same n = n

abbrev start_at : Option LeaseSpec → System Store
start_at lease = record {
  outside = record { lease = lease; version = 3; time = 20000000 };
  agents = λ i. idle;
  renewals = λ n. ticked (ok false);
}

-- Agent 0 asks, reads the clock and creates the lease.
abbrev asked : System Store
asked = record (start_at none) { agents = put (λ i. idle) 0 wanting }

abbrev told : System Store
told = record asked { agents = put asked.agents 0 (stamped 20000000) }

abbrev locked : System Store
locked = record told {
  outside =
      written (new_spec env (lock_of env "kubeip-lock" holder five same 0) 20000000) told.outside;
  agents = put told.agents 0 (answered (ok true));
}

Timely-locked : Timely locked
Timely-locked i = ground arith

to_locked : Runs env "kubeip-lock" holder five same stored revision Timely (start_at none) locked
unfolding lock_step
to_locked =
    next
      (next (next here (turns 0 wanting asks) (λ i. ground arith)) (lock_steps_on 0)
        (λ i. ground arith))
      (lock_steps_on 0) Timely-locked

Fresh-start_at : Fresh stored revision (start_at none)
Fresh-start_at = (λ i. refl, λ n. refl, λ lease there. absurd (ground arith))

mutual_exclusion_example :
    Owns stored revision (holder 0) locked.outside
    × ((j : ℕ) → has_lock (locked.agents j) ≡ true → 0 ≡ j)
mutual_exclusion_example =
    mutual_exclusion stored revision env "kubeip-lock" store_laws holder five same holder_distinct
      (start_at none) locked Fresh-start_at to_locked 0 refl

-- Five seconds and more since the last renewal.
abbrev old_lease : LeaseSpec
old_lease = record {
  resource_version = 2;
  holder_identity = some "aaa";
  lease_duration_seconds = 5;
  acquire_time = some 1000000;
  renew_time = some 14000000;
}

second_passes : TimePasses stored revision clock env "kubeip-lock"
second_passes w = (record w { time = w.time + first_wait }, refl, refl)

expired_race_example :
    (t u : System Store) × Paced stored revision clock env "kubeip-lock" answering holder five same
      (start_at (some old_lease))
      t
    × (has_lock (t.agents 0) ≡ true)
    × OwnsNew stored revision clock env "kubeip-lock" answering holder five same 0 t.outside
    × (t.outside.time ≡ 21000000)
    × Paced stored revision clock env "kubeip-lock" answering holder five same t u
    × (has_lock (u.agents 0) ≡ true)
    × (has_lock (u.agents 1) ≡ true)
    × OwnsNew stored revision clock env "kubeip-lock" answering holder five same 1 u.outside
    × (u.outside.time ≡ 22000000)
expired_race_example =
    expired_race stored revision clock env "kubeip-lock" answering holder five same second_passes
      (start_at (some old_lease)) 0 1 old_lease 14000000 refl refl refl refl refl refl refl

abbrev lock : LeaseLock
lock = record { lease_name = "kubeip-lock"; holder_identity = "vm-1"; lease_duration = 5 }

abbrev alone : LockWorld Store
alone = record { outside = (start_at none).outside; started = 0; renewing = []; cancel_func = none }

abbrev lock_2 : LeaseLock
lock_2 = record lock { holder_identity = "vm-2" }

abbrev with_lease : LeaseSpec → LockWorld Store
with_lease lease = record alone { outside = (start_at (some lease)).outside }

expired_lease_yields_example :
    (v' : LockWorld Store) × Ran (try_lock env lock) (with_lease old_lease) false v'
    × Taken stored revision clock env lock v'
expired_lease_yields_example =
    expired_lease_yields stored revision clock env lock answering (with_lease old_lease) old_lease
      14000000 refl refl refl

abbrev held_lease : LeaseSpec
held_lease = record old_lease { holder_identity = some "vm-2" }

released_lease_yields_example :
    (v' : LockWorld Store) × Ran (unlock env lock_2) (with_lease held_lease) tt v'
    × ((u : LockWorld Store) → u.outside ≡ v'.outside → Taken stored revision clock env lock u)
released_lease_yields_example =
    released_lease_yields stored revision clock env lock_2 lock answering answering
      (with_lease held_lease) held_lease refl refl

-- ===== src/Lease/Cluster.antt =====
-- Many agents on one lease of internal/lease/lock.go, their calls interleaved in any order, and the
-- store that keeps the lease, of which only documented behaviour is used.
pub mod Change
pub mod Invariant
pub mod Exclusion
pub mod Race
use kubeip.Base.{
  ℕ, String, Bool, true, false, Option, none, some, ◌≡◌, ◌⊎◌, Result, ok, err, panic, unfinished,
  Ran, nat_eq, ◌≤◌, ◌<◌, if◌then◌else◌,
}
use kubeip.Kube.{LeaseSpec, LeaseApi}
use kubeip.Lease.{LeaseEnv, LeaseLock}
use kubeip.Lease.Steps.{
  Phase, idle, wanting, refused, expired, leaving, releasing, stamped, found, answered, left,
  RenewPhase, resting, ticked, lock_step, renew_step,
}

module _ {W : Type 0} (stored : W → Option LeaseSpec) (revision : W → ℕ) where
  -- The lease stays as it is; the revision of the store never falls.
  abbrev pub Same : W → W → Type 0
  Same w w' = (stored w' ≡ stored w) × (revision w ≤ revision w')

  -- What is relied on of the API for leases of one name. A call that fails may have had its effect.
  -- `Create` makes a lease only where none is; what is written gets a new revision of the store as its
  -- resource version; `Update` writes only over the version that was read.
  pub record IsLeaseStore (env : LeaseEnv W) (name : String) : Type 0 where
    pub now_keeps : (w : W) → Same w (env.now w).1
    pub get_keeps : (w : W) → Same w (env.api.get name w).1
    pub get_reads :
        (w w' : W) (lease : LeaseSpec) → env.api.get name w ≡ (ok lease, w') → stored w ≡ some lease
    pub create_lem :
        (spec : LeaseSpec) (w : W)
        → (Same w (env.api.create name spec w).1 × ¬ ((env.api.create name spec w).0 ≡ ok tt))
          ⊎ ((stored w ≡ none)
              × (stored (env.api.create name spec w).1
                  ≡ some
                      (record spec { resource_version = revision (env.api.create name spec w).1 }))
              × (revision w < revision (env.api.create name spec w).1))
    pub update_lem :
        (lease : LeaseSpec) (w : W)
        → Same w (env.api.update name lease w).1
          ⊎ ((old : LeaseSpec) × (stored w ≡ some old)
              × (old.resource_version ≡ lease.resource_version)
              × (stored (env.api.update name lease w).1
                  ≡ some (record lease {
                    resource_version = revision (env.api.update name lease w).1;
                  }))
              × (revision w < revision (env.api.update name lease w).1))
    pub delete_lem :
        (w : W)
        → Same w (env.api.delete name w).1
          ⊎ ((stored (env.api.delete name w).1 ≡ none)
              × (revision w ≤ revision (env.api.delete name w).1))

-- A family with one value changed.
abbrev pub put : {A : Type 0} → (ℕ → A) → ℕ → A → ℕ → A
put f i a j = if nat_eq i j then a else f j

-- The agents, numbered, and the goroutines of their renewals, which have numbers of their own.
pub record System (W : Type 0) : Type 0 where
  pub outside : W
  pub agents : ℕ → Phase
  pub renewals : ℕ → RenewPhase

-- What an agent does of itself: it asks for the lock, tries again after a try that answered false,
-- at any time, sooner too than the program, which waits, leaves when it has the lock, or stops anywhere,
-- as when the process ends.
pub data Turn : Phase → Phase → Type 0 where
  asks : Turn idle wanting
  again : Turn (answered (ok false)) wanting
  leaves : Turn (answered (ok true)) leaving
  stops : {p : Phase} → Turn p idle

module _ {W : Type 0} (env : LeaseEnv W) (name : String) (holder : ℕ → String)
    (duration owner : ℕ → ℕ) where
  -- The lock object of an agent.
  abbrev pub lock_of : ℕ → LeaseLock
  lock_of i = record { lease_name = name; holder_identity = holder i; lease_duration = duration i }

  abbrev pub after_lock_step : System W → ℕ → Phase × W → System W
  after_lock_step s i (p, w) = record s { outside = w; agents = put s.agents i p }

  abbrev pub after_renew_step : System W → ℕ → RenewPhase × W → System W
  after_renew_step s n (p, w) = record s { outside = w; renewals = put s.renewals n p }

  -- One call of one agent or of one goroutine, a turn, a tick that begins, or time that passes.
  pub data Step (stored : W → Option LeaseSpec) (revision : W → ℕ) (s : System W)
      : System W → Type 0 where
    lock_steps_on :
        (i : ℕ)
        → Step stored revision s
            (after_lock_step s i (lock_step env (lock_of i) (s.agents i) s.outside))
    turns :
        (i : ℕ) (p : Phase)
        → Turn (s.agents i) p
        → Step stored revision s (record s { agents = put s.agents i p })
    renewal_steps_on :
        (n : ℕ)
        → Step stored revision s
            (after_renew_step s n (renew_step env (lock_of (owner n)) (s.renewals n) s.outside))
    renewal_starts :
        (n : ℕ) → Step stored revision s (record s { renewals = put s.renewals n resting })
    passes :
        (w : W)
        → Same stored revision s.outside w
        → Step stored revision s (record s { outside = w })

  -- Steps one after the other, each into a state that satisfies `P`.
  pub data Runs (stored : W → Option LeaseSpec) (revision : W → ℕ) (P : System W → Type 0)
      (s : System W) : System W → Type 0 where
    here : Runs stored revision P s s
    next :
        {t u : System W}
        → Runs stored revision P s t
        → Step stored revision t u
        → P u
        → Runs stored revision P s u

-- The last try has given the lock, and the agent has not begun to leave.
abbrev pub has_lock : Phase → Bool
has_lock (answered (ok b)) = b
has_lock (answered (err e)) = false
has_lock (answered panic) = false
has_lock (answered unfinished) = false
has_lock idle = false
has_lock wanting = false
has_lock refused = false
has_lock expired = false
has_lock leaving = false
has_lock releasing = false
has_lock (stamped t) = false
has_lock (found l) = false
has_lock (left r) = false

abbrev pub sees_expired : Phase → Bool
sees_expired expired = true
sees_expired (answered r) = false
sees_expired idle = false
sees_expired wanting = false
sees_expired refused = false
sees_expired leaving = false
sees_expired releasing = false
sees_expired (stamped t) = false
sees_expired (found l) = false
sees_expired (left r) = false

-- No agent has found the lease expired.
abbrev pub Timely : {W : Type 0} → System W → Type 0
Timely s = (i : ℕ) → sees_expired (s.agents i) ≡ false

-- The agents are outside the lock, no renewal runs, and a lease that is there names a holder and has
-- a version that the store has given.
abbrev pub Fresh : {W : Type 0} → (W → Option LeaseSpec) → (W → ℕ) → System W → Type 0
Fresh stored revision s =
    ((i : ℕ) → s.agents i ≡ idle)
    × ((n : ℕ) → s.renewals n ≡ ticked (ok false))
    × ((lease : LeaseSpec)
        → stored s.outside ≡ some lease
        → ¬ (lease.holder_identity ≡ none) × (lease.resource_version ≤ revision s.outside))

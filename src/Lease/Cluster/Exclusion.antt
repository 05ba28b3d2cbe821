-- ===== src/Lease/Cluster/Exclusion.antt =====
-- No two agents have the lock at once, as long as none of them finds the lease expired.
use kubeip.Base.{
  ℕ, String, true, false, Option, ◌≡◌, refl, subst, inl, inr, arith, ok, err, panic, unfinished,
  nat_eq, Bool-cases,
}
use kubeip.Kube.{LeaseSpec}
use kubeip.Lease.{LeaseEnv}
use kubeip.Lease.Steps.{
  Phase, idle, wanting, refused, expired, leaving, releasing, stamped, found, answered, left,
  RenewPhase, resting,
}
use kubeip.Lease.Cluster.{
  IsLeaseStore, put, System, Turn, asks, again, leaves, stops, Step, lock_steps_on, turns,
  renewal_steps_on, renewal_starts, passes, Runs, here, next, has_lock, Timely, Fresh,
}
use kubeip.Lease.Cluster.Change.{
  Owns, Owns-unique, IsSound, IsSound-Change, IsSound-Renewed, Owns-Change, Owns-Renewed,
  Kept-Change, Kept-Renewed, Change, Renewed,
}
use kubeip.Lease.Cluster.Invariant.Agent.{Sound, Sound-mono, lock_step-Sound}
use kubeip.Lease.Cluster.Invariant.Renewal.{RenewSound, RenewSound-mono, renew_step-RenewSound}

nat_eq_sound : (i j : ℕ) → nat_eq i j ≡ true → i ≡ j
nat_eq_sound i j e = ground arith

nat_eq_refl : (i : ℕ) → nat_eq i i ≡ true
nat_eq_refl i = ground arith

module _ {W : Type 0} (stored : W → Option LeaseSpec) (revision : W → ℕ) (env : LeaseEnv W)
    (name : String) (laws : IsLeaseStore stored revision env name) (holder : ℕ → String)
    (duration owner : ℕ → ℕ) where
  -- The lease is sound, and so is every agent and every renewal where it stands.
  pub record Inv (s : System W) : Type 0 where
    pub lease_sound : IsSound stored revision s.outside
    pub agents_sound : (i : ℕ) → Sound stored revision (holder i) (s.agents i) s.outside
    pub renewals_sound :
        (n : ℕ) → RenewSound stored revision (holder (owner n)) (s.renewals n) s.outside

  Fresh-Inv : (s : System W) → Fresh stored revision s → Inv s
  Fresh-Inv s (out, none_runs, sound) = record {
    lease_sound = sound;
    agents_sound = λ i. rw (out i) tt;
    renewals_sound = λ n. rw (none_runs n) tt;
  }

  -- A family of agents in which one has moved.
  put-Sound :
      (agents : ℕ → Phase) (i : ℕ) (p : Phase) (w : W)
      → Sound stored revision (holder i) p w
      → ((j : ℕ) → nat_eq i j ≡ false → Sound stored revision (holder j) (agents j) w)
      → (j : ℕ) → Sound stored revision (holder j) (put agents i p j) w
  put-Sound agents i p w s rest j = elim (Bool-cases (nat_eq i j)) [
    | inl same ↦
        rw same (subst (λ x. Sound stored revision (holder x) p w) (nat_eq_sound i j same) s)
    | inr other ↦ rw other (rest j other)
  ]

  put-RenewSound :
      (renewals : ℕ → RenewPhase) (n : ℕ) (p : RenewPhase) (w : W)
      → RenewSound stored revision (holder (owner n)) p w
      → ((m : ℕ) → RenewSound stored revision (holder (owner m)) (renewals m) w)
      → (m : ℕ) → RenewSound stored revision (holder (owner m)) (put renewals n p m) w
  put-RenewSound renewals n p w s rest m = elim (Bool-cases (nat_eq n m)) [
    | inl same ↦
        rw same
          (subst (λ x. RenewSound stored revision (holder (owner x)) p w) (nat_eq_sound n m same) s)
    | inr other ↦ rw other (rest m)
  ]

  turned : (h : String) (p q : Phase) (w : W) → Turn p q → Sound stored revision h q w
  turned h p q w asks = tt
  turned h p q w again = tt
  turned h p q w leaves = tt
  turned h p q w stops = tt

  module _ (distinct : (i j : ℕ) → holder i ≡ holder j → i ≡ j) where
    others : (i j : ℕ) → nat_eq i j ≡ false → ¬ (holder i ≡ holder j)
    others i j other same = absurd (ground (arith, other, distinct i j same))

    lock_steps_on-Inv :
        (s : System W) (i : ℕ) (w : W) (p : Phase)
        → Inv s
        → Change stored revision (holder i) s.outside w
        → Sound stored revision (holder i) p w
        → Inv (record s { outside = w; agents = put s.agents i p })
    lock_steps_on-Inv s i w p inv change sound = record {
      lease_sound = IsSound-Change stored revision (holder i) s.outside w inv.lease_sound change;
      agents_sound = put-Sound s.agents i p w sound (λ j other.
          Sound-mono stored revision (holder j) (s.agents j) s.outside w
            (λ own.
              Owns-Change stored revision (holder i) (holder j) s.outside w (others i j other) own
                change)
            (inv.agents_sound j));
      renewals_sound = λ n.
          RenewSound-mono stored revision (holder (owner n)) (s.renewals n) s.outside w
            (λ lease kept.
              Kept-Change stored revision (holder i) (holder (owner n)) lease s.outside w kept
                change)
            (inv.renewals_sound n);
    }

    renewal_steps_on-Inv :
        (s : System W) (n : ℕ) (w : W) (p : RenewPhase)
        → Inv s
        → Renewed stored revision (holder (owner n)) s.outside w
        → RenewSound stored revision (holder (owner n)) p w
        → Inv (record s { outside = w; renewals = put s.renewals n p })
    renewal_steps_on-Inv s n w p inv change sound = record {
      lease_sound =
          IsSound-Renewed stored revision (holder (owner n)) s.outside w inv.lease_sound change;
      agents_sound = λ j.
          Sound-mono stored revision (holder j) (s.agents j) s.outside w
            (λ own.
              Owns-Renewed stored revision (holder (owner n)) (holder j) s.outside w own change)
            (inv.agents_sound j);
      renewals_sound = put-RenewSound s.renewals n p w sound (λ m.
          RenewSound-mono stored revision (holder (owner m)) (s.renewals m) s.outside w
            (λ lease kept.
              Kept-Renewed stored revision (holder (owner n)) (holder (owner m)) lease s.outside w
                kept change)
            (inv.renewals_sound m));
    }

    Step-Inv :
        (s t : System W)
        → Step env name holder duration owner stored revision s t
        → Timely s
        → Inv s
        → Inv t
    Step-Inv s t (lock_steps_on i) timely inv =
        let (change, sound) =
          lock_step-Sound stored revision env name laws (holder i) (duration i) (s.agents i)
            s.outside inv.lease_sound (timely i) (inv.agents_sound i) in
        lock_steps_on-Inv s i _ _ inv change sound
    Step-Inv s t (turns i p turn) timely inv = record {
      lease_sound = inv.lease_sound;
      agents_sound =
          put-Sound s.agents i p s.outside (turned (holder i) (s.agents i) p s.outside turn)
            (λ j other. inv.agents_sound j);
      renewals_sound = inv.renewals_sound;
    }
    Step-Inv s t (renewal_steps_on n) timely inv =
        let (change, sound) =
          renew_step-RenewSound stored revision env name laws (holder (owner n))
            (duration (owner n)) (s.renewals n) s.outside inv.lease_sound (inv.renewals_sound n) in
        renewal_steps_on-Inv s n _ _ inv change sound
    Step-Inv s t (renewal_starts n) timely inv = record {
      lease_sound = inv.lease_sound;
      agents_sound = inv.agents_sound;
      renewals_sound = put-RenewSound s.renewals n resting s.outside tt inv.renewals_sound;
    }
    Step-Inv s t (passes w same) timely inv = record {
      lease_sound = IsSound-Renewed stored revision "" s.outside w inv.lease_sound (inl same);
      agents_sound = λ j.
          Sound-mono stored revision (holder j) (s.agents j) s.outside w
            (λ own. Owns-Renewed stored revision "" (holder j) s.outside w own (inl same))
            (inv.agents_sound j);
      renewals_sound = λ m.
          RenewSound-mono stored revision (holder (owner m)) (s.renewals m) s.outside w
            (λ lease kept.
              Kept-Renewed stored revision "" (holder (owner m)) lease s.outside w kept (inl same))
            (inv.renewals_sound m);
    }

    Fresh-Timely : (s : System W) → Fresh stored revision s → Timely s
    Fresh-Timely s (out, none_runs, sound) i = rw (out i) refl

    Runs-Inv :
        (s t : System W)
        → Runs env name holder duration owner stored revision Timely s t
        → Fresh stored revision s
        → Timely t × Inv t
    Runs-Inv s t here fresh = (Fresh-Timely s fresh, Fresh-Inv s fresh)
    Runs-Inv s t (next {t = u} runs step timely) fresh =
        let (before, inv) = Runs-Inv s u runs fresh in (timely, Step-Inv u t step before inv)

    holds_lease :
        (h : String) (p : Phase) (w : W)
        → has_lock p ≡ true
        → Sound stored revision h p w
        → Owns stored revision h w
    holds_lease h (answered (ok true)) w e s = s
    holds_lease h (answered (ok false)) w e s = absurd (ground arith)
    holds_lease h (answered (err x)) w e s = absurd (ground arith)
    holds_lease h (answered panic) w e s = absurd (ground arith)
    holds_lease h (answered unfinished) w e s = absurd (ground arith)
    holds_lease h idle w e s = absurd (ground arith)
    holds_lease h wanting w e s = absurd (ground arith)
    holds_lease h refused w e s = absurd (ground arith)
    holds_lease h expired w e s = absurd (ground arith)
    holds_lease h leaving w e s = absurd (ground arith)
    holds_lease h releasing w e s = absurd (ground arith)
    holds_lease h (stamped t) w e s = absurd (ground arith)
    holds_lease h (found l) w e s = absurd (ground arith)
    holds_lease h (left r) w e s = absurd (ground arith)

    -- Agents with different identities, interleaved in any order with their renewals, from a state in
    -- which none is in the lock: as long as none finds the lease expired, the lease names each agent
    -- that has the lock, and no two agents have it at once.
    pub mutual_exclusion :
        (s t : System W)
        → Fresh stored revision s
        → Runs env name holder duration owner stored revision Timely s t
        → (i : ℕ) → has_lock (t.agents i) ≡ true
        → Owns stored revision (holder i) t.outside
          × ((j : ℕ) → has_lock (t.agents j) ≡ true → i ≡ j)
    mutual_exclusion s t fresh runs i held =
        let (timely, inv) = Runs-Inv s t runs fresh in
        let own = holds_lease (holder i) (t.agents i) t.outside held (inv.agents_sound i) in
        (
          own,
          λ j also. distinct i j (
              Owns-unique stored revision (holder i) (holder j) t.outside own
                (holds_lease (holder j) (t.agents j) t.outside also (inv.agents_sound j))),
        )

-- ===== src/Lease/Cluster/Race.antt =====
-- Two agents that find a lease expired at the same time: the second deletes the lease that the first
-- has just made.
use kubeip.Base.{
  ℕ, ◌+◌, ◌*◌, ◌≤◌, String, true, false, Option, none, some, ◌≡◌, refl, sym, ap, subst, ◌∙◌, arith,
  Error, ok, err, nat_eq,
}
use kubeip.Kube.{LeaseSpec}
use kubeip.Lease.{LeaseEnv, lock_backoff, microseconds, is_expired, lease_expired, new_spec}
use kubeip.Lease.Steps.{Phase, idle, wanting, refused, expired, stamped, found, answered, lock_step}
use kubeip.Lease.Cluster.{put, System, after_lock_step, has_lock, lock_of}

-- The least time between the first two tries of `Lock`.
abbrev pub first_wait : ℕ
first_wait = lock_backoff.duration * microseconds

module _ {W : Type 0} (stored : W → Option LeaseSpec) (revision clock : W → ℕ) (env : LeaseEnv W)
    (name : String) where
  -- A store whose calls do not fail, and a clock that stands while they are made.
  pub record IsAnswering : Type 0 where
    pub now_ok : (w : W) → env.now w ≡ (ok (clock w), w)
    pub get_ok : (w : W) (l : LeaseSpec) → stored w ≡ some l → env.api.get name w ≡ (ok l, w)
    pub create_ok :
        (spec : LeaseSpec) (w : W)
        → stored w ≡ none
        → (w' : W) × (env.api.create name spec w ≡ (ok tt, w'))
          × (stored w' ≡ some (record spec { resource_version = revision w' }))
          × (clock w' ≡ clock w)
    pub create_refused :
        (spec : LeaseSpec) (w : W) (l : LeaseSpec)
        → stored w ≡ some l
        → (e : Error) × (env.api.create name spec w ≡ (err e, w))
          × (env.api.is_already_exists e ≡ true)
    pub delete_ok :
        (w : W) (l : LeaseSpec)
        → stored w ≡ some l
        → (w' : W) × (env.api.delete name w ≡ (ok tt, w'))
          × (stored w' ≡ none)
          × (clock w' ≡ clock w)

  -- The first wait of a backoff can pass without anything done to the lease.
  abbrev pub TimePasses : Type 0
  TimePasses = (w : W) → (w' : W) × (stored w' ≡ stored w) × (clock w' ≡ clock w + first_wait)

  module _ (laws : IsAnswering) (holder : ℕ → String) (duration owner : ℕ → ℕ) where
    -- Runs in the pace of the program: a call of an agent; an agent that asks for the lock; and an agent
    -- whose try answered false, which tries again when the first wait of the backoff has passed, with
    -- nothing done to the lease in between.
    pub data Paced (s : System W) : System W → Type 0 where
      at_start : Paced s s
      then_calls :
          {t : System W}
          → Paced s t
          → (i : ℕ)
          → Paced s (
              after_lock_step env name holder duration owner t i
                (lock_step env (lock_of env name holder duration owner i) (t.agents i) t.outside))
      then_asks :
          {t : System W}
          → Paced s t
          → (i : ℕ) → t.agents i ≡ idle
          → Paced s (record t { agents = put t.agents i wanting })
      then_sleeps :
          {t : System W}
          → Paced s t
          → (i : ℕ) (w : W) → t.agents i ≡ answered (ok false)
          → stored w ≡ stored t.outside
          → clock t.outside + first_wait ≤ clock w
          → Paced s (record t { outside = w; agents = put t.agents i wanting })

    append : (s t u : System W) → Paced s t → Paced t u → Paced s u
    append s t u p at_start = p
    append s t u p (then_calls {t = v} q i) = then_calls (append s t v p q) i
    append s t u p (then_asks {t = v} q i at) = then_asks (append s t v p q) i at
    append s t u p (then_sleeps {t = v} q i w at same passed) =
        then_sleeps (append s t v p q) i w at same passed

    -- The state after an agent alone has come to a place; the others stand where they stood.
    abbrev pub Moved : System W → ℕ → Phase → W → System W → Type 0
    Moved s i p w t =
        Paced s t
        × (t.outside ≡ w)
        × (t.agents i ≡ p)
        × ((j : ℕ) → nat_eq i j ≡ false → t.agents j ≡ s.agents j)

    stands : (s : System W) (i : ℕ) (p : Phase) → s.agents i ≡ p → Moved s i p s.outside s
    stands s i p at = (at_start, refl, at, λ j other. refl)

    put_here : (f : ℕ → Phase) (i : ℕ) (p : Phase) → put f i p i ≡ p
    put_here f i p = ground arith

    -- One more call.
    calls :
        (s t : System W) (i : ℕ) (p p' : Phase) (w w' : W)
        → Moved s i p w t
        → lock_step env (lock_of env name holder duration owner i) p w ≡ (p', w')
        → (u : System W) × Moved s i p' w' u
    calls s t i p p' w w' (path, out, at, rest) e =
        let k = lock_of env name holder duration owner i in
        let same : lock_step env k (t.agents i) t.outside ≡ (p', w') = rw (at, out) e in
        (
          record t {
            outside = (lock_step env k (t.agents i) t.outside).1;
            agents = put t.agents i (lock_step env k (t.agents i) t.outside).0;
          },
          (
            then_calls path i,
            rw same refl,
            put_here t.agents i (lock_step env k (t.agents i) t.outside).0 ∙ rw same refl,
            λ j other. rw other (rest j other),
          ),
        )

    asks_for :
        (s t : System W) (i : ℕ) (w : W)
        → Moved s i idle w t
        → (u : System W) × Moved s i wanting w u
    asks_for s t i w (path, out, at, rest) = (
      record t { agents = put t.agents i wanting },
      (then_asks path i at, out, put_here t.agents i wanting, λ j other. rw other (rest j other)),
    )

    sleeps_until :
        (s t : System W) (i : ℕ) (w w' : W)
        → stored w' ≡ stored w
        → clock w + first_wait ≤ clock w'
        → Moved s i (answered (ok false)) w t
        → (u : System W) × Moved s i wanting w' u
    sleeps_until s t i w w' same passed (path, out, at, rest) = (
      record t { outside = w'; agents = put t.agents i wanting },
      (
        then_sleeps path i w' at (same ∙ ap stored (sym out)) (rw out passed),
        refl,
        put_here t.agents i wanting,
        λ j other. rw other (rest j other),
      ),
    )

    -- An agent that asks for the lock of an expired lease is about to delete it.
    sees_expired_lease :
        (s : System W) (i : ℕ) (lease : LeaseSpec) (renewed : ℕ)
        → s.agents i ≡ idle
        → stored s.outside ≡ some lease
        → lease.renew_time ≡ some renewed
        → is_expired (lock_of env name holder duration owner i) (clock s.outside) renewed ≡ true
        → (t : System W) × Moved s i expired s.outside t
    unfolding lock_step lease_expired
    sees_expired_lease s i lease renewed at there dated old =
        let w = s.outside in
        let k = lock_of env name holder duration owner i in
        let (e, refused_by, exists) =
          laws.create_refused (new_spec env k (clock w)) w lease there in
        let (t1, m1) = asks_for s s i w (stands s i idle at) in
        let (t2, m2) = calls s t1 i wanting (stamped (clock w)) w w m1 (rw (laws.now_ok w) refl) in
        let (t3, m3) =
          calls s t2 i (stamped (clock w)) refused w w m2 (rw (refused_by, exists) refl) in
        let (t4, m4) =
          calls s t3 i refused (found lease) w w m3 (rw (laws.get_ok w lease there) refl) in
        calls s t4 i (found lease) expired w w m4 (rw (dated, laws.now_ok w, old) refl)

    -- The lease names the holder and has just been made.
    abbrev pub OwnsNew : ℕ → W → Type 0
    OwnsNew i w =
        (lease : LeaseSpec) × (stored w ≡ some lease)
        × (lease.holder_identity ≡ some (holder i))
        × (lease.renew_time ≡ some (clock w))

    -- An agent that is about to delete the lease gets the lock after one wait, whatever lease is there by
    -- then.
    takes_over :
        TimePasses
        → (s : System W) (i : ℕ) (lease : LeaseSpec) → s.agents i ≡ expired
        → stored s.outside ≡ some lease
        → (t : System W) × (w : W) × Moved s i (answered (ok true)) w t
          × OwnsNew i w
          × (clock w ≡ clock s.outside + first_wait)
    unfolding lock_step
    takes_over passing s i lease at there =
        let k = lock_of env name holder duration owner i in
        let (w0, deleted, free, still) = laws.delete_ok s.outside lease there in
        let (t1, m1) =
          calls s s i expired (answered (ok false)) s.outside w0 (stands s i expired at)
            (rw deleted refl) in
        let (w1, same, later) = passing w0 in
        let (t2, m2) = sleeps_until s t1 i w0 w1 same (omega (arith, later)) m1 in
        let (t3, m3) =
          calls s t2 i wanting (stamped (clock w1)) w1 w1 m2 (rw (laws.now_ok w1) refl) in
        let (w2, made, has, still2) = laws.create_ok (new_spec env k (clock w1)) w1 (same ∙ free) in
        let (t4, m4) =
          calls s t3 i (stamped (clock w1)) (answered (ok true)) w1 w2 m3 (rw made refl) in
        (
          t4,
          w2,
          m4,
          (
            record (new_spec env k (clock w1)) { resource_version = revision w2 },
            has,
            refl,
            ap some (sym still2),
          ),
          still2 ∙ (later ∙ ap (λ c. c + first_wait) still),
        )

    -- Two agents are outside the lock, and the lease is one that is expired for both. Then there is an
    -- order of their calls, each agent waiting the backoff's first wait between its two tries, in which
    -- the first has the lock and a lease that it has just made, and from there on one in which the second
    -- deletes that lease and has the lock too, over a lease of its own; no more than these two waits
    -- passes.
    pub expired_race :
        TimePasses
        → (s : System W) (i j : ℕ) (lease : LeaseSpec) (renewed : ℕ) → nat_eq i j ≡ false
        → s.agents i ≡ idle
        → s.agents j ≡ idle
        → stored s.outside ≡ some lease
        → lease.renew_time ≡ some renewed
        → is_expired (lock_of env name holder duration owner i) (clock s.outside) renewed ≡ true
        → is_expired (lock_of env name holder duration owner j) (clock s.outside) renewed ≡ true
        → (t u : System W) × Paced s t
          × (has_lock (t.agents i) ≡ true)
          × OwnsNew i t.outside
          × (clock t.outside ≡ clock s.outside + first_wait)
          × Paced t u
          × (has_lock (u.agents i) ≡ true)
          × (has_lock (u.agents j) ≡ true)
          × OwnsNew j u.outside
          × (clock u.outside ≡ clock s.outside + first_wait + first_wait)
    expired_race passing s i j lease renewed ij at_i at_j there dated old_i old_j =
        let ji : nat_eq j i ≡ false = ground arith in
        let (a, (path_a, out_a, a_i, rest_a)) =
          sees_expired_lease s i lease renewed at_i there dated old_i in
        let (b, (path_b, out_b, b_j, rest_b)) =
          sees_expired_lease a j lease renewed (rest_a j ij ∙ at_j) (ap stored out_a ∙ there) dated
            (rw out_a old_j) in
        let b_i : b.agents i ≡ expired = rest_b i ji ∙ a_i in
        let out : b.outside ≡ s.outside = out_b ∙ out_a in
        let (c, w, (path_c, out_c, c_i, rest_c), own_i, waited_c) =
          takes_over passing b i lease b_i (ap stored out ∙ there) in
        let c_j : c.agents j ≡ expired = rest_c j ij ∙ b_j in
        let (d, v, (path_d, out_d, d_j, rest_d), own_j, waited_d) =
          takes_over passing c j own_i.0 c_j (ap stored out_c ∙ own_i.1) in
        let d_i : d.agents i ≡ answered (ok true) = rest_d i ji ∙ c_i in
        let clock_c : clock c.outside ≡ clock s.outside + first_wait =
          ap clock out_c ∙ (waited_c ∙ ap (λ x. clock x + first_wait) out) in
        (
          c,
          d,
          append s b c (append s a b path_a path_b) path_c,
          rw c_i refl,
          subst (OwnsNew i) (sym out_c) own_i,
          clock_c,
          path_d,
          rw d_i refl,
          rw d_j refl,
          subst (OwnsNew j) (sym out_d) own_j,
          ap clock out_d ∙ (waited_d ∙ ap (λ c. c + first_wait) clock_c),
        )

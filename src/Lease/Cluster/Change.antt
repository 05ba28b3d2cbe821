-- ===== src/Lease/Cluster/Change.antt =====
-- What a call can change of the lease, and what of it keeps a holder's lease.
use kubeip.Base.{
  ℕ, String, Option, none, some, ◌≡◌, sym, ◌∙◌, ◌⊎◌, inl, inr, ◌≤◌, ◌<◌, arith, subst, false,
  Option-cases, eq_iff,
}
use kubeip.Kube.{LeaseSpec}
use kubeip.Lease.{LeaseLock, is_foreign}
use kubeip.Lease.Cluster.{Same}

-- A lease that is not foreign to a lock names its holder.
pub own_holder :
    (k : LeaseLock) (lease : LeaseSpec)
    → is_foreign k lease ≡ false
    → lease.holder_identity ≡ some k.holder_identity
own_holder k lease mine = elim (Option-cases lease.holder_identity) [
  | inl nobody ↦ absurd (ground (arith, nobody, mine))
  | inr (g, at) ↦ ground (arith, at, mine, eq_iff g k.holder_identity)
]

module _ {W : Type 0} (stored : W → Option LeaseSpec) (revision : W → ℕ) where
  -- The lease is the holder's.
  abbrev pub Owns : String → W → Type 0
  Owns h w = (lease : LeaseSpec) × (stored w ≡ some lease) × (lease.holder_identity ≡ some h)

  -- A lease of the holder was written, under a new version.
  abbrev pub Wrote : String → W → W → Type 0
  Wrote h w w' =
      (lease : LeaseSpec) × (stored w' ≡ some lease)
      × (lease.holder_identity ≡ some h)
      × (lease.resource_version ≡ revision w')
      × (revision w < revision w')

  -- A call of `Lock` or `Unlock` of the holder: it leaves the lease, makes one where none is, or
  -- removes the holder's own.
  abbrev pub Change : String → W → W → Type 0
  Change h w w' =
      Same stored revision w w'
      ⊎ (((stored w ≡ none) × Wrote h w w')
          ⊎ (Owns h w × (stored w' ≡ none) × (revision w ≤ revision w')))

  -- A call of the renewal of the holder: it leaves the lease, or writes over the holder's own.
  abbrev pub Renewed : String → W → W → Type 0
  Renewed h w w' = Same stored revision w w' ⊎ (Owns h w × Wrote h w w')

  -- A lease that is there names a holder, and has a version that the store has given.
  abbrev pub IsSound : W → Type 0
  IsSound w =
      (lease : LeaseSpec)
      → stored w ≡ some lease
      → ¬ (lease.holder_identity ≡ none) × (lease.resource_version ≤ revision w)

  -- A lease that the holder's renewal has read: a later lease of the same version is the holder's.
  abbrev pub Kept : String → LeaseSpec → W → Type 0
  Kept h lease w =
      (lease.holder_identity ≡ some h)
      × (lease.resource_version ≤ revision w)
      × ((l : LeaseSpec)
          → stored w ≡ some l
          → l.resource_version ≡ lease.resource_version
          → l.holder_identity ≡ some h)

  pub Owns-Same : (h : String) (w w' : W) → Owns h w → Same stored revision w w' → Owns h w'
  Owns-Same h w w' (lease, there, own) same = (lease, same.0 ∙ there, own)

  -- Two leases that are stored are one.
  pub one_lease : (w : W) (l l' : LeaseSpec) → stored w ≡ some l → stored w ≡ some l' → l ≡ l'
  one_lease w l l' p q = ground (arith, sym p ∙ q)

  pub Owns-unique : (g h : String) (w : W) → Owns g w → Owns h w → g ≡ h
  Owns-unique g h w (l, p, own) (l', q, own') =
      let same = one_lease w l l' p q in
      let both : some g ≡ some h =
        sym own ∙ subst (λ x. x.holder_identity ≡ some h) (sym same) own' in
      ground (arith, both)

  Owns-Wrote : (h : String) (w w' : W) → Wrote h w w' → Owns h w'
  Owns-Wrote h w w' (lease, there, own, version, grows) = (lease, there, own)

  -- A holder's lease survives the calls of others.
  pub Owns-Change : (g h : String) (w w' : W) → ¬ (g ≡ h) → Owns h w → Change g w w' → Owns h w'
  Owns-Change g h w w' other own (inl same) = Owns-Same h w w' own same
  Owns-Change g h w w' other own (inr (inl (free, wrote))) =
      absurd (ground (arith, sym free ∙ own.1))
  Owns-Change g h w w' other own (inr (inr (theirs, gone, grows))) =
      absurd (other (Owns-unique g h w theirs own))

  -- A renewal keeps every holder's lease.
  pub Owns-Renewed : (g h : String) (w w' : W) → Owns h w → Renewed g w w' → Owns h w'
  Owns-Renewed g h w w' own (inl same) = Owns-Same h w w' own same
  Owns-Renewed g h w w' own (inr (theirs, wrote)) =
      subst (λ x. Owns x w') (Owns-unique g h w theirs own) (Owns-Wrote g w w' wrote)

  IsSound-Same : (w w' : W) → IsSound w → Same stored revision w w' → IsSound w'
  IsSound-Same w w' sound (same, grows) lease there =
      let (named, old) = sound lease (sym same ∙ there) in (named, omega arith)

  IsSound-Wrote : (h : String) (w w' : W) → Wrote h w w' → IsSound w'
  IsSound-Wrote h w w' (l, there, own, version, grows) lease at =
      let same = one_lease w' l lease there at in
      subst (λ x. ¬ (x.holder_identity ≡ none) × (x.resource_version ≤ revision w')) same
        (λ bad. ground (arith, sym bad ∙ own), omega arith)

  pub IsSound-Change : (h : String) (w w' : W) → IsSound w → Change h w w' → IsSound w'
  IsSound-Change h w w' sound (inl same) = IsSound-Same w w' sound same
  IsSound-Change h w w' sound (inr (inl (free, wrote))) = IsSound-Wrote h w w' wrote
  IsSound-Change h w w' sound (inr (inr (own, gone, grows))) =
      λ lease there. absurd (ground (arith, sym gone ∙ there))

  pub IsSound-Renewed : (h : String) (w w' : W) → IsSound w → Renewed h w w' → IsSound w'
  IsSound-Renewed h w w' sound (inl same) = IsSound-Same w w' sound same
  IsSound-Renewed h w w' sound (inr (own, wrote)) = IsSound-Wrote h w w' wrote

  Kept-Same :
      (h : String) (lease : LeaseSpec) (w w' : W)
      → Kept h lease w
      → Same stored revision w w'
      → Kept h lease w'
  Kept-Same h lease w w' (own, old, kept) (same, grows) =
      (own, omega arith, λ l there version. kept l (sym same ∙ there) version)

  Kept-Wrote :
      (g h : String) (lease : LeaseSpec) (w w' : W)
      → Kept h lease w
      → Wrote g w w'
      → Kept h lease w'
  Kept-Wrote g h lease w w' (own, old, kept) (l, there, theirs, version, grows) = (
    own,
    omega arith,
    λ l' at same.
        let one = one_lease w' l l' there at in
        let wrong : revision w' ≡ lease.resource_version =
          sym version ∙ subst (λ x. x.resource_version ≡ lease.resource_version) (sym one) same in
        absurd (omega arith),
  )

  pub Kept-Change :
      (g h : String) (lease : LeaseSpec) (w w' : W)
      → Kept h lease w
      → Change g w w'
      → Kept h lease w'
  Kept-Change g h lease w w' kept (inl same) = Kept-Same h lease w w' kept same
  Kept-Change g h lease w w' kept (inr (inl (free, wrote))) = Kept-Wrote g h lease w w' kept wrote
  Kept-Change g h lease w w' (own, old, kept) (inr (inr (theirs, gone, grows))) =
      (own, omega arith, λ l there version. absurd (ground (arith, sym gone ∙ there)))

  pub Kept-Renewed :
      (g h : String) (lease : LeaseSpec) (w w' : W)
      → Kept h lease w
      → Renewed g w w'
      → Kept h lease w'
  Kept-Renewed g h lease w w' kept (inl same) = Kept-Same h lease w w' kept same
  Kept-Renewed g h lease w w' kept (inr (theirs, wrote)) = Kept-Wrote g h lease w w' kept wrote

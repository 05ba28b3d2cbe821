-- ===== src/Address/Oci/Cases.antt =====
-- The cases of a public address that the primary VNIC has already.
use kubeip.Base.{
  In, String, Bool, true, false, none, some, List, [], ◌∷◌, ◌≡◌, ◌≢◌, refl, sym, ap, subst, ◌∙◌,
  ◌⊎◌, inl, inr, arith, Ran, Ran-same, >>=-Ran, wrapped>>=-Ran, deref, deref-Ran, if-Ran, ◌==◌,
  eq_iff, Option-cases, wrapped, return, ◌>>=◌, ◌>>◌,
}
use kubeip.Cloud.Oci.{PublicIp, Vnic}
use kubeip.Address.Oci.{
  OciAssigner, find_address, fetch_public_ips, fetch_ephemeral_public_ips, drop_ephemeral,
  drop_public_ip, handle_assigned_ip, handle_public_ip_already_assigned_case,
}

module _ {W : Type 0} where
  -- A record that was found is one of the list's, with that address, and no call was made.
  find_address-Ran :
      (public_ip : String) (ips : List PublicIp) (w w' : W) (ip : PublicIp)
      → Ran (find_address public_ip ips) w (some ip) w'
      → In ip ips × (ip.ip_address ≡ some public_ip) × (w ≡ w')
  unfolding find_address
  find_address-Ran public_ip [] w w' ip h = absurd (ground arith)
  find_address-Ran public_ip (x ∷ ips) w w' ip h =
      let (address, w1, there, h1) = >>=-Ran (deref x.ip_address) _ w h in
      let (known, same) = deref-Ran x.ip_address w there in
      elim (if-Ran (address == public_ip) _ _ w1 h1) [
        | inl (equal, h2) ↦
            let this : x ≡ ip = ground (arith, h2) in
            let named : address ≡ public_ip = ground (arith, eq_iff address public_ip) in
            (
              inl (sym this),
              subst (λ y. y.ip_address ≡ some public_ip) this (known ∙ ap some named),
              same ∙ ground (arith, h2),
            )
        | inr (other, h2) ↦
            let (at, shown, still) = find_address-Ran public_ip ips w1 w' ip h2 in
            (inr at, shown, same ∙ still)
      ]

-- No record of the list has the address.
abbrev pub IsAbsent : String → List PublicIp → Type 0
IsAbsent public_ip [] = Unit
IsAbsent public_ip (x ∷ ips) = (x.ip_address ≢ some public_ip) × IsAbsent public_ip ips

-- Where none was found there is none, and no call was made.
find_address-IsAbsent :
    {W : Type 0} (public_ip : String) (ips : List PublicIp) (w w' : W)
    → Ran (find_address public_ip ips) w none w'
    → IsAbsent public_ip ips × (w ≡ w')
unfolding find_address
find_address-IsAbsent public_ip [] w w' h = (tt, ground arith)
find_address-IsAbsent public_ip (x ∷ ips) w w' h =
    let (address, w1, there, h1) = >>=-Ran (deref x.ip_address) _ w h in
    let (known, same) = deref-Ran x.ip_address w there in
    elim (if-Ran (address == public_ip) _ _ w1 h1) [
      | inl (equal, h2) ↦ absurd (ground (arith, h2))
      | inr (differs, h2) ↦
          let (absent, still) = find_address-IsAbsent public_ip ips w1 w' h2 in
          (
            (λ bad. ground (arith, known, bad, differs, eq_iff address public_ip), absent),
            same ∙ still,
          )
    ]

module _ {W : Type 0} (a : OciAssigner W) where
  -- The list has a record of the address.
  abbrev pub Lists : List PublicIp → String → PublicIp → Type 0
  Lists listed public_ip ip = In ip listed × (ip.ip_address ≡ some public_ip)

  -- It is one of the reserved addresses in use that pass the filters; the list was the last call.
  abbrev pub IsReserved : String → W → W → Type 0
  IsReserved public_ip w w' =
      (listed : List PublicIp) × (ip : PublicIp) × Ran (fetch_public_ips a true true) w listed w'
      × Lists listed public_ip ip

  -- It is another of the addresses in use, and was taken from the instance as the last call.
  abbrev pub IsUnassigned : String → W → Type 0
  IsUnassigned public_ip w' =
      (listed : List PublicIp) × (ip : PublicIp) × (id : String) × (v v' : W) × Ran
        (fetch_public_ips a false true) v listed v'
      × Lists listed public_ip ip
      × (ip.id ≡ some id)
      × Ran (a.network_svc.update_public_ip id "") v' tt w'

  -- It is an ephemeral address of the VNIC's domain, and was deleted as the last call.
  abbrev pub IsDeleted : Vnic → String → W → Type 0
  IsDeleted vnic public_ip w' =
      (domain : String) × (listed : List PublicIp) × (ip : PublicIp) × (id : String) × (v v' : W)
      × (vnic.availability_domain ≡ some domain)
      × Ran (fetch_ephemeral_public_ips a domain) v listed v'
      × Lists listed public_ip ip
      × (ip.id ≡ some id)
      × Ran (a.network_svc.delete_public_ip id) v' tt w'

  drop_ephemeral-IsDeleted :
      (vnic : Vnic) (public_ip : String) (w w' : W) (b : Bool)
      → Ran (drop_ephemeral a vnic public_ip) w b w'
      → (b ≡ false) × IsDeleted vnic public_ip w'
  unfolding drop_ephemeral
  drop_ephemeral-IsDeleted vnic public_ip w w' b h = elim (Option-cases vnic.availability_domain) [
    | inl missing ↦ absurd (ground (arith, rw missing at h))
    | inr (domain, at) ↦
        let (listed, v, got, h1) =
          wrapped>>=-Ran _ (fetch_ephemeral_public_ips a domain) _ w (rw at at h) in
        let (found, v1, sought, h2) = >>=-Ran (find_address public_ip listed) _ v h1 in
        elim (Option-cases found) [
          | inl nothing ↦ absurd (ground (arith, rw nothing at h2))
          | inr (ip, is) ↦
              let (there, shown, same) =
                find_address-Ran public_ip listed v v1 ip
                  (Ran-same (find_address public_ip listed) refl is refl sought) in
              let (id, v2, known, h3) = >>=-Ran (deref ip.id) _ v1 (rw is at h2) in
              let (own, still) = deref-Ran ip.id v1 known in
              let (t, v3, gone, h4) =
                wrapped>>=-Ran _ (a.network_svc.delete_public_ip id) _ v2 h3 in
              (
                ground (arith, h4),
                (
                  domain,
                  listed,
                  ip,
                  id,
                  w,
                  v,
                  at,
                  got,
                  (there, shown),
                  own,
                  Ran-same (a.network_svc.delete_public_ip id) (sym (same ∙ still)) refl
                      (ground (arith, h4)) gone,
                ),
              )
        ]
  ]

  -- What is behind the first list: another address in use, or an ephemeral one.
  abbrev pub IsDropped : Vnic → String → W → Type 0
  IsDropped vnic public_ip w' = IsUnassigned public_ip w' ⊎ IsDeleted vnic public_ip w'

  IsUnassigned-by :
      (vnic : Vnic) (public_ip : String) (listed : List PublicIp) (ip : PublicIp) (v v1 w' : W)
      (b : Bool) (w : W)
      → Ran (fetch_public_ips a false true) w listed v
      → Ran (find_address public_ip listed) v (some ip) v1
      → Ran
          (do
            id ← deref ip.id
            wrapped "failed to unassign public IP assigned to private IP"
                (a.network_svc.update_public_ip id "")
            return false)
          v1
          b
          w'
      → (b ≡ false) × IsUnassigned public_ip w'
  IsUnassigned-by vnic public_ip listed ip v v1 w' b w got sought h =
      let (there, shown, same) = find_address-Ran public_ip listed v v1 ip sought in
      let (id, v2, known, h1) = >>=-Ran (deref ip.id) _ v1 h in
      let (own, still) = deref-Ran ip.id v1 known in
      let (t, v3, gone, h2) = wrapped>>=-Ran _ (a.network_svc.update_public_ip id "") _ v2 h1 in
      let last : v3 ≡ w' = ground (arith, h2) in
      (
        ground (arith, h2),
        (
          listed,
          ip,
          id,
          w,
          v,
          got,
          (there, shown),
          own,
          Ran-same (a.network_svc.update_public_ip id "") (sym (same ∙ still)) refl last gone,
        ),
      )

  drop_public_ip-IsDropped :
      (vnic : Vnic) (public_ip : String) (w w' : W) (b : Bool)
      → Ran (drop_public_ip a vnic public_ip) w b w'
      → (b ≡ false) × IsDropped vnic public_ip w'
  unfolding drop_public_ip
  drop_public_ip-IsDropped vnic public_ip w w' b h =
      let (listed, v, got, h1) = wrapped>>=-Ran _ (fetch_public_ips a false true) _ w h in
      let (found, v1, sought, h2) = >>=-Ran (find_address public_ip listed) _ v h1 in
      elim (Option-cases found) [
        | inl nothing ↦
            let (no_more, deleted) =
              drop_ephemeral-IsDeleted vnic public_ip v1 w' b (rw nothing at h2) in
            (no_more, inr deleted)
        | inr (ip, is) ↦
            let (no_more, gone) =
              IsUnassigned-by vnic public_ip listed ip v v1 w' b w got
                (Ran-same (find_address public_ip listed) refl is refl sought) (rw is at h2) in
            (no_more, inl gone)
      ]

  -- The filtered list of reserved addresses in use does not have it, and then it was dropped.
  abbrev pub IsOther : Vnic → String → W → W → Type 0
  IsOther vnic public_ip w w' =
      (listed : List PublicIp) × (v : W) × Ran (fetch_public_ips a true true) w listed v
      × IsAbsent public_ip listed
      × IsDropped vnic public_ip w'

  -- What is known when the handling of an address on the VNIC succeeds.
  abbrev pub Handled : Vnic → String → Bool → W → W → Type 0
  Handled vnic public_ip b w w' =
      ((b ≡ true) × IsReserved public_ip w w') ⊎ ((b ≡ false) × IsOther vnic public_ip w w')

  handle_assigned_ip-Handled :
      (vnic : Vnic) (public_ip : String) (w w' : W) (b : Bool)
      → Ran (handle_assigned_ip a vnic public_ip) w b w'
      → Handled vnic public_ip b w w'
  unfolding handle_assigned_ip
  handle_assigned_ip-Handled vnic public_ip w w' b h =
      let (listed, v, got, h1) = wrapped>>=-Ran _ (fetch_public_ips a true true) _ w h in
      let (found, v1, sought, h2) = >>=-Ran (find_address public_ip listed) _ v h1 in
      elim (Option-cases found) [
        | inl nothing ↦
            let (absent, same) =
              find_address-IsAbsent public_ip listed v v1
                (Ran-same (find_address public_ip listed) refl nothing refl sought) in
            let (no_more, dropped) =
              drop_public_ip-IsDropped vnic public_ip v1 w' b (rw nothing at h2) in
            inr (no_more, (listed, v, got, absent, dropped))
        | inr (ip, is) ↦
            let (there, shown, same) =
              find_address-Ran public_ip listed v v1 ip
                (Ran-same (find_address public_ip listed) refl is refl sought) in
            let h3 = rw is at h2 in
            let last : v1 ≡ w' = ground (arith, h3) in
            inl (
              ground (arith, h3),
              (
                listed,
                ip,
                Ran-same (fetch_public_ips a true true) refl refl (same ∙ last) got,
                (there, shown),
              ),
            )
      ]

  -- The VNIC has no address and nothing is done, or it has one that is handled.
  abbrev pub Answers : Vnic → Bool → W → W → Type 0
  Answers vnic b w w' =
      ((vnic.public_ip ≡ none) × (b ≡ false) × (w ≡ w'))
      ⊎ ((public_ip : String) × (vnic.public_ip ≡ some public_ip) × Handled vnic public_ip b w w')

  -- The handling of the address on the primary VNIC of Oracle Cloud, when it succeeds: without an
  -- address nothing is done. An address of the filtered list of reserved ones in use is kept, with no
  -- call behind that list, and the answer is true. The answer is false only for an address that this
  -- list does not have; such a one is taken from the instance when it is reserved and in use, and
  -- deleted when it is an ephemeral one of the VNIC's domain.
  pub handle_public_ip_already_assigned_case-Handled :
      (vnic : Vnic) (w w' : W) (b : Bool)
      → Ran (handle_public_ip_already_assigned_case a (some vnic)) w b w'
      → Answers vnic b w w'
  unfolding handle_public_ip_already_assigned_case
  handle_public_ip_already_assigned_case-Handled vnic w w' b h =
      elim (Option-cases vnic.public_ip) [
        | inl nothing ↦
            let h1 = rw nothing at h in inl (nothing, ground (arith, h1), ground (arith, h1))
        | inr (public_ip, at) ↦
            inr (public_ip, at, handle_assigned_ip-Handled vnic public_ip w w' b (rw at at h))
      ]

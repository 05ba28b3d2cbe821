-- ===== src/Address/Oci/Release.antt =====
-- What `Unassign` of Oracle Cloud releases.
use kubeip.Base.{
  In, String, true, some, List, [], ◌∷◌, ◌≡◌, refl, ap, ◌∙◌, inl, inr, arith, Ran, >>=-Ran,
  wrapped>>=-Ran, wrapped-Ran, if-Ran, deref-Ran, deref, ◌==◌, eq_iff, Option-cases,
}
use kubeip.Cloud.Oci.{PublicIp, Vnic}
use kubeip.Address.Oci.{
  OciAssigner, is_assigned, fetch_public_ips, get_primary_vnic_of_instance, release_from, unassign,
}

module _ {W : Type 0} (a : OciAssigner W) where
  -- A record of the list has the address and is assigned, and the update that frees it was the last
  -- call.
  abbrev pub Released : String → List PublicIp → W → Type 0
  Released public_ip ips w' =
      (ip : PublicIp) × (id : String) × (v : W) × In ip ips
      × (ip.ip_address ≡ some public_ip)
      × (is_assigned ip.lifecycle_state ≡ true)
      × (ip.id ≡ some id)
      × Ran (a.network_svc.update_public_ip id "") v tt w'

  Released-later :
      (public_ip : String) (ip : PublicIp) (ips : List PublicIp) (w' : W)
      → Released public_ip ips w'
      → Released public_ip (ip ∷ ips) w'
  Released-later public_ip ip ips w' (other, id, v, at, shown, held, own, freed) =
      (other, id, v, inr at, shown, held, own, freed)

  release_from-Released :
      (public_ip : String) (ips : List PublicIp) (w w' : W)
      → Ran (release_from a public_ip ips) w tt w'
      → Released public_ip ips w'
  unfolding release_from
  release_from-Released public_ip [] w w' h = absurd (ground arith)
  release_from-Released public_ip (ip ∷ ips) w w' h =
      let (address, w1, there, h1) = >>=-Ran (deref ip.ip_address) _ w h in
      elim (if-Ran (address == public_ip) _ _ w1 h1) [
        | inr (other, h2) ↦
            Released-later public_ip ip ips w' (release_from-Released public_ip ips w1 w' h2)
        | inl (same, h2) ↦ elim (if-Ran (is_assigned ip.lifecycle_state) _ _ w1 h2) [
          | inr (other, h3) ↦
              Released-later public_ip ip ips w' (release_from-Released public_ip ips w1 w' h3)
          | inl (held, h3) ↦
              let (id, v, known, h4) = >>=-Ran (deref ip.id) _ w1 h3 in
              let equal : address ≡ public_ip = ground (arith, eq_iff address public_ip) in
              (
                ip,
                id,
                v,
                inl refl,
                (deref-Ran ip.ip_address w there).0 ∙ ap some equal,
                held,
                (deref-Ran ip.id w1 known).0,
                wrapped-Ran _ (a.network_svc.update_public_ip id "") v h4,
              )
        ]
      ]

  -- A successful `Unassign` of Oracle Cloud found an address on the primary VNIC of the instance, and
  -- a record of the reserved addresses in use with that address, still assigned, which it freed as
  -- the last call.
  pub unassign-Released :
      (instance_ocid zone : String) (w w' : W)
      → Ran (unassign a instance_ocid zone) w tt w'
      → (vnic : Vnic) × (public_ip : String) × (w1 : W) × (reserved : List PublicIp) × (w2 : W)
        × Ran (get_primary_vnic_of_instance a instance_ocid) w vnic w1
        × (vnic.public_ip ≡ some public_ip)
        × Ran (fetch_public_ips a true true) w1 reserved w2
        × Released public_ip reserved w'
  unfolding unassign
  unassign-Released instance_ocid zone w w' h =
      let (vnic, w1, got, h1) = >>=-Ran (get_primary_vnic_of_instance a instance_ocid) _ w h in
      elim (Option-cases vnic.public_ip) [
        | inl missing ↦ absurd (ground (arith, rw missing at h1))
        | inr (public_ip, there) ↦
            let (reserved, w2, listed, h2) =
              wrapped>>=-Ran _ (fetch_public_ips a true true) _ w1 (rw there at h1) in
            (
              vnic,
              public_ip,
              w1,
              reserved,
              w2,
              got,
              there,
              listed,
              release_from-Released public_ip reserved w2 w' h2,
            )
      ]

-- ===== src/Address/Aws/Release.antt =====
-- What `Unassign` of AWS releases.
use kubeip.Base.{
  String, true, some, List, [], ◌∷◌, ◌≡◌, refl, sym, ap, ◌∙◌, arith, sentinel,
  no_static_ip_assigned, Ran, Ran-same, >>=-Ran, wrapped>>=-Ran, deref, deref-Ran, fail, return,
}
use kubeip.Cloud.Aws.{Address}
use kubeip.Address.Aws.{AwsAssigner, by_name, get_assigned_elastic_ip, unassign}

module _ {W : Type 0} (a : AwsAssigner W) (instance_id : String) where
  first_of :
      (listed : List Address) (v v' : W) (x : Address)
      → Ran
          (elim listed [ [] ↦ fail (sentinel no_static_ip_assigned) | y ∷ rest ↦ return y ])
          v
          x
          v'
      → (rest : List Address) × (listed ≡ x ∷ rest) × (v ≡ v')
  first_of [] v v' x h = absurd (ground arith)
  first_of (y ∷ rest) v v' x h = (rest, ap (λ z. z ∷ rest) (ground arith), ground arith)

  -- A successful `Unassign` of AWS takes the first of the addresses in use that are listed for the
  -- instance, of which there is one, and ends its association, as the second of two calls.
  pub unassign-First :
      (zone : String) (w w' : W)
      → Ran (unassign a instance_id zone) w tt w'
      → (x : Address) × (rest : List Address) × (association_id : String) × (v : W) × Ran
          (a.eip_lister.list (by_name "instance-id" instance_id) true)
          w
          (x ∷ rest)
          v
        × (x.association_id ≡ some association_id)
        × Ran (a.eip_assigner.unassign association_id) v tt w'
  unfolding unassign get_assigned_elastic_ip
  unassign-First zone w w' h =
      let (x, v, got, h1) = wrapped>>=-Ran _ (get_assigned_elastic_ip a instance_id) _ w h in
      let (listed, v1, ran, h2) =
        wrapped>>=-Ran _ (a.eip_lister.list (by_name "instance-id" instance_id) true) _ w got in
      let (rest, shape, same) = first_of listed v1 v x h2 in
      let (association_id, v2, there, h3) = >>=-Ran (deref x.association_id) _ v h1 in
      let (known, still) = deref-Ran x.association_id v there in
      let (t, v3, done, h4) = wrapped>>=-Ran _ (a.eip_assigner.unassign association_id) _ v2 h3 in
      let (ip, v4, shown, h5) = >>=-Ran (deref x.public_ip) _ v3 h4 in
      let (id, v5, named, h6) = >>=-Ran (deref x.allocation_id) _ v4 h5 in
      let last : v3 ≡ w' =
        (deref-Ran x.public_ip v3 shown).1
        ∙ (deref-Ran x.allocation_id v4 named).1
        ∙ ground (arith, h6) in
      (
        x,
        rest,
        association_id,
        v,
        Ran-same (a.eip_lister.list (by_name "instance-id" instance_id) true) refl shape same ran,
        known,
        Ran-same (a.eip_assigner.unassign association_id) (sym still) refl last done,
      )

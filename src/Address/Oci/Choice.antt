-- ===== src/Address/Oci/Choice.antt =====
-- Which address the assigner of Oracle Cloud gives.
use kubeip.Base.{
  In, String, true, false, Option, none, some, List, [], ◌∷◌, ◌≡◌, refl, ap, subst, sym, ◌∙◌, ◌⊎◌,
  inl, inr, arith, Error, sentinel, static_ip_already_assigned, Result, ok, err, panic, unfinished,
  Ran, Ran-same, >>=-Ran, wrapped>>=-Ran, wrapped-Ran, attempt-Ran, if-Ran, deref-Ran, fail_if,
  attempt, deref, crash, no_fuel, is_empty, ◌>>=◌,
}
use kubeip.Cloud.Oci.{PublicIp, PrivateIp, Vnic}
use kubeip.Address.Oci.{
  OciAssigner, is_available, fetch_public_ips, get_primary_vnic_of_instance,
  handle_public_ip_already_assigned_case, try_assign_address, assign_first, assign_to, assign,
}
use kubeip.Address.Oci.Cases.{IsReserved, Answers, handle_public_ip_already_assigned_case-Handled}

module _ {W : Type 0} (a : OciAssigner W) where
  -- A fresh read of the address found it available, and the update that gives it to the private
  -- address was the last call.
  abbrev pub Linked : String → String → W → Type 0
  Linked private_ip id w' =
      (v : W) × (v1 : W) × (found : PublicIp) × (own : String) × Ran
        (a.network_svc.get_public_ip id) v (some found) v1
      × (is_available found.lifecycle_state ≡ true)
      × (found.id ≡ some own)
      × Ran (a.network_svc.update_public_ip own private_ip) v1 tt w'

  Linked-by :
      (private_ip id : String) (answer : Option PublicIp) (w v w' : W)
      → Ran (a.network_svc.get_public_ip id) w answer v
      → Ran (try_assign_address a private_ip id) w tt w'
      → Linked private_ip id w'
  unfolding try_assign_address
  Linked-by private_ip id none w v w' got h = absurd (ground (arith, rw got at h))
  Linked-by private_ip id (some found) w v w' got h =
      elim (if-Ran (is_available found.lifecycle_state) _ _ v (rw got at h)) [
        | inl (free, h1) ↦
            let (own, v1, there, h2) = >>=-Ran (deref found.id) _ v h1 in
            let (same_id, same) = deref-Ran found.id v there in
            let done = wrapped-Ran _ (a.network_svc.update_public_ip own private_ip) v1 h2 in
            (
              w,
              v,
              found,
              own,
              got,
              free,
              same_id,
              Ran-same (a.network_svc.update_public_ip own private_ip) (sym same) refl refl done,
            )
        | inr (busy, h1) ↦ absurd (ground (arith, h1))
      ]

  try_assign_address-Linked :
      (private_ip id : String) (w w' : W)
      → Ran (try_assign_address a private_ip id) w tt w'
      → Linked private_ip id w'
  unfolding try_assign_address
  try_assign_address-Linked private_ip id w w' h =
      let (answer, v, got, rest) = wrapped>>=-Ran _ (a.network_svc.get_public_ip id) _ w h in
      Linked-by private_ip id answer w v w' got h

  -- The public address is the record's, which was linked.
  abbrev pub LinkedAs : String → PublicIp → String → W → Type 0
  LinkedAs private_ip ip address w' =
      (ip.ip_address ≡ some address) × ((id : String) × (ip.id ≡ some id) × Linked private_ip id w')

  module _ (private_ip : String) where
    -- What follows a try.
    after_try :
        (ip : PublicIp) (ips : List PublicIp) (id address : String) (w1 w2 w' : W)
        (r : Result (Unit {0}))
        → ip.id ≡ some id
        → try_assign_address a private_ip id w1 ≡ (r, w2)
        → Ran
            (elim r [
              | ok t ↦ deref ip.ip_address
              | err e ↦ deref ip.ip_address >>= (λ s. assign_first a private_ip ips)
              | panic ↦ crash
              | unfinished ↦ no_fuel
            ])
            w2
            address
            w'
        → LinkedAs private_ip ip address w'
          ⊎ ((v : W) × Ran (assign_first a private_ip ips) v address w')
    after_try ip ips id address w1 w2 w' (ok t) there tried h =
        let (shown, same) = deref-Ran ip.ip_address w2 h in
        inl (
          shown,
          (
            id,
            there,
            try_assign_address-Linked private_ip id w1 w' (tried ∙ ap (λ v. (ok tt, v)) same),
          ),
        )
    after_try ip ips id address w1 w2 w' (err e) there tried h =
        let (s, v, shown, rest) = >>=-Ran (deref ip.ip_address) _ w2 h in inr (v, rest)
    after_try ip ips id address w1 w2 w' panic there tried h = absurd (ground arith)
    after_try ip ips id address w1 w2 w' unfinished there tried h = absurd (ground arith)

    -- The address is one of the list's, and was linked as the last call.
    abbrev pub Granted : List PublicIp → String → W → Type 0
    Granted ips address w' = (ip : PublicIp) × In ip ips × LinkedAs private_ip ip address w'

    assign_first-Granted :
        (ips : List PublicIp) (address : String) (w w' : W)
        → Ran (assign_first a private_ip ips) w address w'
        → Granted ips address w'
    unfolding assign_first
    assign_first-Granted [] address w w' h = absurd (ground arith)
    assign_first-Granted (ip ∷ ips) address w w' h =
        let (id, w1, there, h1) = >>=-Ran (deref ip.id) _ w h in
        let (r, w2, tried, h2) = >>=-Ran (attempt (try_assign_address a private_ip id)) _ w1 h1 in
        elim (after_try ip ips id address w1 w2 w' r (deref-Ran ip.id w there).0
          (attempt-Ran (try_assign_address a private_ip id) w1 tried) h2) [
            | inl linked ↦ (ip, inl refl, linked)
            | inr (v, rest) ↦
                let (other, at, linked) = assign_first-Granted ips address v w' rest in
                (other, inr at, linked)
          ]

  -- The primary private address of the VNIC was read, and then the reserved addresses, and one that
  -- the list shows as available was given to that private address as the last call.
  abbrev pub FromReserved : String → String → W → W → Type 0
  FromReserved vnic_id address w w' =
      (private : PrivateIp) × (private_ip : String) × (reserved : List PublicIp) × (v v1 : W) × Ran
        (a.network_svc.get_primary_private_ip_of_vnic vnic_id) w private v
      × (private.id ≡ some private_ip)
      × Ran (fetch_public_ips a true false) v reserved v1
      × Granted private_ip reserved address w'

  assign_to-FromReserved :
      (vnic_id address : String) (w w' : W)
      → Ran (assign_to a vnic_id) w address w'
      → FromReserved vnic_id address w w'
  unfolding assign_to
  assign_to-FromReserved vnic_id address w w' h =
      let (private, w1, got, h1) =
        wrapped>>=-Ran _ (a.network_svc.get_primary_private_ip_of_vnic vnic_id) _ w h in
      let (private_ip, w2, there, h2) = >>=-Ran (deref private.id) _ w1 h1 in
      let (known, still) = deref-Ran private.id w1 there in
      let (reserved, w3, listed, h3) = wrapped>>=-Ran _ (fetch_public_ips a true false) _ w2 h2 in
      let (t, w4, full, h4) = >>=-Ran (fail_if (is_empty reserved) _) _ w3 h3 in
      (
        private,
        private_ip,
        reserved,
        w1,
        w3,
        got,
        known,
        Ran-same (fetch_public_ips a true false) (sym still) refl refl listed,
        assign_first-Granted private_ip reserved address w4 w' h4,
      )

  -- The VNIC has one of the reserved addresses that pass the filters.
  abbrev pub Kept : Vnic → String → W → W → Type 0
  Kept vnic ip w1 w' = (vnic.public_ip ≡ some ip) × IsReserved a ip w1 w'

  -- The VNIC has none of them, what else it had was dropped, and an address was given to it.
  abbrev pub Renewed : Vnic → String → W → W → Type 0
  Renewed vnic ip w1 w' =
      (vnic_id : String) × (v : W) × (vnic.id ≡ some vnic_id)
      × Answers a vnic false w1 v
      × FromReserved vnic_id ip v w'

  Kept-by :
      (vnic : Vnic) (ip : String) (w1 w' : W)
      → vnic.public_ip ≡ some ip
      → Answers a vnic true w1 w'
      → Kept vnic ip w1 w'
  Kept-by vnic ip w1 w' shown (inl (nothing, bad, same)) = absurd (ground (arith, bad))
  Kept-by vnic ip w1 w' shown (inr (held, there, inl (kept, reserved))) =
      let same : held ≡ ip = ground (arith, there, shown) in
      (shown, subst (λ x. IsReserved a x w1 w') same reserved)
  Kept-by vnic ip w1 w' shown (inr (held, there, inr (bad, dropped))) = absurd (ground (arith, bad))

  -- A successful `Assign` of Oracle Cloud read the primary VNIC of the instance. Either the filtered
  -- list of reserved addresses in use has the VNIC's address, which is returned with the error that
  -- says so, without a further call. Or the VNIC has no address, or one that this list does not have
  -- and that was dropped; then the VNIC's primary private address was read, and one of the available
  -- reserved addresses is returned without error, given to that private address as the last call after
  -- a fresh read that found it available.
  pub assign-Granted :
      (instance_ocid zone order_by ip : String) (filter : List String) (e : Option Error) (w w' : W)
      → Ran (assign a instance_ocid zone filter order_by) w (ip, e) w'
      → (vnic : Vnic) × (w1 : W) × Ran (get_primary_vnic_of_instance a instance_ocid) w vnic w1
        × ((Kept vnic ip w1 w' × (e ≡ some (sentinel static_ip_already_assigned)))
            ⊎ (Renewed vnic ip w1 w' × (e ≡ none)))
  unfolding assign
  assign-Granted instance_ocid zone order_by ip filter e w w' h =
      let (vnic, w1, got, h1) = >>=-Ran (get_primary_vnic_of_instance a instance_ocid) _ w h in
      let (vnic_id, w2, there, h2) = >>=-Ran (deref vnic.id) _ w1 h1 in
      let handle = handle_public_ip_already_assigned_case a (some vnic) in
      let (already, w3, checked, h3) = wrapped>>=-Ran _ handle _ w2 h2 in
      let (own, starts) = deref-Ran vnic.id w1 there in
      let start = sym starts in
      (
        vnic,
        w1,
        got,
        elim (if-Ran already _ _ w3 h3) [
          | inl (held, h4) ↦
              let (p, w4, read, last) = >>=-Ran (deref vnic.public_ip) _ w3 h4 in
              let (shown, same) = deref-Ran vnic.public_ip w3 read in
              let end : w4 ≡ w' = ground (arith, last) in
              let same_ip : p ≡ ip = ground (arith, last) in
              inl (
                Kept-by vnic ip w1 w' (shown ∙ ap some same_ip) (
                    handle_public_ip_already_assigned_case-Handled a vnic w1 w' true
                      (Ran-same handle start held (same ∙ end) checked)),
                ground (arith, last),
              )
          | inr (free, h4) ↦
              let (address, w4, ran, last) = >>=-Ran (assign_to a vnic_id) _ w3 h4 in
              let end : w4 ≡ w' = ground (arith, last) in
              let same_ip : address ≡ ip = ground (arith, last) in
              inr (
                (
                  vnic_id,
                  w3,
                  own,
                  handle_public_ip_already_assigned_case-Handled a vnic w1 w3 false
                      (Ran-same handle start free refl checked),
                  assign_to-FromReserved vnic_id ip w3 w'
                      (Ran-same (assign_to a vnic_id) refl same_ip end ran),
                ),
                ground (arith, last),
              )
        ],
      )

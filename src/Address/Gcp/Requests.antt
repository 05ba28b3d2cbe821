-- ===== src/Address/Gcp/Requests.antt =====
-- What the internal assigner of internal/address/gcp.go asks of the service.
use kubeip.Base.{
  ℕ, String, false, Option, ◌≡◌, ◌≢◌, refl, sym, ap, subst, ◌∙◌, arith, Result, ok, err, panic,
  unfinished, Ran, Ran-same, >>=-Ran, wrapped>>=-Ran, attempt-Ran, attempt, lift, eq_iff, Context,
}
use kubeip.Cloud.Gcp.{AccessConfig, NetworkInterface, Instance, Address, Operation}
use kubeip.Address.Gcp.Parts.{get_network_interface, get_access_config, create_access_config}
use kubeip.Address.Gcp.{
  GcpAssigner, settled, wait_for_operation, delete_instance_address, add_instance_address,
  check_address_assigned,
}

lift-Ran :
    {W A : Type 0} (r : Result A) (w : W) {a : A} {w' : W}
    → Ran (lift r) w a w'
    → (r ≡ ok a) × (w ≡ w')
lift-Ran r w h = (ap (λ p. p.0) h, ap (λ p. p.1) h)

-- Behind a wait no call is made.
settled-Ran : {W : Type 0} (r : Result (Unit {0})) (v w' : W) → Ran (settled r) v tt w' → v ≡ w'
settled-Ran (ok t) v w' h = ground arith
settled-Ran (err e) v w' h = ground arith
settled-Ran panic v w' h = absurd (ground arith)
settled-Ran unfinished v w' h = absurd (ground arith)

module _ {W : Type 0} (g : GcpAssigner W) (ctx : Context W) (fuel : ℕ) (zone : String) where
  -- The state after the wait for an operation, however it ended.
  abbrev pub Waited : Option Operation → W → W → Type 0
  Waited op v w' = (wait_for_operation g ctx fuel op zone v).1 ≡ w'

  Waited-settled :
      (op : Option Operation) (v w' : W) (r : Result (Unit {0})) (v1 : W)
      → Ran (attempt (wait_for_operation g ctx fuel op zone)) v r v1
      → Ran (settled r) v1 tt w'
      → Waited op v w'
  Waited-settled op v w' r v1 waited ends =
      ap (λ p. p.1) (attempt-Ran (wait_for_operation g ctx fuel op zone) v waited)
      ∙ settled-Ran r v1 w' ends

  -- The service accepted a request to add the configuration to the instance's first interface, and
  -- nothing but the wait for it came behind.
  abbrev pub IsAdded : Instance → AccessConfig → W → W → Type 0
  IsAdded inst config w w' =
      (ni : NetworkInterface) × (op : Option Operation) × (v : W) × (get_network_interface inst
        ≡ ok ni)
      × Ran
          (g.address_manager.add_access_config g.project zone inst.name ni.name ni.fingerprint
            config)
          w op v
      × Waited op v w'

  -- The same of a request to delete the configuration that the interface has.
  abbrev pub IsRemoved : Instance → W → W → Type 0
  IsRemoved inst w w' =
      (ni : NetworkInterface) × (config : AccessConfig) × (op : Option Operation) × (v : W)
      × (get_network_interface inst ≡ ok ni)
      × (get_access_config ni g.ipv6 ≡ ok config)
      × Ran
          (g.address_manager.delete_access_config g.project zone inst.name config.name ni.name
            ni.fingerprint)
          w op v
      × Waited op v w'

  -- The address of this name was read, and its status was not that of one in use.
  abbrev pub ReadFree : String → W → W → Type 0
  ReadFree name w w' =
      (x : Address) × Ran (g.address_manager.get_address g.project g.region name) w x w'
      × (x.status ≢ "IN_USE")

  pub add_instance_address-IsAdded :
      (inst : Instance) (address : Option Address) (w w' : W)
      → Ran (add_instance_address g ctx fuel inst zone address) w tt w'
      → IsAdded inst (create_access_config address g.ipv6) w w'
  unfolding add_instance_address
  add_instance_address-IsAdded inst address w w' h =
      let (ni, w1, a, h1) = wrapped>>=-Ran _ (lift (get_network_interface inst)) _ w h in
      let (known, still) = lift-Ran (get_network_interface inst) w a in
      let add =
        g.address_manager.add_access_config g.project zone inst.name ni.name ni.fingerprint
          (create_access_config address g.ipv6) in
      let (op, v, added, h2) = wrapped>>=-Ran _ add _ w1 h1 in
      let (r, v1, waited, ends) =
        >>=-Ran (attempt (wait_for_operation g ctx fuel op zone)) _ v h2 in
      (
        ni,
        op,
        v,
        known,
        Ran-same add (sym still) refl refl added,
        Waited-settled op v w' r v1 waited ends,
      )

  pub delete_instance_address-IsRemoved :
      (inst : Instance) (w w' : W)
      → Ran (delete_instance_address g ctx fuel inst zone) w tt w'
      → IsRemoved inst w w'
  unfolding delete_instance_address
  delete_instance_address-IsRemoved inst w w' h =
      let (ni, w1, a, h1) = wrapped>>=-Ran _ (lift (get_network_interface inst)) _ w h in
      let (known, still) = lift-Ran (get_network_interface inst) w a in
      let (config, w2, b, h2) = wrapped>>=-Ran _ (lift (get_access_config ni g.ipv6)) _ w1 h1 in
      let (has, still2) = lift-Ran (get_access_config ni g.ipv6) w1 b in
      let delete =
        g.address_manager.delete_access_config g.project zone inst.name config.name ni.name
          ni.fingerprint in
      let (op, v, deleted, h3) = wrapped>>=-Ran _ delete _ w2 h2 in
      let (r, v1, waited, ends) =
        >>=-Ran (attempt (wait_for_operation g ctx fuel op zone)) _ v h3 in
      (
        ni,
        config,
        op,
        v,
        known,
        has,
        Ran-same delete (sym (still ∙ still2)) refl refl deleted,
        Waited-settled op v w' r v1 waited ends,
      )

  pub check_address_assigned-ReadFree :
      (name : String) (w w' : W)
      → Ran (check_address_assigned g ctx fuel g.region name) w false w'
      → ReadFree name w w'
  unfolding check_address_assigned
  check_address_assigned-ReadFree name w w' h =
      let get = g.address_manager.get_address g.project g.region name in
      let (x, v, got, rest) = wrapped>>=-Ran _ get _ w h in
      let same : v ≡ w' = ground (arith, rest) in
      (
        x,
        subst (Ran get w x) same got,
        λ used. ground (arith, rest, used, eq_iff x.status "IN_USE"),
      )

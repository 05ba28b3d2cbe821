-- ===== src/Address/Gcp.antt =====
-- internal/address/gcp.go: the assigner of Google Cloud. Logging is left out.
pub mod Parts
pub mod Tries
pub mod Requests
pub mod Retries
pub mod Choice
pub mod Release
pub mod Assignment
pub mod Users
pub mod Pages
pub mod Waits
use kubeip.Base.{
  ℕ, zero, suc, String, Bool, true, false, not, ◌&&◌, Option, none, some, List, [], ◌∷◌, ◌++◌, ◌<>◌,
  ◌==◌, is_empty, Error, sentinel, static_ip_already_assigned, no_static_ip_assigned,
  no_public_ip_assigned, canceled, errors_is, message, operation_error, wrap, Result, ok, err,
  panic, unfinished, Action, return, fail, crash, no_fuel, lift, wrapped, attempt, fail_if, Context,
  ◌>>=◌, ◌>>◌, if◌then◌else◌,
}
use kubeip.Base.Dict
use kubeip.Cloud.Gcp.{
  AccessConfig, Instance, Address, Operation, ListCall, list_call, AddressList, ComputeClient,
  AddressManager, InstanceGetter, Lister, ZoneWaiter, address_manager, instance_getter, lister,
  zone_waiter,
}
use kubeip.Address.Interface.{Assigner}
use Tries.{InternalAssigner, try_assign_address, retry_add_ephemeral_address, assign_first}
use Parts.{
  operation_done, in_use_status, reserved_status, max_retries, is_operation_error,
  get_network_interface, get_access_config, create_access_config, create_user_map, address_filter,
  region_of_location,
}

pub record GcpAssigner (W : Type 0) : Type 0 where
  pub lister : Lister W
  pub waiter : ZoneWaiter W
  pub address_manager : AddressManager W
  pub instance_getter : InstanceGetter W
  pub project : String
  pub region : String
  pub ipv6 : Bool

-- What an ended wait means for its caller: only an operation's own error is returned.
abbrev pub settled : {W : Type 0} → Result (Unit {0}) → Action W (Unit {0})
settled (ok t) = return tt
settled (err e) = if is_operation_error e then fail e else return tt
settled panic = crash
settled unfinished = no_fuel

-- The fuel bounds the rounds of a wait and the pages of a list.
module _ {W : Type 0} (g : GcpAssigner W) (ctx : Context W) (fuel : ℕ) where
  -- The loop of `waitForOperation`; a wait that answers with nil panics at the next test.
  unfoldable pub wait_from : ℕ → String → String → Option Operation → Action W (Unit {0})
  wait_from n zone name none = crash
  wait_from zero zone name (some op) = if op.status == operation_done then return tt else no_fuel
  wait_from (suc n) zone name (some op) = if op.status == operation_done then return tt else do
    answer ← attempt (g.waiter.wait g.project zone name)
    elim answer [
      | ok none ↦ crash
      | ok (some op') ↦ elim op'.error [
        | some errors ↦ fail (operation_error op'.name errors)
        | none ↦ wait_from n zone name (some op')
      ]
      | err e ↦
          if errors_is e canceled
          then fail (message "operation timed out")
          else fail (wrap e ("failed to get operation " <> name))
      | panic ↦ crash
      | unfinished ↦ no_fuel
    ]

  unfoldable pub wait_for_operation : Option Operation → String → Action W (Unit {0})
  wait_for_operation none zone = return tt
  wait_for_operation (some op) zone = wait_from fuel zone op.name (some op)

  unfoldable pub delete_instance_address : Instance → String → Action W (Unit {0})
  delete_instance_address inst zone = do
    ni ← wrapped "failed to get instance network interface" (lift (get_network_interface inst))
    config ←
        wrapped "failed to get instance network interface access config"
          (lift (get_access_config ni g.ipv6))
    op ←
        wrapped ("failed to delete access config " <> config.name <> " from instance " <> inst.name)
          (g.address_manager.delete_access_config g.project zone inst.name config.name ni.name
            ni.fingerprint)
    waited ← attempt (wait_for_operation op zone)
    settled waited

  unfoldable pub add_instance_address : Instance → String → Option Address → Action W (Unit {0})
  add_instance_address inst zone address = do
    ni ← wrapped "failed to get instance network interface" (lift (get_network_interface inst))
    op ← wrapped ("failed to add access config to instance " <> inst.name) (
        g.address_manager.add_access_config g.project zone inst.name ni.name ni.fingerprint
          (create_access_config address g.ipv6))
    waited ← attempt (wait_for_operation op zone)
    settled waited

  unfoldable pub check_address_assigned : String → String → Action W Bool
  check_address_assigned region address_name = do
    address ←
        wrapped ("failed to get address " <> address_name)
          (g.address_manager.get_address g.project region address_name)
    return (address.status == in_use_status)

  abbrev pub internal_assigner : InternalAssigner W
  internal_assigner = record {
    check_address_assigned = check_address_assigned;
    add_instance_address = add_instance_address;
    delete_instance_address = delete_instance_address;
  }

  -- The loop over the pages of a list.
  unfoldable pub list_from : ℕ → ListCall → List Address → Action W (List Address)
  list_from zero call addresses = no_fuel
  list_from (suc n) call addresses = do
    page ← wrapped "failed to list available addresses" (g.lister.do_call call)
    let more =
        list_from n (record call { page_token = page.next_page_token }) (addresses ++ page.items)
    if page.next_page_token == "" then return (addresses ++ page.items) else more

  unfoldable pub list_addresses : List String → String → String → Action W (List Address)
  list_addresses filter order_by status =
      let call = list_call g.project g.region in
      let filtered = record call { filter = address_filter g.ipv6 filter status } in
      list_from fuel (if order_by == "" then filtered else record filtered { order_by = order_by })
        []

  -- The instance, or the address that it already has with the error that says so.
  unfoldable pub check_static_ip_assigned :
      String → String → Action W (Option Instance × String × Option Error)
  check_static_ip_assigned zone instance_id = do
    inst ←
        wrapped ("failed to get instance " <> instance_id)
          (g.instance_getter.get g.project zone instance_id)
    assigned ← wrapped "failed to list assigned addresses" (list_addresses [] "" in_use_status)
    elim (Dict.lookup inst.self_link (create_user_map assigned)) [
      | some address ↦ return (none, address, some (sentinel static_ip_already_assigned))
      | none ↦ return (some inst, "", none)
    ]

  -- The call of `DeleteInstanceAddress` in `Assign`: no public address is no failure.
  unfoldable pub drop_ephemeral : Instance → String → Action W (Unit {0})
  drop_ephemeral inst zone = do
    dropped ← attempt (delete_instance_address inst zone)
    elim dropped [
      | ok t ↦ return tt
      | err e ↦
          if errors_is e no_public_ip_assigned
          then return tt
          else fail (wrap e "failed to delete current public IP address")
      | panic ↦ crash
      | unfinished ↦ no_fuel
    ]

  -- `Assign` behind the check of the instance.
  unfoldable pub assign_to : Instance → String → String → List String → String → Action W String
  assign_to inst instance_id zone filter order_by = do
    addresses ←
        wrapped "failed to list available addresses"
          (list_addresses filter order_by reserved_status)
    fail_if (is_empty addresses) (message "no available addresses")
    drop_ephemeral inst zone
    refreshed ←
        wrapped ("failed refresh network interface fingerprint for instance " <> instance_id)
          (g.instance_getter.get g.project zone instance_id)
    assign_first internal_assigner ctx addresses refreshed g.region zone none

  -- An error of the check, with the address that came beside it.
  checked_error : String → String → Error → Action W (String × Option Error)
  checked_error instance_id address e =
      if errors_is e static_ip_already_assigned
      then return (address, none)
      else fail
          (wrap e ("check if static public IP is already assigned to instance " <> instance_id))

  -- A nil instance comes with an error only.
  unfoldable pub assign : String → String → List String → String → Action W (String × Option Error)
  unfolding checked_error
  assign instance_id zone filter order_by = do
    checked ← attempt (check_static_ip_assigned zone instance_id)
    elim checked [
      | ok (inst, address, some e) ↦ checked_error instance_id address e
      | ok (none, address, none) ↦ crash
      | ok (some inst, address, none) ↦ do
        assigned ← assign_to inst instance_id zone filter order_by
        return (assigned, none)
      | err e ↦ checked_error instance_id "" e
      | panic ↦ crash
      | unfinished ↦ no_fuel
    ]

  unfoldable pub unassign : String → String → Action W (Unit {0})
  unassign instance_id zone = do
    inst ←
        wrapped ("failed to get instance " <> instance_id)
          (g.instance_getter.get g.project zone instance_id)
    assigned ← wrapped "failed to list assigned addresses" (list_addresses [] "" in_use_status)
    fail_if (is_empty assigned) (sentinel no_static_ip_assigned)
    elim (Dict.lookup inst.self_link (create_user_map assigned)) [
      | none ↦ return tt
      | some address ↦ do
        wrapped "failed to delete current public IP address" (delete_instance_address inst zone)
        refreshed ←
            wrapped ("failed refresh network interface fingerprint for instance " <> instance_id)
              (g.instance_getter.get g.project zone instance_id)
        wrapped "failed to assign ephemeral public IP address"
            (retry_add_ephemeral_address internal_assigner ctx refreshed zone)
    ]

  abbrev pub gcp_assigner : Assigner W
  gcp_assigner = record { assign = assign; unassign = unassign }

-- `NewGCPAssigner` over the client's constructor and the metadata server.
module _ {W : Type 0} (new_service : Action W (ComputeClient W)) (project_id : Action W String)
    (instance_attribute : String → Action W String) where
  unfoldable pub gcp_settings : String → String → Bool → Action W (GcpAssigner W)
  gcp_settings project region ipv6 = do
    client ← wrapped "failed to initialize Google Cloud client" new_service
    project' ←
        (if project == ""
          then wrapped "failed to get project ID from metadata server" project_id
          else return project)
    region' ←
        (if region == ""
          then (do
            location ←
                wrapped "failed to get region from metadata server"
                  (instance_attribute "cluster-location")
            return (region_of_location location))
          else return region)
    return (record {
      lister = lister client;
      waiter = zone_waiter client;
      address_manager = address_manager client ipv6;
      instance_getter = instance_getter client;
      project = project';
      region = region';
      ipv6 = ipv6;
    })

  unfoldable pub new_gcp_assigner : Context W → ℕ → String → String → Bool → Action W (Assigner W)
  new_gcp_assigner ctx fuel project region ipv6 = do
    g ← gcp_settings project region ipv6
    return (gcp_assigner g ctx fuel)

-- ===== src/Address/Aws.antt =====
-- internal/address/aws.go: the assigner of AWS. Messages are kept, logging is not, but for the
-- pointers that a log line reads.
pub mod Filter
pub mod Sort
pub mod Primary
pub mod Choice
pub mod Release
pub mod Faults
use kubeip.Base.{
  ℕ, String, Bool, true, false, Option, none, some, List, [], ◌∷◌, ◌<>◌, ◌==◌, nat_eq, is_empty,
  Error, sentinel, static_ip_already_assigned, no_static_ip_assigned, message, wrap, Result, ok,
  err, panic, unfinished, Action, return, fail, crash, no_fuel, deref, lift, wrapped, attempt,
  fail_if, ◌>>=◌, ◌>>◌, if◌then◌else◌,
}
use kubeip.Base.Dict
use kubeip.Base.Dict.{Dict}
use kubeip.Cloud.Aws.{
  Address, NetworkInterface, Instance, EipLister, EipAssigner, Ec2InstanceGetter, Ec2Client,
  is_some, ec2_instance_getter, eip_lister, eip_assigner,
}
use kubeip.Address.Interface.{Assigner}
use Filter.{parse_shorthand_filter}
use Sort.{sort_addresses_by_field}

-- The filters of a run, as a map by name: a later filter of the same name wins.
unfoldable pub filter_map_from : Dict (List String) → List String → Result (Dict (List String))
filter_map_from filters [] = ok filters
filter_map_from filters (f ∷ fs) = elim (parse_shorthand_filter f) [
  | ok (name, values) ↦ filter_map_from (Dict.insert name values filters) fs
  | err e ↦ err (wrap e ("failed to parse filter " <> f))
  | panic ↦ panic
  | unfinished ↦ unfinished
]

-- `ni.Association != nil && ... && *ni.Attachment.DeviceIndex == 0`.
abbrev pub is_index_zero : Option (Option ℕ) → Bool
is_index_zero none = false
is_index_zero (some none) = false
is_index_zero (some (some i)) = nat_eq i 0

abbrev pub has_public_ip : Option (Option String) → Bool
has_public_ip none = false
has_public_ip (some ip) = is_some ip

abbrev pub is_primary_public : NetworkInterface → Bool
is_primary_public ni = if has_public_ip ni.association then is_index_zero ni.attachment else false

-- The loop over the interfaces: the ID of the first that fits, or "".
unfoldable pub primary_interface_id : {W : Type 0} → List NetworkInterface → Action W String
primary_interface_id [] = return ""
primary_interface_id (ni ∷ nis) =
    let rest = primary_interface_id nis in
    if is_primary_public ni then deref ni.network_interface_id else rest

-- A nil instance panics at the first field that is read.
unfoldable pub get_network_interface_id : {W : Type 0} → Option Instance → Action W String
get_network_interface_id instance_opt = do
  inst ← deref instance_opt
  network_interface_id ←
      (if is_empty inst.network_interfaces
        then (do
          id ← deref inst.instance_id
          fail (message ("no network interfaces found for instance " <> id)))
        else primary_interface_id inst.network_interfaces)
  if network_interface_id == ""
      then (do
        id ← deref inst.instance_id
        fail (message ("no network interfaces with public IP address found for instance " <> id)))
      else return network_interface_id

pub record AwsAssigner (W : Type 0) : Type 0 where
  pub region : String
  pub instance_getter : Ec2InstanceGetter W
  pub eip_lister : EipLister W
  pub eip_assigner : EipAssigner W

abbrev pub first_in_use : List Address → Bool
first_in_use [] = false
first_in_use (a ∷ rest) = is_some a.association_id

abbrev pub by_name : String → String → Dict (List String)
by_name name value = (name, value ∷ []) ∷ []

-- Wrapping with a message that reads a pointer: only an error reads it.
abbrev pub wrap_at : {A : Type 0} → Option String → String → String → Result A → Result A
wrap_at p before after (ok a) = ok a
wrap_at none before after (err e) = panic
wrap_at (some s) before after (err e) = err (wrap e (before <> s <> after))
wrap_at p before after panic = panic
wrap_at p before after unfinished = unfinished

abbrev pub wrapped_at : {W A : Type 0} → Option String → String → String → Action W A → Action W A
wrapped_at p before after act w = let (r, w') = act w in (wrap_at p before after r, w')

module _ {W : Type 0} (a : AwsAssigner W) where
  unfoldable pub force_check_address_assigned : String → Action W Bool
  force_check_address_assigned allocation_id = do
    addresses ←
        wrapped ("failed to list elastic IPs by allocation-id " <> allocation_id)
          (a.eip_lister.list (by_name "allocation-id" allocation_id) true)
    return (first_in_use addresses)

  unfoldable pub check_elastic_ip_assigned : String → Action W (Unit {0})
  check_elastic_ip_assigned instance_id = do
    addresses ←
        wrapped ("failed to list elastic IPs attached to instance " <> instance_id)
          (a.eip_lister.list (by_name "instance-id" instance_id) true)
    if is_empty addresses then return tt else fail (sentinel static_ip_already_assigned)

  unfoldable pub get_assigned_elastic_ip : String → Action W Address
  get_assigned_elastic_ip instance_id = do
    addresses ←
        wrapped ("failed to list elastic IPs attached to instance " <> instance_id)
          (a.eip_lister.list (by_name "instance-id" instance_id) true)
    elim addresses [ [] ↦ fail (sentinel no_static_ip_assigned) | x ∷ rest ↦ return x ]

  -- The log line reads the public IP of every address.
  read_public_ips : List Address → Action W (Unit {0})
  read_public_ips [] = return tt
  read_public_ips (x ∷ xs) = do ip ← deref x.public_ip; read_public_ips xs

  unfoldable pub get_available_elastic_ips : List String → String → Action W (List Address)
  unfolding read_public_ips
  get_available_elastic_ips filter order_by = do
    filters ← lift (filter_map_from [] filter)
    addresses ← wrapped "failed to list available elastic IPs" (a.eip_lister.list filters false)
    fail_if (is_empty addresses) (message "no available elastic IPs")
    sorted ← lift (sort_addresses_by_field addresses order_by)
    read_public_ips sorted
    return sorted

  unfoldable pub try_assign_address : Address → String → String → Action W (Unit {0})
  try_assign_address address network_interface_id instance_id = do
    allocation_id ← deref address.allocation_id
    address_assigned ←
        wrapped_at address.public_ip "failed to check if address " " is assigned"
          (force_check_address_assigned allocation_id)
    if address_assigned
        then (do
          public_ip ← deref address.public_ip
          fail (message ("address " <> public_ip <> " is already assigned")))
        else return tt
    wrapped_at address.public_ip "failed to assign elastic IP " (" to the instance " <> instance_id)
        (a.eip_assigner.assign network_interface_id allocation_id)

  -- The loop over the addresses, with the last error.
  unfoldable pub assign_first : List Address → String → String → Option Error → Action W String
  assign_first [] ni id none = return ""
  assign_first [] ni id (some e) = fail (wrap e "failed to assign elastic IP address")
  assign_first (x ∷ xs) ni id last = do
    public_ip ← deref x.public_ip
    allocation_id ← deref x.allocation_id
    tried ← attempt (try_assign_address x ni id)
    elim tried [
      | ok t ↦ return public_ip
      | err e ↦ assign_first xs ni id (some e)
      | panic ↦ crash
      | unfinished ↦ no_fuel
    ]

  unfoldable pub assign : String → String → List String → String → Action W (String × Option Error)
  assign instance_id zone filter order_by = do
    wrapped ("check if elastic IP is already assigned to instance " <> instance_id)
        (check_elastic_ip_assigned instance_id)
    addresses ←
        wrapped "failed to get available elastic IPs" (get_available_elastic_ips filter order_by)
    instance_opt ←
        wrapped ("failed to get instance " <> instance_id)
          (a.instance_getter.get instance_id a.region)
    network_interface_id ←
        wrapped ("failed to get network interface ID for instance " <> instance_id)
          (get_network_interface_id instance_opt)
    address ← assign_first addresses network_interface_id instance_id none
    return (address, none)

  -- The log line after the call reads the three pointers.
  unfoldable pub unassign : String → String → Action W (Unit {0})
  unassign instance_id zone = do
    address ←
        wrapped ("check if elastic IP is assigned to instance " <> instance_id)
          (get_assigned_elastic_ip instance_id)
    association_id ← deref address.association_id
    wrapped "failed to unassign elastic IP" (a.eip_assigner.unassign association_id)
    public_ip ← deref address.public_ip
    allocation_id ← deref address.allocation_id
    return tt

  abbrev pub aws_assigner : Assigner W
  aws_assigner = record { assign = assign; unassign = unassign }

-- The assigner over the three services of a client.
abbrev pub over_client : {W : Type 0} → Ec2Client W → String → AwsAssigner W
over_client client region = record {
  region = region;
  instance_getter = ec2_instance_getter client;
  eip_lister = eip_lister client;
  eip_assigner = eip_assigner client;
}

-- `NewAwsAssigner`: the default configuration for the region, and the client made of it.
module _ {W AwsConfig : Type 0} (load_default_config : String → Action W AwsConfig)
    (new_from_config : AwsConfig → Ec2Client W) where
  unfoldable pub new_aws_assigner : String → Action W (Assigner W)
  new_aws_assigner region = do
    cfg ← wrapped "failed to load AWS config" (load_default_config region)
    return (aws_assigner (over_client (new_from_config cfg) region))

-- ===== src/Address/Oci.antt =====
-- internal/address/oci.go: the assigner of Oracle Cloud Infrastructure. Logging is left out, but
-- for the pointers that a log line reads.
pub mod Choice
pub mod Cases
pub mod Release
use kubeip.Base.{
  String, Bool, true, false, Option, none, some, List, [], ◌∷◌, ◌<>◌, ◌==◌, has_prefix, filter,
  is_empty, Error, sentinel, static_ip_already_assigned, no_public_ip_assigned, message, wrap,
  Result, ok, err, panic, unfinished, Action, return, fail, crash, no_fuel, deref, lift, wrapped,
  attempt, fail_if, ◌>>=◌, ◌>>◌, if◌then◌else◌,
}
use kubeip.Base.Dict
use kubeip.Base.Dict.{Dict}
use kubeip.Types.Filters.{OciFilters, parse_freeform_tag_filter}
use kubeip.Cloud.Oci.{
  Lifecycle, available, assigned, other_state, PublicIp, Vnic, region_scope,
  availability_domain_scope, ComputeClient, NetworkClient, OciInstanceService, OciNetworkService,
  instance_service, network_service,
}
use kubeip.Address.Interface.{Assigner}

pub record OciAssigner (W : Type 0) : Type 0 where
  pub filters : Option OciFilters
  pub compartment_ocid : String
  pub instance_svc : OciInstanceService W
  pub network_svc : OciNetworkService W

-- The loop over the filters of the configuration; of two filters with one key the later stays.
unfoldable pub tags_from : Dict String → List String → Result (Dict String)
tags_from tags [] = ok tags
tags_from tags (f ∷ fs) =
    if has_prefix f "freeformTags."
    then elim (parse_freeform_tag_filter f) [
      | ok (key, value) ↦ tags_from (Dict.insert key value tags) fs
      | err e ↦ err (wrap e "failed to parse freeform tag filter")
      | panic ↦ panic
      | unfinished ↦ unfinished
    ]
    else err (
        message (
          "invalid filter format for OCI, should be in format freeformTags.key=value or definedTags.Namespace.key=value, found: "
          <> f))

-- A nil configuration is `none`; of the others only the filters are read.
unfoldable pub parse_oci_filters : Option (List String) → Result OciFilters
parse_oci_filters none = err (message "config is nil")
parse_oci_filters (some filters) = elim (tags_from [] filters) [
  | ok tags ↦ ok (record { freeform_tags = some tags })
  | err e ↦ err e
  | panic ↦ panic
  | unfinished ↦ unfinished
]

abbrev pub is_available : Lifecycle → Bool
is_available available = true
is_available assigned = false
is_available (other_state s) = false

abbrev pub is_assigned : Lifecycle → Bool
is_assigned available = false
is_assigned assigned = true
is_assigned (other_state s) = false

-- The test of the loop in `fetchPublicIps`.
abbrev pub in_state : Bool → PublicIp → Bool
in_state true ip = is_assigned ip.lifecycle_state
in_state false ip = is_available ip.lifecycle_state

-- `for _, ip := range list { if *ip.IpAddress == *publicIP …`: the first that fits.
unfoldable pub find_address : {W : Type 0} → String → List PublicIp → Action W (Option PublicIp)
find_address public_ip [] = return none
find_address public_ip (ip ∷ ips) = do
  address ← deref ip.ip_address
  let rest = find_address public_ip ips
  if address == public_ip then return (some ip) else rest

module _ {W : Type 0} (a : OciAssigner W) where
  unfoldable pub fetch_public_ips : Bool → Bool → Action W (List PublicIp)
  fetch_public_ips use_filter in_use = do
    listed ← wrapped "failed to list public IPs" (
        a.network_svc.list_public_ips
          (record {
            scope = region_scope;
            availability_domain = none;
            compartment_id = a.compartment_ocid;
          })
          (if use_filter then a.filters else none))
    return (filter (in_state in_use) listed)

  unfoldable pub fetch_ephemeral_public_ips : String → Action W (List PublicIp)
  fetch_ephemeral_public_ips availability_domain = wrapped "failed to list ephemeral public IPs" (
      a.network_svc.list_public_ips
        (record {
          scope = availability_domain_scope;
          availability_domain = some availability_domain;
          compartment_id = a.compartment_ocid;
        })
        none)

  unfoldable pub get_primary_vnic_of_instance : String → Action W Vnic
  get_primary_vnic_of_instance instance_ocid = do
    attachments ←
        wrapped "failed to list VNIC attachments"
          (a.instance_svc.list_vnic_attachments a.compartment_ocid instance_ocid)
    wrapped "failed to get primary VNIC" (a.network_svc.get_primary_vnic attachments)

  -- Case 3 of the handling below, and the error of case 4.
  unfoldable pub drop_ephemeral : Vnic → String → Action W Bool
  drop_ephemeral vnic public_ip = elim vnic.availability_domain [
    | none ↦ fail (message "availability domain not found")
    | some domain ↦ do
      listed ←
          wrapped "failed to list ephemeral public IPs assigned to private IP"
            (fetch_ephemeral_public_ips domain)
      found ← find_address public_ip listed
      elim found [
        | none ↦ fail (
            message
              "unhandled case: public IP is assigned to the instance but not from the reserved IP list")
        | some ip ↦ do
          id ← deref ip.id
          wrapped "failed to delete ephemeral public IP assigned to private IP"
              (a.network_svc.delete_public_ip id)
          return false
      ]
  ]

  -- Case 2, and then the others.
  unfoldable pub drop_public_ip : Vnic → String → Action W Bool
  drop_public_ip vnic public_ip = do
    listed ←
        wrapped "failed to list public IPs assigned to private IP" (fetch_public_ips false true)
    found ← find_address public_ip listed
    elim found [
      | none ↦ drop_ephemeral vnic public_ip
      | some ip ↦ do
        id ← deref ip.id
        wrapped "failed to unassign public IP assigned to private IP"
            (a.network_svc.update_public_ip id "")
        return false
    ]

  -- Case 1, and then the others.
  unfoldable pub handle_assigned_ip : Vnic → String → Action W Bool
  handle_assigned_ip vnic public_ip = do
    listed ←
        wrapped "failed to list reserved public IPs assigned to private IP"
          (fetch_public_ips true true)
    found ← find_address public_ip listed
    elim found [ none ↦ drop_public_ip vnic public_ip | some ip ↦ return true ]

  -- A nil VNIC is `none`.
  unfoldable pub handle_public_ip_already_assigned_case : Option Vnic → Action W Bool
  handle_public_ip_already_assigned_case none = return false
  handle_public_ip_already_assigned_case (some vnic) = elim vnic.public_ip [
    | none ↦ return false
    | some public_ip ↦ handle_assigned_ip vnic public_ip
  ]

  unfoldable pub try_assign_address : String → String → Action W (Unit {0})
  try_assign_address private_ip_ocid public_ip_ocid = do
    answer ← wrapped "failed to get public IP details" (a.network_svc.get_public_ip public_ip_ocid)
    elim answer [
      | none ↦ fail (message "public IP not found")
      | some public_ip ↦
          if is_available public_ip.lifecycle_state
          then (do
            id ← deref public_ip.id
            wrapped "failed to assign public IP"
                (a.network_svc.update_public_ip id private_ip_ocid))
          else fail (message "public IP is not available")
    ]

  -- The loop of `Assign`; the log line of a failed try reads the address.
  unfoldable pub assign_first : String → List PublicIp → Action W String
  assign_first private_ip_ocid [] = fail (message "failed to assign any IP")
  assign_first private_ip_ocid (ip ∷ ips) = do
    id ← deref ip.id
    tried ← attempt (try_assign_address private_ip_ocid id)
    elim tried [
      | ok t ↦ deref ip.ip_address
      | err e ↦ do address ← deref ip.ip_address; assign_first private_ip_ocid ips
      | panic ↦ crash
      | unfinished ↦ no_fuel
    ]

  -- `Assign` when the instance has no reserved address yet.
  unfoldable pub assign_to : String → Action W String
  assign_to vnic_id = do
    private_ip ←
        wrapped "failed to get primary VNIC private IP"
          (a.network_svc.get_primary_private_ip_of_vnic vnic_id)
    private_ip_id ← deref private_ip.id
    reserved ← wrapped "failed to get list of reserved public IPs" (fetch_public_ips true false)
    fail_if (is_empty reserved) (message "no reserved public IPs available")
    assign_first private_ip_id reserved

  unfoldable pub assign : String → String → List String → String → Action W (String × Option Error)
  assign instance_ocid zone filter order_by = do
    vnic ← get_primary_vnic_of_instance instance_ocid
    vnic_id ← deref vnic.id
    already_assigned ←
        wrapped "failed to check if public ip is already assigned or not"
          (handle_public_ip_already_assigned_case (some vnic))
    if already_assigned
        then (do
          public_ip ← deref vnic.public_ip
          return (public_ip, some (sentinel static_ip_already_assigned)))
        else (do address ← assign_to vnic_id; return (address, none))

  -- The loop of `Unassign`.
  unfoldable pub release_from : String → List PublicIp → Action W (Unit {0})
  release_from public_ip [] = fail (message "public IP not assigned from reserved list")
  release_from public_ip (ip ∷ ips) = do
    address ← deref ip.ip_address
    let rest = release_from public_ip ips
    let found = do
      id ← deref ip.id
      wrapped "failed to unassign public IP assigned to private IP"
          (a.network_svc.update_public_ip id "")
    if address == public_ip then (if is_assigned ip.lifecycle_state then found else rest) else rest

  unfoldable pub unassign : String → String → Action W (Unit {0})
  unassign instance_ocid zone = do
    vnic ← get_primary_vnic_of_instance instance_ocid
    elim vnic.public_ip [
      | none ↦ fail (sentinel no_public_ip_assigned)
      | some public_ip ↦ do
        reserved ← wrapped "failed to get list of reserved public IPs" (fetch_public_ips true true)
        release_from public_ip reserved
    ]

  abbrev pub oci_assigner : Assigner W
  oci_assigner = record { assign = assign; unassign = unassign }

-- `NewOCIAssigner` over the constructors of the two clients.
module _ {W : Type 0} (new_compute_client : Action W (ComputeClient W))
    (new_network_client : Action W (NetworkClient W)) where
  unfoldable pub new_oci_assigner : String → List String → Action W (Assigner W)
  new_oci_assigner project filter = do
    filters ← wrapped "failed to parse OCI filters" (lift (parse_oci_filters (some filter)))
    compute ←
        wrapped "failed to create compute service for OCI"
          (wrapped "failed to create OCI Compute client" new_compute_client)
    network ←
        wrapped "failed to create network service for OCI"
          (wrapped "failed to create OCI Virtual Network client" new_network_client)
    return (
        oci_assigner (record {
          filters = some filters;
          compartment_ocid = project;
          instance_svc = instance_service compute;
          network_svc = network_service network;
        }))

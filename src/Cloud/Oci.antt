-- ===== src/Cloud/Oci.antt =====
-- internal/cloud/oci_instance_service.go and oci_network_service.go. The two clients are
-- parameters; pointers of their types, and slices that may be nil, are options.
use kubeip.Base.{
  String, Bool, false, ◌&&◌, Option, none, some, List, [], ◌∷◌, filter, ◌<>◌, message, Action,
  return, fail, deref, or_fail, wrapped, ◌>>=◌, if◌then◌else◌, ok, err, panic, unfinished, attempt,
  wrap, crash, no_fuel,
}
use kubeip.Base.Dict.{Dict}
use kubeip.Types.Filters.{OciFilters, check_freeform_tag_filter, check_defined_tag_filter}

-- `PublicIpLifecycleState…`; only two states are named by the program.
pub data Lifecycle : Type 0 where
  available assigned : Lifecycle
  other_state : String → Lifecycle

pub record PublicIp : Type 0 where
  pub id : Option String
  pub ip_address : Option String
  pub lifecycle_state : Lifecycle
  pub freeform_tags : Option (Dict String)

pub record PrivateIp : Type 0 where
  pub id : Option String
  pub is_primary : Option Bool

pub record Vnic : Type 0 where
  pub id : Option String
  pub public_ip : Option String
  pub availability_domain : Option String
  pub is_primary : Option Bool

pub record VnicAttachment : Type 0 where
  pub vnic_id : Option String

pub data Scope : Type 0 where
  region_scope availability_domain_scope : Scope

pub record ListPublicIpsRequest : Type 0 where
  pub scope : Scope
  pub availability_domain : Option String
  pub compartment_id : String

pub record ComputeClient (W : Type 0) : Type 0 where
  pub list_vnic_attachments : String → String → Action W (Option (List VnicAttachment))

pub record NetworkClient (W : Type 0) : Type 0 where
  pub list_public_ips : ListPublicIpsRequest → Action W (Option (List PublicIp))
  pub get_public_ip : String → Action W PublicIp
  pub update_public_ip : String → String → Action W (Unit {0})
  pub delete_public_ip : String → Action W (Unit {0})
  pub list_private_ips : String → Action W (Option (List PrivateIp))
  pub get_vnic : Option String → Action W Vnic

pub record OciInstanceService (W : Type 0) : Type 0 where
  pub list_vnic_attachments : String → String → Action W (List VnicAttachment)

pub record OciNetworkService (W : Type 0) : Type 0 where
  pub list_public_ips : ListPublicIpsRequest → Option OciFilters → Action W (List PublicIp)
  pub get_public_ip : String → Action W (Option PublicIp)
  pub update_public_ip : String → String → Action W (Unit {0})
  pub delete_public_ip : String → Action W (Unit {0})
  pub get_primary_private_ip_of_vnic : String → Action W PrivateIp
  pub get_primary_vnic : List VnicAttachment → Action W Vnic

module _ {W : Type 0} (client : ComputeClient W) where
  unfoldable pub list_vnic_attachments : String → String → Action W (List VnicAttachment)
  list_vnic_attachments compartment_ocid instance_ocid = do
    items ←
        wrapped "error while listing VNIC attachments"
          (client.list_vnic_attachments compartment_ocid instance_ocid)
    or_fail items (
        message (
          "no VNIC attachments found, compartmentOCID: " <> compartment_ocid <> ", instanceOCID: "
          <> instance_ocid))

  abbrev pub instance_service : OciInstanceService W
  instance_service = record { list_vnic_attachments = list_vnic_attachments }

-- The test of the loop over the listed addresses.
abbrev pub passes : OciFilters → PublicIp → Bool
passes f ip = check_freeform_tag_filter f ip.freeform_tags && check_defined_tag_filter f

-- Nil filters keep every address.
abbrev pub passing : Option OciFilters → List PublicIp → List PublicIp
passing none items = items
passing (some f) items = filter (passes f) items

-- `vnic.IsPrimary != nil && *vnic.IsPrimary`.
abbrev pub is_primary_vnic : Vnic → Bool
is_primary_vnic v = elim v.is_primary [ none ↦ false | some b ↦ b ]

-- The loop over the private addresses; a missing mark panics.
unfoldable pub first_primary : {W : Type 0} → String → List PrivateIp → Action W PrivateIp
first_primary vnic_ocid [] =
    fail (message ("no primary private IP found for the VNIC %s" <> vnic_ocid))
first_primary vnic_ocid (ip ∷ ips) = do
  primary ← deref ip.is_primary
  let rest = first_primary vnic_ocid ips
  if primary then return ip else rest

module _ {W : Type 0} (client : NetworkClient W) where
  unfoldable pub list_public_ips :
      ListPublicIpsRequest → Option OciFilters → Action W (List PublicIp)
  list_public_ips request filters = do
    items ← wrapped "failed to list public IPs" (client.list_public_ips request)
    ips ← or_fail items (message "no public IPs found")
    return (passing filters ips)

  unfoldable pub get_public_ip : String → Action W (Option PublicIp)
  get_public_ip public_ip_ocid = do
    ip ←
        wrapped ("failed to get details of public IP OCID: %s" <> public_ip_ocid)
          (client.get_public_ip public_ip_ocid)
    id ← or_fail ip.id (message ("no public IP found with OCID " <> public_ip_ocid))
    return (some ip)

  unfoldable pub update_public_ip : String → String → Action W (Unit {0})
  update_public_ip public_ip_ocid private_ip_ocid =
      wrapped "failed to update public IP" (client.update_public_ip public_ip_ocid private_ip_ocid)

  unfoldable pub delete_public_ip : String → Action W (Unit {0})
  delete_public_ip public_ip_ocid =
      wrapped "failed to delete public IP" (client.delete_public_ip public_ip_ocid)

  unfoldable pub get_primary_private_ip_of_vnic : String → Action W PrivateIp
  get_primary_private_ip_of_vnic vnic_ocid = do
    items ←
        wrapped ("failed to list private IPs for the VNIC %s" <> vnic_ocid)
          (client.list_private_ips vnic_ocid)
    ips ← or_fail items (message ("no private IPs found for the VNIC %s" <> vnic_ocid))
    first_primary vnic_ocid ips

  -- The loop over the attachments. The message of an error reads the attachment's VNIC.
  unfoldable pub get_primary_vnic : List VnicAttachment → Action W Vnic
  get_primary_vnic [] = fail (message "no primary VNIC found from the given VNIC attachments")
  get_primary_vnic (a ∷ attachments) = do
    answer ← attempt (client.get_vnic a.vnic_id)
    elim answer [
      | ok vnic ↦
          let rest = get_primary_vnic attachments in
          if is_primary_vnic vnic then return vnic else rest
      | err e ↦ do
        vnic_id ← deref a.vnic_id
        fail (wrap e ("failed to get VNIC details with OCID %s" <> vnic_id))
      | panic ↦ crash
      | unfinished ↦ no_fuel
    ]

  abbrev pub network_service : OciNetworkService W
  network_service = record {
    list_public_ips = list_public_ips;
    get_public_ip = get_public_ip;
    update_public_ip = update_public_ip;
    delete_public_ip = delete_public_ip;
    get_primary_private_ip_of_vnic = get_primary_private_ip_of_vnic;
    get_primary_vnic = get_primary_vnic;
  }

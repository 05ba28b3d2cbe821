-- ===== src/Cloud/Aws.antt =====
-- internal/cloud/aws_address.go, aws_instance.go and aws_lister.go. The EC2 client is a parameter.
-- Pointers of the client's types are options.
use kubeip.Base.{
  ℕ, String, Bool, true, false, not, ◌&&◌, ◌||◌, Option, none, some, List, [], ◌∷◌, filter, Action,
  return, wrapped, ◌>>=◌,
}
use kubeip.Base.Dict.{Dict}

pub record Tag : Type 0 where
  pub key : Option String
  pub value : Option String

-- `types.Address`; nil tags are `none`.
pub record Address : Type 0 where
  pub allocation_id : Option String
  pub association_id : Option String
  pub domain : String
  pub instance_id : Option String
  pub network_interface_id : Option String
  pub network_interface_owner_id : Option String
  pub private_ip_address : Option String
  pub public_ip : Option String
  pub public_ipv4_pool : Option String
  pub tags : Option (List Tag)

-- `ni.Association` and `ni.Attachment` with the one field of each that is read.
pub record NetworkInterface : Type 0 where
  pub association : Option (Option String)
  pub attachment : Option (Option ℕ)
  pub network_interface_id : Option String

pub record Instance : Type 0 where
  pub instance_id : Option String
  pub network_interfaces : List NetworkInterface

pub record AssociateInput : Type 0 where
  pub allocation_id : String
  pub network_interface_id : String
  pub allow_reassociation : Bool

-- A filter is a name with its values; instances come in reservations.
pub record Ec2Client (W : Type 0) : Type 0 where
  pub describe_addresses : List (String × List String) → Action W (List Address)
  pub associate_address : AssociateInput → Action W (Unit {0})
  pub disassociate_address : String → Action W (Unit {0})
  pub describe_instances : List String → Action W (List (List Instance))

pub record EipLister (W : Type 0) : Type 0 where
  pub list : Dict (List String) → Bool → Action W (List Address)

pub record EipAssigner (W : Type 0) : Type 0 where
  pub assign : String → String → Action W (Unit {0})
  pub unassign : String → Action W (Unit {0})

pub record Ec2InstanceGetter (W : Type 0) : Type 0 where
  pub get : String → String → Action W (Option Instance)

abbrev pub is_some : {A : Type 0} → Option A → Bool
is_some none = false
is_some (some a) = true

-- The test of the loop over the listed addresses.
abbrev pub has_use : Bool → Address → Bool
has_use in_use a =
    (in_use && is_some a.association_id) || (not in_use && not (is_some a.association_id))

-- `&resp.Reservations[0].Instances[0]`. Without one, `errors.Wrap` of a nil error is nil, so the
-- caller gets a nil instance and no error.
abbrev pub first_instance : List (List Instance) → Option Instance
first_instance [] = none
first_instance ([] ∷ rest) = none
first_instance ((i ∷ is) ∷ rest) = some i

module _ {W : Type 0} (client : Ec2Client W) where
  unfoldable pub eip_list : Dict (List String) → Bool → Action W (List Address)
  eip_list filters in_use = do
    listed ← wrapped "failed to list elastic IPs" (client.describe_addresses filters)
    return (filter (has_use in_use) listed)

  unfoldable pub eip_assign : String → String → Action W (Unit {0})
  eip_assign network_interface_id allocation_id =
      wrapped "failed to associate elastic IP with the instance" (
        client.associate_address (record {
          allocation_id = allocation_id;
          network_interface_id = network_interface_id;
          allow_reassociation = false;
        }))

  unfoldable pub eip_unassign : String → Action W (Unit {0})
  eip_unassign association_id =
      wrapped "failed to disassociate elastic IP from the instance"
        (client.disassociate_address association_id)

  unfoldable pub ec2_get : String → String → Action W (Option Instance)
  ec2_get instance_id region = do
    reservations ←
        wrapped "failed to describe instances, %v" (client.describe_instances (instance_id ∷ []))
    return (first_instance reservations)

  abbrev pub eip_lister : EipLister W
  eip_lister = record { list = eip_list }

  abbrev pub eip_assigner : EipAssigner W
  eip_assigner = record { assign = eip_assign; unassign = eip_unassign }

  abbrev pub ec2_instance_getter : Ec2InstanceGetter W
  ec2_instance_getter = record { get = ec2_get }

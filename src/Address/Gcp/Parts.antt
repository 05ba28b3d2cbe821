-- ===== src/Address/Gcp/Parts.antt =====
-- The pure parts of internal/address/gcp.go: what is read off an instance, the access config that
-- is written, the filter text, the map of users.
use Prim.Native.String.{len, slice}
use kubeip.Base.{
  ℕ, ◌-◌, String, Bool, Option, none, some, List, [], ◌∷◌, ◌++◌, map, ◌<>◌, ◌==◌, join, ltb, Error,
  sentinel, no_public_ip_assigned, message, operation_error, Result, ok, err, if◌then◌else◌, true,
  false, sentinel, wrap,
}
use kubeip.Base.Dict
use kubeip.Base.Dict.{Dict}
use kubeip.Cloud.Gcp.{AccessConfig, NetworkInterface, Instance, Address}

abbrev pub operation_done : String
operation_done = "DONE"

abbrev pub in_use_status : String
in_use_status = "IN_USE"

abbrev pub reserved_status : String
reserved_status = "RESERVED"

abbrev pub default_network_name : String
default_network_name = "External IP"

abbrev pub default_network_name_ipv6 : String
default_network_name_ipv6 = "External IPv6"

abbrev pub default_access_config_type : String
default_access_config_type = "ONE_TO_ONE_NAT"

abbrev pub default_access_config_ipv6_type : String
default_access_config_ipv6_type = "DIRECT_IPV6"

abbrev pub default_network_tier : String
default_network_tier = "PREMIUM"

abbrev pub access_config_kind : String
access_config_kind = "compute#accessConfig"

abbrev pub default_prefix_length : ℕ
default_prefix_length = 96

abbrev pub max_retries : ℕ
max_retries = 10

-- `isOperationError` looks at the error itself and not at its causes.
abbrev pub is_operation_error : Error → Bool
is_operation_error (sentinel s) = false
is_operation_error (message m) = false
is_operation_error (operation_error n e) = true
is_operation_error (wrap e m) = false

unfoldable pub get_network_interface : Instance → Result NetworkInterface
get_network_interface inst = elim inst.network_interfaces [
  | [] ↦ err (message "instance has no network interfaces")
  | ni ∷ rest ↦ ok ni
]

abbrev first_config : List AccessConfig → Result AccessConfig
first_config [] = err (sentinel no_public_ip_assigned)
first_config (c ∷ rest) = ok c

unfoldable pub get_access_config : NetworkInterface → Bool → Result AccessConfig
get_access_config ni ipv6 =
    if ipv6 then first_config ni.ipv6_access_configs else first_config ni.access_configs

-- A nil address asks for an ephemeral one.
unfoldable pub address_or_empty : Option Address → String
address_or_empty none = ""
address_or_empty (some a) = a.address

unfoldable pub network_tier_or_default : Option Address → String
network_tier_or_default none = default_network_tier
network_tier_or_default (some a) = a.network_tier

unfoldable pub prefix_length_or_default : Option Address → ℕ
prefix_length_or_default none = default_prefix_length
prefix_length_or_default (some a) = a.prefix_length

unfoldable pub create_access_config : Option Address → Bool → AccessConfig
unfolding address_or_empty network_tier_or_default prefix_length_or_default
create_access_config address ipv6 =
    if ipv6
    then record {
      name = default_network_name_ipv6;
      kind = access_config_kind;
      config_type = default_access_config_ipv6_type;
      nat_ip = "";
      external_ipv6 = address_or_empty address;
      external_ipv6_prefix_length = prefix_length_or_default address;
      network_tier = network_tier_or_default address;
    }
    else record {
      name = default_network_name;
      kind = access_config_kind;
      config_type = default_access_config_type;
      nat_ip = address_or_empty address;
      external_ipv6 = "";
      external_ipv6_prefix_length = 0;
      network_tier = "";
    }

-- The two loops of `createUserMap`: the last address of a user stays.
unfoldable pub add_users : List String → String → Dict String → Dict String
add_users [] address users = users
add_users (u ∷ us) address users = add_users us address (Dict.insert u address users)

unfoldable pub user_map_from : List Address → Dict String → Dict String
user_map_from [] users = users
user_map_from (a ∷ rest) users = user_map_from rest (add_users a.users a.address users)

unfoldable pub create_user_map : List Address → Dict String
create_user_map assigned = user_map_from assigned []

-- The filter text of a list call.
unfoldable pub address_filter : Bool → List String → String → String
address_filter ipv6 filter status = join " " (
    (("(status=" <> status <> ")")
      ∷ "(addressType=EXTERNAL)"
      ∷ (if ipv6 then "(ipVersion=IPV6)" else "(ipVersion!=IPV6)")
      ∷ [])
    ++ map (λ f. "(" <> f <> ")") filter)

-- The region of a cluster location: a zone loses its last two bytes.
unfoldable pub region_of_location : String → String
region_of_location location =
    if ltb 2 (len location)
    then if slice location (len location - 2) (len location - 1) == "-"
      then slice location 0 (len location - 2)
      else location
    else location

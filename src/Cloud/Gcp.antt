-- ===== src/Cloud/Gcp.antt =====
-- internal/cloud/gcp_address.go, gcp_instance.go, gcp_lister.go and gcp_waiter.go. The compute
-- client is a parameter; a list call is the record of what was set on it.
use kubeip.Base.{ℕ, String, Bool, Option, List, [], ◌∷◌, Action, if◌then◌else◌}

pub record AccessConfig : Type 0 where
  pub name : String
  pub kind : String
  pub config_type : String
  pub nat_ip : String
  pub external_ipv6 : String
  pub external_ipv6_prefix_length : ℕ
  pub network_tier : String

pub record NetworkInterface : Type 0 where
  pub name : String
  pub fingerprint : String
  pub access_configs : List AccessConfig
  pub ipv6_access_configs : List AccessConfig

pub record Instance : Type 0 where
  pub name : String
  pub self_link : String
  pub network_interfaces : List NetworkInterface

pub record Address : Type 0 where
  pub name : String
  pub address : String
  pub status : String
  pub users : List String
  pub network_tier : String
  pub prefix_length : ℕ

-- An operation; `error` holds the messages of `op.Error`, when there is one.
pub record Operation : Type 0 where
  pub name : String
  pub status : String
  pub error : Option (List String)

pub record ListCall : Type 0 where
  pub project : String
  pub region : String
  pub filter : String
  pub order_by : String
  pub page_token : String

pub record AddressList : Type 0 where
  pub items : List Address
  pub next_page_token : String

-- What an update of a network interface sets.
pub record InterfaceUpdate : Type 0 where
  pub fingerprint : String
  pub stack_type : String
  pub ipv6_access_configs : List AccessConfig

-- The calls of the service, arguments in the order of the client library. A nil operation is `none`.
pub record ComputeClient (W : Type 0) : Type 0 where
  pub update_network_interface :
      String → String → String → String → InterfaceUpdate → Action W (Option Operation)
  pub add_access_config :
      String → String → String → String → AccessConfig → Action W (Option Operation)
  pub delete_access_config :
      String → String → String → String → String → Action W (Option Operation)
  pub get_address : String → String → String → Action W Address
  pub get_instance : String → String → String → Action W Instance
  pub list_addresses : ListCall → Action W AddressList
  pub wait_operation : String → String → String → Action W (Option Operation)

pub record AddressManager (W : Type 0) : Type 0 where
  pub add_access_config :
      String → String → String → String → String → AccessConfig → Action W (Option Operation)
  pub delete_access_config :
      String → String → String → String → String → String → Action W (Option Operation)
  pub get_address : String → String → String → Action W Address

pub record InstanceGetter (W : Type 0) : Type 0 where
  pub get : String → String → String → Action W Instance

pub record Lister (W : Type 0) : Type 0 where
  pub do_call : ListCall → Action W AddressList

pub record ZoneWaiter (W : Type 0) : Type 0 where
  pub wait : String → String → String → Action W (Option Operation)

abbrev pub ipv4_only : String
ipv4_only = "IPV4_ONLY"

abbrev pub ipv4_ipv6 : String
ipv4_ipv6 = "IPV4_IPV6"

-- `Lister.List`: a call with nothing set.
abbrev pub list_call : String → String → ListCall
list_call project region = record {
  project = project;
  region = region;
  filter = "";
  order_by = "";
  page_token = "";
}

module _ {W : Type 0} (client : ComputeClient W) (ipv6 : Bool) where
  unfoldable pub add_access_config :
      String → String → String → String → String → AccessConfig → Action W (Option Operation)
  add_access_config project zone instance_name network_interface fingerprint config =
      if ipv6
      then client.update_network_interface project zone instance_name network_interface (record {
        fingerprint = fingerprint;
        stack_type = ipv4_ipv6;
        ipv6_access_configs = config ∷ [];
      })
      else client.add_access_config project zone instance_name network_interface config

  unfoldable pub delete_access_config :
      String → String → String → String → String → String → Action W (Option Operation)
  delete_access_config project zone instance_name config network_interface fingerprint =
      if ipv6
      then client.update_network_interface project zone instance_name network_interface
          (record { fingerprint = fingerprint; stack_type = ipv4_only; ipv6_access_configs = [] })
      else client.delete_access_config project zone instance_name config network_interface

  abbrev pub address_manager : AddressManager W
  address_manager = record {
    add_access_config = add_access_config;
    delete_access_config = delete_access_config;
    get_address = client.get_address;
  }

module _ {W : Type 0} (client : ComputeClient W) where
  abbrev pub instance_getter : InstanceGetter W
  instance_getter = record { get = client.get_instance }

  abbrev pub lister : Lister W
  lister = record { do_call = client.list_addresses }

  abbrev pub zone_waiter : ZoneWaiter W
  zone_waiter = record { wait = client.wait_operation }

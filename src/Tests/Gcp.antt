-- ===== src/Tests/Gcp.antt =====
-- The assigner of Google Cloud over a client whose state counts the calls.
use kubeip.Base.{
  err, message, is_empty, ◌⊎◌, ℕ, String, Option, none, some, List, [], ◌∷◌, ◌≡◌, refl, ok, Action,
  return, arith, false, Context, Error, ◌+◌, ◌==◌, if◌then◌else◌,
}
use kubeip.Base.Dict
use kubeip.Cloud.Gcp.{AccessConfig, Instance, Address, AddressList, Operation}
use kubeip.Address.Gcp.Tries.{InternalAssigner, retry_add_ephemeral_address, retry_add_from}
use kubeip.Address.Gcp.Parts.{
  create_user_map, user_map_from, add_users, get_network_interface, get_access_config,
}
use kubeip.Address.Gcp.{
  GcpAssigner, list_addresses, wait_for_operation, list_from, delete_instance_address,
  check_address_assigned, add_instance_address,
}
use kubeip.Address.Gcp.Waits.{outcome, wait_for_operation_lem}
use kubeip.Address.Gcp.Users.{create_user_map_lem}
use kubeip.Address.Gcp.Pages.{list_addresses_lem}
use kubeip.Address.Gcp.{unassign}
use kubeip.Address.Gcp.Parts.{max_retries}
use kubeip.Address.Gcp.Assignment.{Checked}
use kubeip.Address.Gcp.Retries.{AddsFail}
use kubeip.Address.Gcp.Release.{retry_add_gives_up, Replaced, unassign-Replaced}

abbrev address : String → List String → Address
address text users = record {
  name = "name-";
  address = text;
  status = "RESERVED";
  users = users;
  network_tier = "PREMIUM";
  prefix_length = 96;
}

create_user_map_lem_example :
    Dict.lookup "vm-1" (
      create_user_map
        (address "1.1.1.1" ("vm-1" ∷ []) ∷ address "2.2.2.2" ("vm-2" ∷ "vm-1" ∷ []) ∷ []))
    ≡ some "2.2.2.2"
create_user_map_lem_example =
    create_user_map_lem "vm-1"
      (address "1.1.1.1" ("vm-1" ∷ []) ∷ address "2.2.2.2" ("vm-2" ∷ "vm-1" ∷ []) ∷ [])

abbrev config : AccessConfig
config = record {
  name = "External IP";
  kind = "";
  config_type = "";
  nat_ip = "9.9.9.9";
  external_ipv6 = "";
  external_ipv6_prefix_length = 0;
  network_tier = "PREMIUM";
}

abbrev vm : Instance
vm = record {
  name = "vm-1";
  self_link = "link/vm-1";
  network_interfaces =
      (record {
        name = "nic0";
        fingerprint = "f";
        access_configs = config ∷ [];
        ipv6_access_configs = [];
      })
      ∷ [];
}

abbrev counted : {A : Type 0} → A → Action ℕ A
counted a n = (ok a, n + 1)

abbrev operation : String → Operation
operation status = record { name = "op"; status = status; error = none }

-- Two pages of addresses.
abbrev page : String → AddressList
page token =
    if token == ""
    then record { items = address "1.1.1.1" [] ∷ []; next_page_token = "more" }
    else record { items = address "2.2.2.2" [] ∷ []; next_page_token = "" }

abbrev cloud : GcpAssigner ℕ
cloud = record {
  lister = record { do_call = λ call. counted (page call.page_token) };
  waiter = record { wait = λ project zone name. counted (some (operation "DONE")) };
  address_manager = record {
    add_access_config = λ project zone name ni fingerprint c. counted none;
    delete_access_config = λ project zone name c ni fingerprint. counted none;
    get_address = λ project region name. counted (address "1.1.1.1" []);
  };
  instance_getter = record { get = λ project zone name. counted vm };
  project = "p";
  region = "r";
  ipv6 = false;
}

abbrev never_done : Context ℕ
never_done = record { ctx_err = return none }

list_addresses_lem_example :
    list_addresses cloud never_done 2 [] "" "RESERVED" 0
    ≡ (ok (address "1.1.1.1" [] ∷ address "2.2.2.2" [] ∷ []), 2)
list_addresses_lem_example =
    list_addresses_lem cloud never_done 2 [] "" "RESERVED" (page "" ∷ []) (page "more") 0 2
      (omega arith) (1, refl, refl, (refl, refl))

abbrev no_error : Option Error
no_error = none

wait_for_operation_lem_example :
    wait_for_operation cloud never_done 3 (some (operation "RUNNING")) "zone" 0
    ≡ (outcome (operation "DONE"), 1)
wait_for_operation_lem_example =
    wait_for_operation_lem cloud never_done 3 "zone" (operation "RUNNING") [] (operation "DONE") 0 1
      (omega arith) refl refl refl

-- No address can be added.
abbrev full : InternalAssigner ℕ
full = record {
  check_address_assigned = λ region name. counted false;
  add_instance_address = λ inst zone a n. (err (message "quota"), n + 1);
  delete_instance_address = λ inst zone. counted tt;
}

ten_fail : AddsFail full never_done vm "zone" max_retries 0 10
ten_fail = (
  message "quota",
  0,
  1,
  refl,
  refl,
  (
    message "quota",
    1,
    2,
    refl,
    refl,
    (
      message "quota",
      2,
      3,
      refl,
      refl,
      (
        message "quota",
        3,
        4,
        refl,
        refl,
        (
          message "quota",
          4,
          5,
          refl,
          refl,
          (
            message "quota",
            5,
            6,
            refl,
            refl,
            (
              message "quota",
              6,
              7,
              refl,
              refl,
              (
                message "quota",
                7,
                8,
                refl,
                refl,
                (message "quota", 8, 9, refl, refl, (message "quota", 9, 10, refl, refl, refl)),
              ),
            ),
          ),
        ),
      ),
    ),
  ),
)

retry_add_gives_up_example :
    retry_add_ephemeral_address full never_done vm "zone" 0
    ≡ (err (message "reached max retries"), 10)
retry_add_gives_up_example = retry_add_gives_up full never_done vm "zone" 0 10 ten_fail

-- The instance has an address.
abbrev cloud_served : GcpAssigner ℕ
cloud_served = record cloud {
  lister = record {
    do_call = λ call.
        counted
          (record { items = address "1.1.1.1" ("link/vm-1" ∷ []) ∷ []; next_page_token = "" });
  };
}

unassign-Replaced_example :
    (inst : Instance) × (in_use : List Address) × (w1 : ℕ) × Checked cloud_served never_done 1
      "vm-1" "zone" inst in_use 0 w1
    × (is_empty in_use ≡ false)
    × (((Dict.lookup inst.self_link (create_user_map in_use) ≡ none) × (w1 ≡ 5))
        ⊎ ((a : String) × (Dict.lookup inst.self_link (create_user_map in_use) ≡ some a)
            × Replaced cloud_served never_done 1 "vm-1" "zone" inst w1 5))
unfolding unassign list_addresses list_from Dict.lookup Dict.insert create_user_map user_map_from
    add_users delete_instance_address get_network_interface get_access_config wait_for_operation
    retry_add_ephemeral_address retry_add_from add_instance_address
unassign-Replaced_example = unassign-Replaced cloud_served never_done 1 "vm-1" "zone" 0 5 refl

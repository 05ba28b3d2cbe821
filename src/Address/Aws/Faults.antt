-- ===== src/Address/Aws/Faults.antt =====
-- Where the AWS assigner dereferences a nil pointer.
use kubeip.Base.{
  String, true, false, none, List, [], ◌∷◌, ◌≡◌, refl, arith, All-filter, filter, ok, panic, Ran,
  has_prefix,
}
use kubeip.Base.Dict.{Dict}
use kubeip.Cloud.Aws.{Address, Instance, Ec2Client, eip_list, ec2_get, has_use, first_instance}
use kubeip.Address.Aws.Sort.{field_of, sort_addresses_by_field}
use kubeip.Address.Aws.Sort.Laws.{sort_addresses_by_field_nil}
use kubeip.Address.Aws.{
  over_client, assign, check_elastic_ip_assigned, get_available_elastic_ips,
  get_network_interface_id, filter_map_from,
}

no_use : (y : Address) → has_use false y ≡ true → y.association_id ≡ none
no_use y h = ground arith

unassociated :
    (listed : List Address) (x y : Address) (rest : List Address)
    → filter (has_use false) listed ≡ x ∷ y ∷ rest
    → y.association_id ≡ none
unassociated listed x y rest h = no_use y (rw h at (All-filter (has_use false) listed)).1.0

by_association :
    (x y : Address) (rest : List Address)
    → y.association_id ≡ none
    → sort_addresses_by_field (x ∷ y ∷ rest) "AssociationId" ≡ panic
unfolding field_of has_prefix
by_association x y rest h =
    sort_addresses_by_field_nil x y rest "AssociationId" (λ z. z.association_id) refl refl h

module _ {W : Type 0} (client : Ec2Client W) (region : String) where
  -- When the instance is not found, no error is reported: `Assign` reads a nil instance.
  pub assign_missing_instance :
      (instance_id zone order_by : String) (filters : List String) (addresses : List Address)
      (reservations : List (List Instance)) (w w1 w2 w3 : W)
      → Ran (check_elastic_ip_assigned (over_client client region) instance_id) w tt w1
      → Ran (get_available_elastic_ips (over_client client region) filters order_by) w1 addresses w2
      → Ran (client.describe_instances (instance_id ∷ [])) w2 reservations w3
      → first_instance reservations ≡ none
      → assign (over_client client region) instance_id zone filters order_by w ≡ (panic, w3)
  unfolding assign ec2_get get_network_interface_id
  assign_missing_instance instance_id zone order_by filters addresses reservations w w1 w2 w3
        unserved available described missing =
      rw (unserved, available, described, missing)

  -- Ordering by `AssociationId` panics as soon as two addresses are available: an available address
  -- has no association.
  pub get_available_by_association :
      (filters : List String) (by_name : Dict (List String)) (listed : List Address) (x y : Address)
      (rest : List Address) (w w1 : W)
      → filter_map_from [] filters ≡ ok by_name
      → Ran (client.describe_addresses by_name) w listed w1
      → filter (has_use false) listed ≡ x ∷ y ∷ rest
      → get_available_elastic_ips (over_client client region) filters "AssociationId" w
        ≡ (panic, w1)
  unfolding get_available_elastic_ips eip_list
  get_available_by_association filters by_name listed x y rest w w1 parsed described available =
      rw (
        parsed,
        described,
        available,
        by_association x y rest (unassociated listed x y rest available),
      )

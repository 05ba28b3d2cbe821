-- ===== src/Tests/Aws.antt =====
-- The AWS assigner over a client whose state is the number of associations made.
use kubeip.Base.{
  ℕ, suc, inl, inr, String, Bool, true, false, Option, none, some, List, [], ◌∷◌, ◌≡◌, refl, ◌<>◌,
  join, arith, filter, is_empty, Error, Result, ok, panic, Action, Ran, has_prefix,
}
use kubeip.Cloud.Aws.{Address, Instance, Ec2Client, eip_list, eip_assign, ec2_get}
use kubeip.Address.Aws.{
  AwsAssigner, assign, check_elastic_ip_assigned, get_available_elastic_ips,
  get_network_interface_id, primary_interface_id, filter_map_from, force_check_address_assigned,
  try_assign_address, assign_first,
}
use kubeip.Address.Aws.Sort.{field_of, sort_addresses_by_field, sort_slice, sort_from, insert_back}
use kubeip.Address.Aws.Sort.Laws.{count, IsSorted, by_field, sort_addresses_by_field_lem}
use kubeip.Address.Aws.Filter.{parse_shorthand_filter}
use kubeip.Address.Aws.Filter.Laws.{parse_shorthand_filter-written}
use kubeip.Address.Aws.Choice.{Chosen, assign-Chosen}
use kubeip.Address.Aws.Primary.{IsPrimary}
use kubeip.Address.Aws.Faults.{assign_missing_instance, get_available_by_association}
use kubeip.Address.Aws.{over_client, by_name, get_assigned_elastic_ip, unassign}
use kubeip.Address.Aws.Release.{unassign-First}
use kubeip.Cloud.Aws.{eip_unassign}

abbrev free_address : String → String → Address
free_address id ip = record {
  allocation_id = some id;
  association_id = none;
  domain = "vpc";
  instance_id = none;
  network_interface_id = none;
  network_interface_owner_id = none;
  private_ip_address = none;
  public_ip = some ip;
  public_ipv4_pool = some "amazon";
  tags = none;
}

abbrev addr_a : Address
addr_a = free_address "a1" "1.1.1.1"

abbrev addr_b : Address
addr_b = free_address "a2" "2.2.2.2"

abbrev pub vm : Instance
vm = record {
  instance_id = some "i-1";
  network_interfaces =
      record {
        association = some (some "9.9.9.9");
        attachment = some (some 0);
        network_interface_id = some "eni-1";
      }
      ∷ [];
}

abbrev pub client_with : List (List Instance) → Ec2Client ℕ
client_with reservations = record {
  describe_addresses = λ filters w. (ok (addr_b ∷ addr_a ∷ []), w);
  associate_address = λ input w. (ok tt, suc w);
  disassociate_address = λ association w. (ok tt, w);
  describe_instances = λ ids w. (ok reservations, w);
}

abbrev aws_here : AwsAssigner ℕ
aws_here = over_client (client_with ((vm ∷ []) ∷ [])) "us-east-1"

assign-Chosen_example :
    (w1 w2 w3 : ℕ) × (addresses : List Address) × (inst : Instance) × (ni : String) × Ran
      (aws_here.eip_lister.list (by_name "instance-id" "i-1") true)
      0
      []
      w1
    × Ran (get_available_elastic_ips aws_here [] "PublicIp") w1 addresses w2
    × Ran (aws_here.instance_getter.get "i-1" aws_here.region) w2 (some inst) w3
    × IsPrimary inst ni
    × Chosen aws_here addresses ni "1.1.1.1" 1
    × (◌≡◌ {A = Option Error} none none)
unfolding assign check_elastic_ip_assigned get_available_elastic_ips get_network_interface_id
    primary_interface_id eip_list eip_assign ec2_get filter_map_from sort_addresses_by_field
    field_of sort_slice sort_from insert_back assign_first try_assign_address
    force_check_address_assigned has_prefix kubeip.Base.Text.text_less
assign-Chosen_example = assign-Chosen aws_here "i-1" "z" "PublicIp" "1.1.1.1" [] none 0 1 refl

assign_missing_instance_example :
    assign (over_client (client_with []) "us-east-1") "i-1" "z" [] "" 0 ≡ (panic, 0)
unfolding check_elastic_ip_assigned get_available_elastic_ips eip_list filter_map_from
    sort_addresses_by_field field_of has_prefix
assign_missing_instance_example =
    assign_missing_instance (client_with []) "us-east-1" "i-1" "z" "" [] (addr_b ∷ addr_a ∷ []) [] 0
      0 0 0 refl refl refl refl

get_available_by_association_example :
    get_available_elastic_ips aws_here [] "AssociationId" 0 ≡ (panic, 0)
unfolding filter_map_from
get_available_by_association_example =
    get_available_by_association (client_with ((vm ∷ []) ∷ [])) "us-east-1" [] []
      (addr_b ∷ addr_a ∷ []) addr_b addr_a [] 0 0 refl refl refl

sort_addresses_by_field_lem_example :
    IsSorted (by_field (λ x. x.public_ip)) (addr_a ∷ addr_b ∷ [])
    × ((p : Address → Bool) → count p (addr_a ∷ addr_b ∷ []) ≡ count p (addr_b ∷ addr_a ∷ []))
unfolding has_prefix field_of sort_addresses_by_field sort_slice sort_from insert_back
    kubeip.Base.Text.text_less
sort_addresses_by_field_lem_example =
    sort_addresses_by_field_lem (addr_b ∷ addr_a ∷ []) (addr_a ∷ addr_b ∷ []) "PublicIp"
      (λ x. x.public_ip) (inr (inr (inr (inr (inr (inr (inr (inl refl)))))))) refl

parse_shorthand_filter-written_example :
    parse_shorthand_filter
      (("Name" <> ("=" <> "tag:env")) <> ("," <> ("Values" <> ("=" <> join "," ("a" ∷ "b" ∷ [])))))
    ≡ ok ("tag:env", "a" ∷ "b" ∷ [])
parse_shorthand_filter-written_example =
    parse_shorthand_filter-written "tag:env" "a" ("b" ∷ []) (ground arith) (ground arith)
      (ground arith) (ground arith)

abbrev used : Address
used = record addr_a { association_id = some "assoc-1"; instance_id = some "i-1" }

-- The instance has an address.
abbrev aws_served : AwsAssigner ℕ
aws_served =
    over_client
      (record (client_with []) {
        describe_addresses = λ filters w. (ok (used ∷ []), w);
        disassociate_address = λ association w. (ok tt, suc w);
      })
      "us-east-1"

served_is_released : Ran (unassign aws_served "i-1" "z") 0 tt 1
unfolding unassign get_assigned_elastic_ip eip_list eip_unassign
served_is_released = refl

unassign-First_example :
    (x : Address) × (rest : List Address) × (association_id : String) × (v : ℕ) × Ran
      (aws_served.eip_lister.list (by_name "instance-id" "i-1") true)
      0
      (x ∷ rest)
      v
    × (x.association_id ≡ some association_id)
    × Ran (aws_served.eip_assigner.unassign association_id) v tt 1
unassign-First_example = unassign-First aws_served "i-1" "z" 0 1 served_is_released

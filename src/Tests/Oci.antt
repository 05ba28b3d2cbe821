-- ===== src/Tests/Oci.antt =====
-- The assigner of Oracle Cloud over a client whose state counts the calls.
use kubeip.Base.{
  List, String, ℕ, Option, none, some, [], ◌∷◌, ◌≡◌, refl, ok, Action, ◌+◌, Ran, false, true, ◌⊎◌,
  sentinel, static_ip_already_assigned, Error,
}
use kubeip.Cloud.Oci.{assigned, PublicIp, PrivateIp, Vnic, available}
use kubeip.Address.Oci.{
  unassign, release_from, OciAssigner, assign, get_primary_vnic_of_instance,
  handle_public_ip_already_assigned_case, assign_to, fetch_public_ips, assign_first,
  try_assign_address,
}
use kubeip.Address.Oci.Release.{Released, unassign-Released}
use kubeip.Address.Oci.Choice.{Kept, Renewed, assign-Granted}
use kubeip.Address.Oci.{
  handle_assigned_ip, find_address, drop_public_ip, drop_ephemeral, fetch_ephemeral_public_ips,
}
use kubeip.Address.Oci.Cases.{Answers, handle_public_ip_already_assigned_case-Handled}

abbrev counted : {A : Type 0} → A → Action ℕ A
counted a n = (ok a, n + 1)

abbrev reserved_ip : PublicIp
reserved_ip = record {
  id = some "ip-1";
  ip_address = some "1.1.1.1";
  lifecycle_state = available;
  freeform_tags = none;
}

abbrev private_ip : PrivateIp
private_ip = record { id = some "private-1"; is_primary = some true }

abbrev vnic : Vnic
vnic = record {
  id = some "vnic-1";
  public_ip = none;
  availability_domain = some "ad-1";
  is_primary = some true;
}

abbrev oracle : OciAssigner ℕ
oracle = record {
  filters = none;
  compartment_ocid = "c";
  instance_svc = record { list_vnic_attachments = λ compartment name. counted [] };
  network_svc = record {
    list_public_ips = λ request filters. counted (reserved_ip ∷ []);
    get_public_ip = λ id. counted (some reserved_ip);
    update_public_ip = λ id private. counted tt;
    delete_public_ip = λ id. counted tt;
    get_primary_private_ip_of_vnic = λ id. counted private_ip;
    get_primary_vnic = λ attachments. counted vnic;
  };
}

assign-Granted_example :
    (v : Vnic) × (w1 : ℕ) × Ran (get_primary_vnic_of_instance oracle "vm-1") 0 v w1
    × ((Kept oracle v "1.1.1.1" w1 6
          × (◌≡◌ {A = Option Error} none (some (sentinel static_ip_already_assigned))))
        ⊎ (Renewed oracle v "1.1.1.1" w1 6 × (◌≡◌ {A = Option Error} none none)))
unfolding assign get_primary_vnic_of_instance handle_public_ip_already_assigned_case assign_to
    fetch_public_ips assign_first try_assign_address
assign-Granted_example = assign-Granted oracle "vm-1" "" "" "1.1.1.1" [] none 0 6 refl

abbrev used_ip : PublicIp
used_ip = record reserved_ip { lifecycle_state = assigned }

-- The instance has the address.
abbrev served : OciAssigner ℕ
served = record oracle {
  network_svc = record oracle.network_svc {
    list_public_ips = λ request filters. counted (used_ip ∷ []);
    get_primary_vnic = λ attachments. counted (record vnic { public_ip = some "1.1.1.1" });
  };
}

unassign-Released_example :
    (v : Vnic) × (public_ip : String) × (w1 : ℕ) × (reserved : List PublicIp) × (w2 : ℕ) × Ran
      (get_primary_vnic_of_instance served "vm-1")
      0
      v
      w1
    × (v.public_ip ≡ some public_ip)
    × Ran (fetch_public_ips served true true) w1 reserved w2
    × Released served public_ip reserved 4
unfolding unassign get_primary_vnic_of_instance fetch_public_ips release_from
unassign-Released_example = unassign-Released served "vm-1" "" 0 4 refl

abbrev served_vnic : Vnic
served_vnic = record vnic { public_ip = some "1.1.1.1" }

-- The instance has an ephemeral address.
abbrev ephemeral : OciAssigner ℕ
ephemeral = record served {
  network_svc = record served.network_svc {
    list_public_ips = λ request filters.
        counted (elim request.availability_domain [ none ↦ [] | some domain ↦ used_ip ∷ [] ]);
  };
}

handle_public_ip_already_assigned_case-Handled_example : Answers ephemeral served_vnic false 0 4
unfolding handle_public_ip_already_assigned_case handle_assigned_ip fetch_public_ips find_address
    drop_public_ip drop_ephemeral fetch_ephemeral_public_ips
handle_public_ip_already_assigned_case-Handled_example =
    handle_public_ip_already_assigned_case-Handled ephemeral served_vnic 0 4 false refl

listed_is_kept : Ran (handle_public_ip_already_assigned_case served (some served_vnic)) 0 true 1
unfolding handle_public_ip_already_assigned_case handle_assigned_ip fetch_public_ips find_address
listed_is_kept = refl

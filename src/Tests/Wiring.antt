-- ===== src/Tests/Wiring.antt =====
-- A whole run over a world that counts the associations of AWS.
use kubeip.Base.{
  ℕ, String, true, false, none, some, [], ◌∷◌, ◌≡◌, refl, ◌↔◌, inl, inr, arith, Bool-cases, message,
  Result, ok, err, Action, Ran, ◌==◌, if◌then◌else◌, has_prefix, split,
}
use kubeip.Base.Dict
use kubeip.Types.{Node, aws}
use kubeip.Kube.{LeaseApi, LeaseSpec, NodeApi, KubeNode, external_ip}
use kubeip.Config.{Config}
use kubeip.Lease.{
  LockWorld, lock, try_lock, tried, start_renewal, unlock, cancel_renewal, cancelled,
}
use kubeip.Lease.Laws.{IsBackoff}
use kubeip.Node.Explorer.{get_node, get_cloud_provider, get_instance, get_node_pool, get_addresses}
use kubeip.Node.Explorer.Description.{Named, Describes, get_node-Described}
use kubeip.Node.Tainter.{remove_taint_key, delete_taints_by_key}
use kubeip.Address.Interface.{Assigner, new_assigner}
use kubeip.Address.Aws.{
  assign, check_elastic_ip_assigned, get_available_elastic_ips, get_network_interface_id,
  primary_interface_id, filter_map_from, force_check_address_assigned, try_assign_address,
  assign_first, aws_assigner, over_client, new_aws_assigner,
}
use kubeip.Cloud.Aws.{eip_list, eip_assign, ec2_get}
use kubeip.Address.Aws.Sort.{field_of, sort_addresses_by_field, sort_slice, sort_from, insert_back}
use kubeip.Agent.{
  locked_assign, assign_and_unlock, assign_address, wait_for_address_to_be_reported,
  wait_reported_from, untaint, remove_taint_or_release, shut_down, run_node,
}
use kubeip.Agent.Retry.{attempt_once, assign_address_ends}
use kubeip.Agent.Wiring.{Clientset, Outside, assigner_outside, cloud_assigner, lease_env, wired}
use kubeip.Agent.Wiring.Clouds.{Completed, run_node-Secured}
use kubeip.Tests.Aws.{client_with, vm}
use kubeip.Tests.Lease.{once, once-true, paired}

abbrev node : Node String
node = record {
  name = "n";
  instance_id = "i-1";
  cloud = aws;
  pool = "p";
  region = "r";
  zone = "z";
  external_ips = [];
  internal_ips = [];
}

abbrev cfg : Config
cfg = record {
  kube_config_path = "";
  node_name = "n";
  project = "";
  region = "us-east-1";
  ipv6 = false;
  develop_mode = false;
  filter = [];
  order_by = "";
  retry_interval = 1;
  retry_attempts = 1;
  release_on_exit = false;
  lease_duration = 5;
  lease_namespace = "default";
  taint_key = "kubeip";
}

abbrev always : {A : Type 0} → Result A → Action ℕ A
always r w = (r, w)

abbrev absent : {A : Type 0} → Action ℕ A
absent = always (err (message "not here"))

abbrev kube_node : KubeNode
kube_node = record {
  labels =
      ("topology.kubernetes.io/region", "r")
      ∷ ("topology.kubernetes.io/zone", "z")
      ∷ ("eks.amazonaws.com/nodegroup", "p")
      ∷ [];
  annotations = [];
  provider_id = "aws:///z/i-1";
  taints = record { key = "kubeip"; value = ""; effect = "NoSchedule"; time_added = none } ∷ [];
  addresses = record { kind = external_ip; address = "2.2.2.2" } ∷ [];
}

abbrev nodes : NodeApi ℕ
nodes = record {
  get = λ name. always (ok kube_node);
  patch = λ name text. always (ok kube_node);
  marshal = λ taints. ok "[]";
}

abbrev own_lease : LeaseSpec
own_lease = record {
  resource_version = 1;
  holder_identity = some "i-1";
  lease_duration_seconds = 5;
  acquire_time = some 0;
  renew_time = some 0;
}

abbrev leases : LeaseApi ℕ
leases = record {
  create = λ name spec. always (ok tt);
  get = λ name. always (ok own_lease);
  update = λ name spec. always (ok tt);
  delete = λ name. always (ok tt);
  is_already_exists = λ e. false;
}

abbrev clientset : Clientset ℕ
clientset = record { nodes = nodes; leases = λ namespace. leases }

-- One try of the condition.
abbrev outside : Outside ℕ String (Unit {0}) (Unit {0})
outside = record {
  read_file = λ path. absent;
  parse_kube_config = λ text. ok tt;
  in_cluster_config = always (ok tt);
  new_for_config = λ rest_config. always (ok clientset);
  now = always (ok 0);
  exponential_backoff = λ b condition w. let (r, v) = condition w in once r v;
  parse_ip = λ text. some text;
  ip_text = λ ip. if ip == "" then "<nil>" else ip;
  wait_tick = always (ok none);
  wait_done = always (ok tt);
  load_default_config = λ region. always (ok tt);
  new_from_config = λ config. client_with ((vm ∷ []) ∷ []);
  new_service = absent;
  project_id = absent;
  instance_attribute = λ name. absent;
  context = record { ctx_err = always (ok none) };
  fuel = 1;
  new_compute_client = absent;
  new_network_client = absent;
}

outside-IsBackoff : IsBackoff (lease_env outside leases)
outside-IsBackoff = record {
  ends_on_true = λ b condition w w' h.
      (w, paired (condition w) w' (once-true (condition w).0 (condition w).1 w' h));
}

never_empty : (ip : String) → (outside.ip_text ip == "") ≡ false
never_empty ip = elim (Bool-cases (ip == "")) [ inl e ↦ rw e | inr e ↦ rw e e ]

abbrev start : LockWorld ℕ
start = record { outside = 0; started = 0; renewing = []; cancel_func = none }

abbrev end : LockWorld ℕ
end = record { outside = 1; started = 1; renewing = []; cancel_func = some 0 }

abbrev assigner : Assigner ℕ
assigner = aws_assigner (over_client (client_with ((vm ∷ []) ∷ [])) "us-east-1")

assigned : Ran (assigner.assign "i-1" "z" [] "") 0 ("2.2.2.2", none) 1
unfolding assign check_elastic_ip_assigned get_available_elastic_ips get_network_interface_id
    primary_interface_id eip_list eip_assign ec2_get filter_map_from sort_addresses_by_field
    sort_slice sort_from insert_back field_of force_check_address_assigned try_assign_address
    assign_first has_prefix
assigned = refl

attempted :
    Ran
      (attempt_once (wired outside) cfg node clientset (assigner_outside assigner))
      start
      "2.2.2.2"
      end
unfolding locked_assign assign_and_unlock lock try_lock tried start_renewal unlock cancel_renewal
    cancelled
attempted = rw assigned refl

served :
    Ran
      (assign_address (wired outside) cfg node clientset (assigner_outside assigner))
      start
      "2.2.2.2"
      end
served =
    assign_address_ends (wired outside) cfg node clientset (assigner_outside assigner) 0 start start
      end (ok "2.2.2.2") "2.2.2.2" (omega arith) (omega arith) refl attempted (inl refl)

waited :
    Ran
      (wait_for_address_to_be_reported
        (wired outside)
        cfg
        node
        ((wired outside).explorer clientset)
        "2.2.2.2")
      end
      tt
      end
unfolding wait_for_address_to_be_reported wait_reported_from get_node get_cloud_provider has_prefix
    get_instance split Dict.lookup get_node_pool get_addresses
waited = refl

removed : Ran (remove_taint_key nodes node "kubeip") 1 true 1
unfolding remove_taint_key delete_taints_by_key
removed = refl

untainted :
    Ran
      (untaint (wired outside) cfg node clientset (assigner_outside assigner) "2.2.2.2")
      end
      tt
      end
unfolding untaint remove_taint_or_release
untainted = rw (waited, removed) refl

made : Ran ((wired outside).new_assigner aws cfg) start (assigner_outside assigner) start
unfolding cloud_assigner new_assigner new_aws_assigner
made = refl

ran : Ran (run_node (wired outside) cfg node clientset) start tt end
unfolding run_node shut_down
ran = rw (made, served, untainted) refl

run_node-Secured_example : Completed outside cfg node clientset start end
run_node-Secured_example =
    run_node-Secured outside cfg node clientset outside-IsBackoff never_empty start end refl ran

abbrev described : Node String
described = record node { external_ips = "2.2.2.2" ∷ [] }

shown : Ran (get_node (λ path. absent) (λ text. some text) (some nodes) "n") 0 described 0
unfolding get_node get_cloud_provider has_prefix get_instance split Dict.lookup get_node_pool
    get_addresses
shown = refl

get_node-Described_example :
    Ran (get_node (λ path. absent) (λ text. some text) (some nodes) "n") 0 described 0 ↔ (
      (name : String) × (w1 : ℕ) × (n : KubeNode) × Named
        (λ path. absent)
        (λ text. some text)
        nodes
        "n"
        0
        name
        w1
      × Ran (nodes.get name) w1 n 0
      × Describes (λ path. absent) (λ text. some text) nodes name n described)
get_node-Described_example =
    get_node-Described (λ path. absent) (λ text. some text) nodes "n" described 0 0

-- ===== src/Tests/Node.antt =====
-- The tag filters, the explorer and the tainter on concrete data.
use kubeip.Base.{
  String, true, false, Option, none, some, List, [], ◌∷◌, ◌≡◌, ◌≢◌, refl, ◌↔◌, ◌==◌, eq_iff, ◌<>◌,
  ok, err, message, Result, arith, if◌then◌else◌,
}
use kubeip.Base.Dict.{Dict}
use kubeip.Types.{Node, gcp}
use kubeip.Types.Filters.{check_freeform_tag_filter, parse_freeform_tag_filter}
use kubeip.Types.Filters.Laws.{
  Within, check_freeform_tag_filter_iff, parse_freeform_tag_filter-written,
}
use kubeip.Kube.{Taint, KubeNode, NodeAddress, external_ip, internal_ip, other_type, NodeApi}
use kubeip.Node.Explorer.{get_addresses}
use kubeip.Node.Explorer.Laws.{ok_value, both_behind, external_of, internal_of, get_addresses_lem}
use kubeip.Node.Tainter.{delete_taints_by_key, remove_taint_key, taint_patch}
use kubeip.Node.Tainter.Laws.{other_taints, has_taint, IsNodeApi, remove_taint_key_lem}

abbrev wanted : Dict String
wanted = ("env", "prod") ∷ ("team", "net") ∷ []

abbrev tagged : Dict String
tagged = ("team", "net") ∷ ("cost", "7") ∷ ("env", "prod") ∷ []

check_freeform_tag_filter_iff_example :
    (check_freeform_tag_filter (record { freeform_tags = some wanted }) (some tagged) ≡ true)
    ↔ ((found : Dict String) × (some tagged ≡ some found) × Within wanted found)
check_freeform_tag_filter_iff_example = check_freeform_tag_filter_iff wanted (some tagged)

nil_target_is_refused : check_freeform_tag_filter (record { freeform_tags = some [] }) none ≡ false
unfolding check_freeform_tag_filter
nil_target_is_refused = refl

parse_freeform_tag_filter-written_example :
    parse_freeform_tag_filter ("freeformTags." <> ("env" <> ("=" <> "prod"))) ≡ ok ("env", "prod")
parse_freeform_tag_filter-written_example =
    parse_freeform_tag_filter-written "env" "prod" (ground arith) (ground arith)

-- Only texts of one character are addresses here.
abbrev parse_short : String → Option String
parse_short s = if s == "bad" then none else some s

abbrev listed : List NodeAddress
listed =
    record { kind = internal_ip; address = "a" }
    ∷ record { kind = other_type "Hostname"; address = "bad" }
    ∷ record { kind = external_ip; address = "b" }
    ∷ record { kind = internal_ip; address = "c" }
    ∷ []

get_addresses_lem_example :
    ok_value (get_addresses parse_short listed)
    ≡ both_behind [] [] (external_of parse_short listed) (internal_of parse_short listed)
get_addresses_lem_example = get_addresses_lem parse_short listed

addresses_of_listed : get_addresses parse_short listed ≡ ok ("b" ∷ [], "a" ∷ "c" ∷ [])
unfolding get_addresses
addresses_of_listed = refl

abbrev wait_taint : Taint
wait_taint = record { key = "kubeip"; value = "wait"; effect = "NoSchedule"; time_added = none }

abbrev gpu_taint : Taint
gpu_taint = record { key = "gpu"; value = ""; effect = "NoExecute"; time_added = none }

abbrev both_taints : List Taint
both_taints = gpu_taint ∷ wait_taint ∷ []

-- A cluster of one node, "n", whose taints are the state. Only the empty list can be marshalled.
abbrev node_with : List Taint → KubeNode
node_with ts = record {
  labels = [];
  annotations = [];
  provider_id = "gce://p/z/n";
  taints = ts;
  addresses = [];
}

abbrev taints_in : List Taint → String → List Taint
taints_in w name = if name == "n" then w else []

abbrev marshal_empty : List Taint → Result String
marshal_empty [] = ok "[]"
marshal_empty (t ∷ ts) = err (message "unsupported")

abbrev one_node : NodeApi (List Taint)
one_node = record {
  get = λ name w. (if name == "n" then ok (node_with w) else err (message "not found"), w);
  patch = λ name text w. (ok (node_with []), if name == "n" then [] else w);
  marshal = marshal_empty;
}

patch_of_empty :
    (name text : String) (taints w w' : List Taint) (n : KubeNode)
    → marshal_empty taints ≡ ok text
    → one_node.patch name (taint_patch text) w ≡ (ok n, w')
    → (taints_in w' name ≡ taints) × ((m : String) → m ≢ name → taints_in w' m ≡ taints_in w m)
patch_of_empty name text [] w w' n h k =
    (ground arith, λ m ne. ground (arith, eq_iff name "n", eq_iff m "n"))
patch_of_empty name text (t ∷ ts) w w' n h k = absurd (ground arith)

one_node-IsNodeApi : IsNodeApi one_node taints_in
one_node-IsNodeApi = record {
  get_answers = λ name w w' n h. (ground arith, λ m. ground arith);
  patch_sets = patch_of_empty;
}

abbrev this_node : Node String
this_node = record {
  name = "n";
  instance_id = "vm-1";
  cloud = gcp;
  pool = "p";
  region = "r";
  zone = "z";
  external_ips = [];
  internal_ips = [];
}

remove_taint_key_lem_example :
    (taints_in [] "n" ≡ other_taints "kubeip" (taints_in (wait_taint ∷ []) "n"))
    × (true ≡ has_taint "kubeip" (taints_in (wait_taint ∷ []) "n"))
    × ((m : String) → m ≢ "n" → taints_in [] m ≡ taints_in (wait_taint ∷ []) m)
unfolding remove_taint_key delete_taints_by_key
remove_taint_key_lem_example =
    remove_taint_key_lem one_node taints_in one_node-IsNodeApi this_node "kubeip" (wait_taint ∷ [])
      [] true refl

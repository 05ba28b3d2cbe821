-- ===== src/Node/Explorer.antt =====
-- internal/node/explorer.go.
pub mod Laws
pub mod Provider
pub mod Description
use kubeip.Base.{
  ℕ, String, Bool, true, false, Option, none, some, List, [], ◌∷◌, ◌++◌, ◌<>◌, ◌==◌, has_prefix,
  split, length, ltb, Error, message, wrap, Result, ok, err, panic, Action, fail, return, lift,
  or_fail, wrapped, ◌>>=◌, if◌then◌else◌,
}
use kubeip.Base.Dict
use kubeip.Types.{CloudProvider, gcp, aws, oci, azure, other, Node}
use kubeip.Kube.{AddressType, external_ip, internal_ip, other_type, NodeAddress, KubeNode, NodeApi}

abbrev pub min_provider_id_tokens : ℕ
min_provider_id_tokens = 2

abbrev pub pod_info_dir : String
pod_info_dir = "/etc/podinfo/"

abbrev pub aws_pool_label : String
aws_pool_label = "eks.amazonaws.com/nodegroup"

abbrev pub azure_pool_label : String
azure_pool_label = "node.kubernetes.io/instancegroup"

abbrev pub gcp_pool_label : String
gcp_pool_label = "cloud.google.com/gke-nodepool"

abbrev pub oci_pool_annotation : String
oci_pool_annotation = "oci.oraclecloud.com/node-pool-id"

abbrev pub region_label : String
region_label = "topology.kubernetes.io/region"

abbrev pub zone_label : String
zone_label = "topology.kubernetes.io/zone"

unfoldable pub get_cloud_provider : String → Result CloudProvider
get_cloud_provider provider_id =
    if has_prefix provider_id "aws://"
    then ok aws
    else if has_prefix provider_id "azure://"
    then ok azure
    else if has_prefix provider_id "gce://"
    then ok gcp
    else if has_prefix provider_id "oci"
    then ok oci
    else err (message ("unsupported provider ID: " <> provider_id))

-- `s[len(s)-1]`; an index out of range panics.
abbrev pub last_piece : List String → Result String
last_piece [] = panic
last_piece (s ∷ []) = ok s
last_piece (s ∷ t ∷ pieces) = last_piece (t ∷ pieces)

unfoldable pub get_instance : String → Result String
get_instance provider_id =
    if provider_id == ""
    then err (message "failed to get instance ID, provider ID is empty")
    else if has_prefix provider_id "oci"
    then ok provider_id
    else if ltb (length (split b'/' provider_id)) min_provider_id_tokens
    then err (message "failed to get instance ID")
    else last_piece (split b'/' provider_id)

-- `pool, ok := m[k]`, and the error when it is not there.
abbrev found_pool : Option String → Result String
found_pool none = err (message "failed to get node pool")
found_pool (some pool) = ok pool

pool_of : CloudProvider → KubeNode → Result String
pool_of aws node = found_pool (Dict.lookup aws_pool_label node.labels)
pool_of azure node = found_pool (Dict.lookup azure_pool_label node.labels)
pool_of gcp node = found_pool (Dict.lookup gcp_pool_label node.labels)
pool_of oci node = found_pool (Dict.lookup oci_pool_annotation node.annotations)
pool_of (other provider) node = err (message ("unsupported cloud provider: " <> provider))

-- A nil node is `none`.
unfoldable pub get_node_pool : CloudProvider → Option KubeNode → Result String
unfolding pool_of
get_node_pool provider none = err (message "node info is nil")
get_node_pool provider (some node) = pool_of provider node

-- `getNodeName`: the file is read by package `os`, a parameter.
module _ {W : Type 0} (read_file : String → Action W String) where
  unfoldable pub get_node_name : String → Action W String
  get_node_name file = wrapped ("failed to read " <> file) (read_file file)

module _ {Ip : Type 0} (parse_ip : String → Option Ip) where
  -- The loop over the addresses; both lists grow at their ends. Other types are passed over.
  addresses_from : List NodeAddress → List Ip → List Ip → Result (List Ip × List Ip)
  addresses_from [] external internal = ok (external, internal)
  addresses_from (a ∷ addresses) external internal = elim a.kind [
    | other_type t ↦ addresses_from addresses external internal
    | external_ip ↦ elim (parse_ip a.address) [
      | none ↦ err (message ("failed to parse IP address: " <> a.address))
      | some ip ↦ addresses_from addresses (external ++ (ip ∷ [])) internal
    ]
    | internal_ip ↦ elim (parse_ip a.address) [
      | none ↦ err (message ("failed to parse IP address: " <> a.address))
      | some ip ↦ addresses_from addresses external (internal ++ (ip ∷ []))
    ]
  ]

  unfoldable pub get_addresses : List NodeAddress → Result (List Ip × List Ip)
  unfolding addresses_from
  get_addresses addresses = addresses_from addresses [] []

-- The interface that the agent's main loop uses.
pub record Explorer (W Ip : Type 0) : Type 0 where
  pub get_node : String → Action W (Node Ip)

module _ {W Ip : Type 0} (read_file : String → Action W String) (parse_ip : String → Option Ip)
    (client : Option (NodeApi W)) where
  -- The node as it was read, taken apart.
  node_of : String → KubeNode → Action W (Node Ip)
  node_of name n = do
    cloud ← wrapped "failed to get cloud provider" (lift (get_cloud_provider n.provider_id))
    instance_id ← wrapped "failed to get instance ID" (lift (get_instance n.provider_id))
    region ← or_fail (Dict.lookup region_label n.labels) (message "failed to get node region")
    zone ← or_fail (Dict.lookup zone_label n.labels) (message "failed to get node zone")
    pool ← wrapped "failed to get node pool" (lift (get_node_pool cloud (some n)))
    ips ← wrapped "failed to get node addresses" (lift (get_addresses parse_ip n.addresses))
    return (record {
      name = name;
      instance_id = instance_id;
      cloud = cloud;
      pool = pool;
      region = region;
      zone = zone;
      external_ips = ips.0;
      internal_ips = ips.1;
    })

  -- An empty name is replaced by the one of the downward API.
  resolve_name : String → Action W String
  unfolding get_node_name
  resolve_name name =
      if name == ""
      then wrapped "failed to get node name from downward API"
          (get_node_name read_file (pod_info_dir <> "nodeName"))
      else return name

  get_node_with : NodeApi W → String → Action W (Node Ip)
  unfolding node_of resolve_name
  get_node_with api node_name = do
    name ← resolve_name node_name
    n ← wrapped "failed to get kubernetes node" (api.get name)
    node_of name n

  unfoldable pub get_node : String → Action W (Node Ip)
  unfolding get_node_with
  get_node node_name = elim client [
    | none ↦ fail (message "kubernetes client is nil")
    | some api ↦ get_node_with api node_name
  ]

  abbrev pub new_explorer : Explorer W Ip
  new_explorer = record { get_node = get_node }

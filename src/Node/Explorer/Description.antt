-- ===== src/Node/Explorer/Description.antt =====
-- `GetNode` of internal/node/explorer.go against a description of the node that it gives.
use kubeip.Base.{
  String, Option, none, some, List, [], ◌≡◌, ◌≢◌, refl, sym, ◌∙◌, ap, ◌⊎◌, inl, inr, ◌↔◌, arith,
  eq_iff, ◌==◌, ◌<>◌, Result, ok, err, panic, unfinished, Action, Ran, >>=-Ran, wrapped>>=-Ran,
  wrapped-Ran, if-Ran, return, or_fail-Ran, or_fail, lift, subst,
}
use kubeip.Base.Dict
use kubeip.Types.{CloudProvider, gcp, aws, oci, azure, other, Node}
use kubeip.Kube.{KubeNode, NodeApi}
use kubeip.Node.Explorer.{
  get_cloud_provider, get_instance, found_pool, pool_of, get_node_pool, get_node_name,
  get_addresses, region_label, zone_label, node_of, resolve_name, get_node_with, get_node,
}
use kubeip.Node.Explorer.Provider.{
  IsOfCloud, IsOfCloud-eq, IsOfCloud-some_text, eq-IsOfCloud, NamesInstance, NamesInstance-eq,
  eq-NamesInstance,
}
use kubeip.Node.Explorer.Laws.{ok_value, both_behind, external_of, internal_of, get_addresses_lem}

-- Where the name of the pool of a node stands, by its cloud.
abbrev pub HasPool : CloudProvider → KubeNode → String → Type 0
HasPool aws n pool = Dict.lookup "eks.amazonaws.com/nodegroup" n.labels ≡ some pool
HasPool azure n pool = Dict.lookup "node.kubernetes.io/instancegroup" n.labels ≡ some pool
HasPool gcp n pool = Dict.lookup "cloud.google.com/gke-nodepool" n.labels ≡ some pool
HasPool oci n pool = Dict.lookup "oci.oraclecloud.com/node-pool-id" n.annotations ≡ some pool
HasPool (other provider) n pool = ⊥

found_pool-ok : (p : Option String) {pool : String} → found_pool p ≡ ok pool → p ≡ some pool
found_pool-ok none h = absurd (ground arith)
found_pool-ok (some q) h = ground arith

get_node_pool-HasPool :
    (cloud : CloudProvider) (n : KubeNode) {pool : String}
    → get_node_pool cloud (some n) ≡ ok pool
    → HasPool cloud n pool
unfolding get_node_pool pool_of
get_node_pool-HasPool aws n h = found_pool-ok _ h
get_node_pool-HasPool azure n h = found_pool-ok _ h
get_node_pool-HasPool gcp n h = found_pool-ok _ h
get_node_pool-HasPool oci n h = found_pool-ok _ h
get_node_pool-HasPool (other provider) n h = absurd (ground arith)

HasPool-get_node_pool :
    (cloud : CloudProvider) (n : KubeNode) {pool : String}
    → HasPool cloud n pool
    → get_node_pool cloud (some n) ≡ ok pool
unfolding get_node_pool pool_of
HasPool-get_node_pool aws n h = ap found_pool h
HasPool-get_node_pool azure n h = ap found_pool h
HasPool-get_node_pool gcp n h = ap found_pool h
HasPool-get_node_pool oci n h = ap found_pool h
HasPool-get_node_pool (other provider) n h = absurd h

ok_value-some : {A : Type 0} (r : Result A) {a : A} → ok_value r ≡ some a → r ≡ ok a
ok_value-some (ok b) h = ground arith
ok_value-some (err e) h = absurd (ground arith)
ok_value-some panic h = absurd (ground arith)
ok_value-some unfinished h = absurd (ground arith)

both_behind-some :
    {Ip : Type 0} (x y : Option (List Ip)) {e i : List Ip}
    → both_behind [] [] x y ≡ some (e, i)
    → (x ≡ some e) × (y ≡ some i)
both_behind-some (some xs) (some ys) h = (ground arith, ground arith)
both_behind-some (some xs) none h = absurd (ground arith)
both_behind-some none y h = absurd (ground arith)

lift-Ran :
    {W A : Type 0} (r : Result A) (w : W) {a : A} {w' : W}
    → Ran (lift r) w a w'
    → (r ≡ ok a) × (w ≡ w')
lift-Ran r w h = (ap (λ p. p.0) h, ap (λ p. p.1) h)

return-Ran :
    {W A : Type 0} (a : A) (w : W) {b : A} {w' : W} → Ran (return a) w b w' → (a ≡ b) × (w ≡ w')
return-Ran a w h = ground arith

module _ {W Ip : Type 0} (read_file : String → Action W String) (parse_ip : String → Option Ip)
    (api : NodeApi W) where
  -- The name that is asked for, or for the empty one what the downward API's file holds.
  abbrev pub Named : String → W → String → W → Type 0
  Named asked w name w1 =
      ((asked ≢ "") × (asked ≡ name) × (w ≡ w1))
      ⊎ ((asked ≡ "") × Ran (read_file "/etc/podinfo/nodeName") w name w1)

  -- The fields of a node, read off the Kubernetes node.
  abbrev pub Describes : String → KubeNode → Node Ip → Type 0
  Describes name n node =
      (node.name ≡ name)
      × IsOfCloud node.cloud n.provider_id
      × NamesInstance n.provider_id node.instance_id
      × (Dict.lookup "topology.kubernetes.io/region" n.labels ≡ some node.region)
      × (Dict.lookup "topology.kubernetes.io/zone" n.labels ≡ some node.zone)
      × HasPool node.cloud n node.pool
      × (external_of parse_ip n.addresses ≡ some node.external_ips)
      × (internal_of parse_ip n.addresses ≡ some node.internal_ips)

  node_of-Describes :
      (name : String) (n : KubeNode) (node : Node Ip) (w w' : W)
      → Ran (node_of read_file parse_ip (some api) name n) w node w'
      → Describes name n node × (w ≡ w')
  unfolding node_of
  node_of-Describes name n node w w' h =
      let (cloud, w1, a, h1) = wrapped>>=-Ran _ (lift (get_cloud_provider n.provider_id)) _ w h in
      let (id, w2, b, h2) = wrapped>>=-Ran _ (lift (get_instance n.provider_id)) _ w1 h1 in
      let (region, w3, c, h3) = >>=-Ran (or_fail (Dict.lookup region_label n.labels) _) _ w2 h2 in
      let (zone, w4, d, h4) = >>=-Ran (or_fail (Dict.lookup zone_label n.labels) _) _ w3 h3 in
      let (pool, w5, e, h5) = wrapped>>=-Ran _ (lift (get_node_pool cloud (some n))) _ w4 h4 in
      let (ips, w6, f, h6) = wrapped>>=-Ran _ (lift (get_addresses parse_ip n.addresses)) _ w5 h5 in
      let (provided, s1) = lift-Ran (get_cloud_provider n.provider_id) w a in
      let (instance_of, s2) = lift-Ran (get_instance n.provider_id) w1 b in
      let (in_region, s3) = or_fail-Ran (Dict.lookup region_label n.labels) _ w2 c in
      let (in_zone, s4) = or_fail-Ran (Dict.lookup zone_label n.labels) _ w3 d in
      let (pooled, s5) = lift-Ran (get_node_pool cloud (some n)) w4 e in
      let (addressed, s6) = lift-Ran (get_addresses parse_ip n.addresses) w5 f in
      let (external, internal) =
        both_behind-some (external_of parse_ip n.addresses) (internal_of parse_ip n.addresses)
          (sym (get_addresses_lem parse_ip n.addresses) ∙ ap ok_value addressed) in
      let (made, s7) = return-Ran _ w6 h6 in
      (
        subst (Describes name n) made (
          refl,
          eq-IsOfCloud cloud n.provider_id provided,
          (eq-NamesInstance n.provider_id id instance_of).1,
          in_region,
          in_zone,
          get_node_pool-HasPool cloud n pooled,
          external,
          internal,
        ),
        s1 ∙ (s2 ∙ (s3 ∙ (s4 ∙ (s5 ∙ (s6 ∙ s7))))),
      )

  Describes-node_of :
      (name : String) (n : KubeNode) (node : Node Ip) (w : W)
      → Describes name n node
      → Ran (node_of read_file parse_ip (some api) name n) w node w
  unfolding node_of
  Describes-node_of name n node w
        (named, provided, instance_of, in_region, in_zone, pooled, external, internal) =
      let addressed : get_addresses parse_ip n.addresses
          ≡ ok (node.external_ips, node.internal_ips) =
        ok_value-some (get_addresses parse_ip n.addresses)
          (get_addresses_lem parse_ip n.addresses ∙ rw (external, internal) refl) in
      rw
        (
          IsOfCloud-eq node.cloud n.provider_id provided,
          NamesInstance-eq n.provider_id node.instance_id
              (IsOfCloud-some_text node.cloud n.provider_id provided) instance_of,
          in_region,
          in_zone,
          HasPool-get_node_pool node.cloud n pooled,
          addressed,
          ← named,
        )
        refl

  resolve_name-Named :
      (asked name : String) (w w1 : W)
      → Ran (resolve_name read_file parse_ip (some api) asked) w name w1
      → Named asked w name w1
  unfolding resolve_name get_node_name
  resolve_name-Named asked name w w1 h =
      let file : String = "/etc/podinfo/nodeName" in
      elim (if-Ran (asked == "") _ _ w h) [
        | inl (empty, ran) ↦ inr (
          ground (arith, eq_iff asked ""),
          wrapped-Ran ("failed to read " <> file) (read_file file) w
              (wrapped-Ran _ (get_node_name read_file file) w ran),
        )
        | inr (given, ran) ↦
            let (same, still) = return-Ran asked w ran in
            inl (λ empty. ground (arith, eq_iff asked ""), same, still)
      ]

  Named-resolve_name :
      (asked name : String) (w w1 : W)
      → Named asked w name w1
      → Ran (resolve_name read_file parse_ip (some api) asked) w name w1
  unfolding resolve_name get_node_name
  Named-resolve_name asked name w w1 (inl (some_text, same, still)) =
      ground (arith, eq_iff asked "")
  Named-resolve_name asked name w w1 (inr (empty, ran)) = rw (empty, ran) refl

  -- `GetNode` gives a node exactly when the name is found, the API has a node of that name, read as
  -- the last call, and what is given describes that node: the cloud by how the provider ID begins, the
  -- instance as the whole provider ID of OCI and else as what follows its last slash, the region, the
  -- zone and the pool by their labels or annotation, and both lists of addresses, all of which parse.
  pub get_node-Described :
      (asked : String) (node : Node Ip) (w w' : W)
      → Ran (get_node read_file parse_ip (some api) asked) w node w' ↔ (
          (name : String) × (w1 : W) × (n : KubeNode) × Named asked w name w1
          × Ran (api.get name) w1 n w'
          × Describes name n node)
  unfolding get_node get_node_with
  get_node-Described asked node w w' = (forward, backward)
    where
      forward :
          Ran (get_node read_file parse_ip (some api) asked) w node w'
          → (name : String) × (w1 : W) × (n : KubeNode) × Named asked w name w1
            × Ran (api.get name) w1 n w'
            × Describes name n node
      forward h =
          let (name, w1, named, h1) =
            >>=-Ran (resolve_name read_file parse_ip (some api) asked) _ w h in
          let (n, w2, got, h2) = wrapped>>=-Ran _ (api.get name) _ w1 h1 in
          let (described, same) = node_of-Describes name n node w2 w' h2 in
          (
            name,
            w1,
            n,
            resolve_name-Named asked name w w1 named,
            subst (Ran (api.get name) w1 n) same got,
            described,
          )

      backward :
          ((name : String) × (w1 : W) × (n : KubeNode) × Named asked w name w1
            × Ran (api.get name) w1 n w'
            × Describes name n node)
          → Ran (get_node read_file parse_ip (some api) asked) w node w'
      backward (name, w1, n, named, got, described) =
          rw (Named-resolve_name asked name w w1 named, got)
            (Describes-node_of name n node w' described)

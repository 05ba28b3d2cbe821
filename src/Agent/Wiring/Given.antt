-- ===== src/Agent/Wiring/Given.antt =====
-- How the assigner of the node's cloud gives an address.
use kubeip.Base.{
  String, true, [], none, ◌≡◌, ◌≢◌, sym, arith, Ran, >>=-Ran, wrapped>>=-Ran, subst, lift, wrapped,
  inl, inr, List, some, ◌⊎◌,
}
use kubeip.Types.{CloudProvider, aws, azure, gcp, oci, other, Node}
use kubeip.Config.{Config}
use kubeip.Address.Interface.{Assigner, azure_assigner, new_assigner}
use kubeip.Address.Aws.{
  aws_assigner, new_aws_assigner, over_client, by_name, get_available_elastic_ips,
}
use kubeip.Address.Aws.Choice.{Chosen, assign-Chosen}
use kubeip.Address.Aws.Primary.{IsPrimary}
use kubeip.Cloud.Aws.{Address as AwsAddress, Instance as AwsInstance}
use kubeip.Cloud.Oci.{Vnic, instance_service, network_service}
use kubeip.Address.Gcp.{GcpAssigner, gcp_assigner, gcp_settings, new_gcp_assigner}
use kubeip.Address.Gcp.Assignment.{Held, Fresh, assign-Given}
use kubeip.Address.Oci.{
  OciAssigner, oci_assigner, new_oci_assigner, get_primary_vnic_of_instance, parse_oci_filters,
}
use kubeip.Address.Oci.Choice.{Renewed, assign-Granted}
use kubeip.Agent.Wiring.{Outside, cloud_assigner}

module _ {W Ip RestConfig AwsConfig : Type 0} (o : Outside W Ip RestConfig AwsConfig) (cfg : Config)
    (node : Node Ip) where
  -- The assigner of AWS was made; no address was listed for the instance when its call began, and an
  -- available one was attached to its primary interface as the last call.
  abbrev pub GivenByAws : W → W → String → W → W → Type 0
  GivenByAws s s1 address u u' =
      (c : AwsConfig) × (w1 w2 w3 : W) × (addresses : List AwsAddress) × (inst : AwsInstance)
      × (ni : String) × Ran (o.load_default_config cfg.region) s c s1
      × Ran
          ((over_client (o.new_from_config c) cfg.region).eip_lister.list
            (by_name "instance-id" node.instance_id) true)
          u [] w1
      × Ran
          (get_available_elastic_ips (over_client (o.new_from_config c) cfg.region) cfg.filter
            cfg.order_by)
          w1 addresses w2
      × Ran
          ((over_client (o.new_from_config c) cfg.region).instance_getter.get node.instance_id
            cfg.region)
          w2 (some inst) w3
      × IsPrimary inst ni
      × Chosen (over_client (o.new_from_config c) cfg.region) addresses ni address u'

  -- The assigner of Google Cloud was made; the map of users has the address for the instance, or a
  -- reserved one was added as the last call.
  abbrev pub GivenByGcp : W → W → String → W → W → Type 0
  GivenByGcp s s1 address u u' =
      (g : GcpAssigner W) × Ran
        (gcp_settings o.new_service o.project_id o.instance_attribute cfg.project cfg.region
          cfg.ipv6)
        s g s1
      × (Held g o.context o.fuel node.instance_id node.zone address u u'
          ⊎ Fresh g o.context o.fuel node.instance_id node.zone cfg.filter cfg.order_by address u
              u')

  -- The assigner of Oracle Cloud was made; the primary VNIC had no reserved address of the filtered
  -- list, and an available one was given to its private address as the last call.
  abbrev pub GivenByOci : W → W → String → W → W → Type 0
  GivenByOci s s1 address u u' =
      (a : OciAssigner W) × (vnic : Vnic) × (w1 : W) × Ran
        (new_oci_assigner o.new_compute_client o.new_network_client cfg.project cfg.filter) s
        (oci_assigner a) s1
      × Ran (get_primary_vnic_of_instance a node.instance_id) u vnic w1
      × Renewed a vnic address w1 u'

  -- By the node's cloud: none but these three gives an address.
  abbrev pub GivenBy : CloudProvider → W → W → String → W → W → Type 0
  GivenBy aws s s1 address u u' = GivenByAws s s1 address u u'
  GivenBy gcp s s1 address u u' = GivenByGcp s s1 address u u'
  GivenBy oci s s1 address u u' = GivenByOci s s1 address u u'
  GivenBy azure s s1 address u u' = ⊥
  GivenBy (other provider) s s1 address u u' = ⊥

  module _ (assigner : Assigner W) (s s1 u u' : W) (address : String)
      (gives : Ran
        (assigner.assign node.instance_id node.zone cfg.filter cfg.order_by)
        u
        (address, none)
        u') where
    aws-GivenByAws :
        Ran (new_aws_assigner o.load_default_config o.new_from_config cfg.region) s assigner s1
        → GivenByAws s s1 address u u'
    unfolding new_aws_assigner
    aws-GivenByAws made =
        let (c, s2, loaded, rest) = wrapped>>=-Ran _ (o.load_default_config cfg.region) _ s made in
        let a = over_client (o.new_from_config c) cfg.region in
        let same : aws_assigner a ≡ assigner = ground arith in
        let end : s2 ≡ s1 = ground arith in
        let (w1, w2, w3, addresses, inst, ni, unserved, available, got, primary, chosen, clean) =
          assign-Chosen a node.instance_id node.zone cfg.order_by address cfg.filter none u u' (
            subst
              (λ b.
                Ran (b.assign node.instance_id node.zone cfg.filter cfg.order_by) u (address, none)
                  u')
              (sym same) gives) in
        (
          c,
          w1,
          w2,
          w3,
          addresses,
          inst,
          ni,
          subst (Ran (o.load_default_config cfg.region) s c) end loaded,
          unserved,
          available,
          got,
          primary,
          chosen,
        )

    gcp-GivenByGcp :
        address ≢ ""
        → Ran
            (new_gcp_assigner o.new_service o.project_id o.instance_attribute o.context o.fuel
              cfg.project cfg.region cfg.ipv6)
            s
            assigner
            s1
        → GivenByGcp s s1 address u u'
    unfolding new_gcp_assigner
    gcp-GivenByGcp some_text made =
        let settings =
          gcp_settings o.new_service o.project_id o.instance_attribute cfg.project cfg.region
            cfg.ipv6 in
        let (g, s2, set, rest) = >>=-Ran settings _ s made in
        let same : gcp_assigner g o.context o.fuel ≡ assigner = ground arith in
        let end : s2 ≡ s1 = ground arith in
        let (given, clean) =
          assign-Given g o.context o.fuel node.instance_id node.zone cfg.filter cfg.order_by address
            none u u'
            (subst
              (λ b.
                Ran (b.assign node.instance_id node.zone cfg.filter cfg.order_by) u (address, none)
                  u')
              (sym same) gives) in
        (
          g,
          subst (Ran settings s g) end set,
          elim given [
            | inl held ↦ inl held
            | inr (inl fresh) ↦ inr fresh
            | inr (inr (e, failed, already, empty)) ↦ absurd (some_text empty)
          ],
        )

    oci-GivenByOci :
        Ran
          (new_oci_assigner o.new_compute_client o.new_network_client cfg.project cfg.filter)
          s
          assigner
          s1
        → GivenByOci s s1 address u u'
    unfolding new_oci_assigner
    oci-GivenByOci made =
        let (filters, s2, parsed, h2) =
          wrapped>>=-Ran _ (lift (parse_oci_filters (some cfg.filter))) _ s made in
        let (compute, s3, computes, h3) =
          wrapped>>=-Ran _ (wrapped "failed to create OCI Compute client" o.new_compute_client) _ s2
            h2 in
        let (network, s4, networks, h4) =
          wrapped>>=-Ran _
            (wrapped "failed to create OCI Virtual Network client" o.new_network_client) _ s3 h3 in
        let a : OciAssigner W = record {
          filters = some filters;
          compartment_ocid = cfg.project;
          instance_svc = instance_service compute;
          network_svc = network_service network;
        } in
        let same : assigner ≡ oci_assigner a = ground arith in
        let (vnic, w1, got, cases) =
          assign-Granted a node.instance_id node.zone cfg.order_by address cfg.filter none u u' (
            subst
              (λ b.
                Ran (b.assign node.instance_id node.zone cfg.filter cfg.order_by) u (address, none)
                  u')
              same gives) in
        elim cases [
          | inl (held, bad) ↦ absurd (ground (arith, bad))
          | inr (renewed, clean) ↦ (
            a,
            vnic,
            w1,
            subst
                (λ b.
                  Ran
                    (new_oci_assigner o.new_compute_client o.new_network_client cfg.project
                      cfg.filter)
                    s b s1)
                same made,
            got,
            renewed,
          )
        ]

    pub assign-GivenBy :
        (provider : CloudProvider)
        → address ≢ ""
        → Ran (cloud_assigner o provider cfg) s assigner s1
        → GivenBy provider s s1 address u u'
    unfolding cloud_assigner new_assigner
    assign-GivenBy aws some_text made = aws-GivenByAws made
    assign-GivenBy gcp some_text made = gcp-GivenByGcp some_text made
    assign-GivenBy oci some_text made = oci-GivenByOci made
    assign-GivenBy azure some_text made =
        let same : azure_assigner ≡ assigner = ground arith in
        let none_given =
          subst
            (λ b.
              Ran (b.assign node.instance_id node.zone cfg.filter cfg.order_by) u (address, none)
                u')
            (sym same) gives in
        absurd (some_text (ground arith))
    assign-GivenBy (other provider) some_text made = absurd (ground arith)

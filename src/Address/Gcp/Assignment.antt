-- ===== src/Address/Gcp/Assignment.antt =====
-- What a successful `Assign` of Google Cloud has done.
use kubeip.Base.{
  ℕ, In, Ran-same, String, true, Option, none, some, List, [], ◌≡◌, refl, ap, ◌⊎◌, inl, inr, arith,
  Error, sentinel, errors_is, static_ip_already_assigned, Result, ok, err, panic, unfinished, Ran,
  >>=-Ran, wrapped>>=-Ran, fail_if, fail_if-Ran, is_empty, Context, subst, Option-cases, Bool-cases,
  sym, ◌∙◌,
}
use kubeip.Base.Dict
use kubeip.Cloud.Gcp.{Instance, Address}
use kubeip.Address.Gcp.Parts.{in_use_status, reserved_status, create_user_map, create_access_config}
use kubeip.Address.Gcp.{
  GcpAssigner, internal_assigner, list_addresses, check_static_ip_assigned, drop_ephemeral,
  assign_to, checked_error, assign,
}
use kubeip.Address.Gcp.Choice.{assign_first-Taken}
use kubeip.Address.Gcp.Requests.{
  IsAdded, ReadFree, add_instance_address-IsAdded, check_address_assigned-ReadFree,
}

module _ {W : Type 0} (g : GcpAssigner W) (ctx : Context W) (fuel : ℕ)
    (instance_id zone : String) where
  -- The instance, and the addresses that are in use, as the check at the start reads them.
  abbrev pub Checked : Instance → List Address → W → W → Type 0
  Checked inst in_use w w1 =
      (v : W) × Ran (g.instance_getter.get g.project zone instance_id) w inst v
      × Ran (list_addresses g ctx fuel [] "" in_use_status) v in_use w1

  -- What the check gives for them.
  abbrev pub checked_answer : Option String → Instance → Option Instance × String × Option Error
  checked_answer none inst = (some inst, "", none)
  checked_answer (some held) inst = (none, held, some (sentinel static_ip_already_assigned))

  check-Checked :
      (w w1 : W) (answer : Option Instance × String × Option Error)
      → Ran (check_static_ip_assigned g ctx fuel zone instance_id) w answer w1
      → (inst : Instance) × (in_use : List Address) × Checked inst in_use w w1
        × (checked_answer (Dict.lookup inst.self_link (create_user_map in_use)) inst ≡ answer)
  unfolding check_static_ip_assigned
  check-Checked w w1 answer h =
      let (inst, v, got, h1) =
        wrapped>>=-Ran _ (g.instance_getter.get g.project zone instance_id) _ w h in
      let (in_use, v1, listed, h2) =
        wrapped>>=-Ran _ (list_addresses g ctx fuel [] "" in_use_status) _ v h1 in
      elim (Option-cases (Dict.lookup inst.self_link (create_user_map in_use))) [
        | inl free ↦
            let h3 = rw free at h2 in
            let same : v1 ≡ w1 = ground (arith, h3) in
            (
              inst,
              in_use,
              (
                v,
                got,
                subst (λ u. Ran (list_addresses g ctx fuel [] "" in_use_status) v in_use u) same
                    listed,
              ),
              rw free (ground (arith, h3)),
            )
        | inr (held, there) ↦
            let h3 = rw there at h2 in
            let same : v1 ≡ w1 = ground (arith, h3) in
            (
              inst,
              in_use,
              (
                v,
                got,
                subst (λ u. Ran (list_addresses g ctx fuel [] "" in_use_status) v in_use u) same
                    listed,
              ),
              rw there (ground (arith, h3)),
            )
      ]

  -- One of the addresses, read afresh and not in use then, was asked to be added to the instance, and
  -- nothing but the wait came behind.
  abbrev pub Granted : Instance → List Address → String → W → Type 0
  Granted inst addresses ip w' =
      (x : Address) × (v v1 : W) × In x addresses
      × (x.address ≡ ip)
      × ReadFree g ctx fuel zone x.name v v1
      × IsAdded g ctx fuel zone inst (create_access_config (some x) g.ipv6) v1 w'

  -- The reserved addresses were listed, the address that the instance had was dropped, the instance was
  -- read afresh, and one of the listed addresses asked for it.
  abbrev pub Attached : Instance → List String → String → String → W → W → Type 0
  Attached inst filter order_by ip w1 w' =
      (addresses : List Address) × (refreshed : Instance) × (v v1 v2 : W) × Ran
        (list_addresses g ctx fuel filter order_by reserved_status) w1 addresses v
      × Ran (drop_ephemeral g ctx fuel inst zone) v tt v1
      × Ran (g.instance_getter.get g.project zone instance_id) v1 refreshed v2
      × Granted refreshed addresses ip w'

  assign_to-Attached :
      (inst : Instance) (filter : List String) (order_by ip : String) (w1 w' : W)
      → Ran (assign_to g ctx fuel inst instance_id zone filter order_by) w1 ip w'
      → Attached inst filter order_by ip w1 w'
  unfolding assign_to
  assign_to-Attached inst filter order_by ip w1 w' h =
      let (addresses, v, listed, h1) =
        wrapped>>=-Ran _ (list_addresses g ctx fuel filter order_by reserved_status) _ w1 h in
      let (t, v1, full, h2) = >>=-Ran (fail_if (is_empty addresses) _) _ v h1 in
      let (some_there, still) = fail_if-Ran (is_empty addresses) _ v v1 full in
      let (t', v2, dropped, h3) = >>=-Ran (drop_ephemeral g ctx fuel inst zone) _ v1 h2 in
      let (refreshed, v3, got, h4) =
        wrapped>>=-Ran _ (g.instance_getter.get g.project zone instance_id) _ v2 h3 in
      let (x, at, shown, (u, u1, free, added)) =
        assign_first-Taken (internal_assigner g ctx fuel) refreshed g.region zone ctx addresses ip
          v3 w' some_there h4 in
      (
        addresses,
        refreshed,
        v,
        v2,
        v3,
        listed,
        Ran-same (drop_ephemeral g ctx fuel inst zone) (sym still) refl refl dropped,
        got,
        (
          x,
          u,
          u1,
          at,
          shown,
          check_address_assigned-ReadFree g ctx fuel zone x.name u u1 free,
          add_instance_address-IsAdded g ctx fuel zone refreshed (some x) u1 w' added,
        ),
      )

  -- The instance holds the address, and nothing is done behind the check.
  abbrev pub Held : String → W → W → Type 0
  Held ip w w' =
      (inst : Instance) × (in_use : List Address) × Checked inst in_use w w'
      × (Dict.lookup inst.self_link (create_user_map in_use) ≡ some ip)

  -- The instance holds none, and gets one.
  abbrev pub Fresh : List String → String → String → W → W → Type 0
  Fresh filter order_by ip w w' =
      (inst : Instance) × (in_use : List Address) × (w1 : W) × Checked inst in_use w w1
      × (Dict.lookup inst.self_link (create_user_map in_use) ≡ none)
      × Attached inst filter order_by ip w1 w'

  -- The check failed with an error that says that an address is assigned.
  abbrev pub Refused : String → W → W → Type 0
  Refused ip w w' =
      (e : Error) × (check_static_ip_assigned g ctx fuel zone instance_id w ≡ (err e, w'))
      × (errors_is e static_ip_already_assigned ≡ true)
      × (ip ≡ "")

  abbrev pub Given : List String → String → String → W → W → Type 0
  Given filter order_by ip w w' = Held ip w w' ⊎ (Fresh filter order_by ip w w' ⊎ Refused ip w w')

  module _ (filter : List String) (order_by ip : String) (e : Option Error) (w w1 w' : W) where
    Fresh-Given :
        (inst : Instance)
        → check_static_ip_assigned g ctx fuel zone instance_id w ≡ (ok (some inst, "", none), w1)
        → Ran (assign g ctx fuel instance_id zone filter order_by) w (ip, e) w'
        → Attached inst filter order_by ip w1 w' × (e ≡ none)
    unfolding assign
    Fresh-Given inst looked h =
        let (assigned, v, ran, last) =
          >>=-Ran (assign_to g ctx fuel inst instance_id zone filter order_by) _ w1
            (rw looked at h) in
        let same : v ≡ w' = ground arith in
        let same_ip : assigned ≡ ip = ground arith in
        (
          subst (λ u. Attached inst filter order_by ip w1 u) same
              (assign_to-Attached inst filter order_by ip w1 v (
                subst (λ s. Ran (assign_to g ctx fuel inst instance_id zone filter order_by) w1 s v)
                  same_ip ran)),
          ground arith,
        )

    Held-Given :
        (held : String)
        → check_static_ip_assigned g ctx fuel zone instance_id w
          ≡ (ok (none, held, some (sentinel static_ip_already_assigned)), w1)
        → Ran (assign g ctx fuel instance_id zone filter order_by) w (ip, e) w'
        → (held ≡ ip) × (w1 ≡ w') × (e ≡ none)
    unfolding assign checked_error
    Held-Given held looked h = let h1 = rw looked at h in ground (arith, h1)

    Refused-Given :
        (x : Error)
        → check_static_ip_assigned g ctx fuel zone instance_id w ≡ (err x, w1)
        → Ran (assign g ctx fuel instance_id zone filter order_by) w (ip, e) w'
        → Refused ip w w' × (e ≡ none)
    unfolding assign checked_error
    Refused-Given x looked h = elim (Bool-cases (errors_is x static_ip_already_assigned)) [
      | inl assigned ↦
          let h1 = rw (looked, assigned) at h in
          let same : w1 ≡ w' = ground (arith, h1) in
          (
            (x, looked ∙ ap (λ u. (err x, u)) same, assigned, ground (arith, h1)),
            ground (arith, h1),
          )
      | inr other ↦ let h1 = rw (looked, other) at h in absurd (ground (arith, h1))
    ]

    checked-Given :
        (r : Result (Option Instance × String × Option Error))
        → check_static_ip_assigned g ctx fuel zone instance_id w ≡ (r, w1)
        → Ran (assign g ctx fuel instance_id zone filter order_by) w (ip, e) w'
        → Given filter order_by ip w w' × (e ≡ none)
    unfolding assign
    checked-Given (ok answer) looked h =
        let (inst, in_use, checked, same) = check-Checked w w1 answer looked in
        elim (Option-cases (Dict.lookup inst.self_link (create_user_map in_use))) [
          | inl free ↦
              let (attached, clean) =
                Fresh-Given inst (looked ∙ ap (λ a. (ok a, w1)) (sym (rw free at same))) h in
              (inr (inl (inst, in_use, w1, checked, free, attached)), clean)
          | inr (held, there) ↦
              let (it, still, clean) =
                Held-Given held (looked ∙ ap (λ a. (ok a, w1)) (sym (rw there at same))) h in
              (
                inl (inst, in_use, subst (Checked inst in_use w) still checked, there ∙ ap some it),
                clean,
              )
        ]
    checked-Given (err x) looked h =
        let (refused, clean) = Refused-Given x looked h in (inr (inr refused), clean)
    checked-Given panic looked h = absurd (ground (arith, rw looked at h))
    checked-Given unfinished looked h = absurd (ground (arith, rw looked at h))

  pub assign-Given :
      (filter : List String) (order_by ip : String) (e : Option Error) (w w' : W)
      → Ran (assign g ctx fuel instance_id zone filter order_by) w (ip, e) w'
      → Given filter order_by ip w w' × (e ≡ none)
  assign-Given filter order_by ip e w w' h =
      let (r, w1) = check_static_ip_assigned g ctx fuel zone instance_id w in
      checked-Given filter order_by ip e w w1 w' r refl h

-- ===== src/Address/Aws/Choice.antt =====
-- Which address the AWS assigner attaches, and what it refuses.
use kubeip.Base.{
  deref-Ran, In, Option-cases, fail, sentinel, static_ip_already_assigned, String, true, false,
  Option, none, some, List, [], ◌∷◌, ◌≡◌, ap, subst, lift, fail_if, fail_if-Ran, crash, no_fuel,
  refl, ◌∙◌, ◌⊎◌, inl, inr, arith, Error, Result, ok, err, panic, unfinished, Action, Ran, Ran-same,
  sym, >>=-Ran, wrapped>>=-Ran, attempt-Ran, if-Ran, attempt, is_empty, deref, filter, return,
  if◌then◌else◌,
}
use kubeip.Cloud.Aws.{Address, Instance}
use kubeip.Address.Aws.Primary.{IsPrimary, get_network_interface_id-IsPrimary}
use kubeip.Address.Aws.Sort.{sort_addresses_by_field}
use kubeip.Address.Aws.Sort.Laws.{count-sort_addresses_by_field}
use kubeip.Address.Aws.{
  AwsAssigner, force_check_address_assigned, try_assign_address, assign_first, assign,
  check_elastic_ip_assigned, get_available_elastic_ips, get_network_interface_id, filter_map_from,
  read_public_ips, wrapped_at, wrap_at, by_name, first_in_use,
}

wrap_at-eq-ok :
    {A : Type 0} (p : Option String) (before after : String) (r : Result A) {a : A}
    → wrap_at p before after r ≡ ok a
    → r ≡ ok a
wrap_at-eq-ok p before after (ok a) h = h
wrap_at-eq-ok none before after (err e) h = absurd (ground arith)
wrap_at-eq-ok (some s) before after (err e) h = absurd (ground arith)
wrap_at-eq-ok p before after panic h = absurd (ground arith)
wrap_at-eq-ok p before after unfinished h = absurd (ground arith)

wrapped_at-Ran :
    {W A : Type 0} (p : Option String) (before after : String) (m : Action W A) (w : W) {a : A}
    {w' : W}
    → Ran (wrapped_at p before after m) w a w'
    → Ran m w a w'
wrapped_at-Ran p before after m w h = ground (arith, wrap_at-eq-ok p before after (m w).0)

module _ {W : Type 0} (a : AwsAssigner W) where
  -- The first of the listed addresses has no association.
  abbrev pub IsFree : List Address → Type 0
  IsFree [] = Unit
  IsFree (x ∷ rest) = x.association_id ≡ none

  first_in_use-IsFree : (listed : List Address) → first_in_use listed ≡ false → IsFree listed
  first_in_use-IsFree [] h = tt
  first_in_use-IsFree (x ∷ rest) h = elim (Option-cases x.association_id) [
    | inl nothing ↦ nothing
    | inr (id, there) ↦ absurd (ground (arith, rw there at h))
  ]

  -- A fresh list of the addresses with this allocation shows no association, and the association with
  -- the network interface, which followed it, was the last call.
  abbrev pub Attached : Address → String → W → W → Type 0
  Attached x ni w w' =
      (allocation_id : String) × (listed : List Address) × (v : W) × (x.allocation_id
        ≡ some allocation_id)
      × Ran (a.eip_lister.list (by_name "allocation-id" allocation_id) true) w listed v
      × IsFree listed
      × Ran (a.eip_assigner.assign ni allocation_id) v tt w'

  force_check-IsFree :
      (allocation_id : String) (w v : W)
      → Ran (force_check_address_assigned a allocation_id) w false v
      → (listed : List Address) × Ran
          (a.eip_lister.list (by_name "allocation-id" allocation_id) true)
          w
          listed
          v
        × IsFree listed
  unfolding force_check_address_assigned
  force_check-IsFree allocation_id w v h =
      let list = a.eip_lister.list (by_name "allocation-id" allocation_id) true in
      let (listed, w1, got, rest) = wrapped>>=-Ran _ list _ w h in
      let same : w1 ≡ v = ground (arith, rest) in
      (
        listed,
        subst (Ran list w listed) same got,
        first_in_use-IsFree listed (ground (arith, rest)),
      )

  -- No address is listed for the instance.
  check-unserved :
      (instance_id : String) (w v : W)
      → Ran (check_elastic_ip_assigned a instance_id) w tt v
      → Ran (a.eip_lister.list (by_name "instance-id" instance_id) true) w [] v
  unfolding check_elastic_ip_assigned
  check-unserved instance_id w v h =
      let list = a.eip_lister.list (by_name "instance-id" instance_id) true in
      let (listed, w1, got, rest) = wrapped>>=-Ran _ list _ w h in nothing_listed listed w1 got rest
    where
      nothing_listed :
          (listed : List Address) (w1 : W)
          → Ran (a.eip_lister.list (by_name "instance-id" instance_id) true) w listed w1
          → Ran
              (if is_empty listed then return tt else fail (sentinel static_ip_already_assigned))
              w1
              tt
              v
          → Ran (a.eip_lister.list (by_name "instance-id" instance_id) true) w [] v
      nothing_listed [] w1 got rest =
          subst (Ran (a.eip_lister.list (by_name "instance-id" instance_id) true) w [])
            (ground (arith, rest)) got
      nothing_listed (x ∷ xs) w1 got rest = absurd (ground (arith, rest))

  try_assign_address-Attached :
      (x : Address) (ni id : String) (w w' : W)
      → Ran (try_assign_address a x ni id) w tt w'
      → Attached x ni w w'
  unfolding try_assign_address
  try_assign_address-Attached x ni id w w' h =
      let (allocation_id, w1, there, h1) = >>=-Ran (deref x.allocation_id) _ w h in
      let (used, w2, checked, h2) =
        >>=-Ran (wrapped_at x.public_ip _ _ (force_check_address_assigned a allocation_id)) _ w1
          h1 in
      let (t, w3, free, h3) = >>=-Ran (if used then _ else _) _ w2 h2 in
      elim (if-Ran used _ _ w2 free) [
        | inl (in_use, bad) ↦
            let (ip, w4, read, failed) = >>=-Ran (deref x.public_ip) _ w2 bad in
            absurd (ground arith)
        | inr (unused, idle) ↦
            let checked' =
              wrapped_at-Ran x.public_ip _ _ (force_check_address_assigned a allocation_id) w1
                checked in
            let (same_id, same) = deref-Ran x.allocation_id w there in
            let idle' : w2 ≡ w3 = ground arith in
            let done =
              wrapped_at-Ran x.public_ip _ _ (a.eip_assigner.assign ni allocation_id) w3 h3 in
            let (listed, fresh, is_free) =
              force_check-IsFree allocation_id w1 w2 (rw (← unused) checked') in
            (
              allocation_id,
              listed,
              w2,
              same_id,
              Ran-same (a.eip_lister.list (by_name "allocation-id" allocation_id) true) (sym same)
                  refl refl fresh,
              is_free,
              rw idle' done,
            )
      ]

  -- What follows a try.
  after_try :
      (x : Address) (xs : List Address) (ni id ip public_ip : String) (w2 w3 w' : W)
      (r : Result (Unit {0}))
      → x.public_ip ≡ some public_ip
      → try_assign_address a x ni id w2 ≡ (r, w3)
      → Ran
          (elim r [
            | ok t ↦ return public_ip
            | err e ↦ assign_first a xs ni id (some e)
            | panic ↦ crash
            | unfinished ↦ no_fuel
          ])
          w3
          ip
          w'
      → ((x.public_ip ≡ some ip) × ((v : W) × Attached x ni v w'))
        ⊎ ((e : Error) × (v : W) × Ran (assign_first a xs ni id (some e)) v ip w')
  after_try x xs ni id ip public_ip w2 w3 w' (ok t) there looked h =
      let same : w3 ≡ w' = ground arith in
      let same_ip : public_ip ≡ ip = ground arith in
      inl (
        there ∙ ap some same_ip,
        (w2, try_assign_address-Attached x ni id w2 w' (looked ∙ ap (λ v. (ok tt, v)) same)),
      )
  after_try x xs ni id ip public_ip w2 w3 w' (err e) there looked h = inr (e, w3, h)
  after_try x xs ni id ip public_ip w2 w3 w' panic there looked h = absurd (ground arith)
  after_try x xs ni id ip public_ip w2 w3 w' unfinished there looked h = absurd (ground arith)

  -- One step of the loop over the addresses.
  assign_first_step :
      (x : Address) (xs : List Address) (ni id ip : String) (last : Option Error) (w w' : W)
      → Ran (assign_first a (x ∷ xs) ni id last) w ip w'
      → ((x.public_ip ≡ some ip) × ((v : W) × Attached x ni v w'))
        ⊎ ((e : Error) × (v : W) × Ran (assign_first a xs ni id (some e)) v ip w')
  unfolding assign_first
  assign_first_step x xs ni id ip last w w' h =
      let (public_ip, w1, there, h1) = >>=-Ran (deref x.public_ip) _ w h in
      let (allocation_id, w2, there2, h2) = >>=-Ran (deref x.allocation_id) _ w1 h1 in
      let (r, w3, tried, h3) = >>=-Ran (attempt (try_assign_address a x ni id)) _ w2 h2 in
      let looked = attempt-Ran (try_assign_address a x ni id) w2 tried in
      after_try x xs ni id ip public_ip w2 w3 w' r (deref-Ran x.public_ip w there).0 looked h3

  assign_first_nil :
      (ni id ip : String) (e : Error) (w w' : W) → ¬ Ran (assign_first a [] ni id (some e)) w ip w'
  unfolding assign_first
  assign_first_nil ni id ip e w w' h = ground arith

  -- Any address that the loop returns is one of the list's, attached after a fresh check that found
  -- it free, as the last thing that was done.
  abbrev pub Chosen : List Address → String → String → W → Type 0
  Chosen addresses ni ip w' =
      (x : Address) × In x addresses × (x.public_ip ≡ some ip) × ((v : W) × Attached x ni v w')

  Chosen-more :
      (x : Address) (xs : List Address) (ni ip : String) (w' : W)
      → Chosen xs ni ip w'
      → Chosen (x ∷ xs) ni ip w'
  Chosen-more x xs ni ip w' (y, at, there, last) = (y, inr at, there, last)

  assign_first-Chosen_after :
      (addresses : List Address) (ni id ip : String) (e : Error) (w w' : W)
      → Ran (assign_first a addresses ni id (some e)) w ip w'
      → Chosen addresses ni ip w'
  assign_first-Chosen_after [] ni id ip e w w' h = absurd (assign_first_nil ni id ip e w w' h)
  assign_first-Chosen_after (x ∷ xs) ni id ip e w w' h =
      elim (assign_first_step x xs ni id ip (some e) w w' h) [
        | inl (there, last) ↦ (x, inl refl, there, last)
        | inr (e', v, rest) ↦
            Chosen-more x xs ni ip w' (assign_first-Chosen_after xs ni id ip e' v w' rest)
      ]

  assign_first-Chosen :
      (x : Address) (xs : List Address) (ni id ip : String) (w w' : W)
      → Ran (assign_first a (x ∷ xs) ni id none) w ip w'
      → Chosen (x ∷ xs) ni ip w'
  assign_first-Chosen x xs ni id ip w w' h = elim (assign_first_step x xs ni id ip none w w' h) [
    | inl (there, last) ↦ (x, inl refl, there, last)
    | inr (e', v, rest) ↦
        Chosen-more x xs ni ip w' (assign_first-Chosen_after xs ni id ip e' v w' rest)
  ]

  non_empty :
      (addresses sorted : List Address) (order_by : String)
      → is_empty addresses ≡ false
      → sort_addresses_by_field addresses order_by ≡ ok sorted
      → is_empty sorted ≡ false
  non_empty [] sorted order_by h k = absurd (ground arith)
  non_empty (x ∷ xs) [] order_by h k =
      absurd (omega (arith, count-sort_addresses_by_field (λ y. true) (x ∷ xs) [] order_by k))
  non_empty (x ∷ xs) (y ∷ ys) order_by h k = refl

  available-non_empty :
      (filter : List String) (order_by : String) (w w' : W) (xs : List Address)
      → Ran (get_available_elastic_ips a filter order_by) w xs w'
      → is_empty xs ≡ false
  unfolding get_available_elastic_ips
  available-non_empty filter order_by w w' xs h =
      let (filters, w1, parsed, h1) = >>=-Ran (lift (filter_map_from [] filter)) _ w h in
      let (listed, w2, got, h2) = wrapped>>=-Ran _ (a.eip_lister.list filters false) _ w1 h1 in
      let (t, w3, some_there, h3) = >>=-Ran (fail_if (is_empty listed) _) _ w2 h2 in
      let (sorted, w4, sorting, h4) =
        >>=-Ran (lift (sort_addresses_by_field listed order_by)) _ w3 h3 in
      let (t', w5, readable, h5) = >>=-Ran (read_public_ips a sorted) _ w4 h4 in
      let full = fail_if-Ran (is_empty listed) _ w2 w3 some_there in
      let same : sorted ≡ xs = ground arith in
      rw (← same) (non_empty listed sorted order_by full.0 (ground arith))

  Chosen-of_available :
      (xs : List Address) (ni id ip : String) (v w' : W)
      → is_empty xs ≡ false
      → Ran (assign_first a xs ni id none) v ip w'
      → Chosen xs ni ip w'
  Chosen-of_available [] ni id ip v w' h k = absurd (ground arith)
  Chosen-of_available (x ∷ xs) ni id ip v w' h k = assign_first-Chosen x xs ni id ip v w' k

  -- A successful `Assign` of AWS: at the start no address was listed for the instance; the instance
  -- was read, and the ID of one of its network interfaces that has a public address and device index
  -- zero; and the result is the public IP of one of the available addresses, which a fresh list showed
  -- without an association, and which was attached to that interface as the last call.
  pub assign-Chosen :
      (instance_id zone order_by ip : String) (filter : List String) (e : Option Error) (w w' : W)
      → Ran (assign a instance_id zone filter order_by) w (ip, e) w'
      → (w1 w2 w3 : W) × (addresses : List Address) × (inst : Instance) × (ni : String) × Ran
          (a.eip_lister.list (by_name "instance-id" instance_id) true)
          w
          []
          w1
        × Ran (get_available_elastic_ips a filter order_by) w1 addresses w2
        × Ran (a.instance_getter.get instance_id a.region) w2 (some inst) w3
        × IsPrimary inst ni
        × Chosen addresses ni ip w'
        × (e ≡ none)
  unfolding assign
  assign-Chosen instance_id zone order_by ip filter e w w' h =
      let (t, w1, unserved, h1) =
        wrapped>>=-Ran _ (check_elastic_ip_assigned a instance_id) _ w h in
      let (addresses, w2, available, h2) =
        wrapped>>=-Ran _ (get_available_elastic_ips a filter order_by) _ w1 h1 in
      let (answer, w3, got, h3) =
        wrapped>>=-Ran _ (a.instance_getter.get instance_id a.region) _ w2 h2 in
      let (ni, w4, primary, h4) = wrapped>>=-Ran _ (get_network_interface_id answer) _ w3 h3 in
      let (address, w5, assigned, h5) =
        >>=-Ran (assign_first a addresses ni instance_id none) _ w4 h4 in
      let (inst, there, is_primary) = get_network_interface_id-IsPrimary answer w3 w4 ni primary in
      let same : address ≡ ip = ground (arith, h5) in
      let last : w5 ≡ w' = ground (arith, h5) in
      (
        w1,
        w2,
        w3,
        addresses,
        inst,
        ni,
        check-unserved instance_id w w1 unserved,
        available,
        subst (λ x. Ran (a.instance_getter.get instance_id a.region) w2 x w3) there got,
        is_primary,
        subst (Chosen addresses ni ip) last (
            subst (λ s. Chosen addresses ni s w5) same
              (Chosen-of_available addresses ni instance_id address w4 w5
                (available-non_empty filter order_by w1 w2 addresses available) assigned)),
        ground (arith, h5),
      )

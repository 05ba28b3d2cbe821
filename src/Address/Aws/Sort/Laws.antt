-- ===== src/Address/Aws/Sort/Laws.antt =====
-- What the sorting of addresses does, and where it panics.
use mathlib.Core.List.{reverse_aux}
use kubeip.Base.{
  All, In, sym, subst, ℕ, ◌+◌, String, Bool, true, false, Option, none, some, List, [], ◌∷◌,
  reverse, ◌≡◌, refl, ◌∙◌, Result, ok, err, panic, unfinished, ◌⊎◌, text_less_asym, has_prefix,
  arith, if◌then◌else◌, Bool-cases, Option-cases, trim_prefix, inl, inr,
}
use kubeip.Cloud.Aws.{Address}
use kubeip.Address.Aws.Sort.{
  LessBy, less_by_tag, place, insert_back, sort_from, sort_slice, pointer_less, field_of,
  sort_addresses_by_field,
}

-- How many elements pass a test.
abbrev pub count : {A : Type 0} → (A → Bool) → List A → ℕ
count p [] = 0
count p (x ∷ xs) = (if p x then 1 else 0) + count p xs

-- No element comes before its predecessor.
abbrev pub IsSorted : {A : Type 0} → LessBy A → List A → Type 0
IsSorted less [] = Unit
IsSorted less (a ∷ []) = Unit
IsSorted less (a ∷ b ∷ r) = (less b a ≡ ok false) × IsSorted less (b ∷ r)

module _ {A : Type 0} (less : LessBy A) where
  -- The sorted part, its last element first.
  abbrev IsSortedBack : List A → Type 0
  IsSortedBack [] = Unit
  IsSortedBack (p ∷ []) = Unit
  IsSortedBack (p ∷ q ∷ r) = (less p q ≡ ok false) × IsSortedBack (q ∷ r)

  place_cases :
      (x q : A) (ps ys : List A) (deeper : Result (List A)) (l : Result Bool)
      → place less x q deeper l ps ≡ ok ys
      → ((l ≡ ok true) × ((zs : List A) × (deeper ≡ ok zs) × (ys ≡ q ∷ zs)))
        ⊎ ((l ≡ ok false) × (ys ≡ x ∷ q ∷ ps))
  place_cases x q ps ys (ok zs) (ok true) h = inl (refl, (zs, refl, ground arith))
  place_cases x q ps ys (err e) (ok true) h = absurd (ground arith)
  place_cases x q ps ys panic (ok true) h = absurd (ground arith)
  place_cases x q ps ys unfinished (ok true) h = absurd (ground arith)
  place_cases x q ps ys deeper (ok false) h = inr (refl, ground arith)
  place_cases x q ps ys deeper (err e) h = absurd (ground arith)
  place_cases x q ps ys deeper panic h = absurd (ground arith)
  place_cases x q ps ys deeper unfinished h = absurd (ground arith)

  insert_cases :
      (x q : A) (ps ys : List A)
      → insert_back less x (q ∷ ps) ≡ ok ys
      → ((less x q ≡ ok true) × ((zs : List A) × (insert_back less x ps ≡ ok zs) × (ys ≡ q ∷ zs)))
        ⊎ ((less x q ≡ ok false) × (ys ≡ x ∷ q ∷ ps))
  unfolding insert_back
  insert_cases x q ps ys h = place_cases x q ps ys (insert_back less x ps) (less x q) h

  insert_nil : (x : A) (ys : List A) → insert_back less x [] ≡ ok ys → ys ≡ x ∷ []
  unfolding insert_back
  insert_nil x ys h = ground arith

  count-insert_back :
      (p : A → Bool) (x : A) (ps ys : List A)
      → insert_back less x ps ≡ ok ys
      → count p ys ≡ count p (x ∷ ps)
  count-insert_back p x [] ys h = rw (insert_nil x ys h)
  count-insert_back p x (q ∷ ps) ys h = elim (insert_cases x q ps ys h) [
    | inl (before, (zs, deeper, same)) ↦
        let ih = count-insert_back p x ps zs deeper in rw same (omega (arith, ih))
    | inr (after, same) ↦ rw same
  ]

  module _ (asym : (x y : A) → less x y ≡ ok true → less y x ≡ ok false) where
    insert_back-IsSortedBack :
        (x : A) (ps ys : List A) → IsSortedBack ps → insert_back less x ps ≡ ok ys → IsSortedBack ys
    insert_back-IsSortedBack x [] ys s h = rw (insert_nil x ys h) tt
    insert_back-IsSortedBack x (q ∷ []) ys s h = elim (insert_cases x q [] ys h) [
      | inl (before, (zs, deeper, same)) ↦ rw (same, insert_nil x zs deeper) (asym x q before, tt)
      | inr (after, same) ↦ rw same (after, tt)
    ]
    insert_back-IsSortedBack x (q ∷ r ∷ ps) ys s h = elim (insert_cases x q (r ∷ ps) ys h) [
      | inl (before, (zs, deeper, same)) ↦
          let sorted = insert_back-IsSortedBack x (r ∷ ps) zs s.1 deeper in
          elim (insert_cases x r ps zs deeper) [
            | inl (before', (zs', deeper', same')) ↦ rw (same, same') (s.0, rw same' at sorted)
            | inr (after', same') ↦ rw (same, same') (asym x q before, rw same' at sorted)
          ]
      | inr (after, same) ↦ rw same (after, s)
    ]

    -- The last element of the sorted part goes before the first of what follows.
    abbrev Joins : List A → List A → Type 0
    Joins [] acc = Unit
    Joins (p ∷ ps) [] = Unit
    Joins (p ∷ ps) (a ∷ acc) = less a p ≡ ok false

    reverse_aux-IsSorted :
        (ps acc : List A)
        → IsSortedBack ps
        → IsSorted less acc
        → Joins ps acc
        → IsSorted less (reverse_aux ps acc)
    reverse_aux-IsSorted [] acc s t j = t
    reverse_aux-IsSorted (p ∷ []) [] s t j = tt
    reverse_aux-IsSorted (p ∷ []) (a ∷ acc) s t j = (j, t)
    reverse_aux-IsSorted (p ∷ q ∷ ps) [] s t j = reverse_aux-IsSorted (q ∷ ps) (p ∷ []) s.1 tt s.0
    reverse_aux-IsSorted (p ∷ q ∷ ps) (a ∷ acc) s t j =
        reverse_aux-IsSorted (q ∷ ps) (p ∷ a ∷ acc) s.1 (j, t) s.0

  sort_from_step :
      (done xs ys : List A) (x : A)
      → sort_from less done (x ∷ xs) ≡ ok ys
      → (done' : List A) × (insert_back less x done ≡ ok done') × (sort_from less done' xs ≡ ok ys)
  sort_from_step done xs ys x h = inserted (insert_back less x done) refl
    where
      inserted :
          (r : Result (List A))
          → insert_back less x done ≡ r
          → (done' : List A) × (insert_back less x done ≡ ok done')
            × (sort_from less done' xs ≡ ok ys)
      inserted (ok done') e = (done', e, unfold sort_from in rw (e, sort_from) at h)
      inserted (err c) e = absurd (unfold sort_from in ground arith)
      inserted panic e = absurd (unfold sort_from in ground arith)
      inserted unfinished e = absurd (unfold sort_from in ground arith)

  count-reverse_aux :
      (p : A → Bool) (ps acc : List A) → count p (reverse_aux ps acc) ≡ count p ps + count p acc
  count-reverse_aux p [] acc = omega arith
  count-reverse_aux p (q ∷ ps) acc = omega (arith, count-reverse_aux p ps (q ∷ acc))

  count-sort_from :
      (p : A → Bool) (done xs ys : List A)
      → sort_from less done xs ≡ ok ys
      → count p ys ≡ count p done + count p xs
  unfolding sort_from
  count-sort_from p done [] ys h =
      let same : reverse done ≡ ys = ground arith in rw (← same) (count-reverse_aux p done [])
  count-sort_from p done (x ∷ xs) ys h =
      let (done', inserted, rest) = sort_from_step done xs ys x h in
      omega (arith, count-sort_from p done' xs ys rest, count-insert_back p x done done' inserted)

  sort_from-IsSorted :
      ((x y : A) → less x y ≡ ok true → less y x ≡ ok false)
      → (done xs ys : List A) → IsSortedBack done
      → sort_from less done xs ≡ ok ys
      → IsSorted less ys
  unfolding sort_from
  sort_from-IsSorted asym done [] ys s h =
      let same : reverse done ≡ ys = ground arith in
      rw (← same) (reverse_aux-IsSorted asym done [] s tt (joins_nil done))
    where
      joins_nil : (ps : List A) → Joins asym ps []
      joins_nil [] = tt
      joins_nil (p ∷ ps) = tt
  sort_from-IsSorted asym done (x ∷ xs) ys s h =
      let (done', inserted, rest) = sort_from_step done xs ys x h in
      sort_from-IsSorted asym done' xs ys (insert_back-IsSortedBack asym x done done' s inserted)
        rest

pointer_less_asym : (p q : Option String) → pointer_less p q ≡ ok true → pointer_less q p ≡ ok false
pointer_less_asym none q h = absurd (ground arith)
pointer_less_asym (some s) none h = absurd (ground arith)
pointer_less_asym (some s) (some t) h = rw (text_less_asym s t (ground arith))

-- The order of a field.
abbrev pub by_field : (Address → Option String) → LessBy Address
by_field field x y = pointer_less (field x) (field y)

sort_by_field :
    (addresses sorted : List Address) (sort_by : String) (field : Address → Option String)
    → has_prefix sort_by "Tag:" ≡ false
    → field_of sort_by ≡ some field
    → sort_addresses_by_field addresses sort_by ≡ ok sorted
    → IsSorted (by_field field) sorted × ((p : Address → Bool) → count p sorted ≡ count p addresses)
unfolding sort_addresses_by_field sort_slice
sort_by_field addresses sorted sort_by field no_tag names h =
    let run : sort_from (by_field field) [] addresses ≡ ok sorted = rw (no_tag, names) at h in
    (
      sort_from-IsSorted (by_field field) (λ x y. pointer_less_asym (field x) (field y)) []
          addresses sorted tt run,
      λ p. count-sort_from (by_field field) p [] addresses sorted run ∙ omega arith,
    )

-- The values of `order-by` beside the tags, each with the field of the address that has this name.
abbrev pub named_fields : List (String × (Address → Option String))
named_fields =
    ("AllocationId", λ x. x.allocation_id)
    ∷ ("AssociationId", λ x. x.association_id)
    ∷ ("Domain", λ x. some x.domain)
    ∷ ("InstanceId", λ x. x.instance_id)
    ∷ ("NetworkInterfaceId", λ x. x.network_interface_id)
    ∷ ("NetworkInterfaceOwnerId", λ x. x.network_interface_owner_id)
    ∷ ("PrivateIpAddress", λ x. x.private_ip_address)
    ∷ ("PublicIp", λ x. x.public_ip)
    ∷ ("PublicIpv4Pool", λ x. x.public_ipv4_pool)
    ∷ []

abbrev IsName : String × (Address → Option String) → Type 0
IsName (sort_by, field) = (has_prefix sort_by "Tag:" ≡ false) × (field_of sort_by ≡ some field)

named_fields-IsName : All IsName named_fields
unfolding has_prefix field_of
named_fields-IsName = (
  (refl, refl),
  (
    (refl, refl),
    (
      (refl, refl),
      (
        (refl, refl),
        ((refl, refl), ((refl, refl), ((refl, refl), ((refl, refl), ((refl, refl), tt))))),
      ),
    ),
  ),
)

All-In : {A : Type 0} (P : A → Type 0) (x : A) (xs : List A) → All P xs → In x xs → P x
All-In P x [] all at = absurd at
All-In P x (y ∷ ys) (here, all) (inl same) = subst P (sym same) here
All-In P x (y ∷ ys) (here, all) (inr at) = All-In P x ys all at

-- Sorting by one of the nine names gives the same addresses, each as often, in the order of the text
-- of the field that has this name.
pub sort_addresses_by_field_lem :
    (addresses sorted : List Address) (sort_by : String) (field : Address → Option String)
    → In (sort_by, field) named_fields
    → sort_addresses_by_field addresses sort_by ≡ ok sorted
    → IsSorted (by_field field) sorted × ((p : Address → Bool) → count p sorted ≡ count p addresses)
sort_addresses_by_field_lem addresses sorted sort_by field named h =
    let (no_tag, names) = All-In IsName (sort_by, field) named_fields named_fields-IsName named in
    sort_by_field addresses sorted sort_by field no_tag names h

-- Whatever the key, a sort that ends keeps every address.
pub count-sort_addresses_by_field :
    (p : Address → Bool) (addresses sorted : List Address) (sort_by : String)
    → sort_addresses_by_field addresses sort_by ≡ ok sorted
    → count p sorted ≡ count p addresses
unfolding sort_addresses_by_field sort_slice
count-sort_addresses_by_field p addresses sorted sort_by h =
    elim (Bool-cases (has_prefix sort_by "Tag:")) [
      | inl tag ↦
          let run : sort_from (less_by_tag (trim_prefix sort_by "Tag:")) [] addresses ≡ ok sorted =
            rw tag at h in
          count-sort_from _ p [] addresses sorted run ∙ omega arith
      | inr no_tag ↦ elim (Option-cases (field_of sort_by)) [
        | inl unnamed ↦
            let same : addresses ≡ sorted = ground (arith, rw (no_tag, unnamed) at h) in rw same
        | inr (field, names) ↦
            let run : sort_from (by_field field) [] addresses ≡ ok sorted =
              rw (no_tag, names) at h in
            count-sort_from _ p [] addresses sorted run ∙ omega arith
      ]
    ]

pointer_less_nil : (p q : Option String) → p ≡ none → pointer_less p q ≡ panic
pointer_less_nil none q h = refl
pointer_less_nil (some s) q h = absurd (cc h)

insert_back_panic :
    {A : Type 0} (less : LessBy A) (x p : A)
    → less x p ≡ panic
    → insert_back less x (p ∷ []) ≡ panic
unfolding insert_back
insert_back_panic less x p h = rw h

sort_slice_panic :
    {A : Type 0} (less : LessBy A) (x y : A) (rest : List A)
    → insert_back less y (x ∷ []) ≡ panic
    → sort_from less (x ∷ []) (y ∷ rest) ≡ panic
unfolding sort_from
sort_slice_panic less x y rest h = rw (h, sort_from)

sort_slice_nil :
    (x y : Address) (rest : List Address) (field : Address → Option String)
    → field y ≡ none
    → sort_slice (by_field field) (x ∷ y ∷ rest) ≡ panic
unfolding sort_slice
sort_slice_nil x y rest field nil =
    let first : sort_from (by_field field) [] (x ∷ y ∷ rest)
        ≡ sort_from (by_field field) (x ∷ []) (y ∷ rest) =
      unfold sort_from insert_back in refl in
    first
    ∙ sort_slice_panic (by_field field) x y rest
        (insert_back_panic (by_field field) y x (pointer_less_nil (field y) (field x) nil))

-- Two or more addresses, the second with a nil pointer for its field: the first comparison panics.
pub sort_addresses_by_field_nil :
    (x y : Address) (rest : List Address) (sort_by : String) (field : Address → Option String)
    → has_prefix sort_by "Tag:" ≡ false
    → field_of sort_by ≡ some field
    → field y ≡ none
    → sort_addresses_by_field (x ∷ y ∷ rest) sort_by ≡ panic
unfolding sort_addresses_by_field
sort_addresses_by_field_nil x y rest sort_by field no_tag names nil =
    rw (no_tag, names, sort_slice_nil x y rest field nil)

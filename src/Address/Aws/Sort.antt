-- ===== src/Address/Aws/Sort.antt =====
-- The sorting of addresses in internal/address/aws.go. A comparison may panic on a nil pointer.
pub mod Laws
use kubeip.Base.{
  String, Bool, true, false, Option, none, some, List, [], ◌∷◌, reverse, ◌==◌, has_prefix,
  trim_prefix, text_less, Result, ok, err, panic, unfinished, if◌then◌else◌,
}
use kubeip.Cloud.Aws.{Address, Tag}

abbrev pub LessBy : Type 0 → Type 0
LessBy A = A → A → Result Bool

-- `sort.Slice` as the insertion sort that package `sort` uses on up to twelve elements. The sorted
-- part is kept with its last element first.
module _ {A : Type 0} (less : LessBy A) where
  abbrev place : A → A → Result (List A) → Result Bool → List A → Result (List A)
  place x p deeper (ok true) ps = elim deeper [
    | ok ys ↦ ok (p ∷ ys)
    | err e ↦ err e
    | panic ↦ panic
    | unfinished ↦ unfinished
  ]
  place x p deeper (ok false) ps = ok (x ∷ p ∷ ps)
  place x p deeper (err e) ps = err e
  place x p deeper panic ps = panic
  place x p deeper unfinished ps = unfinished

  unfoldable pub insert_back : A → List A → Result (List A)
  insert_back x [] = ok (x ∷ [])
  insert_back x (p ∷ ps) = let deeper = insert_back x ps in place x p deeper (less x p) ps

  unfoldable pub sort_from : List A → List A → Result (List A)
  sort_from done [] = ok (reverse done)
  sort_from done (x ∷ xs) = elim (insert_back x done) [
    | ok done' ↦ sort_from done' xs
    | err e ↦ err e
    | panic ↦ panic
    | unfinished ↦ unfinished
  ]

  unfoldable pub sort_slice : List A → Result (List A)
  sort_slice xs = sort_from [] xs

-- `*p < *q`.
abbrev pub pointer_less : Option String → Option String → Result Bool
pointer_less none q = panic
pointer_less (some s) none = panic
pointer_less (some s) (some t) = ok (text_less s t)

-- The inner loop: `none` when no tag has the key.
unfoldable pub less_in_tags : String → Tag → List Tag → Result (Option Bool)
less_in_tags key tag [] = ok none
less_in_tags key tag (t ∷ ts) = elim t.key [
  | none ↦ panic
  | some k ↦
      if k == key
      then elim (pointer_less tag.value t.value) [
        | ok b ↦ ok (some b)
        | err e ↦ err e
        | panic ↦ panic
        | unfinished ↦ unfinished
      ]
      else less_in_tags key tag ts
]

-- The outer loop.
unfoldable pub tags_less : String → List Tag → List Tag → Result Bool
tags_less key [] us = ok false
tags_less key (t ∷ ts) us =
    let rest = tags_less key ts us in
    elim t.key [
      | none ↦ panic
      | some k ↦
          if k == key
          then elim (less_in_tags key t us) [
            | ok none ↦ rest
            | ok (some b) ↦ ok b
            | err e ↦ err e
            | panic ↦ panic
            | unfinished ↦ unfinished
          ]
          else rest
    ]

unfoldable pub less_by_tag : String → LessBy Address
less_by_tag key x y = elim x.tags [
  | none ↦ ok false
  | some ts ↦ elim y.tags [ none ↦ ok true | some us ↦ tags_less key ts us ]
]

-- The field that an `order-by` value names; any other value names none.
unfoldable pub field_of : String → Option (Address → Option String)
field_of sort_by =
    if sort_by == "AllocationId"
    then some (λ x. x.allocation_id)
    else if sort_by == "AssociationId"
    then some (λ x. x.association_id)
    else if sort_by == "Domain"
    then some (λ x. some x.domain)
    else if sort_by == "InstanceId"
    then some (λ x. x.instance_id)
    else if sort_by == "NetworkInterfaceId"
    then some (λ x. x.network_interface_id)
    else if sort_by == "NetworkInterfaceOwnerId"
    then some (λ x. x.network_interface_owner_id)
    else if sort_by == "PrivateIpAddress"
    then some (λ x. x.private_ip_address)
    else if sort_by == "PublicIp"
    then some (λ x. x.public_ip)
    else if sort_by == "PublicIpv4Pool"
    then some (λ x. x.public_ipv4_pool)
    else none

unfoldable pub sort_addresses_by_field : List Address → String → Result (List Address)
sort_addresses_by_field addresses sort_by =
    if has_prefix sort_by "Tag:"
    then sort_slice (less_by_tag (trim_prefix sort_by "Tag:")) addresses
    else elim (field_of sort_by) [
      | none ↦ ok addresses
      | some field ↦ sort_slice (λ x y. pointer_less (field x) (field y)) addresses
    ]

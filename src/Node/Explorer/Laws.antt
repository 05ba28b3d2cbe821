-- ===== src/Node/Explorer/Laws.antt =====
-- What the explorer reads off a node.
use kubeip.Base.{
  ◌<◌, String, Bool, true, false, Option, none, some, List, [], ◌∷◌, ◌++◌, ◌≡◌, refl, arith, filter,
  eq_iff, Result, ok, err, panic, unfinished, Option-cases, inl, inr, has_prefix, split,
  split_whole, split-append, Avoids, ◌<>◌, length, push_first, Char,
}
use mathlib.Core.List.{append-nil, append_assoc}
use text.Mathlib.TextLemmas.{cons-append}
use kubeip.Kube.{AddressType, external_ip, internal_ip, other_type, NodeAddress}
use kubeip.Node.Explorer.{get_instance, last_piece, addresses_from, get_addresses}

-- What `split` gives for a text that ends in a separator and a piece without one.
abbrev EndsIn : String → List String → Type 0
EndsIn s ps = (last_piece ps ≡ ok s) × (1 < length ps)

EndsIn-cons : (s p : String) (ps : List String) → EndsIn s ps → EndsIn s (p ∷ ps)
EndsIn-cons s p [] h = absurd (omega arith)
EndsIn-cons s p (q ∷ ps) h = (h.0, omega (arith, h.1))

EndsIn-push_first :
    (s : String) (c : Char) (ps : List String) → EndsIn s ps → EndsIn s (push_first c ps)
EndsIn-push_first s c [] h = absurd (omega arith)
EndsIn-push_first s c (p ∷ []) h = absurd (omega (arith, h.1))
EndsIn-push_first s c (p ∷ q ∷ ps) h = h

split-EndsIn : (pre s : String) → Avoids b'/' s → EndsIn s (split b'/' (pre <> ("/" <> s)))
unfolding split
split-EndsIn String.[] s h =
    ground (arith, split-append b'/' "" "/" s tt refl, split_whole b'/' s h)
split-EndsIn (String.◌∷◌ c pre) s h = rw (cons-append c pre) (
    ground (
      arith,
      split-EndsIn pre s h,
      EndsIn-push_first s c (split b'/' (pre <> ("/" <> s))),
      EndsIn-cons s "" (split b'/' (pre <> ("/" <> s))),
    ))

split_empty : split b'/' "" ≡ "" ∷ []
unfolding split
split_empty = refl

-- Outside OCI the instance is what follows the last slash of the provider ID.
pub get_instance_last :
    (pre s : String)
    → Avoids b'/' s
    → has_prefix (pre <> ("/" <> s)) "oci" ≡ false
    → get_instance (pre <> ("/" <> s)) ≡ ok s
unfolding get_instance
get_instance_last pre s h no_oci =
    let ends = split-EndsIn pre s h in
    ground (arith, no_oci, ends, eq_iff (pre <> ("/" <> s)) "", split_empty)

abbrev is_external : AddressType → Bool
is_external external_ip = true
is_external internal_ip = false
is_external (other_type t) = false

abbrev is_internal : AddressType → Bool
is_internal external_ip = false
is_internal internal_ip = true
is_internal (other_type t) = false

-- The value of a result, when there is one.
abbrev pub ok_value : {A : Type 0} → Result A → Option A
ok_value (ok a) = some a
ok_value (err e) = none
ok_value panic = none
ok_value unfinished = none

module _ {Ip : Type 0} where
  abbrev cons_parsed : Ip → Option (List Ip) → Option (List Ip)
  cons_parsed ip none = none
  cons_parsed ip (some ips) = some (ip ∷ ips)

  -- Both lists behind what was collected before, when both are there.
  abbrev pub both_behind :
      List Ip → List Ip → Option (List Ip) → Option (List Ip) → Option (List Ip × List Ip)
  both_behind e i (some xs) (some ys) = some (e ++ xs, i ++ ys)
  both_behind e i (some xs) none = none
  both_behind e i none y = none

  both_behind-external :
      (e i : List Ip) (ip : Ip) (x y : Option (List Ip))
      → both_behind (e ++ (ip ∷ [])) i x y ≡ both_behind e i (cons_parsed ip x) y
  both_behind-external e i ip none y = refl
  both_behind-external e i ip (some xs) none = refl
  both_behind-external e i ip (some xs) (some ys) = rw append_assoc

  both_behind-internal :
      (e i : List Ip) (ip : Ip) (x y : Option (List Ip))
      → both_behind e (i ++ (ip ∷ [])) x y ≡ both_behind e i x (cons_parsed ip y)
  both_behind-internal e i ip none y = refl
  both_behind-internal e i ip (some xs) none = refl
  both_behind-internal e i ip (some xs) (some ys) = rw append_assoc

  both_behind-none : (e i : List Ip) (x : Option (List Ip)) → both_behind e i x none ≡ none
  both_behind-none e i none = refl
  both_behind-none e i (some xs) = refl

module _ {Ip : Type 0} (parse_ip : String → Option Ip) where
  -- Every address of a list parsed, or nothing.
  abbrev pub parse_all : List NodeAddress → Option (List Ip)
  parse_all [] = some []
  parse_all (a ∷ addresses) = elim (parse_ip a.address) [
    | none ↦ none
    | some ip ↦ cons_parsed ip (parse_all addresses)
  ]

  abbrev pub external_of : List NodeAddress → Option (List Ip)
  external_of addresses = parse_all (filter (λ a. is_external a.kind) addresses)

  abbrev pub internal_of : List NodeAddress → Option (List Ip)
  internal_of addresses = parse_all (filter (λ a. is_internal a.kind) addresses)

  addresses_from_lem :
      (addresses : List NodeAddress) (e i : List Ip)
      → ok_value (addresses_from parse_ip addresses e i)
        ≡ both_behind e i (external_of addresses) (internal_of addresses)
  unfolding addresses_from
  addresses_from_lem [] e i = rw (append-nil e, append-nil i)
  addresses_from_lem (a ∷ addresses) e i = elim (Option-cases (parse_ip a.address)) [
    | inl bad ↦
        ground
          (arith, addresses_from_lem addresses e i, both_behind-none e i (external_of addresses))
    | inr (ip, good) ↦ ground (
      arith,
      addresses_from_lem addresses e i,
      addresses_from_lem addresses (e ++ (ip ∷ [])) i,
      addresses_from_lem addresses e (i ++ (ip ∷ [])),
      both_behind-external e i ip (external_of addresses) (internal_of addresses),
      both_behind-internal e i ip (external_of addresses) (internal_of addresses),
    )
  ]

  -- The addresses come out when every external and every internal one parses, each kind in the
  -- order of the node's list; one of them that does not parse fails the whole.
  pub get_addresses_lem :
      (addresses : List NodeAddress)
      → ok_value (get_addresses parse_ip addresses)
        ≡ both_behind [] [] (external_of addresses) (internal_of addresses)
  unfolding get_addresses
  get_addresses_lem addresses = addresses_from_lem addresses [] []

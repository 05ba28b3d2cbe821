-- ===== src/Address/Aws/Primary.antt =====
-- Which network interface of an instance the AWS assigner takes.
use kubeip.Base.{
  deref-Ran, In, ℕ, zero, suc, ◌==◌, eq_iff, Bool-cases, String, true, false, Option, none, some,
  List, [], ◌∷◌, ◌≡◌, subst, refl, inl, inr, arith, Ran, >>=-Ran, if-Ran, is_empty, deref,
  if◌then◌else◌,
}
use kubeip.Cloud.Aws.{NetworkInterface, Instance}
use kubeip.Address.Aws.{
  get_network_interface_id, is_index_zero, has_public_ip, is_primary_public, primary_interface_id,
}

-- The interface has a public address and the device index zero.
abbrev pub IsPublic : NetworkInterface → Type 0
IsPublic ni = ((ip : String) × (ni.association ≡ some (some ip))) × (ni.attachment ≡ some (some 0))

-- One of the instance's interfaces is such a one, and has the ID.
abbrev pub IsPrimary : Instance → String → Type 0
IsPrimary inst id =
    (ni : NetworkInterface) × In ni inst.network_interfaces
    × IsPublic ni
    × (ni.network_interface_id ≡ some id)

is_index_zero-some : (p : Option (Option ℕ)) → is_index_zero p ≡ true → p ≡ some (some 0)
is_index_zero-some none h = absurd (ground arith)
is_index_zero-some (some none) h = absurd (ground arith)
is_index_zero-some (some (some zero)) h = refl
is_index_zero-some (some (some (suc i))) h = absurd (ground arith)

has_public_ip-some :
    (p : Option (Option String)) → has_public_ip p ≡ true → (ip : String) × (p ≡ some (some ip))
has_public_ip-some none h = absurd (ground arith)
has_public_ip-some (some none) h = absurd (ground arith)
has_public_ip-some (some (some ip)) h = (ip, refl)

is_primary_public-IsPublic : (ni : NetworkInterface) → is_primary_public ni ≡ true → IsPublic ni
is_primary_public-IsPublic ni h = elim (Bool-cases (has_public_ip ni.association)) [
  | inl public ↦
      (has_public_ip-some ni.association public, is_index_zero-some ni.attachment (rw public at h))
  | inr private ↦ absurd (ground (arith, rw private at h))
]

-- An ID that is not empty is one of such an interface.
primary_interface_id-In :
    {W : Type 0} (nis : List NetworkInterface) (w w' : W) (id : String)
    → (id == "") ≡ false
    → Ran (primary_interface_id nis) w id w'
    → (ni : NetworkInterface) × In ni nis × IsPublic ni × (ni.network_interface_id ≡ some id)
unfolding primary_interface_id
primary_interface_id-In [] w w' id some_text h = absurd (ground (arith, eq_iff id ""))
primary_interface_id-In (ni ∷ nis) w w' id some_text h = elim (Bool-cases (is_primary_public ni)) [
  | inl fits ↦
      let (known, still) = deref-Ran ni.network_interface_id w (rw fits at h) in
      (ni, inl refl, is_primary_public-IsPublic ni fits, known)
  | inr passed ↦
      let (other, at, public, known) =
        primary_interface_id-In nis w w' id some_text (rw passed at h) in
      (other, inr at, public, known)
]

pub get_network_interface_id-IsPrimary :
    {W : Type 0} (answer : Option Instance) (w w' : W) (id : String)
    → Ran (get_network_interface_id answer) w id w'
    → (inst : Instance) × (answer ≡ some inst) × IsPrimary inst id
unfolding get_network_interface_id
get_network_interface_id-IsPrimary none w w' id h = absurd (ground arith)
get_network_interface_id-IsPrimary (some inst) w w' id h =
    let (found, w1, sought, rest) =
      >>=-Ran (if is_empty inst.network_interfaces then _ else _) _ w h in
    elim (if-Ran (found == "") _ _ w1 rest) [
      | inl (empty, bad) ↦
          let (x, w2, read, failed) = >>=-Ran (deref inst.instance_id) _ w1 bad in
          absurd (ground (arith, failed))
      | inr (some_text, ran) ↦
          let same : found ≡ id = ground (arith, ran) in
          elim (if-Ran (is_empty inst.network_interfaces) _ _ w sought) [
            | inl (empty, bad) ↦
                let (x, w2, read, failed) = >>=-Ran (deref inst.instance_id) _ w bad in
                absurd (ground (arith, failed))
            | inr (full, ran1) ↦ (
              inst,
              refl,
              subst (IsPrimary inst) same
                  (primary_interface_id-In inst.network_interfaces w w1 found some_text ran1),
            )
          ]
    ]

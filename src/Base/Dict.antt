-- ===== src/Base/Dict.antt =====
-- Go maps with text keys, as association lists. A missing key is `none`.
use Prim.Native.String.{String}
use mathlib.Core.Path.{◌≡◌, refl}
use mathlib.Core.Option.{Option, none, some}
use mathlib.Core.List.{List, [], ◌∷◌}
use native.Mathlib.Omega.{arith}
use text.Mathlib.Text.{◌==◌}
use text.Mathlib.TextEquality.{eq_iff}
use kubeip.Base.Tests.{if◌then◌else◌}

abbrev pub Dict {ℓ} : Type ℓ → Type ℓ
Dict V = List (String × V)

module _ {ℓ} {V : Type ℓ} where
  unfoldable pub lookup : String → Dict V → Option V
  lookup key [] = none
  lookup key (entry ∷ rest) =
      let later = lookup key rest in if entry.0 == key then some entry.1 else later

  -- The entry of a key is replaced where it stands; a new key comes last.
  unfoldable pub insert : String → V → Dict V → Dict V
  insert key value [] = (key, value) ∷ []
  insert key value (entry ∷ rest) =
      let later = entry ∷ insert key value rest in
      if entry.0 == key then (key, value) ∷ rest else later

  pub lookup-insert :
      (other key : String) (value : V) (dict : Dict V)
      → lookup other (insert key value dict)
        ≡ (if key == other then some value else lookup other dict)
  unfolding lookup insert
  lookup-insert other key value [] = refl
  lookup-insert other key value (entry ∷ rest) = ground (
    lookup-insert other key value rest,
    eq_iff entry.0 other,
    eq_iff entry.0 key,
    eq_iff key other,
    arith,
  )

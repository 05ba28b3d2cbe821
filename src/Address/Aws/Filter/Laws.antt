-- ===== src/Address/Aws/Filter/Laws.antt =====
-- What `parseShorthandFilter` of internal/address/aws.go reads.
use text.Mathlib.TextLemmas.{nil-append, cons-append}
use kubeip.Base.{
  ℕ, String, List, [], ◌∷◌, ◌≡◌, refl, ◌<>◌, All, Avoids, join, split, split_whole, split-append,
  split_two-append, ok, arith,
}
use kubeip.Address.Aws.Filter.{parse_shorthand_filter}

Avoids-append : (sep : ℕ) (s t : String) → Avoids sep s → Avoids sep t → Avoids sep (s <> t)
Avoids-append sep String.[] t h k = rw nil-append k
Avoids-append sep (String.◌∷◌ c s) t h k = rw (cons-append c s) (h.0, Avoids-append sep s t h.1 k)

Avoids-join :
    (sep : ℕ) (vs : List String) → Avoids sep "," → All (Avoids sep) vs → Avoids sep (join "," vs)
Avoids-join sep [] c h = tt
Avoids-join sep (v ∷ []) c h = h.0
Avoids-join sep (v ∷ u ∷ us) c h =
    Avoids-append sep v _ h.0 (Avoids-append sep "," _ c (Avoids-join sep (u ∷ us) c h.1))

-- A joined list is split into its elements.
split-join :
    (v : String) (vs : List String)
    → All (Avoids b',') (v ∷ vs)
    → split b',' (join "," (v ∷ vs)) ≡ v ∷ vs
split-join v [] h = split_whole b',' v h.0
split-join v (u ∷ us) h = rw (split-append b',' v "," _ h.0 refl, split-join u us h.1)

-- A name without comma and equals sign, and one or more values without them, are read back from the
-- filter `Name=…,Values=…,…` that they make.
pub parse_shorthand_filter-written :
    (name v : String) (vs : List String)
    → Avoids b',' name
    → Avoids b'=' name
    → All (Avoids b',') (v ∷ vs)
    → All (Avoids b'=') (v ∷ vs)
    → parse_shorthand_filter
        (("Name" <> ("=" <> name)) <> ("," <> ("Values" <> ("=" <> join "," (v ∷ vs)))))
      ≡ ok (name, v ∷ vs)
unfolding parse_shorthand_filter
parse_shorthand_filter-written name v vs nc ne vc ve =
    let head : Avoids b',' ("Name" <> ("=" <> name)) =
      Avoids-append b',' "Name" _ (ground arith) (Avoids-append b',' "=" _ (ground arith) nc) in
    rw (
      split_two-append b',' ("Name" <> ("=" <> name)) "," ("Values" <> ("=" <> join "," (v ∷ vs)))
          head refl,
      split-append b'=' "Name" "=" name (ground arith) refl,
      split_whole b'=' name ne,
      split-append b'=' "Values" "=" (join "," (v ∷ vs)) (ground arith) refl,
      split_whole b'=' (join "," (v ∷ vs)) (Avoids-join b'=' (v ∷ vs) (ground arith) ve),
      split-join v vs vc,
    )

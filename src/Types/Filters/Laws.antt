-- ===== src/Types/Filters/Laws.antt =====
-- What the tag filters of internal/types/filters.go accept.
use kubeip.Base.{
  String, true, Option, none, some, subst, [], ◌∷◌, ◌≡◌, refl, inl, inr, ◌↔◌, eq_iff, eq_refl, ◌<>◌,
  Avoids, split_whole, split-append, has_prefix-append, trim_prefix-append, ok, arith, Option-cases,
}
use kubeip.Base.Dict
use kubeip.Base.Dict.{Dict}
use kubeip.Types.Filters.{matches_all, check_freeform_tag_filter, parse_freeform_tag_filter}

-- Every entry of the first map is an entry of the second.
abbrev pub Within : Dict String → Dict String → Type 0
Within [] target = Unit
Within ((key, value) ∷ tags) target = (Dict.lookup key target ≡ some value) × Within tags target

matches_all_sound :
    (tags target : Dict String) → matches_all tags target ≡ true → Within tags target
unfolding matches_all
matches_all_sound [] target h = tt
matches_all_sound ((key, value) ∷ tags) target h = elim (Option-cases (Dict.lookup key target)) [
  | inl e ↦ ground arith
  | inr (val, e) ↦ ground (arith, eq_iff val value, matches_all_sound tags target)
]

matches_all_complete :
    (tags target : Dict String) → Within tags target → matches_all tags target ≡ true
unfolding matches_all
matches_all_complete [] target h = refl
matches_all_complete ((key, value) ∷ tags) target h =
    rw (h.0, matches_all, eq_refl) (matches_all_complete tags target h.1)

-- A filter with tags accepts a target exactly when the target has tags at all, so is not nil, and
-- every key of the filter with the same value.
pub check_freeform_tag_filter_iff :
    (tags : Dict String) (target : Option (Dict String))
    → (check_freeform_tag_filter (record { freeform_tags = some tags }) target ≡ true)
      ↔ ((found : Dict String) × (target ≡ some found) × Within tags found)
unfolding check_freeform_tag_filter
check_freeform_tag_filter_iff tags none =
    (λ h. absurd (ground arith), λ (found, same, within). absurd (ground (arith, same)))
check_freeform_tag_filter_iff tags (some target) = (
  λ h. (target, refl, matches_all_sound tags target h),
  λ (found, same, within).
      matches_all_complete tags target (subst (Within tags) (ground (arith, same)) within),
)

-- A key and a value without `=` are read back from the filter that they make.
pub parse_freeform_tag_filter-written :
    (key value : String)
    → Avoids b'=' key
    → Avoids b'=' value
    → parse_freeform_tag_filter ("freeformTags." <> (key <> ("=" <> value))) ≡ ok (key, value)
unfolding parse_freeform_tag_filter
parse_freeform_tag_filter-written key value hk hv = rw (
  has_prefix-append,
  trim_prefix-append,
  split-append b'=' key "=" value hk refl,
  split_whole b'=' value hv,
)

-- ===== src/Types/Filters.antt =====
-- internal/types/filters.go: the tag filters of the OCI assigner.
pub mod Laws
use kubeip.Base.{
  String, Bool, true, false, not, ◌||◌, Option, none, some, List, [], ◌∷◌, ◌==◌, has_prefix,
  trim_prefix, split, ◌<>◌, Error, message, Result, ok, err, if◌then◌else◌,
}
use kubeip.Base.Dict
use kubeip.Base.Dict.{Dict}

-- A nil map is `none`. The defined tags are never read, so the field is left out.
pub record OciFilters : Type 0 where
  pub freeform_tags : Option (Dict String)

-- The loop over the filter's entries: one missing or different value refuses the target.
matches_all : Dict String → Dict String → Bool
matches_all [] target = true
matches_all ((key, value) ∷ tags) target =
    let rest = matches_all tags target in
    elim (Dict.lookup key target) [
      | none ↦ false
      | some val ↦ if not (val == value) then false else rest
    ]

unfoldable pub check_freeform_tag_filter : OciFilters → Option (Dict String) → Bool
unfolding matches_all
check_freeform_tag_filter f target = elim f.freeform_tags [
  | none ↦ true
  | some tags ↦ elim target [ none ↦ false | some found ↦ matches_all tags found ]
]

-- `CheckDefinedTagFilter` is not implemented in the source and accepts everything.
unfoldable pub check_defined_tag_filter : OciFilters → Bool
check_defined_tag_filter f = true

-- Two pieces, or the error that shows the filter.
key_and_value : String → List String → Result (String × String)
key_and_value filter (key ∷ value ∷ []) = ok (key, value)
key_and_value filter _ = err (
    message (
      "invalid filter format for freeform tags, should be in format freeformTags.key=value, found: "
      <> filter))

unfoldable pub parse_freeform_tag_filter : String → Result (String × String)
unfolding key_and_value
parse_freeform_tag_filter filter =
    if has_prefix filter "freeformTags."
    then key_and_value filter (split b'=' (trim_prefix filter "freeformTags."))
    else key_and_value filter []

-- ===== src/Address/Aws/Filter.antt =====
-- `parseShorthandFilter` of internal/address/aws.go.
pub mod Laws
use kubeip.Base.{
  String, Bool, List, [], ◌∷◌, ◌==◌, split, split_two, Error, message, Result, ok, err, panic,
  if◌then◌else◌,
}

-- The two halves, each split by `=`.
filter_values : String → List String → Result (String × List String)
filter_values name (label ∷ value ∷ []) =
    if label == "Values"
    then ok (name, split b',' value)
    else err (message "invalid filter Values list")
filter_values name _ = err (message "invalid filter Values list")

filter_name : List String → String → Result (String × List String)
filter_name (label ∷ name ∷ []) values =
    if label == "Name"
    then filter_values name (split b'=' values)
    else err (message "invalid filter Name")
filter_name _ values = err (message "invalid filter Name")

filter_halves : List String → Result (String × List String)
filter_halves (name ∷ values ∷ []) = filter_name (split b'=' name) values
filter_halves _ =
    err (message "invalid filter format; supported format Name=string,Values=string,string,")

unfoldable pub parse_shorthand_filter : String → Result (String × List String)
unfolding filter_halves filter_name filter_values
parse_shorthand_filter filter = filter_halves (split_two b',' filter)

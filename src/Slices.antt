-- ===== src/Slices.antt =====
-- The helpers on slices of postgresql/helpers.go: sliceContainsStr, arrayDifference, isUniqueArr.
-- A Go map that only answers whether a key is in it is the list of its keys.
pub mod Laws
use yb_terraform_provider_po.Prelude.{
  String, Bool, true, false, ◌||◌, List, [], ◌∷◌, ◌++◌, Option, none, some, ◌==◌, if◌then◌else◌,
}

-- sliceContainsStr
unfoldable pub slice_contains_str : List String → String → Bool
slice_contains_str [] needle = false
slice_contains_str (s ∷ haystack) needle = s == needle || slice_contains_str haystack needle

-- arrayDifference: the items of the first slice that are no keys of the map made of the second
unfoldable pub array_difference : List String → List String → List String
unfolding slice_contains_str
array_difference [] b = []
array_difference (item ∷ a) b =
    if slice_contains_str b item then array_difference a b else item ∷ array_difference a b

-- the loop of isUniqueArr over the rest, with the keys seen so far
unfoldable pub first_repeated : List String → List String → Option String
unfolding slice_contains_str
first_repeated keys [] = none
first_repeated keys (entry ∷ arr) =
    let later = first_repeated (entry ∷ keys) arr in
    if slice_contains_str keys entry then some entry else later

-- isUniqueArr: `none` is the result `nil, true`, and `some e` the result `e, false`
unfoldable pub is_unique_arr : List String → Option String
unfolding first_repeated
is_unique_arr arr = first_repeated [] arr
